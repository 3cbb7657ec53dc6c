-- ===== src/Service/Start.antt =====
-- backend/src/domains/routeRun/operations/startRouteRunStop.ts
pub mod Laws
pub mod Handlers
use fieldpro_pilot.Base.{
  ℕ, Bool, true, false, ◌&&◌, ◌||◌, Option, none, some, List, [], ◌∷◌, find, any, update_where,
  if◌then◌else◌, Text, text, ◌==◌,
}
use fieldpro_pilot.Service.{
  Db, Services, Result, ok, error, and_then, in_transaction, RouteRunStop, StopStatus, pending,
  planned, assigned, in_progress, done, skipped, is_stop, coalesce,
}
use fieldpro_pilot.Service.Visit.{ensure_visit_for_route_run_stop}

-- `NOT_FOUND`, the row that is there and not allowed, or the row as it was updated
pub data StartResult : Type 0 where
  not_found : StartResult
  unchanged updated : RouteRunStop → StartResult

abbrev pub same_status : StopStatus → StopStatus → Bool
same_status pending pending = true
same_status planned planned = true
same_status assigned assigned = true
same_status in_progress in_progress = true
same_status done done = true
same_status skipped skipped = true
same_status _ _ = false

abbrev pub allows : List StopStatus → StopStatus → Bool
allows statuses s = any (same_status s) statuses

unfoldable pub started : ℕ → RouteRunStop → RouteRunStop
started now row = record row {
  status = in_progress;
  started_at = coalesce row.started_at (some now);
  updated_at = some now;
}

module _ (svc : Services) where
  -- the body of the transaction, where the `UPDATE` returns the row
  unfoldable pub start_allowed : ℕ → Text → RouteRunStop → Db → Result StartResult
  unfolding started
  start_allowed id actor row db =
      let after = record db { stops = update_where (is_stop id) (started svc.now) db.stops } in
      and_then (ensure_visit_for_route_run_stop svc id actor (text "service") none after)
        (λ visit later. ok (updated (started svc.now row)) later)

  unfoldable pub start_body : ℕ → Text → List StopStatus → Db → Result StartResult
  start_body id actor statuses db = elim (find (is_stop id) db.stops) [
    | none ↦ ok not_found db
    | some row ↦
        if allows statuses row.status then start_allowed id actor row db else ok (unchanged row) db
  ]

  -- `startRouteRunStopInternal`; none where it throws
  unfoldable pub start_route_run_stop_internal :
      ℕ → Text → List StopStatus → Db → Db × Option StartResult
  start_route_run_stop_internal id actor statuses db =
      in_transaction (start_body id actor statuses) db
