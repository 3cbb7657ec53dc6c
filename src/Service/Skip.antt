-- ===== src/Service/Skip.antt =====
-- The handler of `POST /route-run-stops/:id/skip-with-hazard` of
-- backend/src/modules/work/routeRunStopRoutes.ts. The number of safety photos that are stored for the
-- stop is an argument; the run that the handler loads for its answer is left out.
use fieldpro_pilot.Base.{
  ℕ, zero, suc, true, false, Option, none, some, List, [], ◌∷◌, find, update_where, Text, text,
}
use fieldpro_pilot.Observation.Submit.{Severity, StopUiPayload}
use fieldpro_pilot.Service.{
  Db, Services, Result, ok, error, and_then, RouteRunStop, StopStatus, pending, planned, assigned,
  in_progress, done, skipped, is_stop, coalesce,
}
use fieldpro_pilot.Service.Visit.{
  get_visit_context, ensure_visit_for_route_run_stop, close_visit_for_route_run_stop,
}
use fieldpro_pilot.Service.Observe.{emit_observations_for_stop}
use fieldpro_pilot.Service.Run.{check_and_complete_route_run}

-- the fields that stand in the body itself, or in its `safety`
pub record Hazard : Type 0 where
  pub hazard_types : Option (List Text)
  pub notes : Option Text
  pub severity : Option Severity

pub record SkipBody : Type 0 where
  pub legacy : Hazard
  pub safety : Option Hazard

-- `legacy ?? safety?.field`, field by field
unfoldable pub merge_hazard : SkipBody → Hazard
merge_hazard body = elim body.safety [
  | none ↦ body.legacy
  | some s ↦ record {
    hazard_types = coalesce body.legacy.hazard_types s.hazard_types;
    notes = coalesce body.legacy.notes s.notes;
    severity = coalesce body.legacy.severity s.severity;
  }
]

pub data SkipResponse : Type 0 where
  no_photo no_hazard no_such_stop already_skipped failed : SkipResponse
  wrong_status : StopStatus → SkipResponse
  skipped_stop : RouteRunStop → SkipResponse

unfoldable pub skipped_row : ℕ → RouteRunStop → RouteRunStop
skipped_row now row = record row {
  status = skipped;
  completed_at = some now;
  updated_at = some now;
}

unfoldable pub skip_payload : Text → List Text → Hazard → StopUiPayload
skip_payload first hazards h = record {
  safety_concern = true;
  safety_hazards = some (first ∷ hazards);
  hazard_severity = h.severity;
  hazard_notes = h.notes;
  picked_up_litter = false;
  emptied_trash = false;
  washed_shelter = false;
  washed_pad = false;
  washed_can = false;
  trash_volume = none;
  infrastructure_present = false;
  infrastructure_issues = none;
  infra_issue_details = none;
}

-- what the checks of the stop's status answer
unfoldable pub skip_refusal : StopStatus → Option SkipResponse
skip_refusal skipped = some already_skipped
skip_refusal pending = none
skip_refusal in_progress = none
skip_refusal planned = some (wrong_status planned)
skip_refusal assigned = some (wrong_status assigned)
skip_refusal done = some (wrong_status done)

module _ (svc : Services) where
  -- the transaction, to its `COMMIT`
  unfoldable pub skip_transaction : ℕ → Text → Text → Db → Result ℕ
  unfolding skipped_row
  skip_transaction id actor reason db =
      let marked = record db { stops = update_where (is_stop id) (skipped_row svc.now) db.stops } in
      and_then (ensure_visit_for_route_run_stop svc id actor (text "service") none marked)
        (λ visit later.
          ok visit
            (close_visit_for_route_run_stop svc id (text "skipped") (some reason) none later))

  -- the observations, which are written after it
  unfoldable pub skip_observations : ℕ → Text → StopUiPayload → ℕ → Db → Result (Unit {0})
  skip_observations id actor ui visit db =
      and_then (get_visit_context id db)
        (λ ctx later. emit_observations_for_stop svc visit ctx actor ui later)

  -- the answer; an error after the `COMMIT` undoes nothing
  abbrev pub skip_answer : RouteRunStop → Db → Result (Unit {0}) → Db × SkipResponse
  skip_answer row committed (ok _ db) = (
    check_and_complete_route_run svc.now row.route_run_id db,
    skipped_stop (skipped_row svc.now row),
  )
  skip_answer row committed (error e) = (committed, failed)

  abbrev pub skip_committed :
      ℕ → Text → StopUiPayload → RouteRunStop → Db → Result ℕ → Db × SkipResponse
  skip_committed id actor ui row before (ok visit db) =
      skip_answer row db (skip_observations id actor ui visit db)
  skip_committed id actor ui row before (error e) = (before, failed)

  unfoldable pub skip_row : ℕ → Text → Text → StopUiPayload → RouteRunStop → Db → Db × SkipResponse
  unfolding skip_transaction skip_observations
  skip_row id actor reason ui row db = elim (skip_refusal row.status) [
    | some answer ↦ (db, answer)
    | none ↦ skip_committed id actor ui row db (skip_transaction id actor reason db)
  ]

  unfoldable pub skip_found : ℕ → Text → Text → StopUiPayload → Db → Db × SkipResponse
  unfolding skip_row
  skip_found id actor reason ui db = elim (find (is_stop id) db.stops) [
    | none ↦ (db, no_such_stop)
    | some row ↦ skip_row id actor reason ui row db
  ]

  abbrev pub skip_hazards : ℕ → Text → Hazard → Option (List Text) → Db → Db × SkipResponse
  skip_hazards id actor h none db = (db, no_hazard)
  skip_hazards id actor h (some []) db = (db, no_hazard)
  skip_hazards id actor h (some (first ∷ hazards)) db =
      skip_found id actor first (skip_payload first hazards h) db

  unfoldable pub skip_handler : ℕ → ℕ → Text → SkipBody → Db → Db × SkipResponse
  unfolding skip_found
  skip_handler id zero actor body db = (db, no_photo)
  skip_handler id (suc photos) actor body db =
      let h = merge_hazard body in skip_hazards id actor h h.hazard_types db
