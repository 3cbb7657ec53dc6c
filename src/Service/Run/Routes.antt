-- ===== src/Service/Run/Routes.antt =====
-- `startRouteRun`, `finishRouteRun` and `assignRouteRun` of
-- backend/src/domains/routeRun/routeRunService.ts, and their handlers in
-- backend/src/modules/routes/routeRunRoutes.ts. Of the run that is loaded for an answer only whether
-- there is one is kept: the query of loadRouteRunById joins the run with its stops.
use fieldpro_pilot.Base.{
  ℕ, Bool, true, false, ◌&&◌, Option, none, some, List, [], ◌∷◌, ◌++◌, find, any, update_where,
  if◌then◌else◌, Text, eq_text, ◌==◌,
}
use fieldpro_pilot.Service.{
  Db, RouteRun, RouteRunStop, RunAssignment, PublicStop, run_in_progress, run_completed, coalesce,
}

abbrev pub is_run : ℕ → RouteRun → Bool
is_run id r = r.id == id

abbrev pub has_run : ℕ → Db → Bool
has_run id db = any (is_run id) db.runs

abbrev pub run_started : ℕ → RouteRun → RouteRun
run_started now r = record r {
  status = run_in_progress;
  started_at = coalesce r.started_at (some now);
  updated_at = some now;
}

abbrev pub run_finished_now : ℕ → RouteRun → RouteRun
run_finished_now now r = record r {
  status = run_completed;
  finished_at = some now;
  updated_at = some now;
}

-- `route_run_stops JOIN stops`
abbrev pub shows : ℕ → List PublicStop → RouteRunStop → Bool
shows id stops s = s.route_run_id == id && any (λ p. eq_text p.stop_id s.stop_id) stops

-- whether `loadRouteRunById` finds the run
unfoldable pub load_route_run_by_id : ℕ → Db → Bool
load_route_run_by_id id db = has_run id db && any (shows id db.public_stops) db.stops

-- false where null is returned
unfoldable pub start_route_run : ℕ → ℕ → Db → Db × Bool
unfolding load_route_run_by_id
start_route_run now id db =
    if has_run id db
    then (
      record db { runs = update_where (is_run id) (run_started now) db.runs },
      load_route_run_by_id id
          (record db { runs = update_where (is_run id) (run_started now) db.runs }),
    )
    else (db, false)

unfoldable pub finish_route_run : ℕ → ℕ → Db → Db × Bool
unfolding load_route_run_by_id
finish_route_run now id db =
    if has_run id db
    then (
      record db { runs = update_where (is_run id) (run_finished_now now) db.runs },
      load_route_run_by_id id
          (record db { runs = update_where (is_run id) (run_finished_now now) db.runs }),
    )
    else (db, false)

abbrev pub is_run_assignment : ℕ → RunAssignment → Bool
is_run_assignment id a = a.route_run_id == id

abbrev pub reassigned : ℕ → Option Text → RunAssignment → RunAssignment
reassigned now worker a = record a { assigned_user_oid = worker; assigned_at = now }

abbrev pub newly_assigned : ℕ → Option Text → RouteRun → RunAssignment
newly_assigned now worker r = record {
  route_run_id = r.id;
  org_id = r.org_id;
  assigned_user_oid = worker;
  created_by_oid = none;
  assigned_at = now;
}

-- `INSERT … SELECT … ON CONFLICT (route_run_id) DO UPDATE` for the run that is found
unfoldable pub upsert_assignment :
    ℕ → Option Text → RouteRun → List RunAssignment → List RunAssignment
upsert_assignment now worker r rows =
    if any (is_run_assignment r.id) rows
    then update_where (is_run_assignment r.id) (reassigned now worker) rows
    else rows ++ newly_assigned now worker r ∷ []

-- false where the error with status 404 is thrown
unfoldable pub assign_route_run : ℕ → ℕ → Option Text → Db → Db × Bool
unfolding upsert_assignment
assign_route_run now id worker db = elim (find (is_run id) db.runs) [
  | none ↦ (db, false)
  | some r ↦ (
    record db {
      run_assignments = upsert_assignment now worker r db.run_assignments;
      runs = update_where (is_run id) (λ x. record x { updated_at = some now }) db.runs;
    },
    true,
  )
]

-- the action that is written to the audit log
pub data AuditAction : Type 0 where
  assignment_cancel assignment_reassign assignment_create : AuditAction

-- the answers: 200 with the run, 200 without it, 400, 404 and 500
pub data RunResponse : Type 0 where
  run_shown : ℕ → RunResponse
  run_hidden empty_worker run_missing run_broken : RunResponse

abbrev pub shown_or_missing : ℕ → Bool → RunResponse
shown_or_missing id found = if found then run_shown id else run_missing

abbrev pub shown_or_hidden : ℕ → Bool → RunResponse
shown_or_hidden id found = if found then run_shown id else run_hidden

unfoldable pub start_run_handler : ℕ → Option ℕ → ℕ → Db → Db × RunResponse
start_run_handler now none id db = (db, run_broken)
start_run_handler now (some org) id db =
    let result = start_route_run now id db in (result.0, shown_or_missing id result.1)

unfoldable pub finish_run_handler : ℕ → Option ℕ → ℕ → Db → Db × RunResponse
finish_run_handler now none id db = (db, run_broken)
finish_run_handler now (some org) id db =
    let result = finish_route_run now id db in (result.0, shown_or_missing id result.1)

-- `rows[0]?.assigned_user_oid ?? null` of the rows of a run
unfoldable pub worker_in : ℕ → List RunAssignment → Option Text
worker_in id [] = none
worker_in id (a ∷ rows) = if is_run_assignment id a then a.assigned_user_oid else worker_in id rows

-- `prevOid`
unfoldable pub previous_worker : ℕ → Db → Option Text
previous_worker id db = worker_in id db.run_assignments

-- an empty id counts as none before
unfoldable pub audit_action : Option Text → Option Text → AuditAction
audit_action none previous = assignment_cancel
audit_action (some worker) none = assignment_create
audit_action (some worker) (some []) = assignment_create
audit_action (some worker) (some (c ∷ oid)) = assignment_reassign

unfoldable pub assign_in_org : ℕ → ℕ → Option Text → Db → Db × RunResponse × Option AuditAction
unfolding previous_worker audit_action load_route_run_by_id
assign_in_org now id worker db =
    let result = assign_route_run now id worker db in
    if result.1
    then (
      result.0,
      shown_or_hidden id (load_route_run_by_id id result.0),
      some (audit_action worker (previous_worker id db)),
    )
    else (db, run_missing, none)

unfoldable pub assign_handler :
    ℕ → Option ℕ → ℕ → Option Text → Db → Db × RunResponse × Option AuditAction
assign_handler now org id (some []) db = (db, empty_worker, none)
assign_handler now none id worker db = (db, run_broken, none)
assign_handler now (some o) id worker db = assign_in_org now id worker db
