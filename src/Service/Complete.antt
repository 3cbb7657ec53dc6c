-- ===== src/Service/Complete.antt =====
-- `completeStop` of backend/src/domains/routeRunStop/cleanLogService.ts, and the handler of
-- `POST /route-run-stops/:id/complete` of backend/src/modules/work/routeRunStopRoutes.ts. The duration
-- that `completeStop` computes is used nowhere, and is left out.
pub mod Frame
pub mod Again
use fieldpro_pilot.Base.{
  ℕ, ◌+◌, Bool, true, false, not, ◌&&◌, ◌||◌, Option, none, some, List, [], ◌∷◌, ◌++◌, map, any,
  find, filter, update_where, if◌then◌else◌, Text, text, eq_text, is_empty, ltb, ◌==◌,
}
use mathlib.Core.Option
use fieldpro_pilot.Base.Int.{ℤ, sub_ℕ}
use fieldpro_pilot.Base.Dict.{lookup}
use fieldpro_pilot.Observation.{number_of, is_some}
use fieldpro_pilot.Observation.Mapping.{contains, safety_presence_types, infra_presence_types}
use fieldpro_pilot.Observation.Submit.{Severity, InfraIssue, StopUiPayload}
use fieldpro_pilot.Service.{
  Db, Services, Result, ok, error, and_then, in_transaction, RouteRunStop, VisitRow, ObservationRow,
  PublicStop, Effort, done, is_stop, is_done,
}
use fieldpro_pilot.Service.Visit.{
  Context, get_visit_context, ensure_visit_for_route_run_stop, close_visit_for_route_run_stop,
}
use fieldpro_pilot.Service.Observe.{emit_observations_for_stop, emit_spot_check_observation}
use fieldpro_pilot.Service.Run.{check_and_complete_route_run}

pub record Safety : Type 0 where
  pub hazard_types : List Text
  pub severity : Option Severity
  pub notes : Option Text

-- the `data` of `completeStop`, as far as it is used
pub record Completion : Type 0 where
  pub picked_up_litter : Bool
  pub emptied_trash : Bool
  pub washed_shelter : Bool
  pub washed_pad : Bool
  pub washed_can : Bool
  pub infra_issues : List InfraIssue
  pub trash_volume : Option ℕ
  pub actor_oid : Text
  pub safety : Option Safety
  pub spot_check : Bool

abbrev pub nonempty {ℓ} : {A : Type ℓ} → List A → Bool
nonempty [] = false
nonempty (x ∷ xs) = true

abbrev pub hazard_types_of : Option Safety → List Text
hazard_types_of none = []
hazard_types_of (some s) = s.hazard_types

abbrev pub severity_of : Option Safety → Option Severity
severity_of none = none
severity_of (some s) = s.severity

abbrev pub notes_of : Option Safety → Option Text
notes_of none = none
notes_of (some s) = s.notes

unfoldable pub ui_payload : Completion → StopUiPayload
ui_payload c = record {
  safety_concern = nonempty (hazard_types_of c.safety);
  safety_hazards = some (hazard_types_of c.safety);
  hazard_severity = severity_of c.safety;
  hazard_notes = notes_of c.safety;
  picked_up_litter = c.picked_up_litter;
  emptied_trash = c.emptied_trash;
  washed_shelter = c.washed_shelter;
  washed_pad = c.washed_pad;
  washed_can = c.washed_can;
  trash_volume = c.trash_volume;
  infrastructure_present = nonempty c.infra_issues;
  infrastructure_issues = some (map (λ i. i.issue_type) c.infra_issues);
  infra_issue_details = some c.infra_issues;
}

-- the two `UPDATE`s of the stop
unfoldable pub set_volume : ℕ → Option ℕ → Db → Db
set_volume id none db = db
set_volume id (some v) db = record db {
  stops = update_where (is_stop id) (λ s. record s { trash_volume = some v }) db.stops;
}

unfoldable pub set_done : ℕ → ℕ → Db → Db
set_done id now db = record db {
  stops =
      update_where (is_stop id)
        (λ s. record s { status = done; completed_at = some now; updated_at = some now }) db.stops;
}

abbrev pub of_visit : ℕ → List Text → ObservationRow → Bool
of_visit visit types o = o.visit_id == visit && contains o.observation_type types

-- the level of the first volume row of the visit
unfoldable pub level_of : ℕ → Db → Option ℤ
level_of visit db = elim (find (of_visit visit (text "trash_volume" ∷ [])) db.observations) [
  | none ↦ none
  | some o ↦ elim (lookup (text "level") o.payload) [ none ↦ none | some v ↦ number_of v ]
]

abbrev pub stop_type : PublicStop → Text
stop_type s =
    if s.is_hotspot
    then text "hotspot"
    else if s.compactor
    then text "compactor"
    else text "standard"

abbrev pub service_time : VisitRow → Option ℤ
service_time v = Option.map (λ ended. sub_ℕ ended v.started_at) v.ended_at

unfoldable pub effort_row : VisitRow → RouteRunStop → PublicStop → Db → Effort
effort_row v row s db = record {
  stop_id = row.stop_id;
  visit_id = v.id;
  run_created_at = row.created_at;
  service_time = service_time v;
  stop_type = stop_type s;
  had_hazard = any (of_visit v.id safety_presence_types) db.observations;
  had_infra_issue = any (of_visit v.id infra_presence_types) db.observations;
  trash_volume = level_of v.id db;
  org_id = v.org_id;
}

-- `ON CONFLICT (stop_id, visit_id) DO NOTHING`
unfoldable pub insert_effort : Effort → List Effort → List Effort
insert_effort e efforts =
    if any (λ f. eq_text f.stop_id e.stop_id && f.visit_id == e.visit_id) efforts
    then efforts
    else efforts ++ e ∷ []

-- the join of the visit, the stop of the run and the stop; no row, no insert
unfoldable pub record_effort : ℕ → ℕ → Db → Db
record_effort visit id db = elim (find (λ (v : VisitRow). v.id == visit) db.visits) [
  | none ↦ db
  | some v ↦ elim (find (is_stop id) db.stops) [
    | none ↦ db
    | some row ↦ elim (find (λ s. eq_text s.stop_id row.stop_id) db.public_stops) [
      | none ↦ db
      | some s ↦ record db { efforts = insert_effort (effort_row v row s db) db.efforts }
    ]
  ]
]

module _ (svc : Services) where
  unfoldable pub spot_check_if : Bool → ℕ → Context → Text → Db → Result (Unit {0})
  spot_check_if true visit ctx actor db = emit_spot_check_observation svc visit ctx actor db
  spot_check_if false visit ctx actor db = ok tt db

  -- the writes to the stop and to its visit
  unfoldable pub close_stop : ℕ → Completion → Db → Db
  close_stop id c db =
      close_visit_for_route_run_stop svc id (text "completed") none none
        (set_done id svc.now (set_volume id c.trash_volume db))

  -- from the visit on: the visit's id and the run's
  unfoldable pub complete_visit : ℕ → ℕ → Completion → ℕ → Context → Db → Result (ℕ × ℕ)
  complete_visit id run c visit ctx db =
      and_then (spot_check_if c.spot_check visit ctx c.actor_oid db) (λ _ db.
        and_then
          (emit_observations_for_stop svc visit ctx c.actor_oid (ui_payload c) (close_stop id c db))
          (λ _ db.
            ok (visit, run) (check_and_complete_route_run svc.now run (record_effort visit id db))))

  unfoldable pub complete_row : ℕ → Completion → RouteRunStop → Db → Result (Option (ℕ × ℕ))
  complete_row id c row db =
      if is_done row.status
      then error (text "ALREADY_COMPLETE")
      else and_then (ensure_visit_for_route_run_stop svc id c.actor_oid (text "service") none db)
          (λ visit db. and_then (get_visit_context id db) (λ ctx db.
            and_then (complete_visit id row.route_run_id c visit ctx db) (λ r db. ok (some r) db)))

  unfoldable pub complete_stop : ℕ → Completion → Db → Result (Option (ℕ × ℕ))
  complete_stop id c db = elim (find (is_stop id) db.stops) [
    | none ↦ ok none db
    | some row ↦ complete_row id c row db
  ]

-- the answers with status 400
pub data Refusal : Type 0 where
  missing_photo nothing_done volume_required volume_range : Refusal

-- The answers of the handler: 200, 400, 404, 409, and 500.
pub data Response : Type 0 where
  completed : ℕ → ℕ → Response
  bad_request : Refusal → Response
  no_such_stop already_complete failed : Response

abbrev pub any_cleaning_task : Completion → Bool
any_cleaning_task c =
    c.picked_up_litter || c.emptied_trash || c.washed_shelter || c.washed_pad || c.washed_can

-- the check of the volume where there was a cleaning task; a volume is a natural number here, and the
-- handler answers a negative or a fractional one as one above 4
abbrev pub volume_error : Option ℕ → Option Refusal
volume_error none = some volume_required
volume_error (some v) = if ltb 4 v then some volume_range else none

-- what the handler refuses before its transaction; `photos` says that a photo was given or is stored
unfoldable pub refused : Bool → Completion → Option Refusal
refused photos c =
    if not photos
    then some missing_photo
    else if any_cleaning_task c
    then volume_error c.trash_volume
    else if c.spot_check
    then none
    else some nothing_done

module _ (svc : Services) where
  -- the answer to what the transaction yields
  abbrev pub respond : Db → Result (Option (ℕ × ℕ)) → Db × Response
  respond before (ok none db) = (db, no_such_stop)
  respond before (ok (some r) db) = (db, completed r.0 r.1)
  respond before (error e) =
      (before, if eq_text e (text "ALREADY_COMPLETE") then already_complete else failed)

  unfoldable pub complete_handler : ℕ → Bool → Completion → Db → Db × Response
  complete_handler id photos c db = elim (refused photos c) [
    | some answer ↦ (db, bad_request answer)
    | none ↦ respond db (complete_stop svc id c db)
  ]
