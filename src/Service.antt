-- ===== src/Service.antt =====
-- The service of a stop: starting and completing a stop of a route run, with its visit and its
-- observations. The tables that the code reads and writes are lists of rows; a statement that the
-- code sends is an operation on them, and a transaction is a function to a result that carries the
-- tables on success only. Times are numbers of milliseconds; ids are positive.
pub mod Visit
pub mod Observe
pub mod Complete
pub mod Start
pub mod Run
pub mod Skip
pub mod Evidence
pub mod Upload
pub mod Life
pub mod Dispatch
mod Tests
use fieldpro_pilot.Base.{ℕ, zero, suc, Bool, true, false, Option, none, some, List, Text, ◌==◌}
use fieldpro_pilot.Base.Int.{ℤ}
use fieldpro_pilot.Observation.{Payload, RegistryRule, NormalizedFields}
use fieldpro_pilot.Observation.Submit.{Severity}

-- the status column of `route_run_stops`
pub data StopStatus : Type 0 where
  pending planned assigned in_progress done skipped : StopStatus

pub record RouteRunStop : Type 0 where
  pub id : ℕ
  pub route_run_id : ℕ
  pub stop_id : Text
  pub asset_id : Option ℕ
  pub status : StopStatus
  pub created_at : ℕ
  pub started_at : Option ℕ
  pub completed_at : Option ℕ
  pub updated_at : Option ℕ
  pub trash_volume : Option ℕ
  pub sequence : ℕ
  pub planned_distance_m : ℕ
  pub planned_duration_s : ℕ
  pub org_id : ℕ

-- `core.visits`
pub record VisitRow : Type 0 where
  pub id : ℕ
  pub client_visit_id : Text
  pub org_id : ℕ
  pub location_id : ℕ
  pub primary_asset_id : ℕ
  pub assignment_id : Option ℕ
  pub visit_type : Text
  pub outcome : Option Text
  pub reason_code : Option Text
  pub started_at : ℕ
  pub ended_at : Option ℕ

-- `core.observations`
pub record ObservationRow : Type 0 where
  pub id : ℕ
  pub org_id : ℕ
  pub visit_id : ℕ
  pub location_id : ℕ
  pub asset_id : ℕ
  pub observation_type : Text
  pub payload : Payload
  pub severity : Option Severity
  pub norm : NormalizedFields

-- a row of `core.visit_actor_audit` or `core.observation_actor_audit`; `actor_ref` holds a sentinel
pub record ActorAudit : Type 0 where
  pub subject_id : ℕ
  pub org_id : ℕ
  pub actor_ref : Text
  pub actor_ref_ciphertext : Text
  pub actor_ref_key_id : Text

-- the status column of `route_runs`
pub data RunStatus : Type 0 where
  run_planned run_in_progress run_finished run_completed : RunStatus

pub record RouteRun : Type 0 where
  pub id : ℕ
  pub org_id : ℕ
  pub route_pool_id : Text
  pub base_id : Text
  pub run_date : ℕ
  pub status : RunStatus
  pub total_distance_m : ℕ
  pub total_duration_s : ℕ
  pub shift_type : Text
  pub is_adhoc : Bool
  pub started_at : Option ℕ
  pub finished_at : Option ℕ
  pub updated_at : Option ℕ

-- `public.assets`, `core.v_locations_transit`, `core.assignments`, `public.stops`
pub record Asset : Type 0 where
  pub id : ℕ
  pub org_id : Option ℕ

pub record Location : Type 0 where
  pub stop_id : Text
  pub location_id : ℕ

-- an assignment of type `transit_stop_clean` whose source is the route run
pub record Assignment : Type 0 where
  pub id : ℕ
  pub route_run_id : ℕ
  pub org_id : ℕ
  pub location_id : Option ℕ
  pub asset_id : Option ℕ
  pub planned_for : ℕ

-- `route_run_assignment`: who works on a run, one row for each run
pub record RunAssignment : Type 0 where
  pub route_run_id : ℕ
  pub org_id : ℕ
  pub assigned_user_oid : Option Text
  pub created_by_oid : Option Text
  pub assigned_at : ℕ

pub record PublicStop : Type 0 where
  pub stop_id : Text
  pub is_hotspot : Bool
  pub compactor : Bool
  pub asset_id : Option ℕ

-- a registry row of an organisation
pub record Registered : Type 0 where
  pub org_id : ℕ
  pub rule : RegistryRule

-- `stop_effort_history`; the minutes are given as milliseconds, the date as the time of creation.
pub record Effort : Type 0 where
  pub stop_id : Text
  pub visit_id : ℕ
  pub run_created_at : ℕ
  pub service_time : Option ℤ
  pub stop_type : Text
  pub had_hazard : Bool
  pub had_infra_issue : Bool
  pub trash_volume : Option ℤ
  pub org_id : ℕ

pub record Db : Type 0 where
  pub stops : List RouteRunStop
  pub runs : List RouteRun
  pub visits : List VisitRow
  pub observations : List ObservationRow
  pub visit_audits : List ActorAudit
  pub observation_audits : List ActorAudit
  pub efforts : List Effort
  pub assets : List Asset
  pub locations : List Location
  pub assignments : List Assignment
  pub public_stops : List PublicStop
  pub registry : List Registered
  pub run_assignments : List RunAssignment
  pub assignment_audits : List ActorAudit
  pub serial : ℕ

-- What the code calls: `uuidv5` of the name of a stop, the encryption of an actor's id (which may
-- fail), the clock, and which of its rows a query with `LIMIT 1` and without an order returns.
pub record Services : Type 0 where
  pub uuid_of_stop : ℕ → Text
  pub encrypt : Text → Option (Text × Text)
  pub now : ℕ
  pub limit_one : List Assignment → Option Assignment

-- What a statement, or a function that awaits some, yields: a value with the tables, or an error.
pub data Result {ℓ} (A : Type ℓ) : Type ℓ where
  ok : A → Db → Result A
  error : Text → Result A

abbrev pub and_then {ℓ κ} : {A : Type ℓ} → {B : Type κ} → Result A → (A → Db → Result B) → Result B
and_then (ok a db) next = next a db
and_then (error e) next = error e

-- `COMMIT`, and `ROLLBACK` where the body threw
abbrev pub settled {ℓ} : {A : Type ℓ} → Db → Result A → Db × Option A
settled before (ok a after) = (after, some a)
settled before (error e) = (before, none)

-- a transaction from its `BEGIN` on
abbrev pub in_transaction {ℓ} : {A : Type ℓ} → (Db → Result A) → Db → Db × Option A
in_transaction body db = settled db (body db)

abbrev pub is_stop : ℕ → RouteRunStop → Bool
is_stop id row = row.id == id

-- the tests that the code makes of a status
abbrev pub is_done : StopStatus → Bool
is_done done = true
is_done _ = false

abbrev pub is_open : StopStatus → Bool
is_open pending = true
is_open in_progress = true
is_open _ = false

abbrev pub is_closed : StopStatus → Bool
is_closed done = true
is_closed skipped = true
is_closed _ = false

-- `COALESCE(a, b)`
abbrev pub coalesce {ℓ} : {A : Type ℓ} → Option A → Option A → Option A
coalesce none b = b
coalesce (some a) b = some a

-- an id that is neither null nor 0
abbrev pub truthy : Option ℕ → Option ℕ
truthy none = none
truthy (some zero) = none
truthy (some (suc n)) = some (suc n)
