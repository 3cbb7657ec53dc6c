-- ===== src/Queue.antt =====
-- The offline action queue of the worker's app: frontend/src/offline/offlineQueue.ts. Identifiers
-- and payload texts are texts, times are numbers of milliseconds. The fields of a payload are those
-- that the queue reads; `rest` stands for the others, which it only copies. The field `executionMode`
-- of an action, which the queue never reads, is left out.
pub mod Store
pub mod Enqueue
pub mod Update
pub mod Replay
pub mod Query
mod Tests
use fieldpro_pilot.Base.{
  ℕ, Bool, true, false, ◌||◌, Option, none, some, List, [], Text, text, eq_text,
}

pub data Status : Type 0 where
  pending running done failed conflict : Status

-- `type` is a string; these are the ones that the queue tests for.
pub data ActionType : Type 0 where
  start_stop upload_stop_photos skip_stop_with_hazard complete_stop : ActionType
  other : Text → ActionType

-- `localPhotoIds` is `none` where it is absent or no array.
pub record Payload : Type 0 where
  pub kind : Option Text
  pub local_photo_ids : Option (List Text)
  pub route_run_stop_id : Option Text
  pub stop_id : Option Text
  pub rest : Text

pub record Action : Type 0 where
  pub id : Text
  pub type : ActionType
  pub route_run_id : Text
  pub route_run_stop_id : Option Text
  pub created_at : ℕ
  pub payload : Payload
  pub status : Status
  pub last_error : Option Text
  pub retry_count : Option ℕ

pub record QueueState : Type 0 where
  pub actions : List Action
  pub requires_auth : Bool
  pub last_updated_at : Option ℕ

-- `DEFAULT_STATE`
abbrev pub default_state : QueueState
default_state = record { actions = []; requires_auth = false; last_updated_at = none }

abbrev pub is_pending : Status → Bool
is_pending pending = true
is_pending _ = false

-- `status === "pending" || status === "running"`
abbrev pub is_live : Status → Bool
is_live pending = true
is_live running = true
is_live _ = false

abbrev pub is_upload : ActionType → Bool
is_upload upload_stop_photos = true
is_upload _ = false

abbrev pub is_start : ActionType → Bool
is_start start_stop = true
is_start _ = false

abbrev pub is_skip : ActionType → Bool
is_skip skip_stop_with_hazard = true
is_skip _ = false

abbrev pub is_complete : ActionType → Bool
is_complete complete_stop = true
is_complete _ = false

-- `String(v)` of an optional text
unfoldable pub to_string : Option Text → Text
to_string none = text "undefined"
to_string (some s) = s

-- `String(a.routeRunStopId) === String(b.routeRunStopId)`
abbrev pub same_stop : Action → Action → Bool
same_stop a b = eq_text (to_string a.route_run_stop_id) (to_string b.route_run_stop_id)
