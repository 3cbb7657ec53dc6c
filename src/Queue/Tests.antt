-- ===== src/Queue/Tests.antt =====
-- The queue of a user who started a stop, took a photo, and was offline.
use fieldpro_pilot.Base.{
  ℕ, ◌≡◌, ◌≤◌, refl, true, false, none, some, List, [], ◌∷◌, arith, map, All, Text, text, eq_text,
  is_empty,
}
use fieldpro_pilot.Base.Dict.{lookup}
use mathlib.Core.List.{Perm}
use fieldpro_pilot.Queue.{
  Action, ActionType, Payload, QueueState, pending, start_stop, upload_stop_photos,
  skip_stop_with_hazard, complete_stop, other,
}
use fieldpro_pilot.Queue.Store.{World, Env, get_queue_key, identity_key, load_key}
use fieldpro_pilot.Queue.Store.Laws.{view}
use fieldpro_pilot.Queue.Enqueue.{same_start, same_skip, enqueue_into}
use fieldpro_pilot.Queue.Enqueue.Once.{StartsOnce, SkipsOnce, enqueue_into-Once}
use fieldpro_pilot.Queue.Update.{pending_of}
use fieldpro_pilot.Queue.Replay.{returned, Executors, retries, replay_loop, run_replay}
use fieldpro_pilot.Queue.Replay.Stages.{InStages, run_replay-InStages}
use fieldpro_pilot.Queue.Replay.Conserve.{Kept, IsQuiet, request, run_replay-Kept}

abbrev no_payload : Payload
no_payload = record {
  kind = none;
  local_photo_ids = none;
  route_run_stop_id = none;
  stop_id = none;
  rest = [];
}

abbrev action : ActionType → ℕ → Action
action type at = record {
  id = text "a";
  type = type;
  route_run_id = text "1";
  route_run_stop_id = some (text "7");
  created_at = at;
  payload = no_payload;
  status = pending;
  last_error = none;
  retry_count = none;
}

abbrev queue : List Action
queue = action complete_stop 5 ∷ action start_stop 3 ∷ []

starts_once : StartsOnce queue
unfolding same_start
starts_once b = ground arith

skips_once : SkipsOnce queue
unfolding same_skip
skips_once b = ground arith

once_example :
    StartsOnce (enqueue_into (action start_stop 9) queue)
    × SkipsOnce (enqueue_into (action start_stop 9) queue)
once_example = enqueue_into-Once (action start_stop 9) queue starts_once skips_once

abbrev key : Text
key = text "fieldpro-offline-queue:t:u"

abbrev stored : QueueState
stored = record { actions = queue; requires_auth = false; last_updated_at = none }

abbrev world : World
world = record { memory = []; storage = (key, stored) ∷ []; notified = [] }

abbrev env : Env
env = record { now = 10; writable = true }

-- Only starts are executed, and they succeed.
abbrev executors : Executors
executors start_stop = some (λ a w. (w, returned))
executors _ = none

executors-IsQuiet : IsQuiet executors
executors-IsQuiet start_stop = λ a w k. refl
executors-IsQuiet upload_stop_photos = tt
executors-IsQuiet skip_stop_with_hazard = tt
executors-IsQuiet complete_stop = tt
executors-IsQuiet (other name) = tt

key_of_user : identity_key (some (text "t")) (some (text "u")) ≡ some key
unfolding identity_key get_queue_key is_empty
key_of_user = refl

others_key : eq_text key (text "k") ≡ false
unfolding eq_text
others_key = refl

no_retries : All (λ a. retries a ≤ 3) (view key world).actions
unfolding load_key lookup eq_text
no_retries = (omega arith, (omega arith, tt))

replay_example :
    Kept key
      (map request (view key world).actions)
      (text "k")
      (view (text "k") world)
      (run_replay env (some (text "t")) (some (text "u")) executors world).0
replay_example =
    run_replay-Kept env (some (text "t")) (some (text "u")) executors key (text "k") world
      key_of_user others_key executors-IsQuiet no_retries

order_example :
    (executed : List Action) × InStages executed
    × Perm executed (pending_of (load_key key world).1.actions)
    × run_replay env (some (text "t")) (some (text "u")) executors world
      ≡ replay_loop env key executors executed false (load_key key world).0
order_example =
    run_replay-InStages env (some (text "t")) (some (text "u")) executors world key key_of_user
