-- ===== src/Queue/Replay.antt =====
-- `runReplay`: the pending actions are sorted once, at the start, and executed one after the other.
-- An executor is a parameter: given the action and the world it changes the world (other code of
-- the app runs while it is awaited) and returns or throws. A thrown value is described by what the
-- handler asks of it: `isAuthError`, `isNetworkError`, `parseApiErrorCode`, and its message.
use fieldpro_pilot.Base.{
  ℕ, ◌+◌, Bool, true, false, ◌||◌, Option, none, some, List, [], ◌∷◌, any, update_first, leb, ltb,
  ◌==◌, if◌then◌else◌, Text, text, eq_text,
}
use fieldpro_pilot.Base.Sort.{sort_by}
use fieldpro_pilot.Queue.{
  Action, ActionType, start_stop, upload_stop_photos, skip_stop_with_hazard, complete_stop, other,
  QueueState, Status, pending, running, done, failed, conflict, is_complete, is_skip,
}
use fieldpro_pilot.Queue.Store.{World, Env, identity_key, load_key, commit}
use fieldpro_pilot.Queue.Update.{has_id, update_key, require_auth_key, pending_of}
pub mod Order
pub mod Stages
pub mod Conserve

pub record Failure : Type 0 where
  pub is_auth_error : Bool
  pub is_network_error : Bool
  pub api_code : Option Text
  pub is_error : Bool
  pub message : Text

pub data Outcome : Type 0 where
  returned : Outcome
  threw : Failure → Outcome

-- `executorMap`
abbrev pub Executors : Type 0
Executors = ActionType → Option (Action → World → World × Outcome)

-- `actionOrder[type] || 99`
unfoldable pub action_order : ActionType → ℕ
action_order start_stop = 1
action_order upload_stop_photos = 2
action_order skip_stop_with_hazard = 3
action_order complete_stop = 4
action_order (other name) = 99

-- the comparator of the sort is at most 0
unfoldable pub replay_before : Action → Action → Bool
replay_before a b =
    if action_order a.type == action_order b.type
    then leb a.created_at b.created_at
    else ltb (action_order a.type) (action_order b.type)

unfoldable pub sorted_pending : List Action → List Action
sorted_pending actions = sort_by replay_before (pending_of actions)

abbrev pub code_is : Failure → Text → Bool
code_is f code = elim f.api_code [ none ↦ false | some c ↦ eq_text c code ]

-- what the `catch` block decides
pub data Verdict : Type 0 where
  stop_for_auth stop_for_network already_complete already_skipped photo_missing : Verdict
  fatal : Text → Verdict
  rejected : Text → Verdict

unfoldable pub classify : Failure → Verdict
classify f =
    if f.is_auth_error
    then stop_for_auth
    else if f.is_network_error
    then stop_for_network
    else if code_is f (text "ALREADY_COMPLETE")
    then already_complete
    else if code_is f (text "ALREADY_SKIPPED")
    then already_skipped
    else if code_is f (text "ROUTE_NOT_FOUND")
    then fatal (text "ROUTE_NOT_FOUND")
    else if code_is f (text "ROUTE_REASSIGNED")
    then fatal (text "ROUTE_REASSIGNED")
    else if eq_text f.message (text "RETRY_NEEDED_PHOTO_MISSING")
    then if f.is_error then photo_missing else rejected f.message
    else rejected f.message

abbrev pub retries : Action → ℕ
retries a = elim a.retry_count [ none ↦ 0 | some n ↦ n ]

-- the write of a retry: the action is pending again, with one more try on its count
unfoldable pub retry_later : Env → Text → Action → Text → World → World
retry_later env key action message w =
    let loaded = load_key key w in
    let state = record (loaded.1) {
      actions =
          update_first (has_id action.id)
            (λ a. record a {
              status = pending;
              retry_count = some (retries action + 1);
              last_error = some message;
            })
            loaded.1.actions;
      last_updated_at = some env.now;
    } in
    if any (has_id action.id) loaded.1.actions then commit env key state loaded.0 else loaded.0

-- the world afterwards, whether a stop was completed, and whether the loop breaks
pub record Step : Type 0 where
  pub world : World
  pub completed : Bool
  pub break : Bool

abbrev pub mark : Env → Text → Action → Status → Option Text → World → World
mark env key action status error w = (update_key env key action.id status error w).0

-- the branches of the `catch` block
unfoldable pub act : Env → Text → Action → Failure → Verdict → World → Step
act env key action f stop_for_auth w = record {
  world = mark env key action pending none (require_auth_key env key true w).0;
  completed = false;
  break = true;
}
act env key action f stop_for_network w = record {
  world = mark env key action pending none w;
  completed = false;
  break = true;
}
act env key action f already_complete w = record {
  world = mark env key action done none w;
  completed = is_complete action.type || is_skip action.type;
  break = false;
}
act env key action f already_skipped w = record {
  world = mark env key action done none w;
  completed = is_skip action.type;
  break = false;
}
act env key action f photo_missing w = record {
  world =
      if ltb (retries action) 3
      then retry_later env key action f.message w
      else mark env key action failed (some f.message) w;
  completed = false;
  break = false;
}
act env key action f (fatal code) w = record {
  world = mark env key action conflict (some code) w;
  completed = false;
  break = false;
}
act env key action f (rejected message) w = record {
  world = mark env key action failed (some message) w;
  completed = false;
  break = false;
}

unfoldable pub settle : Env → Text → Action → Outcome → World → Step
settle env key action returned w = record {
  world = mark env key action done none w;
  completed = is_complete action.type;
  break = false;
}
settle env key action (threw f) w = act env key action f (classify f) w

-- the body of the loop
unfoldable pub replay_action : Env → Text → Executors → Action → World → Step
replay_action env key executors action w = elim (executors action.type) [
  | none ↦ record { world = w; completed = false; break = false }
  | some execute ↦
      let result = execute action (mark env key action running none w) in
      settle env key action result.1 result.0
]

unfoldable pub replay_loop : Env → Text → Executors → List Action → Bool → World → World × Bool
replay_loop env key executors [] succeeded w = (w, succeeded)
replay_loop env key executors (action ∷ actions) succeeded w =
    let step = replay_action env key executors action w in
    let rest = replay_loop env key executors actions (succeeded || step.completed) step.world in
    if step.break then (step.world, succeeded || step.completed) else rest

unfoldable pub run_replay : Env → Option Text → Option Text → Executors → World → World × Bool
run_replay env tenant_id oid executors w = elim (identity_key tenant_id oid) [
  | none ↦ (w, false)
  | some key ↦
      let loaded = load_key key w in
      replay_loop env key executors (sorted_pending loaded.1.actions) false loaded.0
]
