-- ===== src/Queue/Update.antt =====
-- `updateActionStatus`, `getPendingActions`, `setRequiresAuth`, `dismissConflict`.
use fieldpro_pilot.Base.{
  Bool, true, false, Option, none, some, List, any, filter, update_first, if◌then◌else◌, Text,
  eq_text,
}
use fieldpro_pilot.Queue.{Action, QueueState, Status, done, default_state, is_pending}
use fieldpro_pilot.Queue.Store.{World, Env, identity_key, load_key, load_queue_for_user, commit}

unfoldable pub has_id : Text → Action → Bool
has_id id a = eq_text a.id id

-- the first action with the id gets the status and the error
unfoldable pub set_status : Text → Status → Option Text → List Action → List Action
set_status id status error actions =
    update_first (has_id id) (λ a. record a { status = status; last_error = error }) actions

-- `updateActionStatus` at a key
unfoldable pub update_key : Env → Text → Text → Status → Option Text → World → World × QueueState
update_key env key id status error w =
    let loaded = load_key key w in
    let state = record (loaded.1) {
      actions = set_status id status error loaded.1.actions;
      last_updated_at = some env.now;
    } in
    if any (has_id id) loaded.1.actions then (commit env key state loaded.0, state) else loaded

unfoldable pub update_action_status :
    Env → Option Text → Option Text → Text → Status → Option Text → World → World × QueueState
update_action_status env tenant_id oid id status error w = elim (identity_key tenant_id oid) [
  | none ↦ (w, default_state)
  | some key ↦ update_key env key id status error w
]

unfoldable pub pending_of : List Action → List Action
pending_of actions = filter (λ a. is_pending a.status) actions

unfoldable pub get_pending_actions : Option Text → Option Text → World → World × List Action
get_pending_actions tenant_id oid w =
    let loaded = load_queue_for_user tenant_id oid w in (loaded.0, pending_of loaded.1.actions)

abbrev pub same_flag : Bool → Bool → Bool
same_flag true true = true
same_flag false false = true
same_flag _ _ = false

-- `setRequiresAuth` at a key
unfoldable pub require_auth_key : Env → Text → Bool → World → World × QueueState
require_auth_key env key requires_auth w =
    let loaded = load_key key w in
    let state = record (loaded.1) {
      requires_auth = requires_auth;
      last_updated_at = some env.now;
    } in
    if same_flag loaded.1.requires_auth requires_auth
    then loaded
    else (commit env key state loaded.0, state)

unfoldable pub set_requires_auth :
    Env → Option Text → Option Text → Bool → World → World × QueueState
set_requires_auth env tenant_id oid requires_auth w = elim (identity_key tenant_id oid) [
  | none ↦ (w, default_state)
  | some key ↦ require_auth_key env key requires_auth w
]

unfoldable pub dismiss_conflict :
    Env → Option Text → Option Text → Text → World → World × QueueState
unfolding update_action_status
dismiss_conflict env tenant_id oid id w = update_action_status env tenant_id oid id done none w
