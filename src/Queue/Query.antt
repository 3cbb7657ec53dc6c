-- ===== src/Queue/Query.antt =====
-- The questions that the app asks of the queue.
use fieldpro_pilot.Base.{
  ℕ, ◌+◌, Bool, true, false, ◌&&◌, ◌||◌, Option, none, some, List, [], ◌∷◌, any, count, filter,
  length, ltb, if◌then◌else◌, Text, eq_text,
}
use fieldpro_pilot.Queue.{
  Action, Status, conflict, is_pending, is_live, is_upload, is_start, is_skip, is_complete,
  to_string, failed, running,
}
use fieldpro_pilot.Queue.Store.{World, identity_key, load_key, load_queue_for_user}

abbrev pub is_running : Status → Bool
is_running running = true
is_running _ = false

abbrev pub is_failed : Status → Bool
is_failed failed = true
is_failed _ = false

abbrev pub is_conflict : Status → Bool
is_conflict conflict = true
is_conflict _ = false

abbrev pub at_stop : Text → Action → Bool
at_stop stop a = eq_text (to_string a.route_run_stop_id) stop

-- the state that a question reads; false where there is no identity
unfoldable pub ask : Option Text → Option Text → World → (List Action → Bool) → Bool
ask tenant_id oid w question = elim (identity_key tenant_id oid) [
  | none ↦ false
  | some key ↦ question (load_key key w).1.actions
]

unfoldable pub has_pending_complete_stop_for_stop : Option Text → Option Text → Text → World → Bool
unfolding ask
has_pending_complete_stop_for_stop tenant_id oid stop w =
    ask tenant_id oid w (any (λ a. is_complete a.type && is_live a.status && at_stop stop a))

unfoldable pub has_pending_skip_stop_for_stop : Option Text → Option Text → Text → World → Bool
unfolding ask
has_pending_skip_stop_for_stop tenant_id oid stop w =
    ask tenant_id oid w (any (λ a. is_skip a.type && is_live a.status && at_stop stop a))

unfoldable pub has_pending_start_stop_for_stop : Option Text → Option Text → Text → World → Bool
unfolding ask
has_pending_start_stop_for_stop tenant_id oid stop w =
    ask tenant_id oid w (any (λ a. is_start a.type && is_live a.status && at_stop stop a))

pub record Summary : Type 0 where
  pub total_pending : ℕ
  pub total_running : ℕ
  pub total_failed : ℕ
  pub total_conflict : ℕ
  pub has_pending : Bool
  pub has_conflict : Bool

unfoldable pub get_queue_summary : Option Text → Option Text → World → Summary
get_queue_summary tenant_id oid w =
    let actions = (load_queue_for_user tenant_id oid w).1.actions in
    record {
      total_pending = count (λ a. is_pending a.status) actions;
      total_running = count (λ a. is_running a.status) actions;
      total_failed = count (λ a. is_failed a.status) actions;
      total_conflict = count (λ a. is_conflict a.status) actions;
      has_pending = ltb 0 (count (λ a. is_pending a.status) actions);
      has_conflict = ltb 0 (count (λ a. is_conflict a.status) actions);
    }

pub data SyncState : Type 0 where
  in_conflict queued idle : SyncState

-- `v === stopIdStr` for an optional field of the payload
abbrev pub is_text : Option Text → Text → Bool
is_text none stop = false
is_text (some v) stop = eq_text v stop

unfoldable pub related : Text → Action → Bool
related stop a =
    at_stop stop a || is_text a.payload.route_run_stop_id stop || is_text a.payload.stop_id stop

unfoldable pub sync_state : Text → List Action → SyncState
sync_state stop actions =
    let mine = filter (related stop) actions in
    if any (λ a. is_conflict a.status) mine
    then in_conflict
    else if any (λ a. is_live a.status) mine
    then queued
    else idle

unfoldable pub get_stop_sync_state : Option Text → Option Text → Text → World → SyncState
get_stop_sync_state tenant_id oid stop w =
    sync_state stop (load_queue_for_user tenant_id oid w).1.actions

abbrev pub photo_count : Action → ℕ
photo_count a = elim a.payload.local_photo_ids [ none ↦ 0 | some ids ↦ length ids ]

unfoldable pub queued_uploads : Text → Text → List Action → ℕ
queued_uploads stop kind [] = 0
queued_uploads stop kind (a ∷ actions) =
    (if is_upload a.type && is_live a.status && at_stop stop a && is_text a.payload.kind kind
      then photo_count a
      else 0)
    + queued_uploads stop kind actions

unfoldable pub get_queued_upload_count_for_stop :
    Option Text → Option Text → Text → Text → World → ℕ
get_queued_upload_count_for_stop tenant_id oid stop kind w = elim (identity_key tenant_id oid) [
  | none ↦ 0
  | some key ↦ queued_uploads stop kind (load_key key w).1.actions
]

unfoldable pub get_has_queued_upload_for_stop :
    Option Text → Option Text → Text → Text → World → Bool
get_has_queued_upload_for_stop tenant_id oid stop kind w =
    ltb 0 (get_queued_upload_count_for_stop tenant_id oid stop kind w)
