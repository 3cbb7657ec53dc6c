-- ===== src/Sync.antt =====
-- The replay of the queue as the app runs it: frontend/src/offline/OfflineSyncManager.tsx, with the
-- calls and the error tests of frontend/src/api/routeRuns.ts. A replay that is awaited is one step.
pub mod Errors
pub mod Api
pub mod Executor
mod Refused
mod Drained
mod Uploaded
mod Tests
use fieldpro_pilot.Base.{
  ℕ, Bool, true, false, ◌&&◌, not, Option, List, any, filter, length, if◌then◌else◌, Text,
}
use fieldpro_pilot.Queue.{Action, QueueState, Status, pending, failed, conflict, is_pending}
use fieldpro_pilot.Queue.Store.{World, Env}
use fieldpro_pilot.Queue.Replay.{run_replay}
use fieldpro_pilot.Sync.Executor.{Remote, executor_map}

pub data SyncStatus : Type 0 where
  idle syncing success : SyncStatus

-- `isReplayingRef` and the state that the app shows
pub record SyncState : Type 0 where
  pub is_replaying : Bool
  pub sync_status : SyncStatus
  pub pending_count : ℕ
  pub conflict_count : ℕ
  pub failed_count : ℕ
  pub conflict_actions : List Action

abbrev pub is_conflict : Status → Bool
is_conflict conflict = true
is_conflict _ = false

abbrev pub is_failed : Status → Bool
is_failed failed = true
is_failed _ = false

abbrev pub with_status : (Status → Bool) → List Action → List Action
with_status test actions = filter (λ a. test a.status) actions

-- the callback of `subscribe`: the counts, and whether a replay is tried
unfoldable pub on_queue_change : Bool → QueueState → SyncState → SyncState × Bool
on_queue_change online state s = (
  record s {
    pending_count = length (with_status is_pending state.actions);
    conflict_count = length (with_status is_conflict state.actions);
    failed_count = length (with_status is_failed state.actions);
    conflict_actions = with_status is_conflict state.actions;
  },
  any (λ a. is_pending a.status) state.actions && online,
)

-- the world, the state, and whether `baseline:after-replay` is dispatched
unfoldable pub attempt_replay :
    Bool → Env → Option Text → Option Text → Remote → SyncState → World → (World × SyncState) × Bool
unfolding executor_map
attempt_replay online env tenant_id oid remote s w =
    if not online
    then ((w, s), false)
    else if s.is_replaying
    then ((w, s), false)
    else let replayed = run_replay env tenant_id oid (executor_map remote) w in
      ((replayed.0, record s { is_replaying = false; sync_status = success }), replayed.1)
