-- ===== src/Queue/Store.antt =====
-- The module's state (`memoryCache`, the browser's storage, what the subscribers were told), and the
-- functions that read and write it. A write to the storage may fail, as the environment says; the
-- failure is caught and logged. What the storage holds under a key is given as the state that
-- parsing it yields, `none` where nothing is stored or it does not parse to a queue.
use fieldpro_pilot.Base.{
  ℕ, Bool, ◌||◌, Option, none, some, List, [], ◌∷◌, ◌++◌, if◌then◌else◌, Text, text, is_empty,
}
use fieldpro_pilot.Base.Dict.{lookup, insert, remove}
use fieldpro_pilot.Queue.{QueueState, default_state}
pub mod Laws

pub record World : Type 0 where
  pub memory : List (Text × QueueState)
  pub storage : List (Text × QueueState)
  pub notified : List (Text × QueueState)

-- What a call meets: the clock, and whether the storage accepts a write.
pub record Env : Type 0 where
  pub now : ℕ
  pub writable : Bool

unfoldable pub get_queue_key : Text → Text → Text
get_queue_key tenant_id oid = text "fieldpro-offline-queue:" ++ tenant_id ++ text ":" ++ oid

-- the key, unless `!tenantId || !oid`
unfoldable pub identity_key : Option Text → Option Text → Option Text
unfolding get_queue_key
identity_key none oid = none
identity_key (some t) none = none
identity_key (some t) (some o) = if is_empty t || is_empty o then none else some (get_queue_key t o)

unfoldable pub notify_subscribers : Text → QueueState → World → World
notify_subscribers key state w = record w { notified = (key, state) ∷ w.notified }

unfoldable pub persist_state : Env → Text → QueueState → World → World
persist_state env key state w = record w {
  memory = insert key state w.memory;
  storage = if env.writable then insert key state w.storage else w.storage;
}

-- `loadQueueForUser` at a key: memory first, then the storage, which fills the memory
unfoldable pub load_key : Text → World → World × QueueState
load_key key w = elim (lookup key w.memory) [
  | some state ↦ (w, state)
  | none ↦ elim (lookup key w.storage) [
    | some state ↦ (record w { memory = insert key state w.memory }, state)
    | none ↦ (w, default_state)
  ]
]

unfoldable pub load_queue_for_user : Option Text → Option Text → World → World × QueueState
load_queue_for_user tenant_id oid w = elim (identity_key tenant_id oid) [
  | none ↦ (w, default_state)
  | some key ↦ load_key key w
]

-- `persistState` and `notifySubscribers`, as every write ends
unfoldable pub commit : Env → Text → QueueState → World → World
unfolding notify_subscribers persist_state
commit env key state w = notify_subscribers key state (persist_state env key state w)

-- without the cache of today's route, which another module keeps
unfoldable pub clear_offline_state_for_user :
    Env → Option Text → Option Text → World → World × QueueState
clear_offline_state_for_user env tenant_id oid w = elim (identity_key tenant_id oid) [
  | none ↦ (w, default_state)
  | some key ↦
      let empty = record default_state { last_updated_at = some env.now } in
      (
        notify_subscribers key empty
            (record w { memory = insert key empty w.memory; storage = remove key w.storage }),
        empty,
      )
]
