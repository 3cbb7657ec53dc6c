-- ===== src/Queue/Store/Laws.antt =====
-- Reading a user's queue back after a write, and the queues of other users.
use fieldpro_pilot.Base.{
  ◌≡◌, inl, inr, false, arith, Option-cases, Text, eq_text, eq_text_iff, eq_text_refl,
}
use fieldpro_pilot.Base.Dict.{lookup, lookup-insert}
use fieldpro_pilot.Queue.{QueueState}
use fieldpro_pilot.Queue.Store.{World, Env, load_key, commit}

-- The queue that a user with this key sees.
abbrev pub view : Text → World → QueueState
view key w = (load_key key w).1

-- What was written is read back, also where the storage refused it.
pub view-commit :
    (env : Env) (key : Text) (s : QueueState) (w : World) → view key (commit env key s w) ≡ s
unfolding load_key commit
view-commit env key s w = ground (arith, lookup-insert key key s w.memory, eq_text_refl key)

pub view-commit_ne :
    (env : Env) (key other : Text) (s : QueueState) (w : World)
    → eq_text key other ≡ false
    → view other (commit env key s w) ≡ view other w
unfolding load_key commit
view-commit_ne env key other s w h =
    ground (arith, lookup-insert key other s w.memory, lookup-insert key other s w.storage)

-- Filling the memory from the storage changes nobody's queue.
pub view-load : (key other : Text) (w : World) → view other (load_key key w).0 ≡ view other w
unfolding load_key
view-load key other w = elim (Option-cases (lookup key w.storage)) [
  | inl e ↦ ground arith
  | inr (s, e) ↦ ground (arith, lookup-insert key other s w.memory, eq_text_iff key other)
]
