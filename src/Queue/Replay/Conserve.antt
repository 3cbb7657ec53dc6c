-- ===== src/Queue/Replay/Conserve.antt =====
-- What a replay leaves of the queue, whatever the executors return or throw.
use fieldpro_pilot.Base.{
  ℕ, ◌≤◌, ◌≡◌, refl, subst, ◌∙◌, inl, inr, Bool, true, false, ◌||◌, Option, none, some, List, [],
  ◌∷◌, arith, any, map, All, ltb, Bool-cases, Option-cases, Text, eq_text, map-update_first,
  All-update_first,
}
use fieldpro_pilot.Queue.{
  Action, ActionType, Payload, QueueState, Status, pending, running, done, failed, conflict,
}
use fieldpro_pilot.Queue.Store.{World, Env, identity_key, load_key, commit}
use fieldpro_pilot.Queue.Store.Laws.{view, view-commit, view-commit_ne, view-load}
use fieldpro_pilot.Queue.Update.{has_id, set_status, update_key, require_auth_key, same_flag}
use fieldpro_pilot.Queue.Replay.{
  Failure, Outcome, returned, threw, Executors, Verdict, stop_for_auth, stop_for_network,
  already_complete, already_skipped, photo_missing, fatal, rejected, classify, retries, retry_later,
  act, settle, replay_action, replay_loop, run_replay, sorted_pending,
}

-- An invariant of the writes that a replay makes is an invariant of the replay.
module _ {ℓ} (P : World → Type ℓ) (env : Env) (key : Text) (executors : Executors)
    (updates : (id : Text) (status : Status) (error : Option Text) (w : World)
      → P w
      → P (update_key env key id status error w).0)
    (flags : (b : Bool) (w : World) → P w → P (require_auth_key env key b w).0)
    (retried : (a : Action) (m : Text) (w : World)
      → ltb (retries a) 3 ≡ true
      → P w
      → P (retry_later env key a m w))
    (executed : (t : ActionType) (execute : Action → World → World × Outcome) (a : Action)
        (w : World)
      → executors t ≡ some execute
      → P w
      → P (execute a w).0) where
  act-keeps :
      (a : Action) (f : Failure) (v : Verdict) (w : World) → P w → P (act env key a f v w).world
  unfolding act
  act-keeps a f stop_for_auth w h = updates a.id pending none _ (flags true w h)
  act-keeps a f photo_missing w h = elim (Bool-cases (ltb (retries a) 3)) [
    | inl e ↦ rw e (retried a f.message w e h)
    | inr e ↦ rw e (updates a.id failed (some f.message) w h)
  ]
  act-keeps a f stop_for_network w h = updates a.id pending none w h
  act-keeps a f already_complete w h = updates a.id done none w h
  act-keeps a f already_skipped w h = updates a.id done none w h
  act-keeps a f (fatal code) w h = updates a.id conflict (some code) w h
  act-keeps a f (rejected message) w h = updates a.id failed (some message) w h

  settle-keeps : (a : Action) (o : Outcome) (w : World) → P w → P (settle env key a o w).world
  unfolding settle
  settle-keeps a returned w h = updates a.id done none w h
  settle-keeps a (threw f) w h = act-keeps a f (classify f) w h

  replay_action-keeps :
      (a : Action) (w : World) → P w → P (replay_action env key executors a w).world
  unfolding replay_action
  replay_action-keeps a w h = elim (Option-cases (executors a.type)) [
    | inl e ↦ rw (e, replay_action) h
    | inr (execute, e) ↦
        rw (e, replay_action)
          (settle-keeps a (execute a (update_key env key a.id running none w).0).1 _
            (executed a.type execute a _ e (updates a.id running none w h)))
  ]

  pub replay_loop-keeps :
      (actions : List Action) (b : Bool) (w : World)
      → P w
      → P (replay_loop env key executors actions b w).0
  unfolding replay_loop
  replay_loop-keeps [] b w h = h
  replay_loop-keeps (a ∷ actions) b w h =
      let step = replay_action env key executors a w in
      elim (Bool-cases step.break) [
        | inl e ↦ rw e (replay_action-keeps a w h)
        | inr e ↦
            rw e (
              replay_loop-keeps actions (b || step.completed) step.world
                (replay_action-keeps a w h))
      ]

-- What no write of a replay may change of an action.
pub record Request : Type 0 where
  pub id : Text
  pub type : ActionType
  pub stop : Option Text
  pub created_at : ℕ
  pub payload : Payload

abbrev pub request : Action → Request
request a = record {
  id = a.id;
  type = a.type;
  stop = a.route_run_stop_id;
  created_at = a.created_at;
  payload = a.payload;
}

-- The queue of `key` holds these requests, each action was retried at most three times, and the
-- queue of `other` is this one.
pub record Kept (key : Text) (requests : List Request) (other : Text) (theirs : QueueState)
    (w : World) : Type 0 where
  pub same_requests : map request (view key w).actions ≡ requests
  pub few_retries : All (λ a. retries a ≤ 3) (view key w).actions
  pub same_other : view other w ≡ theirs

module _ (env : Env) (key : Text) (requests : List Request) (other : Text) (theirs : QueueState)
    (apart : eq_text key other ≡ false) where
  abbrev K : World → Type 0
  K = Kept key requests other theirs

  load-Kept : (w : World) → K w → K (load_key key w).0
  load-Kept w k = record {
    same_requests = rw (view-load key key w) k.same_requests;
    few_retries = rw (view-load key key w) k.few_retries;
    same_other = view-load key other w ∙ k.same_other;
  }

  -- A write of actions that carry the same requests.
  commit-Kept :
      (s : QueueState) (w : World)
      → map request s.actions ≡ requests
      → All (λ a. retries a ≤ 3) s.actions
      → K w
      → K (commit env key s w)
  commit-Kept s w h r k = record {
    same_requests = rw (view-commit env key s w) h;
    few_retries = rw (view-commit env key s w) r;
    same_other = view-commit_ne env key other s w apart ∙ k.same_other;
  }

  update_key-Kept :
      (id : Text) (status : Status) (error : Option Text) (w : World)
      → K w
      → K (update_key env key id status error w).0
  unfolding update_key set_status
  update_key-Kept id status error w k =
      elim (Bool-cases (any (has_id id) (load_key key w).1.actions)) [
        | inl e ↦ rw e (
            commit-Kept _ _
              (map-update_first request (has_id id) _ (view key w).actions (λ x. refl)
                ∙ k.same_requests)
              (All-update_first (λ a. retries a ≤ 3) (has_id id) _ (view key w).actions (λ x p. p)
                k.few_retries)
              (load-Kept w k))
        | inr e ↦ rw e (load-Kept w k)
      ]

  require_auth_key-Kept : (b : Bool) (w : World) → K w → K (require_auth_key env key b w).0
  unfolding require_auth_key
  require_auth_key-Kept b w k = elim (Bool-cases (same_flag (load_key key w).1.requires_auth b)) [
    | inl e ↦ rw e (load-Kept w k)
    | inr e ↦ rw e (commit-Kept _ _ k.same_requests k.few_retries (load-Kept w k))
  ]

  retry_later-Kept :
      (a : Action) (m : Text) (w : World)
      → ltb (retries a) 3 ≡ true
      → K w
      → K (retry_later env key a m w)
  unfolding retry_later
  retry_later-Kept a m w h k = elim (Bool-cases (any (has_id a.id) (load_key key w).1.actions)) [
    | inl e ↦ rw e (
        commit-Kept _ _
          (map-update_first request (has_id a.id) _ (view key w).actions (λ x. refl)
            ∙ k.same_requests)
          (All-update_first (λ b. retries b ≤ 3) (has_id a.id) _ (view key w).actions
            (λ x p. ground arith) k.few_retries)
          (load-Kept w k))
    | inr e ↦ rw e (load-Kept w k)
  ]

-- An executor that leaves every queue as it is; it may do anything else.
abbrev pub Quiet : Option (Action → World → World × Outcome) → Type 0
Quiet none = Unit {0}
Quiet (some execute) = (a : Action) (w : World) (k : Text) → view k (execute a w).0 ≡ view k w

abbrev pub IsQuiet : Executors → Type 0
IsQuiet executors = (t : ActionType) → Quiet (executors t)

quiet_at :
    (executors : Executors) (t : ActionType) (execute : Action → World → World × Outcome)
    → IsQuiet executors
    → executors t ≡ some execute
    → (a : Action) (w : World) (k : Text) → view k (execute a w).0 ≡ view k w
quiet_at executors t execute quiet e = subst Quiet e (quiet t)

-- For a user with an identity, and executors that leave the queues alone, whatever they return or
-- throw: a replay keeps every action of the user's queue with its id, type, stop, time and payload, in
-- place; if no count of retries was above three, none is afterwards; and the queue of any other user
-- is not changed.
pub run_replay-Kept :
    (env : Env) (tenant_id oid : Option Text) (executors : Executors) (key other : Text) (w : World)
    → identity_key tenant_id oid ≡ some key
    → eq_text key other ≡ false
    → IsQuiet executors
    → All (λ a. retries a ≤ 3) (view key w).actions
    → Kept key
        (map request (view key w).actions)
        other
        (view other w)
        (run_replay env tenant_id oid executors w).0
unfolding run_replay
run_replay-Kept env tenant_id oid executors key other w e apart quiet few =
    let requests = map request (view key w).actions in
    let theirs = view other w in
    let start : Kept key requests other theirs w = record {
      same_requests = refl;
      few_retries = few;
      same_other = refl;
    } in
    rw (e, run_replay)
      (replay_loop-keeps (Kept key requests other theirs) env key executors
        (update_key-Kept env key requests other theirs apart)
        (require_auth_key-Kept env key requests other theirs apart)
        (retry_later-Kept env key requests other theirs apart)
        (λ t execute a v f k. record {
          same_requests = rw (quiet_at executors t execute quiet f a v key) k.same_requests;
          few_retries = rw (quiet_at executors t execute quiet f a v key) k.few_retries;
          same_other = quiet_at executors t execute quiet f a v other ∙ k.same_other;
        })
        (sorted_pending (load_key key w).1.actions) false (load_key key w).0
        (load-Kept env key requests other theirs apart w start))
