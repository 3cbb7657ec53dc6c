-- ===== src/Sync/Refused.antt =====
-- What a replay makes of an answer that is not ok.
use fieldpro_pilot.Base.{
  ℕ, ◌≡◌, refl, ap, sym, subst, inl, inr, ◌⊎◌, false, Option, none, some, ltb, Bool-cases, List,
  Text, text, eq_text, any,
}
use fieldpro_pilot.Queue.{
  Action, ActionType, start_stop, upload_stop_photos, skip_stop_with_hazard, complete_stop, other,
  Status, failed, running,
}
use fieldpro_pilot.Queue.Store.{World, Env, load_key}
use fieldpro_pilot.Queue.Store.Laws.{view, view-commit, view-load}
use fieldpro_pilot.Queue.Update.{has_id, update_key}
use fieldpro_pilot.Queue.Replay.{
  Failure, Verdict, photo_missing, rejected, classify, retries, retry_later, Step, mark, act,
  settle, replay_action, Executors, Outcome,
}
use fieldpro_pilot.Sync.Errors.{
  Thrown, plain_error, failure_of, is_auth_error, is_network_error, parse_api_error_code, status_of,
}
use fieldpro_pilot.Sync.Api.{
  said, answered, is_ok, or_else, call, refusal, start_route_run_stop, complete_stop_call,
  skip_route_run_stop_with_hazard,
}
use fieldpro_pilot.Sync.Executor.{
  Attempt, photo_catch, complete_phrases, skip_phrases, has_phrase, conflict_catch, execute_start,
  execute_complete, execute_skip, Remote, outcome_of, execute, executor_map,
}

-- The queue retries the action, or gives it up.
abbrev pub IsRefused : Verdict → Type 0
IsRefused v = (v ≡ photo_missing) ⊎ ((m : Text) × (v ≡ rejected m))

abbrev said_so : Text → Thrown
said_so m = plain_error (text "Error") m

classify-plain : (m : Text) → IsRefused (classify (failure_of (said_so m)))
unfolding classify failure_of is_auth_error is_network_error parse_api_error_code status_of eq_text
classify-plain m = elim (Bool-cases (eq_text m (text "RETRY_NEEDED_PHOTO_MISSING"))) [
  | inl e ↦ rw e (inl refl)
  | inr e ↦ rw e (inr (m, refl))
]

-- an answer that is not ok, with an error in its body
abbrev pub not_ok : ℕ → Option Text → Attempt
not_ok status error = record { token_error = none; answer = answered status (said error) }

-- What an executor throws is some plain error.
abbrev ThrowsPlain : Option Thrown → Type 0
ThrowsPlain result = (m : Text) × (result ≡ some (said_so m))

photo_catch-plain :
    (phrases : List Text) (m : Text) → ThrowsPlain (some (photo_catch phrases (said_so m)))
photo_catch-plain phrases m = elim (Bool-cases (has_phrase phrases m)) [
  | inl e ↦ (text "RETRY_NEEDED_PHOTO_MISSING", rw e)
  | inr e ↦ (m, rw e)
]

execute_start-plain :
    (status : ℕ) (error : Option Text)
    → is_ok status ≡ false
    → ThrowsPlain (execute_start (not_ok status error))
unfolding execute_start start_route_run_stop conflict_catch call refusal
execute_start-plain status error h = (or_else error (text "Failed to start stop"), rw h)

execute_complete-plain :
    (status : ℕ) (error : Option Text)
    → is_ok status ≡ false
    → ThrowsPlain (execute_complete (not_ok status error))
unfolding execute_complete complete_stop_call call refusal
execute_complete-plain status error h =
    rw h (photo_catch-plain complete_phrases (or_else error (text "Failed to complete stop")))

execute_skip-plain :
    (status : ℕ) (error : Option Text)
    → is_ok status ≡ false
    → ThrowsPlain (execute_skip (not_ok status error))
unfolding execute_skip skip_route_run_stop_with_hazard call refusal
execute_skip-plain status error h =
    rw h (photo_catch-plain skip_phrases (or_else error (text "Failed to skip stop")))

-- The three kinds of action that change a stop.
abbrev pub IsStopAction : ActionType → Type 0
IsStopAction start_stop = Unit {0}
IsStopAction complete_stop = Unit {0}
IsStopAction skip_stop_with_hazard = Unit {0}
IsStopAction upload_stop_photos = ⊥
IsStopAction (other name) = ⊥

-- A write of a status keeps the flag that asks for a login.
update_key-flag :
    (env : Env) (key id : Text) (status : Status) (error : Option Text) (w : World)
    → (view key (update_key env key id status error w).0).requires_auth ≡ (view key w).requires_auth
unfolding update_key
update_key-flag env key id status error w =
    elim (Bool-cases (any (has_id id) (load_key key w).1.actions)) [
      | inl e ↦ rw (e, view-commit env key)
      | inr e ↦ rw (e, view-load key key w)
    ]

retry_later-flag :
    (env : Env) (key : Text) (a : Action) (m : Text) (w : World)
    → (view key (retry_later env key a m w)).requires_auth ≡ (view key w).requires_auth
unfolding retry_later
retry_later-flag env key a m w = elim (Bool-cases (any (has_id a.id) (load_key key w).1.actions)) [
  | inl e ↦ rw (e, view-commit env key)
  | inr e ↦ rw (e, view-load key key w)
]

-- The replay goes on, no stop counts as finished, and no login is asked for.
abbrev pub GoesOn : Text → World → Step → Type 0
GoesOn key w step =
    (step.break ≡ false)
    × (step.completed ≡ false)
    × ((view key step.world).requires_auth ≡ (view key w).requires_auth)

act-refused :
    (env : Env) (key : Text) (a : Action) (f : Failure) (v : Verdict) (w : World)
    → IsRefused v
    → GoesOn key w (act env key a f v w)
unfolding act
act-refused env key a f v w (inl e) = rw e (
  refl,
  refl,
  (elim (Bool-cases (ltb (retries a) 3)) [
    | inl few ↦ rw few (retry_later-flag env key a f.message w)
    | inr many ↦ rw many (update_key-flag env key a.id failed (some f.message) w)
  ]),
)
act-refused env key a f v w (inr (m, e)) =
    rw e (refl, refl, update_key-flag env key a.id failed (some m) w)

settle-plain :
    (env : Env) (key : Text) (a : Action) (result : Option Thrown) (w : World)
    → ThrowsPlain result
    → GoesOn key w (settle env key a (outcome_of result) w)
unfolding settle outcome_of
settle-plain env key a result w (m, e) = rw e (act-refused env key a _ _ w (classify-plain m))

-- an action whose type has an executor
pub replay_action-some :
    (env : Env) (key : Text) (executors : Executors) (action : Action) (w : World)
    (run : Action → World → World × Outcome)
    → executors action.type ≡ some run
    → replay_action env key executors action w
      ≡ settle env key action
          (run action (mark env key action running none w)).1
          (run action (mark env key action running none w)).0
unfolding replay_action
replay_action-some env key executors action w run e = rw (e, replay_action)

module _ (env : Env) (key : Text) (remote : Remote) (action : Action) (w : World) where
  abbrev tried : World × Attempt
  tried = remote.attempt action (mark env key action running none w)

  run-GoesOn :
      (run : Action → Attempt → Option Thrown) (t : Attempt)
      → tried.1 ≡ t
      → executor_map remote action.type ≡ some (λ a w. execute remote run a w)
      → ThrowsPlain (run action t)
      → GoesOn key tried.0 (replay_action env key (executor_map remote) action w)
  unfolding execute
  run-GoesOn run t e found plain =
      subst (GoesOn key tried.0)
        (sym (
          replay_action-some env key (executor_map remote) action w (λ a w. execute remote run a w)
            found))
        (rw e (settle-plain env key action (run action t) tried.0 plain))

  executed-refused :
      (t : ActionType) (status : ℕ) (error : Option Text)
      → IsStopAction t
      → action.type ≡ t
      → tried.1 ≡ not_ok status error
      → is_ok status ≡ false
      → GoesOn key tried.0 (replay_action env key (executor_map remote) action w)
  unfolding executor_map
  executed-refused start_stop status error i h e bad =
      run-GoesOn (λ a t. execute_start t) _ e (ap (executor_map remote) h)
        (execute_start-plain status error bad)
  executed-refused complete_stop status error i h e bad =
      run-GoesOn (λ a t. execute_complete t) _ e (ap (executor_map remote) h)
        (execute_complete-plain status error bad)
  executed-refused skip_stop_with_hazard status error i h e bad =
      run-GoesOn (λ a t. execute_skip t) _ e (ap (executor_map remote) h)
        (execute_skip-plain status error bad)
  executed-refused upload_stop_photos status error i h e bad = absurd i
  executed-refused (other name) status error i h e bad = absurd i

-- When the server answers the request of a start, a completion or a skip with a status that is not
-- ok, 401, 403 and 409 included, and a JSON body, with an error text or without: the replay goes on
-- with the next action, counts no stop as finished, and does not ask for a login. An empty body, or
-- one that is no JSON, is not meant: it is taken for an error of the network.
pub replay_action-not_ok :
    (env : Env) (key : Text) (remote : Remote) (action : Action) (w : World) (status : ℕ)
    (error : Option Text)
    → IsStopAction action.type
    → (remote.attempt action (mark env key action running none w)).1 ≡ not_ok status error
    → is_ok status ≡ false
    → GoesOn key
        (remote.attempt action (mark env key action running none w)).0
        (replay_action env key (executor_map remote) action w)
replay_action-not_ok env key remote action w status error i e bad =
    executed-refused env key remote action w action.type status error i refl e bad
