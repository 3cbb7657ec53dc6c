-- ===== src/Sync/Drained.antt =====
-- A replay whose executors all return leaves no action pending.
use fieldpro_pilot.Base.{
  ◌≡◌, refl, ap, sym, subst, ◌∙◌, inl, inr, Bool, true, false, ◌||◌, Option, none, some, List, [],
  ◌∷◌, arith, map, any, All, Bool-cases, Option-cases, Text, eq_text, eq_text_iff, eq_text_refl,
  if◌then◌else◌,
}
use fieldpro_pilot.Base.Sort.{any-sort_by, sort_by-All}
use fieldpro_pilot.Queue.{Action, QueueState, Status, running, done, is_pending}
use fieldpro_pilot.Queue.Store.{World, Env, identity_key, load_key}
use fieldpro_pilot.Sync.Refused.{replay_action-some}
use fieldpro_pilot.Queue.Store.Laws.{view, view-commit, view-load}
use fieldpro_pilot.Queue.Update.{has_id, set_status, update_key, pending_of}
use fieldpro_pilot.Queue.Replay.{
  Outcome, returned, Executors, Step, settle, replay_action, replay_loop, run_replay,
  sorted_pending, replay_before,
}

-- No two actions have the same id.
abbrev pub Distinct : List Action → Type 0
Distinct [] = Unit {0}
Distinct (a ∷ actions) = All (λ b. eq_text b.id a.id ≡ false) actions × Distinct actions

-- the action with a new status if it has this id
unfoldable mark_one : Text → Status → Action → Action
mark_one id status a = if has_id id a then record a { status = status; last_error = none } else a

mark_one_id : (id : Text) (status : Status) (a : Action) → (mark_one id status a).id ≡ a.id
unfolding mark_one
mark_one_id id status a = elim (Bool-cases (has_id id a)) [ inl e ↦ rw e | inr e ↦ rw e ]

unmarked :
    (id : Text) (status : Status) (actions : List Action)
    → All (λ b. eq_text b.id id ≡ false) actions
    → map (mark_one id status) actions ≡ actions
unfolding has_id mark_one
unmarked id status [] h = refl
unmarked id status (a ∷ actions) (n, h) = rw (n, unmarked id status actions h)

set_status-map :
    (id : Text) (status : Status) (actions : List Action)
    → Distinct actions
    → set_status id status none actions ≡ map (mark_one id status) actions
unfolding set_status has_id mark_one
set_status-map id status [] d = refl
set_status-map id status (a ∷ actions) (n, d) = elim (Bool-cases (eq_text a.id id)) [
  | inl e ↦
      let same : All (λ b. eq_text b.id id ≡ false) actions =
        subst (λ i. All (λ b. eq_text b.id i ≡ false) actions) ((eq_text_iff a.id id).0 e) n in
      rw (e, unmarked id status actions same)
  | inr e ↦ rw (e, set_status-map id status actions d)
]

All-map :
    (P Q : Action → Type 0) (f : Action → Action) (actions : List Action)
    → ((a : Action) → P a → Q (f a))
    → All P actions
    → All Q (map f actions)
All-map P Q f [] h p = tt
All-map P Q f (a ∷ actions) h (p, ps) = (h a p, All-map P Q f actions h ps)

map-Distinct :
    (id : Text) (status : Status) (actions : List Action)
    → Distinct actions
    → Distinct (map (mark_one id status) actions)
map-Distinct id status [] d = tt
map-Distinct id status (a ∷ actions) (n, d) = (
  All-map (λ b. eq_text b.id a.id ≡ false) (λ b. eq_text b.id (mark_one id status a).id ≡ false)
      (mark_one id status) actions (λ b h. rw (mark_one_id id status a, mark_one_id id status b) h)
      n,
  map-Distinct id status actions d,
)

-- A pending action is among those that are left to execute.
abbrev Waits : List Action → Action → Type 0
Waits left a = is_pending a.status ≡ true → any (λ t. eq_text a.id t.id) left ≡ true

mark_one-Waits :
    (x : Action) (left : List Action) (a : Action)
    → Waits (x ∷ left) a
    → Waits left (mark_one x.id done (mark_one x.id running a))
unfolding mark_one has_id
mark_one-Waits x left a h = elim (Bool-cases (eq_text a.id x.id)) [
  | inl e ↦ rw (e, e) (λ k. absurd (ground arith))
  | inr e ↦
      rw (e, e)
        (λ k.
          let either : (eq_text a.id x.id || any (λ t. eq_text a.id t.id) left) ≡ true = h k in
          ground arith)
]

-- What a replay holds on to while `left` is still to be executed.
Ready : List Action → List Action → Type 0
Ready left actions = Distinct actions × All (Waits left) actions

finish-Ready :
    (x : Action) (left actions : List Action)
    → Ready (x ∷ left) actions
    → Ready left (map (mark_one x.id done) (map (mark_one x.id running) actions))
unfolding Ready
finish-Ready x left actions (d, waits) = (
  map-Distinct x.id done _ (map-Distinct x.id running actions d),
  All-map (λ a. Waits left (mark_one x.id done a)) (Waits left) (mark_one x.id done) _ (λ a h. h)
      (All-map (Waits (x ∷ left)) (λ a. Waits left (mark_one x.id done a)) (mark_one x.id running)
        actions (mark_one-Waits x left) waits),
)

none_with_id :
    (id : Text) (actions : List Action)
    → any (has_id id) actions ≡ false
    → All (λ b. eq_text b.id id ≡ false) actions
unfolding has_id
none_with_id id [] h = tt
none_with_id id (a ∷ actions) h = (ground arith, none_with_id id actions (ground arith))

-- Writing a status, as the user sees the queue.
view-update_key :
    (env : Env) (key id : Text) (status : Status) (w : World)
    → Distinct (view key w).actions
    → (view key (update_key env key id status none w).0).actions
      ≡ map (mark_one id status) (view key w).actions
unfolding update_key
view-update_key env key id status w d =
    elim (Bool-cases (any (has_id id) (load_key key w).1.actions)) [
      | inl e ↦ rw (e, view-commit env key) (set_status-map id status (view key w).actions d)
      | inr e ↦
          rw (e, view-load key key w)
            (sym (unmarked id status (view key w).actions (none_with_id id (view key w).actions e)))
    ]

-- For this action there is an executor that returns, and leaves this queue as it is.
abbrev pub Works : Text → Action → Option (Action → World → World × Outcome) → Type 0
Works key a none = ⊥
Works key a (some execute) =
    (w : World) → ((execute a w).1 ≡ returned) × (view key (execute a w).0 ≡ view key w)

module _ (env : Env) (key : Text) (executors : Executors) where
  ReadyAt : List Action → World → Type 0
  ReadyAt left w = Ready left (view key w).actions

  executed-Ready :
      (x : Action) (left : List Action) (execute : Action → World → World × Outcome) (w : World)
      → Works key x (some execute)
      → ReadyAt (x ∷ left) w
      → ReadyAt left
          (update_key env key x.id done none
            (execute x (update_key env key x.id running none w).0).0).0
  unfolding Ready ReadyAt
  executed-Ready x left execute w works (d, waits) =
      let w1 = (update_key env key x.id running none w).0 in
      let first = view-update_key env key x.id running w d in
      let quiet = ap (λ (q : QueueState). q.actions) (works w1).1 ∙ first in
      let d2 = subst Distinct (sym quiet) (map-Distinct x.id running _ d) in
      let both =
        view-update_key env key x.id done (execute x w1).0 d2
        ∙ ap (map (mark_one x.id done)) quiet in
      subst (Ready left) (sym both) (finish-Ready x left (view key w).actions (d, waits))

  -- one round of the loop
  replay_action-Ready :
      (x : Action) (left : List Action) (w : World)
      → Works key x (executors x.type)
      → ReadyAt (x ∷ left) w
      → ((replay_action env key executors x w).break ≡ false)
        × ReadyAt left (replay_action env key executors x w).world
  unfolding settle
  replay_action-Ready x left w works ready = elim (Option-cases (executors x.type)) [
    | inl e ↦ absurd (subst (Works key x) e works)
    | inr (execute, e) ↦
        let good = subst (Works key x) e works in
        let w1 = (update_key env key x.id running none w).0 in
        let step : replay_action env key executors x w
            ≡ settle env key x returned (execute x w1).0 =
          replay_action-some env key executors x w execute e
          ∙ ap (λ o. settle env key x o (execute x w1).0) (good w1).0 in
        subst (λ (s : Step). (s.break ≡ false) × ReadyAt left s.world) (sym step)
          (refl, executed-Ready x left execute w good ready)
  ]

  replay_loop-Ready :
      (todo : List Action) (b : Bool) (w : World)
      → All (λ a. Works key a (executors a.type)) todo
      → ReadyAt todo w
      → ReadyAt [] (replay_loop env key executors todo b w).0
  unfolding replay_loop
  replay_loop-Ready [] b w h ready = ready
  replay_loop-Ready (x ∷ todo) b w (works, h) ready =
      let step = replay_action env key executors x w in
      let (goes_on, next) = replay_action-Ready x todo w works ready in
      rw goes_on (replay_loop-Ready todo (b || step.completed) step.world h next)

-- At the start every pending action is among the sorted ones.
Waits-more : (x : Action) (left : List Action) (a : Action) → Waits left a → Waits (x ∷ left) a
Waits-more x left a h k = let rest = h k in ground arith

not_pending : (s : Status) → (is_pending s ≡ true → false ≡ true) → is_pending s ≡ false
not_pending s h = elim (Bool-cases (is_pending s)) [
  | inl e ↦ let never = h e in absurd cc
  | inr e ↦ e
]

All-imp :
    (P Q : Action → Type 0) (actions : List Action)
    → ((a : Action) → P a → Q a)
    → All P actions
    → All Q actions
All-imp P Q [] h p = tt
All-imp P Q (a ∷ actions) h (p, ps) = (h a p, All-imp P Q actions h ps)

pending_of-Waits : (actions : List Action) → All (Waits (pending_of actions)) actions
unfolding pending_of
pending_of-Waits [] = tt
pending_of-Waits (x ∷ actions) = elim (Bool-cases (is_pending x.status)) [
  | inl e ↦
      let grown : pending_of (x ∷ actions) ≡ x ∷ pending_of actions = rw e in
      subst (λ l. All (Waits l) (x ∷ actions)) (sym grown)
        (
          (λ k. let same = eq_text_refl x.id in ground arith),
          All-imp (Waits (pending_of actions)) (Waits (x ∷ pending_of actions)) actions
              (Waits-more x (pending_of actions)) (pending_of-Waits actions),
        )
  | inr e ↦
      let same : pending_of (x ∷ actions) ≡ pending_of actions = rw e in
      subst (λ l. All (Waits l) (x ∷ actions)) (sym same)
        ((λ k. let open_and_closed = e in absurd (ground arith)), pending_of-Waits actions)
]

sorted_pending-Waits : (actions : List Action) → All (Waits (sorted_pending actions)) actions
unfolding sorted_pending
sorted_pending-Waits actions =
    All-imp (Waits (pending_of actions)) (Waits (sorted_pending actions)) actions
      (λ a h k. any-sort_by replay_before (λ t. eq_text a.id t.id) (pending_of actions) ∙ h k)
      (pending_of-Waits actions)

-- For a user with an identity, whose queued actions have different ids: when each pending action has
-- an executor that returns and leaves the queue alone, then after one replay no action is pending.
pub run_replay-drained :
    (env : Env) (tenant_id oid : Option Text) (executors : Executors) (key : Text) (w : World)
    → identity_key tenant_id oid ≡ some key
    → Distinct (view key w).actions
    → All (λ a. Works key a (executors a.type)) (pending_of (view key w).actions)
    → All
        (λ a. is_pending a.status ≡ false)
        (view key (run_replay env tenant_id oid executors w).0).actions
unfolding run_replay Ready ReadyAt sorted_pending
run_replay-drained env tenant_id oid executors key w e distinct works =
    let actions = (view key w).actions in
    let ready : Ready (sorted_pending actions) (view key (load_key key w).0).actions =
      rw (view-load key key w) (distinct, sorted_pending-Waits actions) in
    let drained =
      replay_loop-Ready env key executors (sorted_pending actions) false (load_key key w).0
        (sort_by-All replay_before (λ a. Works key a (executors a.type)) (pending_of actions) works)
        ready in
    rw (e, run_replay)
      (All-imp (Waits []) (λ a. is_pending a.status ≡ false) _ (λ a h. not_pending a.status h)
        drained.1)
