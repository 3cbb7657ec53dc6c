-- ===== src/Queue/Replay/Stages.antt =====
-- The order in which a replay executes the pending actions.
use fieldpro_pilot.Base.{ℕ, ◌≡◌, refl, false, Option, some, List, [], ◌∷◌, ◌++◌, arith, All, Text}
use fieldpro_pilot.Base.Sort.{IsSorted, sort_by, sort_by-perm, sort_by-IsSorted}
use mathlib.Core.List.{Perm, append-nil}
use fieldpro_pilot.Queue.{
  Action, ActionType, start_stop, upload_stop_photos, skip_stop_with_hazard, complete_stop, other,
}
use fieldpro_pilot.Queue.Update.{pending_of}
use fieldpro_pilot.Queue.Store.{World, Env, identity_key, load_key}
use fieldpro_pilot.Queue.Replay.{
  Executors, action_order, replay_before, sorted_pending, replay_loop, run_replay,
}
use fieldpro_pilot.Queue.Replay.Order.{
  older, rank, ranks, Staged, IsSorted-Staged, replay_before-total, replay_before_trans,
}

-- an action type that the client does not know
abbrev pub IsOther : ActionType → Type 0
IsOther (other name) = Unit
IsOther _ = ⊥

start_of_rank : (t : ActionType) → action_order t ≡ 1 → t ≡ start_stop
unfolding action_order
start_of_rank start_stop e = refl
start_of_rank upload_stop_photos e = absurd (omega (arith, e))
start_of_rank skip_stop_with_hazard e = absurd (omega (arith, e))
start_of_rank complete_stop e = absurd (omega (arith, e))
start_of_rank (other name) e = absurd (omega (arith, e))

upload_of_rank : (t : ActionType) → action_order t ≡ 2 → t ≡ upload_stop_photos
unfolding action_order
upload_of_rank start_stop e = absurd (omega (arith, e))
upload_of_rank upload_stop_photos e = refl
upload_of_rank skip_stop_with_hazard e = absurd (omega (arith, e))
upload_of_rank complete_stop e = absurd (omega (arith, e))
upload_of_rank (other name) e = absurd (omega (arith, e))

skip_of_rank : (t : ActionType) → action_order t ≡ 3 → t ≡ skip_stop_with_hazard
unfolding action_order
skip_of_rank start_stop e = absurd (omega (arith, e))
skip_of_rank upload_stop_photos e = absurd (omega (arith, e))
skip_of_rank skip_stop_with_hazard e = refl
skip_of_rank complete_stop e = absurd (omega (arith, e))
skip_of_rank (other name) e = absurd (omega (arith, e))

complete_of_rank : (t : ActionType) → action_order t ≡ 4 → t ≡ complete_stop
unfolding action_order
complete_of_rank start_stop e = absurd (omega (arith, e))
complete_of_rank upload_stop_photos e = absurd (omega (arith, e))
complete_of_rank skip_stop_with_hazard e = absurd (omega (arith, e))
complete_of_rank complete_stop e = refl
complete_of_rank (other name) e = absurd (omega (arith, e))

other_of_rank : (t : ActionType) → action_order t ≡ 99 → IsOther t
unfolding action_order
other_of_rank start_stop e = absurd (omega (arith, e))
other_of_rank upload_stop_photos e = absurd (omega (arith, e))
other_of_rank skip_stop_with_hazard e = absurd (omega (arith, e))
other_of_rank complete_stop e = absurd (omega (arith, e))
other_of_rank (other name) e = tt

-- The stages of a replay: each holds the actions of one kind, the older first.
pub record InStages (executed : List Action) : Type 0 where
  pub starts : List Action
  pub uploads : List Action
  pub skips : List Action
  pub completes : List Action
  pub others : List Action
  pub in_order : executed ≡ starts ++ (uploads ++ (skips ++ (completes ++ others)))
  pub are_starts : All (λ a. a.type ≡ start_stop) starts
  pub are_uploads : All (λ a. a.type ≡ upload_stop_photos) uploads
  pub are_skips : All (λ a. a.type ≡ skip_stop_with_hazard) skips
  pub are_completes : All (λ a. a.type ≡ complete_stop) completes
  pub are_others : All (λ a. IsOther a.type) others
  pub older_starts : IsSorted older starts
  pub older_uploads : IsSorted older uploads
  pub older_skips : IsSorted older skips
  pub older_completes : IsSorted older completes
  pub older_others : IsSorted older others

of_rank :
    (n : ℕ) (P : ActionType → Type 0) (l : List Action)
    → ((t : ActionType) → action_order t ≡ n → P t)
    → All (λ a. rank a ≡ n) l
    → All (λ a. P a.type) l
of_rank n P [] f h = tt
of_rank n P (a ∷ l) f (h, hs) = (f a.type h, of_rank n P l f hs)

Staged-InStages : (xs : List Action) → Staged ranks xs → InStages xs
Staged-InStages xs
      (
        a,
        r1,
        e1,
        ha,
        sa,
        (b, r2, e2, hb, sb, (c, r3, e3, hc, sc, (d, r4, e4, hd, sd, (o, r5, e5, ho, so, e6)))),
      ) =
    record {
      starts = a;
      uploads = b;
      skips = c;
      completes = d;
      others = o;
      in_order = rw (e1, e2, e3, e4, e5, e6, append-nil o);
      are_starts = of_rank 1 (λ t. t ≡ start_stop) a start_of_rank ha;
      are_uploads = of_rank 2 (λ t. t ≡ upload_stop_photos) b upload_of_rank hb;
      are_skips = of_rank 3 (λ t. t ≡ skip_stop_with_hazard) c skip_of_rank hc;
      are_completes = of_rank 4 (λ t. t ≡ complete_stop) d complete_of_rank hd;
      are_others = of_rank 99 IsOther o other_of_rank ho;
      older_starts = sa;
      older_uploads = sb;
      older_skips = sc;
      older_completes = sd;
      older_others = so;
    }

-- A replay of a user with a tenant id and an oid runs its loop once over the actions that were
-- pending when it began, each as often as it is in the queue, in this order: starts, photo uploads,
-- skips, completions, all other types; within one kind the older first.
pub run_replay-InStages :
    (env : Env) (tenant_id oid : Option Text) (executors : Executors) (w : World) (key : Text)
    → identity_key tenant_id oid ≡ some key
    → (executed : List Action) × InStages executed
      × Perm executed (pending_of (load_key key w).1.actions)
      × run_replay env tenant_id oid executors w
        ≡ replay_loop env key executors executed false (load_key key w).0
unfolding run_replay sorted_pending
run_replay-InStages env tenant_id oid executors w key e =
    let actions = pending_of (load_key key w).1.actions in
    (
      sort_by replay_before actions,
      Staged-InStages (sort_by replay_before actions) (
          IsSorted-Staged (sort_by replay_before actions)
            (sort_by-IsSorted replay_before replay_before-total replay_before_trans actions)),
      sort_by-perm replay_before actions,
      rw (e, run_replay) refl,
    )
