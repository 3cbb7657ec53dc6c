-- ===== src/Corridor/Runs/Conserve.antt =====
-- The loops of `refineCorridorRuns` and `enforceCorridorSanity` return, and lose no stop.
use fieldpro_pilot.Base.{
  ℕ, zero, suc, ◌≤◌, ◌≡◌, refl, ap, inl, inr, ◌||◌, some, List, [], ◌∷◌, ◌++◌, arith, subst, length,
  length-append, Bool-cases, Option-cases, Text, is_empty,
}
use fieldpro_pilot.Base.Sort.{sort_by-perm}
use mathlib.Core.List.{Perm}
use mathlib.Core.List.Perm
use fieldpro_pilot.Corridor.{
  Stop, street, bearing, in_order, resolve_run_meta, Fraction, less, score_monotonic_run,
}
use fieldpro_pilot.Corridor.Regroup.{same_corridor}
use fieldpro_pilot.Corridor.Runs.{
  split_run, over_runs, refine_run, refine_corridor_runs, sanity_run, enforce_corridor_sanity,
}

pub split_run-append :
    (start : Stop) (ps : List Stop) → (split_run start ps).0 ++ (split_run start ps).1 ≡ ps
unfolding split_run
split_run-append start [] = refl
split_run-append start (p ∷ ps) = elim (Bool-cases (same_corridor start p)) [
  | inl e ↦ rw (e, split_run-append start ps)
  | inr e ↦ rw e
]

pub length-split_run : (start : Stop) (ps : List Stop) → length (split_run start ps).1 ≤ length ps
length-split_run start ps = omega (
  arith,
  ap length (split_run-append start ps),
  length-append (split_run start ps).0 (split_run start ps).1,
)

module _ (correct : List Stop → Text → List Stop)
    (keeps : (run : List Stop) (b : Text) → Perm (correct run b) run) where
  over_runs-perm :
      (fuel : ℕ) (stops : List Stop)
      → length stops ≤ fuel
      → (out : List Stop) × (over_runs correct fuel stops ≡ some out) × Perm out stops
  unfolding over_runs
  over_runs-perm fuel [] h = ([], refl, Perm.refl [])
  over_runs-perm zero (start ∷ rest) h = absurd (omega arith)
  over_runs-perm (suc fuel) (start ∷ rest) h =
      elim (Bool-cases (is_empty (street start) || is_empty (bearing start))) [
        | inl e ↦
            let (out, ends, same) = over_runs-perm fuel rest (omega arith) in
            (start ∷ out, rw (e, ends), Perm.cons start same)
        | inr e ↦
            let cut = split_run start rest in
            let (out, ends, same) =
              over_runs-perm fuel cut.1 (omega (arith, length-split_run start rest)) in
            let run = correct (start ∷ cut.0) (bearing start) in
            (
              run ++ out,
              rw (e, ends),
              subst (λ ps. Perm (run ++ out) (start ∷ ps)) (split_run-append start rest)
                  (Perm.append (keeps (start ∷ cut.0) (bearing start)) same),
            )
      ]

pub refine_run-perm : (run : List Stop) (b : Text) → Perm (refine_run run b) run
unfolding refine_run
refine_run-perm [] b = Perm.refl []
refine_run-perm (p ∷ []) b = Perm.refl (p ∷ [])
refine_run-perm (p ∷ q ∷ rest) b = elim (Option-cases (resolve_run_meta (p ∷ q ∷ rest) b)) [
  | inl e ↦ rw (e, refine_run) (Perm.refl _)
  | inr (m, e) ↦ rw (e, refine_run) (sort_by-perm (in_order m) (p ∷ q ∷ rest))
]

sanity_run-perm :
    (threshold : Fraction) (run : List Stop) (b : Text) → Perm (sanity_run threshold run b) run
unfolding sanity_run
sanity_run-perm t [] b = Perm.refl []
sanity_run-perm t (p ∷ []) b = Perm.refl (p ∷ [])
sanity_run-perm t (p ∷ q ∷ rest) b = elim (Option-cases (resolve_run_meta (p ∷ q ∷ rest) b)) [
  | inl e ↦ rw (e, sanity_run) (Perm.refl _)
  | inr (m, e) ↦ elim (Bool-cases (less (score_monotonic_run (p ∷ q ∷ rest) b) t)) [
    | inl f ↦ rw (e, sanity_run, f) (sort_by-perm (in_order m) (p ∷ q ∷ rest))
    | inr f ↦ rw (e, sanity_run, f) (Perm.refl _)
  ]
]

-- `refineCorridorRuns` returns for every input, and only changes the order of the stops.
pub refine_corridor_runs-perm :
    (stops : List Stop)
    → (out : List Stop) × (refine_corridor_runs stops ≡ some out) × Perm out stops
unfolding refine_corridor_runs
refine_corridor_runs-perm stops =
    over_runs-perm refine_run refine_run-perm (length stops) stops (omega arith)

-- `enforceCorridorSanity` returns for every input and threshold, and only changes the order.
pub enforce_corridor_sanity-perm :
    (stops : List Stop) (threshold : Fraction)
    → (out : List Stop) × (enforce_corridor_sanity stops threshold ≡ some out) × Perm out stops
unfolding enforce_corridor_sanity
enforce_corridor_sanity-perm stops threshold =
    over_runs-perm (sanity_run threshold) (sanity_run-perm threshold) (length stops) stops
      (omega arith)
