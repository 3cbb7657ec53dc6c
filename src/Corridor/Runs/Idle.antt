-- ===== src/Corridor/Runs/Idle.antt =====
-- After `refineCorridorRuns` the pass of `enforceCorridorSanity` changes nothing.
use fieldpro_pilot.Base.{
  ℕ, zero, suc, ◌<◌, ◌≤◌, ◌≡◌, refl, ap, sym, ◌∙◌, subst, inl, inr, true, false, ◌||◌, some, List,
  [], ◌∷◌, ◌++◌, arith, length, Bool-cases, Option-cases, Text, eq_text_iff, is_empty, some_unique,
  All, length-perm,
}
use fieldpro_pilot.Base.Sort.{sort_by-All}
use fieldpro_pilot.Corridor.{Stop, street, bearing, in_order, resolve_run_meta, Fraction}
use fieldpro_pilot.Corridor.Regroup.{same_corridor}
use fieldpro_pilot.Corridor.Runs.{
  split_run, over_runs, refine_run, refine_corridor_runs, sanity_run, enforce_corridor_sanity,
}
use fieldpro_pilot.Corridor.Runs.Conserve.{
  length-split_run, refine_run-perm, refine_corridor_runs-perm,
}
use fieldpro_pilot.Corridor.Runs.Stable.{sanity_run-refine_run}

-- Two stops of one corridor.
abbrev SameKey : Stop → Stop → Type 0
SameKey a p = (street p ≡ street a) × (bearing p ≡ bearing a)

keys_agree : (a p : Stop) → same_corridor a p ≡ true → SameKey a p
unfolding same_corridor
keys_agree a p h =
    ground (arith, eq_text_iff (street p) (street a), eq_text_iff (bearing p) (bearing a))

same_of_SameKey : (a p : Stop) → SameKey a p → same_corridor a p ≡ true
unfolding same_corridor
same_of_SameKey a p (h, k) =
    ground (arith, eq_text_iff (street p) (street a), eq_text_iff (bearing p) (bearing a))

-- The run of `start` ends before this list.
abbrev Ends : Stop → List Stop → Type 0
Ends start [] = Unit {0}
Ends start (q ∷ qs) = same_corridor start q ≡ false

-- Two lists that are both empty, or begin with stops of one corridor.
abbrev SameHead : List Stop → List Stop → Type 0
SameHead [] [] = Unit {0}
SameHead [] (q ∷ qs) = ⊥
SameHead (p ∷ ps) [] = ⊥
SameHead (p ∷ ps) (q ∷ qs) = SameKey p q

split_run-SameKey : (start : Stop) (ps : List Stop) → All (SameKey start) (split_run start ps).0
unfolding split_run
split_run-SameKey start [] = tt
split_run-SameKey start (p ∷ ps) = elim (Bool-cases (same_corridor start p)) [
  | inl e ↦ rw e (keys_agree start p e, split_run-SameKey start ps)
  | inr e ↦ rw e tt
]

split_run-Ends : (start : Stop) (ps : List Stop) → Ends start (split_run start ps).1
unfolding split_run
split_run-Ends start [] = tt
split_run-Ends start (p ∷ ps) = elim (Bool-cases (same_corridor start p)) [
  | inl e ↦ rw e (split_run-Ends start ps)
  | inr e ↦ rw (e, e)
]

-- A run of one corridor that ends there is cut off whole.
split_run_of :
    (start : Stop) (run after : List Stop)
    → All (SameKey start) run
    → Ends start after
    → split_run start (run ++ after) ≡ (run, after)
unfolding split_run
split_run_of start [] [] _ _ = refl
split_run_of start [] (q ∷ qs) _ h = rw h
split_run_of start (p ∷ run) after (k, ks) h =
    rw (same_of_SameKey start p k, split_run_of start run after ks h)

Ends-SameHead : (start : Stop) (xs ys : List Stop) → Ends start xs → SameHead xs ys → Ends start ys
unfolding same_corridor
Ends-SameHead start [] [] h s = tt
Ends-SameHead start [] (y ∷ ys) h s = absurd s
Ends-SameHead start (x ∷ xs) [] h s = absurd s
Ends-SameHead start (x ∷ xs) (y ∷ ys) h (s, b) = rw (s, b) h

Ends-SameKey : (a b : Stop) (xs : List Stop) → SameKey a b → Ends a xs → Ends b xs
unfolding same_corridor
Ends-SameKey a b [] _ _ = tt
Ends-SameKey a b (x ∷ xs) (s, k) h = rw (s, k) h

refine_run-SameKey :
    (a : Stop) (run : List Stop) (b : Text)
    → All (SameKey a) run
    → All (SameKey a) (refine_run run b)
unfolding refine_run
refine_run-SameKey a [] b h = tt
refine_run-SameKey a (p ∷ []) b h = h
refine_run-SameKey a (p ∷ q ∷ rest) b h = elim (Option-cases (resolve_run_meta (p ∷ q ∷ rest) b)) [
  | inl e ↦ rw (e, refine_run) h
  | inr (m, e) ↦ rw (e, refine_run) (sort_by-All (in_order m) (SameKey a) (p ∷ q ∷ rest) h)
]

keys_agree-All :
    (a b : Stop) (xs : List Stop) → SameKey a b → All (SameKey a) xs → All (SameKey b) xs
keys_agree-All a b [] _ _ = tt
keys_agree-All a b (x ∷ xs) (s, k) ((t, l), h) =
    ((t ∙ sym s, l ∙ sym k), keys_agree-All a b xs (s, k) h)

nonempty : (xs : List Stop) → 0 < length xs → (q : Stop) × (qs : List Stop) × (xs ≡ q ∷ qs)
nonempty [] h = absurd (omega arith)
nonempty (q ∷ qs) h = (q, qs, refl)

-- The loop at a run that is cut off whole.
over_runs_run :
    (correct : List Stop → Text → List Stop) (fuel : ℕ) (q : Stop) (qs after : List Stop)
    {out : List Stop}
    → (is_empty (street q) || is_empty (bearing q)) ≡ false
    → All (SameKey q) qs
    → Ends q after
    → over_runs correct fuel after ≡ some out
    → over_runs correct (suc fuel) (q ∷ (qs ++ after)) ≡ some (correct (q ∷ qs) (bearing q) ++ out)
unfolding over_runs
over_runs_run correct fuel q qs after blank same ends e =
    rw (blank, split_run_of q qs after same ends, e)

abbrev Idle : Fraction → ℕ → List Stop → Type 0
Idle t fuel stops =
    (out : List Stop) × (over_runs refine_run fuel stops ≡ some out)
    × (over_runs (sanity_run t) fuel out ≡ some out)
    × SameHead stops out

module _ (t : Fraction) where
  Idle-from :
      (fuel : ℕ) (start : Stop) (rest : List Stop)
      → (is_empty (street start) || is_empty (bearing start)) ≡ false
      → Idle t fuel (split_run start rest).1
      → Idle t (suc fuel) (start ∷ rest)
  unfolding over_runs
  Idle-from fuel start rest blank (out, refined, idle, head) =
      let cut = split_run start rest in
      let run = refine_run (start ∷ cut.0) (bearing start) in
      let (q, qs, e) =
        nonempty run
          (omega (arith, length-perm (refine_run-perm (start ∷ cut.0) (bearing start)))) in
      let all : All (SameKey start) (q ∷ qs) = subst (All (SameKey start)) e (
        refine_run-SameKey start (start ∷ cut.0) (bearing start)
          ((refl, refl), split_run-SameKey start rest)) in
      let same : SameKey start q = all.0 in
      let ends : Ends q out =
        Ends-SameKey start q out same
          (Ends-SameHead start cut.1 out (split_run-Ends start rest) head) in
      let fixed : sanity_run t (q ∷ qs) (bearing q) ≡ q ∷ qs =
        rw (same.1, ← e) (sanity_run-refine_run t (start ∷ cut.0) (bearing start)) in
      (
        run ++ out,
        rw (blank, refined),
        subst (λ xs. over_runs (sanity_run t) (suc fuel) (xs ++ out) ≡ some (xs ++ out)) (sym e)
            (over_runs_run (sanity_run t) fuel q qs out (rw (same.0, same.1) blank)
                (keys_agree-All start q qs same all.1) ends idle
              ∙ ap (λ xs. some (xs ++ out)) fixed),
        subst (λ xs. SameHead (start ∷ rest) (xs ++ out)) (sym e) same,
      )

  Idle-always : (fuel : ℕ) (stops : List Stop) → length stops ≤ fuel → Idle t fuel stops
  unfolding over_runs
  Idle-always fuel [] h = ([], refl, refl, tt)
  Idle-always zero (start ∷ rest) h = absurd (omega arith)
  Idle-always (suc fuel) (start ∷ rest) h =
      elim (Bool-cases (is_empty (street start) || is_empty (bearing start))) [
        | inl e ↦
            let (out, refined, idle, _) = Idle-always fuel rest (omega arith) in
            (start ∷ out, rw (e, refined), rw (e, idle), (refl, refl))
        | inr e ↦
            Idle-from fuel start rest e (
              Idle-always fuel (split_run start rest).1
                (omega (arith, length-split_run start rest)))
      ]

-- On what `refineCorridorRuns` returns, `enforceCorridorSanity` returns the same route, whatever its
-- threshold: refinement leaves no run for the second pass to correct.
pub enforce_corridor_sanity-refine_corridor_runs :
    (stops : List Stop) (threshold : Fraction)
    → (out : List Stop) × (refine_corridor_runs stops ≡ some out)
      × (enforce_corridor_sanity out threshold ≡ some out)
unfolding refine_corridor_runs enforce_corridor_sanity
enforce_corridor_sanity-refine_corridor_runs stops threshold =
    let (out, refined, idle, _) = Idle-always threshold (length stops) stops (omega arith) in
    let (out', refined', same) = refine_corridor_runs-perm stops in
    let e : out' ≡ out = some_unique refined' refined in
    let len : length out ≡ length stops =
      subst (λ o. length o ≡ length stops) e (length-perm same) in
    (out, refined, rw len idle)
