-- ===== src/Corridor/Regroup/Conserve.antt =====
-- The index arithmetic of `regroupCorridorWithinWindow`, and that it moves stops and loses none.
use fieldpro_pilot.Base.{
  ℕ, zero, suc, ◌+◌, ◌-◌, ◌≤◌, ◌≡◌, refl, ◌∙◌, inl, inr, Bool, not, ◌||◌, some, List, [], ◌∷◌, ◌++◌,
  append_assoc, subst, arith, length, length-append, length-perm, take, drop, take-append-drop,
  filter, Bool-cases, is_empty, remove_at,
}
use mathlib.Core.List.{Perm, perm_middle}
use mathlib.Core.List.Perm
use fieldpro_pilot.Corridor.{Stop, street, bearing}
use fieldpro_pilot.Corridor.Regroup.{
  same_corridor, match_indices, pull, regroup_loop, regroup_corridor_within_window,
}

module _ {ℓ} {A : Type ℓ} where
  remove_at-append :
      (pre : List A) (x : A) (xs : List A)
      → remove_at (length pre) (pre ++ x ∷ xs) ≡ some (x, pre ++ xs)
  unfolding remove_at
  remove_at-append [] x xs = refl
  remove_at-append (y ∷ pre) x xs = rw (remove_at-append pre x xs)

  module _ (test : A → Bool) where
    -- What the window keeps in place.
    abbrev pub kept : ℕ → List A → List A
    kept window xs = filter (λ x. not (test x)) (take window xs) ++ drop window xs

    pull-match_from :
        (pre xs : List A) (m j window : ℕ)
        → length pre + m ≡ j
        → pull m (match_indices test j window xs) (pre ++ xs)
          ≡ some (filter test (take window xs), pre ++ kept window xs)
    unfolding pull match_indices
    pull-match_from pre xs m j zero h = refl
    pull-match_from pre [] m j (suc window) h = refl
    pull-match_from pre (x ∷ xs) m j (suc window) h = elim (Bool-cases (test x)) [
      | inl e ↦
          let at : j - m ≡ length pre = omega arith in
          rw (
            e,
            pull,
            at,
            remove_at-append pre x xs,
            pull-match_from pre xs (suc m) (suc j) window (omega arith),
          )
      | inr e ↦
          rw (e, ← append_assoc pre (x ∷ []) xs)
            (pull-match_from (pre ++ x ∷ []) xs m (suc j) window
                (omega (arith, length-append pre (x ∷ [])))
              ∙ rw append_assoc)
    ]

    -- The indices collected first, and corrected by `- m` as earlier removals shift the array, pull
    -- out exactly the matching elements of the window, in their order, and leave the others in theirs.
    pub pull-match_indices :
        (window : ℕ) (xs : List A)
        → pull 0 (match_indices test 0 window xs) xs
          ≡ some (filter test (take window xs), kept window xs)
    pull-match_indices window xs = pull-match_from [] xs 0 0 window (omega arith)

    filter-perm : (xs : List A) → Perm (filter test xs ++ filter (λ x. not (test x)) xs) xs
    filter-perm [] = Perm.refl []
    filter-perm (x ∷ xs) = elim (Bool-cases (test x)) [
      | inl e ↦ rw e (Perm.cons x (filter-perm xs))
      | inr e ↦ rw e (Perm.trans (perm_middle _ _) (Perm.cons x (filter-perm xs)))
    ]

    window-perm :
        (window : ℕ) (xs : List A) → Perm (filter test (take window xs) ++ kept window xs) xs
    window-perm window xs = rw (← append_assoc (filter test (take window xs))) (
        subst (Perm _) (take-append-drop window xs)
          (Perm.append_right (drop window xs) (filter-perm (take window xs))))

-- With enough fuel the loop ends, and what it returns is a rearrangement.
regroup_loop-perm :
    (fuel window : ℕ) (stops : List Stop)
    → length stops ≤ fuel
    → (out : List Stop) × (regroup_loop fuel window stops ≡ some out) × Perm out stops
unfolding regroup_loop
regroup_loop-perm fuel window [] h = ([], refl, Perm.refl [])
regroup_loop-perm zero window (base ∷ rest) h = absurd (omega arith)
regroup_loop-perm (suc fuel) window (base ∷ rest) h =
    elim (Bool-cases (is_empty (street base) || is_empty (bearing base))) [
      | inl e ↦
          let (out, ends, same) = regroup_loop-perm fuel window rest (omega arith) in
          (base ∷ out, rw (e, ends), Perm.cons base same)
      | inr e ↦
          let test = same_corridor base in
          let next = filter test (take (window - 1) rest) ++ kept test (window - 1) rest in
          let shuffled : Perm next rest = window-perm test (window - 1) rest in
          let (out, ends, same) =
            regroup_loop-perm fuel window next (omega (arith, length-perm shuffled)) in
          (
            base ∷ out,
            rw (e, pull-match_indices test (window - 1) rest, ends),
            Perm.cons base (Perm.trans same shuffled),
          )
    ]

-- `regroupCorridorWithinWindow` returns for every input, and its result holds exactly the given
-- stops, each as often: it only changes their order.
pub regroup_corridor_within_window-perm :
    (stops : List Stop) (window : ℕ)
    → (out : List Stop) × (regroup_corridor_within_window stops window ≡ some out) × Perm out stops
unfolding regroup_corridor_within_window
regroup_corridor_within_window-perm stops window =
    regroup_loop-perm (length stops) window stops (omega arith)
