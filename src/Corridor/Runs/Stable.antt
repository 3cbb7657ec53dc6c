-- ===== src/Corridor/Runs/Stable.antt =====
-- What `refineCorridorRuns` has put in order, `enforceCorridorSanity` finds in order.
use fieldpro_pilot.Base.{
  ◌+◌, ◌≡◌, refl, ap, ◌∙◌, inl, inr, true, false, some, none, List, [], ◌∷◌, Bool-cases,
  Option-cases, Text,
}
use fieldpro_pilot.Base.Int.{ℤ, leb_ℤ-total, leb_ℤ-trans}
use fieldpro_pilot.Base.Sort.{
  sort_by, sort_by-perm, sort_by-IsSorted, sort_by_of_IsSorted, IsSorted,
}
use fieldpro_pilot.Corridor.{
  Stop, RunMeta, Direction, asc, desc, ordered, coordinate, in_order, resolve_run_meta, Fraction,
  less, count_in_order, score_monotonic_run,
}
use fieldpro_pilot.Corridor.Runs.{refine_run, sanity_run}
use fieldpro_pilot.Corridor.Runs.Conserve.{refine_run-perm}
use fieldpro_pilot.Corridor.Runs.Extent.{resolve_run_meta-perm}

ordered-total : (d : Direction) (a b : ℤ) → ordered d a b ≡ false → ordered d b a ≡ true
ordered-total asc a b h = leb_ℤ-total a b h
ordered-total desc a b h = leb_ℤ-total b a h

ordered_trans :
    (d : Direction) (a b c : ℤ) → ordered d a b ≡ true → ordered d b c ≡ true → ordered d a c ≡ true
ordered_trans asc a b c h k = leb_ℤ-trans a b c h k
ordered_trans desc a b c h k = leb_ℤ-trans c b a k h

-- The sort of a run along its axis, and what it leaves alone.
module _ (m : RunMeta) where
  abbrev along : Stop → ℤ
  along = coordinate m.sort_key

  sorts : (run : List Stop) → IsSorted (in_order m) (sort_by (in_order m) run)
  sorts =
      sort_by-IsSorted (in_order m) (λ a b. ordered-total m.direction (along a) (along b))
        (λ a b c. ordered_trans m.direction (along a) (along b) (along c))

  sorted_fixed : (run : List Stop) → IsSorted (in_order m) run → sort_by (in_order m) run ≡ run
  sorted_fixed =
      sort_by_of_IsSorted (in_order m) (λ a b. ordered-total m.direction (along a) (along b))
        (λ a b c. ordered_trans m.direction (along a) (along b) (along c))

refine_run-IsSorted :
    (m : RunMeta) (run : List Stop) (b : Text)
    → resolve_run_meta run b ≡ some m
    → IsSorted (in_order m) (refine_run run b)
unfolding refine_run
refine_run-IsSorted m [] b e = tt
refine_run-IsSorted m (p ∷ []) b e = (tt, tt)
refine_run-IsSorted m (p ∷ q ∷ rest) b e = rw (e, refine_run) (sorts m (p ∷ q ∷ rest))

-- `sanity_run` leaves a run alone that has no direction, or is in order.
module _ (t : Fraction) where
  sanity_run_of_none :
      (run : List Stop) (b : Text) → resolve_run_meta run b ≡ none → sanity_run t run b ≡ run
  unfolding sanity_run
  sanity_run_of_none [] b e = refl
  sanity_run_of_none (p ∷ []) b e = refl
  sanity_run_of_none (p ∷ q ∷ rest) b e = rw (e, sanity_run)

  sanity_run_of_IsSorted :
      (m : RunMeta) (run : List Stop) (b : Text)
      → resolve_run_meta run b ≡ some m
      → IsSorted (in_order m) run
      → sanity_run t run b ≡ run
  unfolding sanity_run
  sanity_run_of_IsSorted m [] b e s = refl
  sanity_run_of_IsSorted m (p ∷ []) b e s = refl
  sanity_run_of_IsSorted m (p ∷ q ∷ rest) b e s =
      elim (Bool-cases (less (score_monotonic_run (p ∷ q ∷ rest) b) t)) [
        | inl f ↦ rw (e, sanity_run, f) (sorted_fixed m (p ∷ q ∷ rest) s)
        | inr f ↦ rw (e, sanity_run, f)
      ]

  -- A run that `refine_run` returned is left as it is.
  pub sanity_run-refine_run :
      (run : List Stop) (b : Text) → sanity_run t (refine_run run b) b ≡ refine_run run b
  unfolding refine_run sanity_run
  sanity_run-refine_run [] b = refl
  sanity_run-refine_run (p ∷ []) b = refl
  sanity_run-refine_run (p ∷ q ∷ rest) b = elim (Option-cases (resolve_run_meta (p ∷ q ∷ rest) b)) [
    | inl e ↦ rw (e, refine_run) (sanity_run_of_none (p ∷ q ∷ rest) b e)
    | inr (m, e) ↦
        let sorted = sort_by (in_order m) (p ∷ q ∷ rest) in
        rw (e, refine_run)
          (sanity_run_of_IsSorted m sorted b
            (resolve_run_meta-perm b (sort_by-perm (in_order m) (p ∷ q ∷ rest)) ∙ e)
            (sorts m (p ∷ q ∷ rest)))
  ]

-- In a run in order every neighbour counts.
count_in_order-IsSorted :
    (m : RunMeta) (p : Stop) (ps : List Stop)
    → IsSorted (in_order m) (p ∷ ps)
    → (count_in_order m p ps).num ≡ (count_in_order m p ps).den
unfolding count_in_order
count_in_order-IsSorted m p [] s = refl
count_in_order-IsSorted m p (q ∷ qs) ((h, hs), s) =
    rw h (ap (λ k. 1 + k) (count_in_order-IsSorted m q qs s))

score_of_IsSorted :
    (m : RunMeta) (run : List Stop) (b : Text)
    → resolve_run_meta run b ≡ some m
    → IsSorted (in_order m) run
    → (score_monotonic_run run b).num ≡ (score_monotonic_run run b).den
unfolding score_monotonic_run
score_of_IsSorted m [] b e s = refl
score_of_IsSorted m (p ∷ []) b e s = refl
score_of_IsSorted m (p ∷ q ∷ rest) b e s =
    rw (e, score_monotonic_run) (count_in_order-IsSorted m p (q ∷ rest) s)

-- A run whose bearing gives a direction `m` has the same direction after `refineCorridorRuns` has
-- sorted it, every stop of it is in that order before every later one, and it scores 1.
pub refine_run-in_order :
    (run : List Stop) (b : Text) (m : RunMeta)
    → resolve_run_meta run b ≡ some m
    → (resolve_run_meta (refine_run run b) b ≡ some m)
      × IsSorted (in_order m) (refine_run run b)
      × ((score_monotonic_run (refine_run run b) b).num
          ≡ (score_monotonic_run (refine_run run b) b).den)
refine_run-in_order run b m e =
    let kept : resolve_run_meta (refine_run run b) b ≡ some m =
      resolve_run_meta-perm b (refine_run-perm run b) ∙ e in
    let sorted = refine_run-IsSorted m run b e in
    (kept, sorted, score_of_IsSorted m (refine_run run b) b kept sorted)
