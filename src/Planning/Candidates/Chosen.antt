-- ===== src/Planning/Candidates/Chosen.antt =====
-- Which stops are chosen for a run.
use fieldpro_pilot.Base.{
  ℕ, zero, suc, ◌≤◌, ◌≡◌, refl, ◌⊎◌, inl, inr, Bool, true, false, not, ◌&&◌, List, [], ◌∷◌, ◌++◌,
  arith, map, filter, take, All, length, Bool-cases, Text,
}
use fieldpro_pilot.Base.Sort.{sort_by, sort_by-All}
use fieldpro_pilot.Planning.Candidates.{
  Candidate, Override, is_excluded, is_included, has_candidate, without_excluded, unscored,
  apply_overrides, Scored, scored, chosen_before, get_candidate_stops_for_pool_with_risk,
}

-- A candidate that the overrides leave in: it is not excluded, or it is included by force.
abbrev pub Allowed : List Override → Candidate → Type 0
Allowed overrides c =
    (is_excluded overrides c.stop_id ≡ false) ⊎ (is_included overrides c.stop_id ≡ true)

module _ {ℓ} {A : Type ℓ} where
  filter-All :
      (p : A → Bool) (P : A → Type 0) (xs : List A)
      → ((x : A) → p x ≡ true → P x)
      → All P (filter p xs)
  filter-All p P [] h = tt
  filter-All p P (x ∷ xs) h = elim (Bool-cases (p x)) [
    | inl e ↦ rw e (h x e, filter-All p P xs h)
    | inr e ↦ rw e (filter-All p P xs h)
  ]

  append-All : (P : A → Type 0) (xs ys : List A) → All P xs → All P ys → All P (xs ++ ys)
  append-All P [] ys h k = k
  append-All P (x ∷ xs) ys (p, h) k = (p, append-All P xs ys h k)

  take-All : (P : A → Type 0) (n : ℕ) (xs : List A) → All P xs → All P (take n xs)
  take-All P zero xs h = tt
  take-All P (suc n) [] h = tt
  take-All P (suc n) (x ∷ xs) (p, h) = (p, take-All P n xs h)

  length-take_le : (n : ℕ) (xs : List A) → length (take n xs) ≤ n
  length-take_le zero xs = omega arith
  length-take_le (suc n) [] = omega arith
  length-take_le (suc n) (x ∷ xs) = omega (arith, length-take_le n xs)

map-All {ℓ κ} :
    {A : Type ℓ} {B : Type κ} (P : A → Type 0) (Q : B → Type 0) (f : A → B) (xs : List A)
    → ((x : A) → P x → Q (f x))
    → All P xs
    → All Q (map f xs)
map-All P Q f [] h a = tt
map-All P Q f (x ∷ xs) h (p, a) = (h x p, map-All P Q f xs h a)

length-map {ℓ κ} :
    {A : Type ℓ} {B : Type κ} (f : A → B) (xs : List A) → length (map f xs) ≡ length xs
length-map f [] = refl
length-map f (x ∷ xs) = omega (arith, length-map f xs)

apply_overrides-Allowed :
    (rows pool : List Candidate) (overrides : List Override)
    → All (Allowed overrides) (apply_overrides rows pool overrides)
unfolding apply_overrides
apply_overrides-Allowed rows pool overrides =
    let kept = without_excluded overrides rows in
    append-All (Allowed overrides) kept _
      (filter-All _ (Allowed overrides) rows (λ c h. inl (ground arith)))
      (map-All (Allowed overrides) (Allowed overrides) unscored _ (λ c h. h)
        (filter-All (λ c. is_included overrides c.stop_id && not (has_candidate kept c.stop_id))
          (Allowed overrides) pool (λ c h. inr (ground arith))))

-- At most `limit` stops are chosen, and none that an override excludes, unless another one includes it
-- by force.
pub chosen-Allowed :
    (id_before : Text → Text → Bool) (rows pool : List Candidate) (overrides : List Override)
    (limit : ℕ)
    → (length (get_candidate_stops_for_pool_with_risk id_before rows pool overrides limit) ≤ limit)
      × All
          (Allowed overrides)
          (get_candidate_stops_for_pool_with_risk id_before rows pool overrides limit)
unfolding get_candidate_stops_for_pool_with_risk scored
chosen-Allowed id_before rows pool overrides limit =
    let before = chosen_before id_before in
    let all = scored overrides (apply_overrides rows pool overrides) in
    (
      omega (
        arith,
        length-map (λ (s : Scored). s.candidate) (take limit (sort_by before all)),
        length-take_le limit (sort_by before all),
      ),
      map-All (λ (s : Scored). Allowed overrides s.candidate) (Allowed overrides)
          (λ (s : Scored). s.candidate) _ (λ s h. h)
          (take-All (λ (s : Scored). Allowed overrides s.candidate) limit (sort_by before all)
            (sort_by-All before (λ (s : Scored). Allowed overrides s.candidate) all
              (map-All (Allowed overrides) (λ (s : Scored). Allowed overrides s.candidate) _ _
                (λ c h. h) (apply_overrides-Allowed rows pool overrides)))),
    )
