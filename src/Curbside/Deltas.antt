-- ===== src/Curbside/Deltas.antt =====
-- What a move of `postOptimizeCurbsideOrder` does to the duration of a route, and what the search
-- for a candidate finds.
use fieldpro_pilot.Base.{
  ℕ, zero, suc, ◌+◌, ◌≡◌, refl, ap, ◌∙◌, ◌⊎◌, inl, inr, true, none, some, List, [], ◌∷◌, arith,
  Bool-cases, remove_at, remove_at-zero, remove_at-suc,
}
use fieldpro_pilot.Base.Int.{ℤ, sub_ℕ, ltb_ℤ}
use mathlib.Core.List.{Perm}
use mathlib.Core.List.Perm
use fieldpro_pilot.Curbside.{
  Best, Options, current_total, proposed_total, better, search_candidate, worthy,
}

pub remove_at-perm {ℓ} :
    {A : Type ℓ} (i : ℕ) (xs : List A) (x : A) (rest : List A)
    → remove_at i xs ≡ some (x, rest)
    → Perm (x ∷ rest) xs
remove_at-perm i [] x rest e = absurd (unfold remove_at in cc)
remove_at-perm zero (y ∷ xs) x rest e =
    let (f, g) = remove_at-zero y xs e in rw (f, g) (Perm.refl (y ∷ xs))
remove_at-perm (suc i) (y ∷ xs) x rest e =
    let (rest', f, g) = remove_at-suc i y xs e in
    rw g (Perm.trans (Perm.swap y x rest') (Perm.cons y (remove_at-perm i xs x rest' f)))

better_lem :
    (j : ℕ) (delta : ℤ) (best : Best)
    → (better j delta best ≡ best)
      ⊎ (((better j delta best).index ≡ some j) × ((better j delta best).delta ≡ delta))
unfolding better
better_lem j delta best = elim (Bool-cases (ltb_ℤ delta best.delta)) [
  | inl e ↦ rw e (inr (refl, refl))
  | inr e ↦ rw e (inl refl)
]

pub unworthy : (opts : Options) (best : Best) → best.index ≡ none → worthy opts best ≡ none
unfolding worthy
unworthy opts best e = ground arith

pub worthy_lem :
    (opts : Options) (best : Best)
    → (worthy opts best ≡ none)
      ⊎ ((worthy opts best ≡ best.index) × (ltb_ℤ best.delta (sub_ℕ 0 opts.min_improvement) ≡ true))
unfolding worthy
worthy_lem opts best = elim (Bool-cases (ltb_ℤ best.delta (sub_ℕ 0 opts.min_improvement))) [
  | inl e ↦ rw e (inr (refl, refl))
  | inr e ↦ rw e (inl refl)
]

module _ {ℓ} {A : Type ℓ} (cost : A → A → ℕ) where
  -- The duration of a route: the sum of its legs.
  abbrev pub duration : List A → ℕ
  duration [] = 0
  duration (a ∷ []) = 0
  duration (a ∷ b ∷ rest) = cost a b + duration (b ∷ rest)

  -- Both totals for the candidate at index `j` of `rest`, with `p` in front.
  abbrev pub totals_at : A → A → A → ℕ → List A → ℕ × ℕ
  totals_at a b p j [] = (0, 0)
  totals_at a b p zero (c ∷ rest) =
      (current_total cost a b p c rest, proposed_total cost a b p c rest)
  totals_at a b p (suc j) (c ∷ rest) = totals_at a b c j rest

  duration-remove_at :
      (a b p : A) (j : ℕ) (rest : List A) (c : A) (rest' : List A)
      → remove_at j rest ≡ some (c, rest')
      → duration (p ∷ rest') + (totals_at a b p j rest).0 + cost a c + cost c b
        ≡ duration (p ∷ rest) + (totals_at a b p j rest).1 + cost a b
  unfolding current_total proposed_total
  duration-remove_at a b p j [] c rest' e = absurd (unfold remove_at in cc)
  duration-remove_at a b p zero (d ∷ []) c rest' e =
      let (f, g) = remove_at-zero d [] e in rw (f, g) (omega arith)
  duration-remove_at a b p zero (d ∷ n ∷ rest) c rest' e =
      let (f, g) = remove_at-zero d (n ∷ rest) e in rw (f, g) (omega arith)
  duration-remove_at a b p (suc j) (d ∷ rest) c rest' e =
      let (later, f, g) = remove_at-suc j d rest e in
      rw g (omega (arith, duration-remove_at a b d j rest c later f))

  -- Moving the candidate to the front changes the duration by the difference of the totals.
  pub duration-move :
      (a b : A) (j : ℕ) (rest : List A) (c : A) (rest' : List A)
      → remove_at j rest ≡ some (c, rest')
      → duration (a ∷ c ∷ b ∷ rest') + (totals_at a b b j rest).0
        ≡ duration (a ∷ b ∷ rest) + (totals_at a b b j rest).1
  duration-move a b j rest c rest' e = omega (arith, duration-remove_at a b b j rest c rest' e)

  -- What the search returns is what it was given, or an index that exists with its own delta.
  abbrev pub Found : A → A → A → ℕ → List A → Best → Type ℓ
  Found a b p j rest r =
      (i : ℕ) × (c : A) × (rest' : List A) × (r.index ≡ some (j + i))
      × (remove_at i rest ≡ some (c, rest'))
      × (r.delta ≡ sub_ℕ (totals_at a b p i rest).1 (totals_at a b p i rest).0)

  pub search_candidate_lem :
      (a b p : A) (j window : ℕ) (rest : List A) (best : Best)
      → (search_candidate cost a b p j window rest best ≡ best)
        ⊎ Found a b p j rest (search_candidate cost a b p j window rest best)
  unfolding search_candidate
  search_candidate_lem a b p j zero rest best = inl refl
  search_candidate_lem a b p j (suc window) [] best = inl refl
  search_candidate_lem a b p j (suc window) (c ∷ rest) best =
      let delta = sub_ℕ (proposed_total cost a b p c rest) (current_total cost a b p c rest) in
      elim (search_candidate_lem a b c (suc j) window rest (better j delta best)) [
        | inl e ↦ elim (better_lem j delta best) [
          | inl f ↦ inl (e ∙ f)
          | inr (f, g) ↦
              let at : j ≡ j + 0 = omega arith in
              inr (
                0,
                c,
                rest,
                ap (λ r. r.index) e ∙ f ∙ ap some at,
                unfold remove_at in refl,
                ap (λ r. r.delta) e ∙ g,
              )
        ]
        | inr (i, d, rest', f, g, h) ↦
            let at : suc j + i ≡ j + suc i = omega arith in
            inr (suc i, d, c ∷ rest', f ∙ ap some at, unfold remove_at in rw g, h)
      ]
