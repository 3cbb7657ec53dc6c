-- ===== src/Curbside/Improve.antt =====
-- The post-optimiser keeps the stops and never lengthens the route.
use fieldpro_pilot.Base.{
  ℕ, zero, suc, ◌+◌, ◌-◌, ◌*◌, ◌≤◌, ◌<◌, ◌≡◌, refl, ap, ◌∙◌, ◌⊎◌, inl, inr, true, false, none, some,
  List, [], ◌∷◌, arith, length, ltb, leb, Bool-cases, remove_at, length-remove_at,
}
use fieldpro_pilot.Base.Int.{pos}
use mathlib.Core.List.{Perm, head?}
use native.Mathlib.Nat.{add-zero}
use mathlib.Core.List.Perm
use fieldpro_pilot.Curbside.{
  Options, search_candidate, best_candidate, move, optimize_loop, post_optimize_curbside_order,
}
use fieldpro_pilot.Curbside.Deltas.{
  remove_at-perm, unworthy, worthy_lem, duration, duration-move, search_candidate_lem,
}

module _ {ℓ} {A : Type ℓ} (cost : A → A → ℕ) where
  -- The search gives no index, or one whose move shortens the route by more than the minimum.
  Worthy : Options → A → A → List A → Type ℓ
  Worthy opts a b rest =
      (j : ℕ) × (c : A) × (rest' : List A) × (best_candidate cost opts a b rest ≡ some j)
      × (remove_at j rest ≡ some (c, rest'))
      × (duration cost (a ∷ c ∷ b ∷ rest') + opts.min_improvement < duration cost (a ∷ b ∷ rest))

  best_candidate_lem :
      (opts : Options) (a b : A) (rest : List A)
      → (best_candidate cost opts a b rest ≡ none) ⊎ Worthy opts a b rest
  unfolding best_candidate Worthy
  best_candidate_lem opts a b rest =
      let found =
        search_candidate cost a b b 0 (opts.lookahead - 1) rest
          (record { index = none; delta = pos 0 }) in
      elim (search_candidate_lem cost a b b 0 (opts.lookahead - 1) rest
        (record { index = none; delta = pos 0 })) [
          | inl e ↦ inl (unworthy opts found (ap (λ r. r.index) e))
          | inr (j, c, rest', f, g, h) ↦ elim (worthy_lem opts found) [
            | inl e ↦ inl e
            | inr (e, k) ↦
                let at : 0 + j ≡ j = omega arith in
                inr (
                  j,
                  c,
                  rest',
                  e ∙ f ∙ ap some at,
                  g,
                  ground (arith, duration-move cost a b j rest c rest' g),
                )
          ]
        ]

  -- What the loop promises of the route `x ∷ xs`, after `moves` moves.
  Improved : Options → ℕ → ℕ → A → List A → Type ℓ
  Improved opts fuel moves x xs =
      (ys : List A) × (made : ℕ) × (optimize_loop cost opts fuel moves (x ∷ xs)
        ≡ some (x ∷ ys, moves + made))
      × Perm (x ∷ ys) (x ∷ xs)
      × (duration cost (x ∷ ys) + opts.min_improvement * made ≤ duration cost (x ∷ xs))
      × ((made ≡ 0) ⊎ (moves + made ≤ opts.max_moves))
      × ((ys ≡ xs) ⊎ (0 < made))

  -- One round that does not stop.
  optimize_loop_step :
      (opts : Options) (fuel moves : ℕ) (x b : A) (rest : List A) {next out : List A} {k made : ℕ}
      → leb opts.max_moves moves ≡ false
      → move b rest (best_candidate cost opts x b rest) ≡ some (next, k)
      → optimize_loop cost opts fuel (moves + k) next ≡ some (out, made)
      → optimize_loop cost opts (suc fuel) moves (x ∷ b ∷ rest) ≡ some (x ∷ out, made)
  unfolding optimize_loop
  optimize_loop_step opts fuel moves x b rest go e f = rw (go, e, f)

  optimize_loop_stop :
      (opts : Options) (fuel moves : ℕ) (x b : A) (rest : List A)
      → leb opts.max_moves moves ≡ true
      → optimize_loop cost opts (suc fuel) moves (x ∷ b ∷ rest) ≡ some (x ∷ b ∷ rest, moves)
  unfolding optimize_loop
  optimize_loop_stop opts fuel moves x b rest stop = rw stop

  optimize_loop_lem :
      (opts : Options) (fuel moves : ℕ) (x : A) (xs : List A)
      → length xs ≤ fuel
      → Improved opts fuel moves x xs
  unfolding Improved Worthy
  optimize_loop_lem opts fuel moves x [] h = (
    [],
    0,
    unfold optimize_loop in rw add-zero,
    Perm.refl (x ∷ []),
    omega arith,
    inl refl,
    inl refl,
  )
  optimize_loop_lem opts zero moves x (b ∷ rest) h = absurd (omega arith)
  optimize_loop_lem opts (suc fuel) moves x (b ∷ rest) h =
      elim (Bool-cases (leb opts.max_moves moves)) [
        | inl stop ↦ (
          b ∷ rest,
          0,
          rw add-zero (optimize_loop_stop opts fuel moves x b rest stop),
          Perm.refl _,
          omega arith,
          inl refl,
          inl refl,
        )
        | inr go ↦ elim (best_candidate_lem opts x b rest) [
          | inl e ↦
              let (ys, made, f, p, d, m, k) =
                optimize_loop_lem opts fuel (moves + 0) b rest (omega arith) in
              let total : moves + 0 + made ≡ moves + made = omega arith in
              (
                b ∷ ys,
                made,
                optimize_loop_step opts fuel moves x b rest {next = b ∷ rest} {k = 0} go
                    (unfold move in rw e) (f ∙ ap (λ t. some (b ∷ ys, t)) total),
                Perm.cons x p,
                omega arith,
                ground arith,
                elim k [ inl z ↦ inl (ap (◌∷◌ b) z) | inr z ↦ inr z ],
              )
          | inr (j, c, rest', e, g, w) ↦
              let (ys, made, f, p, d, m, k) =
                optimize_loop_lem opts fuel (moves + 1) c (b ∷ rest')
                  (omega (arith, length-remove_at j rest g)) in
              let total : moves + 1 + made ≡ moves + suc made = omega arith in
              (
                c ∷ ys,
                suc made,
                optimize_loop_step opts fuel moves x b rest {next = c ∷ b ∷ rest'} {k = 1} go
                    (unfold move in rw (e, g)) (f ∙ ap (λ t. some (c ∷ ys, t)) total),
                Perm.cons x (
                    Perm.trans p (
                      Perm.trans (Perm.swap b c rest')
                        (Perm.cons b (remove_at-perm j rest c rest' g)))),
                omega arith,
                inr (ground arith),
                inr (omega arith),
              )
        ]
      ]

  -- For every cost function and all options the post-optimiser returns a route of the same stops,
  -- the first stop first. For some number of moves, at most `maxMoves`, that route takes at least
  -- `minImprovementSeconds` times the number less than the given one, and it is the given one unless
  -- the number is positive.
  pub post_optimize_curbside_order-improves :
      (stops : List A) (opts : Options)
      → (out : List A) × (moves : ℕ) × (post_optimize_curbside_order cost stops opts ≡ some out)
        × Perm out stops
        × (moves ≤ opts.max_moves)
        × (duration cost out + opts.min_improvement * moves ≤ duration cost stops)
        × ((out ≡ stops) ⊎ (0 < moves))
        × (head? out ≡ head? stops)
  unfolding post_optimize_curbside_order Improved
  post_optimize_curbside_order-improves [] opts =
      ([], 0, unfold optimize_loop in refl, Perm.refl [], omega arith, omega arith, inl refl, refl)
  post_optimize_curbside_order-improves (x ∷ xs) opts =
      elim (Bool-cases (ltb 150 (length (x ∷ xs)))) [
        | inl many ↦ (x ∷ xs, 0, rw many, Perm.refl _, omega arith, omega arith, inl refl, refl)
        | inr few ↦
            let (ys, made, f, p, d, m, k) =
              optimize_loop_lem opts (length (x ∷ xs)) 0 x xs (omega arith) in
            (
              x ∷ ys,
              made,
              rw (few, f),
              p,
              ground arith,
              d,
              elim k [ inl z ↦ inl (ap (◌∷◌ x) z) | inr z ↦ inr z ],
              refl,
            )
      ]
