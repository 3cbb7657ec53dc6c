-- ===== src/Base/Perms.antt =====
-- Rearrangements (the library's `Perm`), and the native length.
use mathlib.Core.Path.{◌≡◌, refl, ◌∙◌, subst}
use mathlib.Core.Logic.{∥∥₁_elim, ∥∥₁_prop, inl, inr}
use mathlib.Core.Bool.{Bool}
use mathlib.Core.List.{List, [], ◌∷◌, Perm, Permᴰ}
use mathlib.Core.List.Perm
use native.Mathlib.Nat.{ℕ_set}
use native.Mathlib.Omega.{arith}
use fieldpro_pilot.Base.Tests.{Bool-cases}
use fieldpro_pilot.Base.Lists.{length, filter}

module _ {ℓ} {A : Type ℓ} where
  length-Permᴰ : {xs ys : List A} → Permᴰ xs ys → length xs ≡ length ys
  length-Permᴰ Permᴰ.nil = refl
  length-Permᴰ (Permᴰ.cons e p) = omega (arith, length-Permᴰ p)
  length-Permᴰ (Permᴰ.swap e f) = refl
  length-Permᴰ (Permᴰ.trans p q) = length-Permᴰ p ∙ length-Permᴰ q

  pub length-perm : {xs ys : List A} → Perm xs ys → length xs ≡ length ys
  length-perm {xs} {ys} p = ∥∥₁_elim p (ℕ_set (length xs) (length ys)) length-Permᴰ

  keep_head-perm :
      (p : A → Bool) (a : A) (xs ys : List A)
      → Perm (filter p xs) (filter p ys)
      → Perm (filter p (a ∷ xs)) (filter p (a ∷ ys))
  keep_head-perm p a xs ys h = elim (Bool-cases (p a)) [
    | inl e ↦ rw e (Perm.cons a h)
    | inr e ↦ rw e h
  ]

  swap_heads-perm :
      (p : A → Bool) (a b : A) (xs : List A) → Perm (filter p (a ∷ b ∷ xs)) (filter p (b ∷ a ∷ xs))
  swap_heads-perm p a b xs = elim (Bool-cases (p a)) [
    | inl e ↦ elim (Bool-cases (p b)) [
      | inl f ↦ rw (e, f) (Perm.swap b a (filter p xs))
      | inr f ↦ rw (e, f) (Perm.refl _)
    ]
    | inr e ↦ elim (Bool-cases (p b)) [
      | inl f ↦ rw (e, f) (Perm.refl _)
      | inr f ↦ rw (e, f) (Perm.refl _)
    ]
  ]

  filter-Permᴰ : (p : A → Bool) {xs ys : List A} → Permᴰ xs ys → Perm (filter p xs) (filter p ys)
  filter-Permᴰ p Permᴰ.nil = Perm.refl []
  filter-Permᴰ p (Permᴰ.cons {a} {b} {l₁} {l₂} e q) =
      subst (λ c. Perm (filter p (a ∷ l₁)) (filter p (c ∷ l₂))) e
        (keep_head-perm p a l₁ l₂ (filter-Permᴰ p q))
  filter-Permᴰ p (Permᴰ.swap {a} {b} {a'} {b'} {l} e f) =
      subst (λ c. Perm (filter p (a ∷ b ∷ l)) (filter p (a' ∷ c ∷ l))) e
        (subst (λ c. Perm (filter p (a ∷ b ∷ l)) (filter p (c ∷ a ∷ l))) f
          (swap_heads-perm p a b l))
  filter-Permᴰ p (Permᴰ.trans q r) = Perm.trans (filter-Permᴰ p q) (filter-Permᴰ p r)

  pub filter-perm : (p : A → Bool) {xs ys : List A} → Perm xs ys → Perm (filter p xs) (filter p ys)
  filter-perm p {xs} {ys} q = ∥∥₁_elim q ∥∥₁_prop (filter-Permᴰ p)
