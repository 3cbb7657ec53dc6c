-- ===== src/Base/Counts.antt =====
-- How `count` and `any` change when a list is extended or one element is replaced.
use Prim.Native.Nat.{◌+◌}
use mathlib.Core.Path.{◌≡◌, refl, ap}
use mathlib.Core.Logic.{inl, inr}
use mathlib.Core.Bool.{Bool, true, false}
use mathlib.Core.List.{List, [], ◌∷◌, ◌++◌, map}
use native.Mathlib.Omega.{arith}
use fieldpro_pilot.Base.Tests.{if◌then◌else◌, Bool-cases}
use fieldpro_pilot.Base.Lists.{any, count, update_first, All}

module _ {ℓ} {A : Type ℓ} where
  pub count-append : (p : A → Bool) (xs ys : List A) → count p (xs ++ ys) ≡ count p xs + count p ys
  count-append p [] ys = omega arith
  count-append p (x ∷ xs) ys = omega (arith, count-append p xs ys)

  pub count_of_none : (p : A → Bool) (xs : List A) → any p xs ≡ false → count p xs ≡ 0
  count_of_none p [] h = refl
  count_of_none p (x ∷ xs) h = ground (arith, count_of_none p xs)

  -- A replacement that the predicate does not tell from the original changes no count.
  pub count-update_first :
      (p q : A → Bool) (f : A → A) (xs : List A)
      → ((x : A) → q x ≡ true → p (f x) ≡ p x)
      → count p (update_first q f xs) ≡ count p xs
  count-update_first p q f [] h = refl
  count-update_first p q f (x ∷ xs) h = elim (Bool-cases (q x)) [
    | inl e ↦ rw (e, h x e)
    | inr e ↦ rw e (ap (λ n. (if p x then 1 else 0) + n) (count-update_first p q f xs h))
  ]

  pub map-update_first {κ} :
      {B : Type κ} (g : A → B) (q : A → Bool) (f : A → A) (xs : List A)
      → ((x : A) → g (f x) ≡ g x)
      → map g (update_first q f xs) ≡ map g xs
  map-update_first g q f [] h = refl
  map-update_first g q f (x ∷ xs) h = elim (Bool-cases (q x)) [
    | inl e ↦ rw (e, h x)
    | inr e ↦ rw (e, map-update_first g q f xs h)
  ]

  pub All-update_first {κ} :
      (P : A → Type κ) (q : A → Bool) (f : A → A) (xs : List A)
      → ((x : A) → P x → P (f x))
      → All P xs
      → All P (update_first q f xs)
  All-update_first P q f [] h a = tt
  All-update_first P q f (x ∷ xs) h (p, ps) = elim (Bool-cases (q x)) [
    | inl e ↦ rw e (h x p, ps)
    | inr e ↦ rw e (p, All-update_first P q f xs h ps)
  ]
