-- ===== src/Base/Lists.antt =====
-- Lists measured by native numbers, under the library's names.
use Prim.Native.Nat.{ℕ, zero, suc, ◌+◌}
use mathlib.Core.Path.{◌≡◌, refl, ap}
use mathlib.Core.Logic.{inl, inr}
use mathlib.Core.Bool.{Bool, true, false, ◌&&◌, ◌||◌}
use mathlib.Core.Option
use mathlib.Core.Option.{Option, none, some}
use mathlib.Core.List.{List, [], ◌∷◌, ◌++◌}
use native.Mathlib.Omega.{arith}
use fieldpro_pilot.Base.Tests.{if◌then◌else◌, Option-cases}

module _ {ℓ} {A : Type ℓ} where
  abbrev pub length : List A → ℕ
  length [] = 0
  length (x ∷ xs) = suc (length xs)

  pub length-append : (xs ys : List A) → length (xs ++ ys) ≡ length xs + length ys
  length-append [] ys = omega arith
  length-append (x ∷ xs) ys = omega (arith, length-append xs ys)

  abbrev pub take : ℕ → List A → List A
  take zero xs = []
  take (suc n) [] = []
  take (suc n) (x ∷ xs) = x ∷ take n xs

  abbrev pub drop : ℕ → List A → List A
  drop zero xs = xs
  drop (suc n) [] = []
  drop (suc n) (x ∷ xs) = drop n xs

  pub take-append-drop : (n : ℕ) (xs : List A) → take n xs ++ drop n xs ≡ xs
  take-append-drop zero xs = refl
  take-append-drop (suc n) [] = refl
  take-append-drop (suc n) (x ∷ xs) = ap (◌∷◌ x) (take-append-drop n xs)

  -- `xs.filter(p)`, `xs.some(p)`, `xs.every(p)`
  abbrev pub filter : (A → Bool) → List A → List A
  filter p [] = []
  filter p (x ∷ xs) = if p x then x ∷ filter p xs else filter p xs

  abbrev pub any : (A → Bool) → List A → Bool
  any p [] = false
  any p (x ∷ xs) = p x || any p xs

  abbrev pub all : (A → Bool) → List A → Bool
  all p [] = true
  all p (x ∷ xs) = p x && all p xs

  -- `xs.find(p)`
  abbrev pub find : (A → Bool) → List A → Option A
  find p [] = none
  find p (x ∷ xs) = if p x then some x else find p xs

  -- the value with its first element satisfying `p` replaced by `f` of it
  abbrev pub update_first : (A → Bool) → (A → A) → List A → List A
  update_first p f [] = []
  update_first p f (x ∷ xs) = if p x then f x ∷ xs else x ∷ update_first p f xs

  -- every element satisfying `p` replaced: an SQL `UPDATE … SET f WHERE p`
  abbrev pub update_where : (A → Bool) → (A → A) → List A → List A
  update_where p f [] = []
  update_where p f (x ∷ xs) = (if p x then f x else x) ∷ update_where p f xs

  abbrev pub count : (A → Bool) → List A → ℕ
  count p [] = 0
  count p (x ∷ xs) = (if p x then 1 else 0) + count p xs

-- A predicate at every element, by recursion.
abbrev pub All {ℓ κ} : {A : Type ℓ} → (A → Type κ) → List A → Type κ
All P [] = Unit
All P (x ∷ xs) = P x × All P xs

-- `splice(i, 1)[0]` and the array that is left; past the end nothing is removed
unfoldable pub remove_at {ℓ} : {A : Type ℓ} → ℕ → List A → Option (A × List A)
remove_at i [] = none
remove_at zero (x ∷ xs) = some (x, xs)
remove_at (suc i) (x ∷ xs) = Option.map (λ r. (r.0, x ∷ r.1)) (remove_at i xs)

module _ {ℓ} {A : Type ℓ} where
  pub remove_at-zero :
      (y : A) (xs : List A) {x : A} {rest : List A}
      → remove_at 0 (y ∷ xs) ≡ some (x, rest)
      → (x ≡ y) × (rest ≡ xs)
  unfolding remove_at
  remove_at-zero y xs e = (cc, cc)

  pub remove_at-suc :
      (i : ℕ) (y : A) (xs : List A) {x : A} {rest : List A}
      → remove_at (suc i) (y ∷ xs) ≡ some (x, rest)
      → (rest' : List A) × (remove_at i xs ≡ some (x, rest')) × (rest ≡ y ∷ rest')
  unfolding remove_at
  remove_at-suc i y xs e = elim (Option-cases (remove_at i xs)) [
    | inl f ↦ absurd (ground arith)
    | inr (r, f) ↦ (r.1, ground arith, ground arith)
  ]

  pub length-remove_at :
      (i : ℕ) (xs : List A) {x : A} {rest : List A}
      → remove_at i xs ≡ some (x, rest)
      → length xs ≡ suc (length rest)
  length-remove_at i [] e = absurd (unfold remove_at in cc)
  length-remove_at zero (y ∷ xs) e = ground (arith, remove_at-zero y xs e)
  length-remove_at (suc i) (y ∷ xs) e =
      let (rest', f, g) = remove_at-suc i y xs e in
      omega (arith, length-remove_at i xs f, ap length g)
