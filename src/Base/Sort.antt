-- ===== src/Base/Sort.antt =====
-- `Array.prototype.sort` with a comparator: the stable sort that the language prescribes. `before x y`
-- says that the comparator is at most 0, so `x` may stay in front of `y`.
use mathlib.Core.Path.{◌≡◌, refl, sym, subst, ap, ◌∙◌}
use mathlib.Core.Logic.{inl, inr}
use mathlib.Core.Bool.{Bool, true, false, ◌||◌}
use mathlib.Core.List.{List, [], ◌∷◌, Perm}
use mathlib.Core.List.Perm
use fieldpro_pilot.Base.Tests.{if◌then◌else◌, Bool-cases}
use fieldpro_pilot.Base.Lists.{All, any}

swap_or : (a b c : Bool) → (a || (b || c)) ≡ (b || (a || c))
swap_or true true c = refl
swap_or true false c = refl
swap_or false b c = refl

module _ {ℓ} {A : Type ℓ} (before : A → A → Bool) where
  unfoldable pub insert : A → List A → List A
  insert x [] = x ∷ []
  insert x (y ∷ ys) = if before x y then x ∷ y ∷ ys else y ∷ insert x ys

  unfoldable pub sort_by : List A → List A
  unfolding insert
  sort_by [] = []
  sort_by (x ∷ xs) = insert x (sort_by xs)

  -- Each element may stay in front of every later one.
  abbrev pub IsSorted : List A → Type ℓ
  IsSorted [] = Unit
  IsSorted (x ∷ xs) = All (λ y. before x y ≡ true) xs × IsSorted xs

  pub insert-perm : (x : A) (ys : List A) → Perm (insert x ys) (x ∷ ys)
  unfolding insert
  insert-perm x [] = Perm.refl (x ∷ [])
  insert-perm x (y ∷ ys) = elim (Bool-cases (before x y)) [
    | inl h ↦ rw h (Perm.refl _)
    | inr h ↦ rw h (Perm.trans (Perm.cons y (insert-perm x ys)) (Perm.swap x y ys))
  ]

  pub sort_by-perm : (xs : List A) → Perm (sort_by xs) xs
  unfolding sort_by
  sort_by-perm [] = Perm.refl []
  sort_by-perm (x ∷ xs) = Perm.trans (insert-perm x (sort_by xs)) (Perm.cons x (sort_by-perm xs))

module _ {ℓ} {A : Type ℓ} (before : A → A → Bool) (p : A → Bool) where
  any-insert : (x : A) (ys : List A) → any p (insert before x ys) ≡ any p (x ∷ ys)
  unfolding insert
  any-insert x [] = refl
  any-insert x (y ∷ ys) = elim (Bool-cases (before x y)) [
    | inl h ↦ rw h refl
    | inr h ↦ rw (h, any-insert x ys) (swap_or (p y) (p x) (any p ys))
  ]

  pub any-sort_by : (xs : List A) → any p (sort_by before xs) ≡ any p xs
  unfolding sort_by
  any-sort_by [] = refl
  any-sort_by (x ∷ xs) = any-insert x (sort_by before xs) ∙ ap (λ b. p x || b) (any-sort_by xs)

module _ {ℓ κ} {A : Type ℓ} (before : A → A → Bool) (P : A → Type κ) where
  insert-All : (x : A) (ys : List A) → P x → All P ys → All P (insert before x ys)
  unfolding insert
  insert-All x [] p _ = (p, tt)
  insert-All x (y ∷ ys) p (q, h) = elim (Bool-cases (before x y)) [
    | inl e ↦ rw e (p, (q, h))
    | inr e ↦ rw e (q, insert-All x ys p h)
  ]

  pub sort_by-All : (xs : List A) → All P xs → All P (sort_by before xs)
  unfolding sort_by
  sort_by-All [] _ = tt
  sort_by-All (x ∷ xs) (p, h) = insert-All x (sort_by before xs) p (sort_by-All xs h)

module _ {ℓ} {A : Type ℓ} (before : A → A → Bool) where
  -- A total, transitive comparison sorts.
  module _ (total : (x y : A) → before x y ≡ false → before y x ≡ true)
      (trans : (x y z : A) → before x y ≡ true → before y z ≡ true → before x z ≡ true) where
    All-trans :
        (x y : A) (zs : List A)
        → before x y ≡ true
        → All (λ z. before y z ≡ true) zs
        → All (λ z. before x z ≡ true) zs
    All-trans x y [] h _ = tt
    All-trans x y (z ∷ zs) h (k, ks) = (trans x y z h k, All-trans x y zs h ks)

    pub insert-IsSorted :
        (x : A) (ys : List A) → IsSorted before ys → IsSorted before (insert before x ys)
    unfolding insert
    insert-IsSorted x [] _ = (tt, tt)
    insert-IsSorted x (y ∷ ys) (h, s) = elim (Bool-cases (before x y)) [
      | inl e ↦ rw e ((e, All-trans x y ys e h), (h, s))
      | inr e ↦
          rw e (
            insert-All before (λ z. before y z ≡ true) x ys (total x y e) h,
            insert-IsSorted x ys s,
          )
    ]

    pub sort_by-IsSorted : (xs : List A) → IsSorted before (sort_by before xs)
    unfolding sort_by
    sort_by-IsSorted [] = tt
    sort_by-IsSorted (x ∷ xs) = insert-IsSorted x (sort_by before xs) (sort_by-IsSorted xs)

    -- A list in order already is left as it is.
    pub sort_by_of_IsSorted : (xs : List A) → IsSorted before xs → sort_by before xs ≡ xs
    unfolding sort_by insert
    sort_by_of_IsSorted [] _ = refl
    sort_by_of_IsSorted (x ∷ []) _ = refl
    sort_by_of_IsSorted (x ∷ y ∷ ys) ((h, hs), s) =
        subst (λ zs. insert before x zs ≡ x ∷ y ∷ ys) (sym (sort_by_of_IsSorted (y ∷ ys) s)) (rw h)
