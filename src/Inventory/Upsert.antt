-- ===== src/Inventory/Upsert.antt =====
-- The insert that updates a row which is there: what is found after it, by its own key and by others.
use fieldpro_pilot.Base.{
  ◌≡◌, refl, ap, sym, ◌∙◌, Bool, true, false, Option, none, some, List, [], ◌∷◌, ◌++◌, arith, any,
  find, filter, update_where, Bool-cases, inl, inr,
}
use fieldpro_pilot.Inventory.{upsert}

-- the row that stands for the key afterwards
abbrev pub upserted_row {ℓ} : {A : Type ℓ} → (A → A) → A → Option A → A
upserted_row update new none = new
upserted_row update new (some x) = update x

module _ {ℓ} {A : Type ℓ} (p q : A → Bool) (update : A → A) (new : A) where
  find-update :
      (rows : List A)
      → ((x : A) → p x ≡ true → p (update x) ≡ true)
      → any p rows ≡ true
      → find p (update_where p update rows) ≡ some (upserted_row update new (find p rows))
  find-update [] stays h = absurd (cc)
  find-update (x ∷ rows) stays h = elim (Bool-cases (p x)) [
    | inl e ↦ simp (e, stays x e)
    | inr e ↦ simp (e, e) (find-update rows stays (ground arith))
  ]

  find-append :
      (rows : List A) → any p rows ≡ false → p new ≡ true → find p (rows ++ new ∷ []) ≡ some new
  find-append [] h own = simp own
  find-append (x ∷ rows) h own = elim (Bool-cases (p x)) [
    | inl e ↦ absurd (ground arith)
    | inr e ↦ simp e (find-append rows (ground arith) own)
  ]

  find_nothing : (rows : List A) → any p rows ≡ false → find p rows ≡ none
  find_nothing [] h = refl
  find_nothing (x ∷ rows) h = elim (Bool-cases (p x)) [
    | inl e ↦ absurd (ground arith)
    | inr e ↦ simp e (find_nothing rows (ground arith))
  ]

  -- By its key the row is found that was updated or, if there was none, the new one.
  pub find-upsert :
      (rows : List A)
      → ((x : A) → p x ≡ true → p (update x) ≡ true)
      → p new ≡ true
      → find p (upsert p update new rows) ≡ some (upserted_row update new (find p rows))
  find-upsert rows stays own = elim (Bool-cases (any p rows)) [
    | inl e ↦ rw e (find-update rows stays e)
    | inr e ↦ rw (e, find_nothing rows e) (find-append rows e own)
  ]

  -- What has another key is not changed by an update.
  filter-update :
      (rows : List A)
      → ((x : A) → p x ≡ true → q x ≡ false)
      → ((x : A) → p x ≡ true → q (update x) ≡ false)
      → filter q (update_where p update rows) ≡ filter q rows
  filter-update [] apart apart' = refl
  filter-update (x ∷ rows) apart apart' = elim (Bool-cases (p x)) [
    | inl e ↦ simp (e, apart x e, apart' x e) (filter-update rows apart apart')
    | inr e ↦ elim (Bool-cases (q x)) [
      | inl f ↦ simp (e, f) (ap (◌∷◌ x) (filter-update rows apart apart'))
      | inr f ↦ simp (e, f) (filter-update rows apart apart')
    ]
  ]

  filter-append : (rows : List A) → q new ≡ false → filter q (rows ++ new ∷ []) ≡ filter q rows
  filter-append [] h = simp h
  filter-append (x ∷ rows) h = elim (Bool-cases (q x)) [
    | inl f ↦ simp f (ap (◌∷◌ x) (filter-append rows h))
    | inr f ↦ simp f (filter-append rows h)
  ]

  -- The rows of which a test holds stay as they are, where it holds of none with the key.
  pub filter-upsert :
      (rows : List A)
      → ((x : A) → p x ≡ true → q x ≡ false)
      → ((x : A) → p x ≡ true → q (update x) ≡ false)
      → q new ≡ false
      → filter q (upsert p update new rows) ≡ filter q rows
  filter-upsert rows apart apart' h = elim (Bool-cases (any p rows)) [
    | inl e ↦ rw e (filter-update rows apart apart')
    | inr e ↦ rw e (filter-append rows h)
  ]

  find-filter : (rows : List A) → find q (filter q rows) ≡ find q rows
  find-filter [] = refl
  find-filter (x ∷ rows) = elim (Bool-cases (q x)) [
    | inl f ↦ simp (f, f)
    | inr f ↦ simp (f, f) (find-filter rows)
  ]

  -- By another key what was found is found.
  pub find-upsert_other :
      (rows : List A)
      → ((x : A) → p x ≡ true → q x ≡ false)
      → ((x : A) → p x ≡ true → q (update x) ≡ false)
      → q new ≡ false
      → find q (upsert p update new rows) ≡ find q rows
  find-upsert_other rows apart apart' h =
      sym (find-filter (upsert p update new rows))
      ∙ ap (find q) (filter-upsert rows apart apart' h)
      ∙ find-filter rows

  any-update :
      (rows : List A)
      → ((x : A) → p x ≡ true → q (update x) ≡ false)
      → any q rows ≡ false
      → any q (update_where p update rows) ≡ false
  any-update [] apart h = refl
  any-update (x ∷ rows) apart h = elim (Bool-cases (p x)) [
    | inl e ↦ simp (e, apart x e) (any-update rows apart (ground arith))
    | inr e ↦
        let none_here : q x ≡ false = ground arith in
        simp (e, none_here) (any-update rows apart (ground arith))
  ]

  any-append :
      (rows : List A) → any q rows ≡ false → q new ≡ false → any q (rows ++ new ∷ []) ≡ false
  any-append [] h own = simp own
  any-append (x ∷ rows) h own =
      let none_here : q x ≡ false = ground arith in
      simp none_here (any-append rows (ground arith) own)

  -- A test that holds of no row, nor of one that was updated or is new, holds of none afterwards.
  pub any-upsert :
      (rows : List A)
      → ((x : A) → p x ≡ true → q (update x) ≡ false)
      → q new ≡ false
      → any q rows ≡ false
      → any q (upsert p update new rows) ≡ false
  any-upsert rows apart own h = elim (Bool-cases (any p rows)) [
    | inl e ↦ rw e (any-update rows apart h)
    | inr e ↦ rw e (any-append rows h own)
  ]
