-- ===== src/Inventory/Keyed.antt =====
-- A table that is read by a key, as the map that it stands for: what is seen of a key after a row was
-- upserted, and the last of the inputs with a key.
use fieldpro_pilot.Base.{
  ◌≡◌, refl, ap, subst, ◌∙◌, Bool, true, false, Option, none, some, List, [], ◌∷◌, find, Bool-cases,
  if◌then◌else◌, Text, eq_text, eq_text_iff, inl, inr,
}
use mathlib.Core.Option
use fieldpro_pilot.Inventory.{upsert}
use fieldpro_pilot.Inventory.Upsert.{upserted_row, find-upsert, find-upsert_other}

abbrev pub or_else {ℓ} : {A : Type ℓ} → Option A → Option A → Option A
or_else none b = b
or_else (some a) b = some a

or_else_assoc {ℓ} :
    {A : Type ℓ} (a b c : Option A) → or_else a (or_else b c) ≡ or_else (or_else a b) c
or_else_assoc none b c = refl
or_else_assoc (some x) b c = refl

module _ {A I V : Type 0} (has_key : Text → A → Bool) (key : I → Text) (seen : A → V)
    (given : I → V) where
  -- what is seen of a key
  abbrev pub at : Text → List A → Option V
  at k rows = Option.map seen (find (has_key k) rows)

  -- what an input says of a key
  abbrev pub said : Text → I → Option V
  said k i = if eq_text (key i) k then some (given i) else none

  -- the last of the inputs with a key
  abbrev pub latest : Text → List I → Option V
  latest k [] = none
  latest k (i ∷ is) = or_else (latest k is) (said k i)

  module _ (update : I → A → A) (new : I → A) where
    -- that the upsert is by the key, and writes the input
    pub record IsKeyed : Type 0 where
      pub own : (i : I) → has_key (key i) (new i) ≡ true
      pub stays : (i : I) (x : A) → has_key (key i) x ≡ true → has_key (key i) (update i x) ≡ true
      pub apart :
          (k l : Text) (x : A) → eq_text k l ≡ false → has_key k x ≡ true → has_key l x ≡ false
      pub seen_new : (i : I) → seen (new i) ≡ given i
      pub seen_update : (i : I) (x : A) → seen (update i x) ≡ given i

    -- the rows after an input
    abbrev pub round : I → List A → List A
    round i rows = upsert (has_key (key i)) (update i) (new i) rows

    module _ (keyed : IsKeyed) where
      seen_upserted :
          (i : I) (found : Option A) → seen (upserted_row (update i) (new i) found) ≡ given i
      seen_upserted i none = keyed.seen_new i
      seen_upserted i (some x) = keyed.seen_update i x

      at-own : (i : I) (rows : List A) → at (key i) (round i rows) ≡ some (given i)
      at-own i rows =
          ap (Option.map seen) (
            find-upsert (has_key (key i)) (λ x. false) (update i) (new i) rows (keyed.stays i)
              (keyed.own i))
          ∙ ap some (seen_upserted i (find (has_key (key i)) rows))

      at-other :
          (i : I) (k : Text) (rows : List A)
          → eq_text (key i) k ≡ false
          → at k (round i rows) ≡ at k rows
      at-other i k rows h = ap (Option.map seen) (
          find-upsert_other (has_key (key i)) (has_key k) (update i) (new i) rows
            (λ x e. keyed.apart (key i) k x h e)
            (λ x e. keyed.apart (key i) k (update i x) h (keyed.stays i x e))
            (keyed.apart (key i) k (new i) h (keyed.own i)))

      -- After an input its key shows what it says, and any other what it did.
      at-round :
          (i : I) (k : Text) (rows : List A) → at k (round i rows) ≡ or_else (said k i) (at k rows)
      at-round i k rows = elim (Bool-cases (eq_text (key i) k)) [
        | inl e ↦ rw e (
            subst (λ l. at l (round i rows) ≡ some (given i)) ((eq_text_iff (key i) k).0 e)
              (at-own i rows))
        | inr e ↦ rw e (at-other i k rows e)
      ]

      -- The same where further inputs follow.
      pub at-later :
          (i : I) (k : Text) (later : Option V) (rows : List A)
          → or_else later (at k (round i rows)) ≡ or_else (or_else later (said k i)) (at k rows)
      at-later i k later rows =
          ap (or_else later) (at-round i k rows) ∙ or_else_assoc later (said k i) (at k rows)
