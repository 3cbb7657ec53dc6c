-- ===== src/Inventory/Configure/Written.antt =====
-- What the loop of `upsertObservationTypes` leaves in the registry.
use fieldpro_pilot.Base.{
  ℕ, ◌≡◌, refl, ap, append-nil, sym, subst, ◌∙◌, ◌++◌, Bool, true, false, ◌&&◌, not, Option, none,
  some, List, [], ◌∷◌, arith, filter, Bool-cases, Option-cases, ◌==◌, Text, eq_text, eq_text_iff,
  eq_text_refl, ◌⊎◌, inl, inr,
}
use fieldpro_pilot.Base.Int.{ℤ, pos}
use fieldpro_pilot.Inventory.{
  upsert, stored_order, order_written, ObservationTypeInput, ObservationTypeRow,
  same_observation_type, input_updated, upsert_observation_type, upsert_each,
}
use fieldpro_pilot.Inventory.Upsert.{filter-upsert}
use fieldpro_pilot.Inventory.Keyed.{or_else, at, latest, IsKeyed, at-later}

abbrev key_of : ObservationTypeInput → Text
key_of t = t.observation_key

-- the order of an input that the database takes
abbrev order_of : ObservationTypeInput → ℤ
order_of t = elim (stored_order t.sort_order) [ none ↦ pos 0 | some n ↦ n ]

-- what is shown of a row: what was registered, its order, and whether it is active
abbrev pub Shown : Type 0
Shown = ObservationTypeInput × ℤ × Bool

abbrev shown_of : ObservationTypeRow → Shown
shown_of o = (o.input, o.sort_order, o.is_active)

abbrev as_active : ObservationTypeInput → Shown
as_active t = (t, order_of t, true)

-- what the registry has of a key
abbrev pub input_at : ℕ → ℕ → Text → List ObservationTypeRow → Option Shown
input_at org type_id = at (same_observation_type org type_id) key_of shown_of as_active

-- the last of the inputs with a key, as active
abbrev pub last_input : ℕ → ℕ → Text → List ObservationTypeInput → Option Shown
last_input org type_id = latest (same_observation_type org type_id) key_of shown_of as_active

abbrev pub of_others : ℕ → ℕ → ObservationTypeRow → Bool
of_others org type_id o = not (o.org_id == org && o.asset_type_id == type_id)

pub record IsRegistered (org type_id : ℕ) (inputs : List ObservationTypeInput)
    (before after : List ObservationTypeRow) : Type 0 where
  pub by_key :
      (key : Text)
      → input_at org type_id key after
        ≡ or_else (last_input org type_id key inputs) (input_at org type_id key before)
  pub others_kept : filter (of_others org type_id) after ≡ filter (of_others org type_id) before

module _ (org type_id : ℕ) where
  abbrev update_row : ObservationTypeInput → ObservationTypeRow → ObservationTypeRow
  update_row t o = input_updated t (order_of t) o

  abbrev new_row : ObservationTypeInput → ObservationTypeRow
  new_row t = record {
    org_id = org;
    asset_type_id = type_id;
    observation_key = t.observation_key;
    input = t;
    sort_order = order_of t;
    is_active = true;
  }

  same_observation_type_apart :
      (key other : Text) (o : ObservationTypeRow)
      → eq_text key other ≡ false
      → same_observation_type org type_id key o ≡ true
      → same_observation_type org type_id other o ≡ false
  same_observation_type_apart key other o h e =
      let key_is : o.observation_key ≡ key = ground (arith, eq_text_iff o.observation_key key) in
      let apart : eq_text o.observation_key other ≡ false = ap (λ k. eq_text k other) key_is ∙ h in
      ground arith

  input-IsKeyed :
      IsKeyed (same_observation_type org type_id) key_of shown_of as_active update_row new_row
  input-IsKeyed = record {
    own = λ t. ground (arith, eq_text_refl t.observation_key);
    stays = λ t o e. e;
    apart = same_observation_type_apart;
    seen_new = λ t. refl;
    seen_update = λ t o. refl;
  }

  -- the rows after an input that is taken
  abbrev after_input : ObservationTypeInput → List ObservationTypeRow → List ObservationTypeRow
  after_input t rows =
      upsert (same_observation_type org type_id t.observation_key) (update_row t) (new_row t) rows

  IsRegistered-cons :
      (t : ObservationTypeInput) (inputs : List ObservationTypeInput)
      (before after : List ObservationTypeRow)
      → IsRegistered org type_id inputs (after_input t before) after
      → IsRegistered org type_id (t ∷ inputs) before after
  IsRegistered-cons t inputs before after h = record {
    by_key = λ key.
        h.by_key key
        ∙ at-later (same_observation_type org type_id) key_of shown_of as_active update_row new_row
            input-IsKeyed t key (last_input org type_id key inputs) before;
    others_kept =
        h.others_kept
        ∙ filter-upsert (same_observation_type org type_id t.observation_key)
            (of_others org type_id) (update_row t) (new_row t) before (λ o e. ground arith)
            (λ o e. ground arith) (ground arith);
  }

  module _ (accepts : ObservationTypeInput → Bool) where
    -- Some inputs were written, in their order, and the first of the rest was refused.
    pub record IsWritten (inputs : List ObservationTypeInput)
        (before after : List ObservationTypeRow) (whole_list : Bool) : Type 0 where
      pub first : List ObservationTypeInput
      pub rest : List ObservationTypeInput
      pub split : inputs ≡ first ++ rest
      pub registered : IsRegistered org type_id first before after
      pub all_or_refused :
          ((whole_list ≡ true) × (rest ≡ []))
          ⊎ ((whole_list ≡ false)
              × (t : ObservationTypeInput) × (others : List ObservationTypeInput) × (rest
                  ≡ t ∷ others)
              × ((accepts t ≡ false) ⊎ (stored_order t.sort_order ≡ none)))

    accepted_order :
        (t : ObservationTypeInput)
        → accepts t ≡ true
        → order_written accepts t ≡ stored_order t.sort_order
    accepted_order t e = unfold order_written in rw (e, order_written) refl

    refused-why :
        (t : ObservationTypeInput)
        → order_written accepts t ≡ none
        → (accepts t ≡ false) ⊎ (stored_order t.sort_order ≡ none)
    refused-why t h = elim (Bool-cases (accepts t)) [
      | inr e ↦ inl e
      | inl e ↦ inr (sym (accepted_order t e) ∙ h)
    ]

    taken_order :
        (t : ObservationTypeInput) (order : ℤ)
        → order_written accepts t ≡ some order
        → order ≡ order_of t
    taken_order t order h = elim (Bool-cases (accepts t)) [
      | inr e ↦
          let nothing : order_written accepts t ≡ none =
            unfold order_written in rw (e, order_written) refl in
          absurd (cc)
      | inl e ↦
          let stored : stored_order t.sort_order ≡ some order = sym (accepted_order t e) ∙ h in
          ap (λ (o : Option ℤ). elim o [ none ↦ pos 0 | some n ↦ n ]) (sym stored)
    ]

    upsert_each-refused :
        (t : ObservationTypeInput) (ts : List ObservationTypeInput) (rows : List ObservationTypeRow)
        → order_written accepts t ≡ none
        → upsert_each accepts org type_id (t ∷ ts) rows ≡ (rows, false)
    upsert_each-refused t ts rows e =
        unfold upsert_each upsert_observation_type in
        rw (e, upsert_each, upsert_observation_type) refl

    upsert_each-taken :
        (t : ObservationTypeInput) (ts : List ObservationTypeInput) (rows : List ObservationTypeRow)
        (order : ℤ)
        → order_written accepts t ≡ some order
        → upsert_each accepts org type_id (t ∷ ts) rows
          ≡ upsert_each accepts org type_id ts (after_input t rows)
    upsert_each-taken t ts rows order e =
        let same = e ∙ ap some (taken_order t order e) in
        unfold upsert_each upsert_observation_type in
        rw (same, upsert_each, upsert_observation_type) refl

    abbrev pub Written :
        List ObservationTypeInput
        → List ObservationTypeRow
        → List ObservationTypeRow × Bool
        → Type 0
    Written inputs rows result = IsWritten inputs rows result.0 result.1

    Written-cons :
        (t : ObservationTypeInput) (ts : List ObservationTypeInput) (rows : List ObservationTypeRow)
        (result : List ObservationTypeRow × Bool)
        → Written ts (after_input t rows) result
        → Written (t ∷ ts) rows result
    Written-cons t ts rows result h = record {
      first = t ∷ h.first;
      rest = h.rest;
      split = ap (◌∷◌ t) h.split;
      registered = IsRegistered-cons t h.first rows result.0 h.registered;
      all_or_refused = h.all_or_refused;
    }

    pub upsert_each-Written :
        (inputs : List ObservationTypeInput) (rows : List ObservationTypeRow)
        → Written inputs rows (upsert_each accepts org type_id inputs rows)
    unfolding upsert_each
    upsert_each-Written [] rows = record {
      first = [];
      rest = [];
      split = refl;
      registered = record { by_key = λ key. refl; others_kept = refl };
      all_or_refused = inl (refl, refl);
    }
    upsert_each-Written (t ∷ ts) rows = elim (Option-cases (order_written accepts t)) [
      | inl e ↦ subst (Written (t ∷ ts) rows) (sym (upsert_each-refused t ts rows e)) (record {
        first = [];
        rest = t ∷ ts;
        split = refl;
        registered = record { by_key = λ key. refl; others_kept = refl };
        all_or_refused = inr (refl, t, ts, refl, refused-why t e);
      })
      | inr (order, e) ↦ subst (Written (t ∷ ts) rows) (sym (upsert_each-taken t ts rows order e)) (
          Written-cons t ts rows (upsert_each accepts org type_id ts (after_input t rows))
            (upsert_each-Written ts (after_input t rows)))
    ]

    pub all_written :
        (inputs : List ObservationTypeInput) (before after : List ObservationTypeRow)
        → IsWritten inputs before after true
        → IsRegistered org type_id inputs before after
    all_written inputs before after h = elim h.all_or_refused [
      | inl (t, none_left) ↦
          subst (λ l. IsRegistered org type_id l before after)
            (sym (h.split ∙ ap (λ l. h.first ++ l) none_left ∙ append-nil h.first)) h.registered
      | inr others ↦ absurd (let f : true ≡ false = others.0 in cc)
    ]
