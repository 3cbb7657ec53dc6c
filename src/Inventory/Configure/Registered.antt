-- ===== src/Inventory/Configure/Registered.antt =====
-- What is registered after a request to define what can be observed of a type of assets.
use fieldpro_pilot.Base.{
  ℕ, ◌≡◌, refl, Bool, true, false, Option, none, some, List, [], ◌∷◌, any, length, Bool-cases,
  Option-cases, Text, ◌⊎◌, inl, inr,
}
use fieldpro_pilot.Inventory.{
  ObservationTypeInput, ObservationTypeRow, TypeBody, owned_type, resolve_org_id, upserted_count,
  upsert_each, upsert_observation_types, validate_from,
}
use fieldpro_pilot.Inventory.Configure.{
  Registry, TenantResponse, asset_types_listed, observation_types_listed, asset_type_created,
  upserted, org_id_invalid, body_invalid, type_invalid, broken, upsert_response, register_inputs,
  register_body, register_handler,
}
use fieldpro_pilot.Inventory.Configure.Written.{
  IsRegistered, IsWritten, Written, all_written, upsert_each-Written,
}

module _ (identifier : Text → Option ℕ) (before_text : Text → Text → Bool)
    (accepts : ObservationTypeInput → Bool) where
  -- the body's inputs were valid, and the type is the organisation's
  pub record IsAsked (header query : Option Text) (type_id : Option ℕ)
      (types : Option (List TypeBody)) (before : Registry) : Type 0 where
    pub org : ℕ
    pub asset_type : ℕ
    pub bodies : List TypeBody
    pub inputs : List ObservationTypeInput
    pub org_named : resolve_org_id identifier header query ≡ some org
    pub type_given : type_id ≡ some asset_type
    pub types_given : types ≡ some bodies
    pub valid : validate_from 0 bodies ≡ inr inputs
    pub type_owned : any (owned_type org asset_type) before.asset_types ≡ true

  -- the request names a type that is not the organisation's
  abbrev pub IsNotOwned : Option Text → Option Text → Option ℕ → Registry → Type 0
  IsNotOwned header query type_id before =
      (org : ℕ) × (asset_type : ℕ) × (resolve_org_id identifier header query ≡ some org)
      × (type_id ≡ some asset_type)
      × any (owned_type org asset_type) before.asset_types ≡ false

  -- The other tables stay; of the inputs all were written, or those before one that was refused.
  pub record IsRegisteredFrom (header query : Option Text) (type_id : Option ℕ)
      (types : Option (List TypeBody)) (before after : Registry) (whole_list : Bool) : Type 0 where
    pub asked : IsAsked header query type_id types before
    pub written :
        IsWritten asked.org asked.asset_type accepts asked.inputs before.observation_types
          after.observation_types whole_list
    pub rest_kept : after ≡ record before { observation_types = after.observation_types }

  -- what an answer says of the registry
  abbrev pub Registers :
      Option Text
      → Option Text
      → Option ℕ
      → Option (List TypeBody)
      → Registry
      → Registry × TenantResponse
      → Type 0
  Registers header query type_id types before (after, upserted n) =
      (from : IsRegisteredFrom header query type_id types before after true) × (n
        ≡ length from.asked.inputs)
      × IsRegistered from.asked.org from.asked.asset_type from.asked.inputs before.observation_types
          after.observation_types
  Registers header query type_id types before (after, asset_types_listed a) = after ≡ before
  Registers header query type_id types before (after, observation_types_listed o) = after ≡ before
  Registers header query type_id types before (after, asset_type_created) = after ≡ before
  Registers header query type_id types before (after, org_id_invalid) = after ≡ before
  Registers header query type_id types before (after, body_invalid m) = after ≡ before
  Registers header query type_id types before (after, type_invalid i) = after ≡ before
  Registers header query type_id types before (after, broken) =
      ((after ≡ before) × IsNotOwned header query type_id before)
      ⊎ IsRegisteredFrom header query type_id types before after false

  abbrev asked_for :
      (header query : Option Text) (org type_id : ℕ) (bodies : List TypeBody)
      (inputs : List ObservationTypeInput) (r : Registry)
      → resolve_org_id identifier header query ≡ some org
      → validate_from 0 bodies ≡ inr inputs
      → any (owned_type org type_id) r.asset_types ≡ true
      → IsAsked header query (some type_id) (some bodies) r
  asked_for header query org type_id bodies inputs r o h owned = record {
    org = org;
    asset_type = type_id;
    bodies = bodies;
    inputs = inputs;
    org_named = o;
    type_given = refl;
    types_given = refl;
    valid = h;
    type_owned = owned;
  }

  registered_from :
      (header query : Option Text) (org type_id : ℕ) (bodies : List TypeBody)
      (inputs : List ObservationTypeInput) (r : Registry) (result : List ObservationTypeRow × Bool)
      → resolve_org_id identifier header query ≡ some org
      → validate_from 0 bodies ≡ inr inputs
      → any (owned_type org type_id) r.asset_types ≡ true
      → Written org type_id accepts inputs r.observation_types result
      → Registers header query (some type_id) (some bodies) r (
        record r { observation_types = result.0 },
        upsert_response identifier before_text accepts
            (upserted_count accepts (length inputs) result.1),
      )
  registered_from header query org type_id bodies inputs r (rows, true) o h owned w = (
    record {
      asked = asked_for header query org type_id bodies inputs r o h owned;
      written = w;
      rest_kept = refl;
    },
    refl,
    all_written org type_id accepts inputs r.observation_types rows w,
  )
  registered_from header query org type_id bodies inputs r (rows, false) o h owned w = inr (record {
    asked = asked_for header query org type_id bodies inputs r o h owned;
    written = w;
    rest_kept = refl;
  })

  inputs-Registers :
      (header query : Option Text) (org type_id : ℕ) (bodies : List TypeBody)
      (result : ℕ ⊎ List ObservationTypeInput) (r : Registry)
      → resolve_org_id identifier header query ≡ some org
      → validate_from 0 bodies ≡ result
      → Registers header query
          (some type_id)
          (some bodies)
          r
          (register_inputs identifier before_text accepts org type_id result r)
  unfolding register_inputs upsert_observation_types
  inputs-Registers header query org type_id bodies (inl i) r o h = refl
  inputs-Registers header query org type_id bodies (inr inputs) r o h =
      elim (Bool-cases (any (owned_type org type_id) r.asset_types)) [
        | inr e ↦
            rw (e, register_inputs, upsert_observation_types)
              (inl (refl, (org, type_id, o, refl, e)))
        | inl e ↦
            rw (e, register_inputs, upsert_observation_types)
              (registered_from header query org type_id bodies inputs r
                (upsert_each accepts org type_id inputs r.observation_types) o h e
                (upsert_each-Written org type_id accepts inputs r.observation_types))
      ]

  body-Registers :
      (header query : Option Text) (org : ℕ) (type_id : Option ℕ) (types : Option (List TypeBody))
      (r : Registry)
      → resolve_org_id identifier header query ≡ some org
      → Registers header query type_id types r
          (register_body identifier before_text accepts org type_id types r)
  unfolding register_body
  body-Registers header query org none types r o = refl
  body-Registers header query org (some t) none r o = refl
  body-Registers header query org (some t) (some []) r o = refl
  body-Registers header query org (some t) (some (x ∷ xs)) r o =
      inputs-Registers header query org t (x ∷ xs) (validate_from 0 (x ∷ xs)) r o refl

  -- Whatever a request to register observation types is answered. It is answered with a number: then
  -- all of the body was valid, the type is the organisation's, each key of the body is active with what
  -- its last input says, each other key of the type is as it was, and so is all of other types. It is
  -- answered with 500: then the type is not the organisation's and nothing has changed, or this holds
  -- of the inputs before the first one that the database refused, which stay written. With any other
  -- answer nothing has changed.
  pub register_handler-Registers :
      (header query : Option Text) (type_id : Option ℕ) (types : Option (List TypeBody))
      (r : Registry)
      → Registers header query type_id types r
          (register_handler identifier before_text accepts header query type_id types r)
  unfolding register_handler
  register_handler-Registers header query type_id types r =
      elim (Option-cases (resolve_org_id identifier header query)) [
        | inl e ↦ rw (e, register_handler) refl
        | inr (org, e) ↦
            rw (e, register_handler) (body-Registers header query org type_id types r e)
      ]
