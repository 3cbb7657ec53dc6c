-- ===== src/Observation/Mapping/Taxonomy.antt =====
-- The taxonomy covers what the write path emits, and its two classes are apart.
use fieldpro_pilot.Base.{
  ◌≡◌, refl, inl, inr, Bool, true, false, not, ◌&&◌, ◌||◌, some, List, [], ◌∷◌, arith, all,
  Option-cases, Text, text, eq_text,
}
use fieldpro_pilot.Base.Dict.{lookup}
use fieldpro_pilot.Queue.Enqueue.{distinct}
use fieldpro_pilot.Observation.Mapping.{
  values, contains, safety_hazard_type_map, infra_issue_type_map, map_safety_hazard,
  map_infra_issue, safety_presence_types, infra_presence_types, normalize_safety_key,
  normalize_infra_key,
}

-- A test that all values of a map pass, a looked up value passes.
lookup-all :
    (p : Text → Bool) (k v : Text) (m : List (Text × Text))
    → all p (values m) ≡ true
    → lookup k m ≡ some v
    → p v ≡ true
unfolding lookup
lookup-all p k v [] h e = cc
lookup-all p k v ((j, w) ∷ m) h e = ground (arith, lookup-all p k v m)

abbrev is_safety : Text → Bool
is_safety t = contains t safety_presence_types

abbrev is_infra : Text → Bool
is_infra t = contains t infra_presence_types

-- In the one class and not in the other.
abbrev only_safety : Text → Bool
only_safety t = is_safety t && not (is_infra t)

abbrev only_infra : Text → Bool
only_infra t = is_infra t && not (is_safety t)

-- What the two tests compute through.
tables : Unit {0}
unfolding contains safety_presence_types infra_presence_types safety_hazard_type_map
    infra_issue_type_map distinct eq_text
tables = tt

safety_values : all only_safety (values safety_hazard_type_map) ≡ true
unfolding tables
safety_values = refl

infra_values : all (λ t. only_safety t || only_infra t) (values infra_issue_type_map) ≡ true
unfolding tables
infra_values = refl

safety_default : only_safety (text "other_safety_concern_present") ≡ true
unfolding tables
safety_default = refl

infra_default :
    (only_safety (text "other_infrastructure_issue_present")
      || only_infra (text "other_infrastructure_issue_present"))
    ≡ true
unfolding tables
infra_default = refl

safety_class : (h : Text) → only_safety (map_safety_hazard h) ≡ true
unfolding map_safety_hazard
safety_class h = elim (Option-cases (lookup (normalize_safety_key h) safety_hazard_type_map)) [
  | inl e ↦ rw (e, map_safety_hazard) safety_default
  | inr (v, e) ↦
      rw (e, map_safety_hazard)
        (lookup-all only_safety (normalize_safety_key h) v safety_hazard_type_map safety_values e)
]

infra_class :
    (i : Text) → (only_safety (map_infra_issue i) || only_infra (map_infra_issue i)) ≡ true
unfolding map_infra_issue
infra_class i = elim (Option-cases (lookup (normalize_infra_key i) infra_issue_type_map)) [
  | inl e ↦ rw (e, map_infra_issue) infra_default
  | inr (v, e) ↦
      rw (e, map_infra_issue)
        (lookup-all (λ t. only_safety t || only_infra t) (normalize_infra_key i) v
          infra_issue_type_map infra_values e)
]

-- Every hazard key, known or not, is written as a type of the safety class and not of the
-- infrastructure class; every infrastructure key, known or not, as a type of exactly one of the two.
pub map-classes :
    (h i : Text)
    → (contains (map_safety_hazard h) safety_presence_types ≡ true)
      × (contains (map_safety_hazard h) infra_presence_types ≡ false)
      × (contains (map_infra_issue i) infra_presence_types
          ≡ not (contains (map_infra_issue i) safety_presence_types))
map-classes h i =
    let s = safety_class h in let c = infra_class i in (ground arith, ground arith, ground arith)
