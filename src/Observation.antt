-- ===== src/Observation.antt =====
-- Canonical observations: backend/src/domains/observation/observationNormalizer.ts and, in the child
-- modules, what the stop payload is turned into. A payload is a dictionary of plain values; its
-- numbers are integers (levels 0 to 4, severities), on which `Math.round` is the identity.
pub mod Mapping
pub mod Submit
pub mod Grades
mod Tests
use fieldpro_pilot.Base.{
  ℕ, Bool, true, false, ◌&&◌, ◌||◌, Option, none, some, List, [], ◌∷◌, if◌then◌else◌, Text, text,
  eq_text,
}
use fieldpro_pilot.Base.Int.{ℤ, pos, negsuc, leb_ℤ, ltb_ℤ}
use fieldpro_pilot.Base.Dict.{lookup}

pub data Value : Type 0 where
  null : Value
  bool : Bool → Value
  num : ℤ → Value
  str : Text → Value

abbrev pub Payload : Type 0
Payload = List (Text × Value)

-- `field` is `none` where it is no string.
pub record OkRule : Type 0 where
  pub field : Option Text
  pub eq : Option Value
  pub lte : Option ℤ
  pub gte : Option ℤ

pub record SeverityMap : Type 0 where
  pub field : Option Text

pub record RegistryRule : Type 0 where
  pub id : ℕ
  pub observation_key : Text
  pub obs_kind : Option Text
  pub ok_rule : Option OkRule
  pub severity_map : Option SeverityMap

pub data Grade : Type 0 where
  ok not_ok : Grade

pub record NormalizedFields : Type 0 where
  pub obs_kind : Option Text
  pub norm_status : Option Grade
  pub norm_severity : Option ℤ
  pub intervention : Option Text
  pub type_id : Option ℕ

-- `EMPTY_NORMALIZED`
abbrev pub empty_normalized : NormalizedFields
empty_normalized = record {
  obs_kind = none;
  norm_status = none;
  norm_severity = none;
  intervention = none;
  type_id = none;
}

abbrev pub same_bool : Bool → Bool → Bool
same_bool true true = true
same_bool false false = true
same_bool _ _ = false

-- `a === b`
unfoldable pub same_value : Value → Value → Bool
same_value null null = true
same_value (bool a) (bool b) = same_bool a b
same_value (num a) (num b) = leb_ℤ a b && leb_ℤ b a
same_value (str a) (str b) = eq_text a b
same_value _ _ = false

-- `payload?.[field]`, none where it is undefined or null
unfoldable pub present : Payload → Text → Option Value
present payload field = elim (lookup field payload) [
  | none ↦ none
  | some v ↦ elim v [
    | null ↦ none
    | bool b ↦ some (bool b)
    | num n ↦ some (num n)
    | str s ↦ some (str s)
  ]
]

abbrev pub grade : Bool → Grade
grade true = ok
grade false = not_ok

unfoldable pub number_of : Value → Option ℤ
number_of (num n) = some n
number_of null = none
number_of (bool b) = none
number_of (str s) = none

-- the `lte` and `gte` forms, on a number
unfoldable pub grade_number : OkRule → ℤ → Option Grade
grade_number rule n = elim rule.lte [
  | some bound ↦ some (grade (leb_ℤ n bound))
  | none ↦ elim rule.gte [ some bound ↦ some (grade (leb_ℤ bound n)) | none ↦ none ]
]

unfoldable pub grade_value : OkRule → Value → Option Grade
unfolding grade_number number_of
grade_value rule v = elim rule.eq [
  | some w ↦ some (grade (same_value v w))
  | none ↦ elim (number_of v) [ none ↦ none | some n ↦ grade_number rule n ]
]

unfoldable pub evaluate_ok_rule : Option OkRule → Payload → Option Grade
evaluate_ok_rule none payload = none
evaluate_ok_rule (some rule) payload = elim rule.field [
  | none ↦ none
  | some field ↦ elim (present payload field) [ none ↦ none | some v ↦ grade_value rule v ]
]

-- the guard that keeps a value in a smallint column
unfoldable pub clamp_smallint : ℤ → ℤ
clamp_smallint n =
    if ltb_ℤ n (negsuc 32767) then negsuc 32767 else if ltb_ℤ (pos 32767) n then pos 32767 else n

unfoldable pub evaluate_severity_map : Option SeverityMap → Payload → Option ℤ
evaluate_severity_map none payload = none
evaluate_severity_map (some map) payload = elim map.field [
  | none ↦ none
  | some field ↦ elim (lookup field payload) [
    | none ↦ none
    | some v ↦ elim (number_of v) [ none ↦ none | some n ↦ some (clamp_smallint n) ]
  ]
]

-- `obs_kind === kind`
abbrev pub kind_is : Option Text → Text → Bool
kind_is none kind = false
kind_is (some k) kind = eq_text k kind

abbrev pub is_some {ℓ} : {A : Type ℓ} → Option A → Bool
is_some none = false
is_some (some a) = true

unfoldable pub normalize_observation : Option RegistryRule → Text → Payload → NormalizedFields
normalize_observation none observation_type payload = empty_normalized
normalize_observation (some rule) observation_type payload = record {
  obs_kind = rule.obs_kind;
  norm_status =
      if (kind_is rule.obs_kind (text "condition") || kind_is rule.obs_kind (text "measurement"))
        && is_some rule.ok_rule
      then evaluate_ok_rule rule.ok_rule payload
      else none;
  norm_severity = evaluate_severity_map rule.severity_map payload;
  intervention = if kind_is rule.obs_kind (text "action") then some observation_type else none;
  type_id = some rule.id;
}
