-- ===== src/Observation/Grades.antt =====
-- What the normalised columns of an observation may hold.
use fieldpro_pilot.Base.{
  ◌≡◌, subst, ◌⊎◌, inl, inr, Option, none, some, arith, Text, text, Option-cases,
}
use fieldpro_pilot.Base.Int.{ℤ, pos, negsuc, ◌≤ℤ◌}
use fieldpro_pilot.Base.Dict.{lookup}
use fieldpro_pilot.Observation.{
  Payload, RegistryRule, number_of, clamp_smallint, evaluate_severity_map, normalize_observation,
  SeverityMap,
}

clamp_range : (n : ℤ) → (negsuc 32767 ≤ℤ clamp_smallint n) × (clamp_smallint n ≤ℤ pos 32767)
unfolding clamp_smallint
clamp_range n = ground arith

abbrev InRange : ℤ → Type 0
InRange s = (negsuc 32767 ≤ℤ s) × (s ≤ℤ pos 32767)

severity_range :
    (m : Option SeverityMap) (payload : Payload) (s : ℤ)
    → evaluate_severity_map m payload ≡ some s
    → (negsuc 32767 ≤ℤ s) × (s ≤ℤ pos 32767)
unfolding evaluate_severity_map
severity_range none payload s h = cc
severity_range (some m) payload s h = elim (Option-cases m.field) [
  | inl e ↦ absurd (ground arith)
  | inr (field, e) ↦ elim (Option-cases (lookup field payload)) [
    | inl f ↦ absurd (ground arith)
    | inr (v, f) ↦ elim (Option-cases (number_of v)) [
      | inl g ↦ absurd (ground arith)
      | inr (n, g) ↦ subst InRange (ground arith) (clamp_range n)
    ]
  ]
]

-- The severity written to an observation fits its smallint column, whatever the registry and the
-- payload say.
pub norm_severity_range :
    (rule : Option RegistryRule) (t : Text) (payload : Payload) (s : ℤ)
    → (normalize_observation rule t payload).norm_severity ≡ some s
    → (negsuc 32767 ≤ℤ s) × (s ≤ℤ pos 32767)
unfolding normalize_observation
norm_severity_range none t payload s h = cc
norm_severity_range (some rule) t payload s h = severity_range rule.severity_map payload s h

pub GradedKind : Option Text → Type 0
GradedKind kind = (kind ≡ some (text "condition")) ⊎ (kind ≡ some (text "measurement"))
