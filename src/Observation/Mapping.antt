-- ===== src/Observation/Mapping.antt =====
-- The write-path maps of backend/src/domains/observation/observationService.ts and the taxonomy that
-- presenceTaxonomy.ts derives from them. Keys are looked up as own properties of the map objects.
use fieldpro_pilot.Base.{
  ◌≡◌, Bool, true, false, not, Option, none, some, List, [], ◌∷◌, map, any, filter, if◌then◌else◌,
  Text, text, eq_text, to_lower_case,
}
use fieldpro_pilot.Base.Dict.{lookup}
use fieldpro_pilot.Queue.Enqueue.{distinct}
pub mod Taxonomy

unfoldable pub rename : List (Text × Text) → Text → Text
rename [] key = key
rename ((old, new) ∷ rest) key = if eq_text key old then new else rename rest key

unfoldable pub normalize_safety_key : Text → Text
normalize_safety_key k =
    rename
      ((text "active_drug_use", text "drug_use") ∷ (text "traffic", text "access_blocked") ∷ [])
      (to_lower_case k)

unfoldable pub normalize_infra_key : Text → Text
normalize_infra_key k =
    rename
      ((text "glass_broken", text "glass_damage")
        ∷ (text "graffiti_excessive", text "graffiti")
        ∷ (text "receptacle_damaged", text "receptacle_damage")
        ∷ (text "panel_damaged", text "shelter_panel_damage")
        ∷ (text "lighting_out", text "lighting_failure")
        ∷ (text "landscaping_blocking", text "landscape_obstruction")
        ∷ (text "structure_damaged", text "structural_damage")
        ∷ (text "other_infra_issue", text "other")
        ∷ [])
      (to_lower_case k)

unfoldable pub safety_hazard_type_map : List (Text × Text)
safety_hazard_type_map =
    (text "encampment", text "encampment_present")
    ∷ (text "fire", text "fire_present")
    ∷ (text "dangerous_activity", text "dangerous_activity_present")
    ∷ (text "drug_use", text "drug_use_present")
    ∷ (text "violence", text "violence_present")
    ∷ (text "biohazard", text "biohazard_present")
    ∷ (text "access_blocked", text "access_blocked")
    ∷ (text "other", text "other_safety_concern_present")
    ∷ []

unfoldable pub infra_issue_type_map : List (Text × Text)
infra_issue_type_map =
    (text "glass_damage", text "glass_damage_present")
    ∷ (text "graffiti", text "graffiti_present")
    ∷ (text "receptacle_damage", text "receptacle_damage_present")
    ∷ (text "shelter_panel_damage", text "shelter_panel_damage_present")
    ∷ (text "lighting_failure", text "lighting_failure_present")
    ∷ (text "landscape_obstruction", text "access_obstructed_by_landscape")
    ∷ (text "structural_damage", text "structural_damage_present")
    ∷ (text "contaminated_waste", text "biohazard_present")
    ∷ (text "other", text "other_infrastructure_issue_present")
    ∷ []

unfoldable pub map_safety_hazard : Text → Text
map_safety_hazard h = elim (lookup (normalize_safety_key h) safety_hazard_type_map) [
  | none ↦ text "other_safety_concern_present"
  | some mapped ↦ mapped
]

unfoldable pub map_infra_issue : Text → Text
map_infra_issue i = elim (lookup (normalize_infra_key i) infra_issue_type_map) [
  | none ↦ text "other_infrastructure_issue_present"
  | some mapped ↦ mapped
]

-- `Object.values`
abbrev pub values : List (Text × Text) → List Text
values = map (λ e. e.1)

-- `Set.has`
unfoldable pub contains : Text → List Text → Bool
contains t ts = any (eq_text t) ts

-- `SAFETY_PRESENCE_TYPES`
unfoldable pub safety_presence_types : List Text
safety_presence_types = distinct (values safety_hazard_type_map)

-- `INFRA_PRESENCE_TYPES`
unfoldable pub infra_presence_types : List Text
infra_presence_types =
    filter (λ t. not (contains t safety_presence_types)) (distinct (values infra_issue_type_map))
