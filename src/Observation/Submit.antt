-- ===== src/Observation/Submit.antt =====
-- `submitObservations` of backend/src/domains/observation/observationService.ts, with the severity
-- scale of backend/src/domains/routeRunStop/hazardService.ts.
use fieldpro_pilot.Base.{
  ℕ, Bool, true, false, Option, none, some, List, [], ◌∷◌, ◌++◌, map, if◌then◌else◌, Text, text,
  eq_text, is_empty,
}
use fieldpro_pilot.Base.Int.{ℤ, pos}
use fieldpro_pilot.Observation.{Value, num, str, Payload}
use fieldpro_pilot.Observation.Mapping.{map_safety_hazard, map_infra_issue}
pub mod Actions

-- `string | number`
pub data Severity : Type 0 where
  label : Text → Severity
  level : ℤ → Severity

unfoldable pub to_numeric_severity : Option Severity → ℤ
to_numeric_severity none = pos 1
to_numeric_severity (some (level n)) = n
to_numeric_severity (some (label s)) =
    if eq_text s (text "low")
    then pos 1
    else if eq_text s (text "medium")
    then pos 2
    else if eq_text s (text "high")
    then pos 3
    else pos 1

pub record InfraIssue : Type 0 where
  pub issue_type : Text
  pub cause : Option Text
  pub component : Option Text
  pub notes : Option Text

-- An absent list is `none`; an absent flag is false.
pub record StopUiPayload : Type 0 where
  pub safety_concern : Bool
  pub safety_hazards : Option (List Text)
  pub hazard_severity : Option Severity
  pub hazard_notes : Option Text
  pub picked_up_litter : Bool
  pub emptied_trash : Bool
  pub washed_shelter : Bool
  pub washed_pad : Bool
  pub washed_can : Bool
  pub trash_volume : Option ℕ
  pub infrastructure_present : Bool
  pub infrastructure_issues : Option (List Text)
  pub infra_issue_details : Option (List InfraIssue)

-- The `severity` text column keeps the value as it was given.
pub record ObservationInsert : Type 0 where
  pub observation_type : Text
  pub payload : Payload
  pub severity : Option Severity

-- `...(v && { key: v })` for an optional text
unfoldable pub field_if : Text → Option Text → Payload
field_if key none = []
field_if key (some v) = if is_empty v then [] else (key, str v) ∷ []

abbrev pub severity_field : Option Severity → Payload
severity_field none = []
severity_field (some s) = (text "severity", num (to_numeric_severity (some s))) ∷ []

unfoldable pub hazard_observation : StopUiPayload → Text → ObservationInsert
hazard_observation ui h = record {
  observation_type = map_safety_hazard h;
  payload = field_if (text "notes") ui.hazard_notes ++ severity_field ui.hazard_severity;
  severity = ui.hazard_severity;
}

unfoldable pub issue_observation : InfraIssue → ObservationInsert
issue_observation issue = record {
  observation_type = map_infra_issue issue.issue_type;
  payload =
      field_if (text "cause") issue.cause
      ++ (field_if (text "component") issue.component ++ field_if (text "notes") issue.notes);
  severity = none;
}

-- a row with no payload and no severity
abbrev pub plain : Text → ObservationInsert
plain t = record { observation_type = t; payload = []; severity = none }

unfoldable pub action_if : Bool → Text → List ObservationInsert
action_if true t = plain t ∷ []
action_if false t = []

abbrev pub list_of {ℓ} : {A : Type ℓ} → Option (List A) → List A
list_of none = []
list_of (some xs) = xs

unfoldable pub hazard_rows : StopUiPayload → List ObservationInsert
hazard_rows ui =
    if ui.safety_concern then map (hazard_observation ui) (list_of ui.safety_hazards) else []

unfoldable pub action_rows : StopUiPayload → List ObservationInsert
action_rows ui =
    action_if ui.picked_up_litter (text "picked_up_litter")
    ++ (action_if ui.emptied_trash (text "emptied_trash")
        ++ (action_if ui.washed_shelter (text "washed_shelter")
            ++ (action_if ui.washed_pad (text "washed_pad")
                ++ action_if ui.washed_can (text "washed_can"))))

abbrev pub volume_row : Option ℕ → List ObservationInsert
volume_row none = []
volume_row (some v) =
    record {
      observation_type = text "trash_volume";
      payload = (text "level", num (pos v)) ∷ [];
      severity = none;
    }
    ∷ []

unfoldable pub volume_rows : StopUiPayload → List ObservationInsert
volume_rows ui = volume_row ui.trash_volume

-- the detailed issues, or the flat list of types where there are none
unfoldable pub issue_rows : List InfraIssue → List Text → List ObservationInsert
issue_rows [] flat = map (λ i. plain (map_infra_issue i)) flat
issue_rows (issue ∷ more) flat = map issue_observation (issue ∷ more)

unfoldable pub infra_rows : StopUiPayload → List ObservationInsert
infra_rows ui =
    if ui.infrastructure_present
    then issue_rows (list_of ui.infra_issue_details) (list_of ui.infrastructure_issues)
    else []

unfoldable pub submit_observations : StopUiPayload → List ObservationInsert
submit_observations ui = hazard_rows ui ++ (action_rows ui ++ (volume_rows ui ++ infra_rows ui))
