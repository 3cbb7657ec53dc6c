-- ===== src/Observation/Submit/Actions.antt =====
-- What a submission writes, row by row.
use fieldpro_pilot.Base.{
  ℕ, ◌+◌, ◌≡◌, refl, ap, ◌∙◌, inl, inr, Bool, true, false, not, Option, none, some, List, [], ◌∷◌,
  ◌++◌, arith, map, count, if◌then◌else◌, Bool-cases, Text, text, eq_text, eq_text_iff,
  count-append,
}
use fieldpro_pilot.Observation.{is_some}
use fieldpro_pilot.Queue.Enqueue.{distinct}
use fieldpro_pilot.Observation.Mapping.{
  safety_hazard_type_map, infra_issue_type_map, contains, map_safety_hazard, map_infra_issue,
  safety_presence_types, infra_presence_types,
}
use fieldpro_pilot.Observation.Mapping.Taxonomy.{map-classes}
use fieldpro_pilot.Observation.Submit.{
  StopUiPayload, ObservationInsert, InfraIssue, action_if, hazard_rows, action_rows, volume_rows,
  infra_rows, issue_rows, submit_observations, list_of, plain, volume_row, hazard_observation,
  issue_observation,
}

-- how many rows are of this type
abbrev pub rows_of : Text → List ObservationInsert → ℕ
rows_of t = count (λ o. eq_text o.observation_type t)

-- A type of no presence class.
abbrev IsApart : Text → Type 0
IsApart t = (contains t safety_presence_types ≡ false) × (contains t infra_presence_types ≡ false)

contains-ne :
    (a t : Text) (ts : List Text)
    → contains a ts ≡ true
    → contains t ts ≡ false
    → eq_text a t ≡ false
contains-ne a t ts h k = ground (arith, eq_text_iff a t, ap (λ (x : Text). contains x ts))

module _ (t : Text) (apart : IsApart t) where
  safety-ne : (h : Text) → eq_text (map_safety_hazard h) t ≡ false
  safety-ne h =
      contains-ne (map_safety_hazard h) t safety_presence_types (map-classes h []).0 apart.0

  infra-ne : (i : Text) → eq_text (map_infra_issue i) t ≡ false
  infra-ne i = elim (Bool-cases (contains (map_infra_issue i) safety_presence_types)) [
    | inl e ↦ contains-ne (map_infra_issue i) t safety_presence_types e apart.0
    | inr e ↦
        contains-ne (map_infra_issue i) t infra_presence_types ((map-classes [] i).2 ∙ ap not e)
          apart.1
  ]

  hazard_rows-none :
      (ui : StopUiPayload) (hs : List Text) → rows_of t (map (hazard_observation ui) hs) ≡ 0
  unfolding hazard_observation
  hazard_rows-none ui [] = refl
  hazard_rows-none ui (h ∷ hs) = rw (safety-ne h, hazard_rows-none ui hs)

  flat_rows-none : (is : List Text) → rows_of t (map (λ i. plain (map_infra_issue i)) is) ≡ 0
  flat_rows-none [] = refl
  flat_rows-none (i ∷ is) = rw (infra-ne i, flat_rows-none is)

  issue_rows-none : (is : List InfraIssue) → rows_of t (map issue_observation is) ≡ 0
  unfolding issue_observation
  issue_rows-none [] = refl
  issue_rows-none (i ∷ is) = rw (infra-ne i.issue_type, issue_rows-none is)

  hazards-none : (ui : StopUiPayload) → rows_of t (hazard_rows ui) ≡ 0
  unfolding hazard_rows
  hazards-none ui = elim (Bool-cases ui.safety_concern) [
    | inl e ↦ simp e (hazard_rows-none ui (list_of ui.safety_hazards))
    | inr e ↦ rw e
  ]

  issues-none : (is : List InfraIssue) (flat : List Text) → rows_of t (issue_rows is flat) ≡ 0
  unfolding issue_rows
  issues-none [] flat = flat_rows-none flat
  issues-none (i ∷ is) flat = issue_rows-none (i ∷ is)

  infra-none : (ui : StopUiPayload) → rows_of t (infra_rows ui) ≡ 0
  unfolding infra_rows
  infra-none ui = elim (Bool-cases ui.infrastructure_present) [
    | inl e ↦
        simp e (issues-none (list_of ui.infra_issue_details) (list_of ui.infrastructure_issues))
    | inr e ↦ rw e
  ]

  -- Only the action rows and the volume row are left.
  rows_of-submit :
      (ui : StopUiPayload)
      → rows_of t (submit_observations ui) ≡ rows_of t (action_rows ui) + rows_of t (volume_rows ui)
  unfolding submit_observations
  rows_of-submit ui =
      let is_t = λ (o : ObservationInsert). eq_text o.observation_type t in
      omega (
        arith,
        count-append is_t (hazard_rows ui) (action_rows ui ++ (volume_rows ui ++ infra_rows ui)),
        count-append is_t (action_rows ui) (volume_rows ui ++ infra_rows ui),
        count-append is_t (volume_rows ui) (infra_rows ui),
        hazards-none ui,
        infra-none ui,
      )

abbrev one_if : Bool → ℕ
one_if b = if b then 1 else 0

-- The part of one flag in the rows of a type.
abbrev hit : Bool → Text → Text → ℕ
hit b u t = if eq_text u t then one_if b else 0

action_if-rows : (b : Bool) (u t : Text) → rows_of t (action_if b u) ≡ hit b u t
unfolding action_if
action_if-rows true u t = ground arith
action_if-rows false u t = ground arith

action_rows-sum :
    (t : Text) (ui : StopUiPayload)
    → rows_of t (action_rows ui)
      ≡ hit ui.picked_up_litter (text "picked_up_litter") t
        + (hit ui.emptied_trash (text "emptied_trash") t
            + (hit ui.washed_shelter (text "washed_shelter") t
                + (hit ui.washed_pad (text "washed_pad") t
                    + hit ui.washed_can (text "washed_can") t)))
unfolding action_rows
action_rows-sum t ui =
    let is_t = λ (o : ObservationInsert). eq_text o.observation_type t in
    let litter = action_if ui.picked_up_litter (text "picked_up_litter") in
    let trash = action_if ui.emptied_trash (text "emptied_trash") in
    let shelter = action_if ui.washed_shelter (text "washed_shelter") in
    let pad = action_if ui.washed_pad (text "washed_pad") in
    let can = action_if ui.washed_can (text "washed_can") in
    omega (
      arith,
      count-append is_t litter (trash ++ (shelter ++ (pad ++ can))),
      count-append is_t trash (shelter ++ (pad ++ can)),
      count-append is_t shelter (pad ++ can),
      count-append is_t pad can,
      action_if-rows ui.picked_up_litter (text "picked_up_litter") t,
      action_if-rows ui.emptied_trash (text "emptied_trash") t,
      action_if-rows ui.washed_shelter (text "washed_shelter") t,
      action_if-rows ui.washed_pad (text "washed_pad") t,
      action_if-rows ui.washed_can (text "washed_can") t,
    )

volume_row-other :
    (t : Text) (ui : StopUiPayload)
    → eq_text (text "trash_volume") t ≡ false
    → rows_of t (volume_rows ui) ≡ 0
unfolding volume_rows
volume_row-other t ui h = go ui.trash_volume
  where
    go : (v : Option ℕ) → rows_of t (volume_row v) ≡ 0
    go none = refl
    go (some v) = rw h

-- The rows of a type of no presence class that is not the volume's.
module _ (ui : StopUiPayload) (t : Text) where
  rows_of-action :
      IsApart t
      → eq_text (text "trash_volume") t ≡ false
      → rows_of t (submit_observations ui) ≡ rows_of t (action_rows ui)
  rows_of-action apart ne = omega (arith, rows_of-submit t apart ui, volume_row-other t ui ne)

abbrev actions : StopUiPayload → Text → ℕ
actions ui t =
    hit ui.picked_up_litter (text "picked_up_litter") t
    + (hit ui.emptied_trash (text "emptied_trash") t
        + (hit ui.washed_shelter (text "washed_shelter") t
            + (hit ui.washed_pad (text "washed_pad") t + hit ui.washed_can (text "washed_can") t)))

rows_of-actions :
    (ui : StopUiPayload) (t : Text)
    → IsApart t
    → eq_text (text "trash_volume") t ≡ false
    → rows_of t (submit_observations ui) ≡ actions ui t
rows_of-actions ui t apart ne = rows_of-action ui t apart ne ∙ action_rows-sum t ui

volume_row-some :
    (ui : StopUiPayload)
    → rows_of (text "trash_volume") (volume_rows ui) ≡ one_if (is_some ui.trash_volume)
unfolding volume_rows eq_text
volume_row-some ui = go ui.trash_volume
  where
    go : (v : Option ℕ) → rows_of (text "trash_volume") (volume_row v) ≡ one_if (is_some v)
    go none = refl
    go (some v) = refl

-- A submission writes one row for each cleaning action that was performed and none for one that was
-- not, and one volume row if a volume was given: no presence row, whatever its key, is taken for any
-- of these.
pub submit_observations-actions :
    (ui : StopUiPayload)
    → let rows = λ (t : Text). rows_of t (submit_observations ui) in
      (rows (text "picked_up_litter") ≡ one_if ui.picked_up_litter)
      × (rows (text "emptied_trash") ≡ one_if ui.emptied_trash)
      × (rows (text "washed_shelter") ≡ one_if ui.washed_shelter)
      × (rows (text "washed_pad") ≡ one_if ui.washed_pad)
      × (rows (text "washed_can") ≡ one_if ui.washed_can)
      × (rows (text "trash_volume") ≡ one_if (is_some ui.trash_volume))
unfolding contains safety_presence_types infra_presence_types safety_hazard_type_map
    infra_issue_type_map distinct eq_text
submit_observations-actions ui = (
  omega (arith, rows_of-actions ui (text "picked_up_litter") (refl, refl) refl),
  omega (arith, rows_of-actions ui (text "emptied_trash") (refl, refl) refl),
  omega (arith, rows_of-actions ui (text "washed_shelter") (refl, refl) refl),
  omega (arith, rows_of-actions ui (text "washed_pad") (refl, refl) refl),
  omega (arith, rows_of-actions ui (text "washed_can") (refl, refl) refl),
  omega (
    arith,
    rows_of-submit (text "trash_volume") (refl, refl) ui,
    action_rows-sum (text "trash_volume") ui,
    volume_row-some ui,
  ),
)
