-- ===== src/Service/Dispatch/Preview.antt =====
-- The handlers of `POST /routes/plan` and `POST /route-runs/preview` of
-- backend/src/modules/routes/routeRunRoutes.ts, which plan a route and write nothing. The lengths in
-- their answers come from the routing service and are left out.
pub mod Agrees
use fieldpro_pilot.Base.{
  ℕ, Bool, true, false, not, ◌&&◌, Option, none, some, List, [], ◌∷◌, filter, find, take, length,
  ltb, leb, if◌then◌else◌, Text, eq_text,
}
use fieldpro_pilot.Corridor.{Stop}
use fieldpro_pilot.Planning.{base_waypoint, is_base, plan_route_with_osrm}
use fieldpro_pilot.Service.Dispatch.Create.{
  Roads, Base, Pool, active_base, found_places, max_osrm_stops, names_two, or_text,
}

-- the answers of both: 200, 400, 403 (of the preview only) and 500
pub record Preview : Type 0 where
  pub truncated : Bool
  pub total_stops : ℕ
  pub used_stops : ℕ
  pub base_id : Option Text
  pub base_anchored : Bool
  pub ordered_stops : List Stop

pub data PlanResponse : Type 0 where
  planned : List Stop → PlanResponse
  previewed : Preview → PlanResponse
  too_few : ℕ → PlanResponse
  nothing_to_plan org_refused plan_broken : PlanResponse

abbrev pub planned_or_broken : Option (List Stop) → PlanResponse
planned_or_broken none = plan_broken
planned_or_broken (some stops) = planned stops

module _ (roads : Roads) where
  unfoldable pub plan_found : List Stop → PlanResponse
  plan_found stops =
      if ltb (length stops) 2
      then too_few (length stops)
      else planned_or_broken (plan_route_with_osrm roads.trip stops)

  unfoldable pub plan_handler : Option ℕ → Option (List Text) → PlanResponse
  unfolding plan_found
  plan_handler org none = nothing_to_plan
  plan_handler org (some ids) =
      if names_two (some ids)
      then elim org [ none ↦ plan_broken | some o ↦ plan_found (found_places roads ids) ]
      else nothing_to_plan

  -- the base of the body or, without one, of the active pool
  unfoldable pub preview_base_id : Option Text → Option Text → Option Text
  preview_base_id given pool = elim (or_text given none) [
    | some id ↦ some id
    | none ↦ elim (or_text pool none) [
      | none ↦ none
      | some p ↦ elim (find (λ x. x.active && eq_text x.id p) roads.pools) [
        | none ↦ none
        | some found ↦ or_text found.base_id none
      ]
    ]
  ]

  unfoldable pub preview_base : Option Text → Option Base
  preview_base none = none
  preview_base (some id) = active_base roads id

  -- the sentinel is dropped from the answer
  unfoldable pub without_base : List Stop → List Stop
  without_base stops = filter (λ s. not (is_base s)) stops

  unfoldable pub waypoints_of : Option Base → List Stop → List Stop
  waypoints_of none stops = stops
  waypoints_of (some base) stops = base_waypoint base.lon base.lat ∷ stops

  abbrev pub shown_preview : Option Base → List Stop → List Stop → Preview
  shown_preview base stops ordered = record {
    truncated = ltb max_osrm_stops (length stops);
    total_stops = length stops;
    used_stops = length (take max_osrm_stops stops);
    base_id = elim base [ none ↦ none | some b ↦ some b.id ];
    base_anchored = elim base [ none ↦ false | some b ↦ true ];
    ordered_stops = without_base ordered;
  }

  unfoldable pub preview_answer : Option Base → List Stop → Option (List Stop) → PlanResponse
  unfolding without_base
  preview_answer base stops none = plan_broken
  preview_answer base stops (some ordered) = previewed (shown_preview base stops ordered)

  unfoldable pub preview_stops : Option Base → List Stop → PlanResponse
  unfolding preview_answer waypoints_of
  preview_stops base stops =
      if ltb (length stops) 2
      then too_few (length stops)
      else preview_answer base stops
          (plan_route_with_osrm roads.trip (waypoints_of base (take max_osrm_stops stops)))

  unfoldable pub preview_handler :
      Option ℕ → Option (List Text) → Option Text → Option Text → PlanResponse
  unfolding preview_base_id preview_base preview_stops
  preview_handler none ids pool base = org_refused
  preview_handler (some org) ids pool base =
      if names_two ids
      then preview_stops (preview_base (preview_base_id base pool))
          (elim ids [ none ↦ [] | some named ↦ found_places roads named ])
      else elim (or_text pool none) [
        | none ↦ nothing_to_plan
        | some p ↦ preview_stops (preview_base (preview_base_id base pool)) (roads.candidates p)
      ]
