-- ===== src/Planning/Tests.antt =====
-- A trip from a base through two stops, of which the second is nearer.
use fieldpro_pilot.Base.{
  ℕ, ◌≤◌, ◌≡◌, refl, true, false, some, List, [], ◌∷◌, arith, map, All, length, Text, text, eq_text,
}
use mathlib.Core.List.{Perm}
use fieldpro_pilot.Base.Int.{pos}
use fieldpro_pilot.Corridor.{Stop}
use fieldpro_pilot.Planning.{Waypoint, base_waypoint, is_base, order_stops}
use fieldpro_pilot.Planning.Order.{order_stops-perm}
use fieldpro_pilot.Planning.Candidates.{
  Candidate, force_exclude, force_include, priority_bump, get_candidate_stops_for_pool_with_risk,
}
use fieldpro_pilot.Planning.Candidates.Chosen.{Allowed, chosen-Allowed}

abbrev stop_at : Text → ℕ → Stop
stop_at id x = record {
  lon = pos x;
  lat = pos 0;
  stop_id = some id;
  on_street_name = some (text "Main St");
  bearing_code = some (text "E");
}

abbrev base : Stop
base = base_waypoint (pos 0) (pos 0)

abbrev stops : List Stop
stops = stop_at (text "far") 9 ∷ stop_at (text "near") 4 ∷ []

abbrev waypoints : List Waypoint
waypoints =
    record { waypoint_index = 0; lon = pos 0; lat = pos 0 }
    ∷ record { waypoint_index = 2; lon = pos 9; lat = pos 0 }
    ∷ record { waypoint_index = 1; lon = pos 4; lat = pos 0 }
    ∷ []

base_id : is_base base ≡ true
unfolding eq_text
base_id = refl

stops_real : All (λ s. is_base s ≡ false) stops
unfolding eq_text
stops_real = (refl, (refl, tt))

planned_example :
    (out : List Stop) × (order_stops (λ asked. some waypoints) (λ a b. 1) base stops ≡ some out)
    × Perm (map (λ s. s.stop_id) out) (map (λ s. s.stop_id) stops)
planned_example =
    order_stops-perm (λ asked. some waypoints) (λ a b. 1) base stops waypoints base_id (omega arith)
      stops_real refl refl

abbrev candidate : Text → ℕ → Candidate
candidate id risk = record {
  stop_id = id;
  stop = stop_at id risk;
  combined_risk_score = pos risk;
  hotspot_weight = pos 0;
  l3_urgency_weight = pos 0;
}

chosen_example :
    (length (
        get_candidate_stops_for_pool_with_risk
          (λ a b. true)
          (candidate (text "a") 5 ∷ candidate (text "b") 3 ∷ [])
          (candidate (text "c") 1 ∷ [])
          (force_exclude (text "a")
            ∷ force_include (text "c")
            ∷ priority_bump (text "b") (pos 2)
            ∷ [])
          2)
      ≤ 2)
    × All
        (Allowed (
          force_exclude (text "a")
          ∷ force_include (text "c")
          ∷ priority_bump (text "b") (pos 2)
          ∷ []))
        (get_candidate_stops_for_pool_with_risk
          (λ a b. true)
          (candidate (text "a") 5 ∷ candidate (text "b") 3 ∷ [])
          (candidate (text "c") 1 ∷ [])
          (force_exclude (text "a")
            ∷ force_include (text "c")
            ∷ priority_bump (text "b") (pos 2)
            ∷ [])
          2)
chosen_example =
    chosen-Allowed (λ a b. true) (candidate (text "a") 5 ∷ candidate (text "b") 3 ∷ [])
      (candidate (text "c") 1 ∷ [])
      (force_exclude (text "a") ∷ force_include (text "c") ∷ priority_bump (text "b") (pos 2) ∷ [])
      2
