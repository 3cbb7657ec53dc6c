-- ===== src/Planning.antt =====
-- The planning of a run: planRouteWithOsrm of backend/src/osrmClient.ts, and the order of the stops in
-- createRouteRun of backend/src/domains/routeRun/routeRunService.ts, up to its transaction. The answers
-- of the routing service are parameters: `trip` for the waypoints of a trip, `cost` for the duration of
-- a leg; a place is a pair of coordinates.
pub mod Candidates
pub mod Order
mod Tests
use fieldpro_pilot.Base.{
  ℕ, Bool, true, false, not, Option, none, some, List, [], ◌∷◌, ◌++◌, map, filter, length, ltb, leb,
  if◌then◌else◌, Text, text, eq_text,
}
use mathlib.Core.Option
use fieldpro_pilot.Base.Int.{ℤ}
use fieldpro_pilot.Base.Sort.{sort_by}
use fieldpro_pilot.Corridor.{Stop, Fraction}
use fieldpro_pilot.Corridor.Regroup.{regroup_corridor_within_window}
use fieldpro_pilot.Corridor.Runs.{refine_corridor_runs, enforce_corridor_sanity}
use fieldpro_pilot.Curbside.{Options, post_optimize_curbside_order}

-- an element of `waypoints`, one for each input stop, with its position in the trip
pub record Waypoint : Type 0 where
  pub waypoint_index : ℕ
  pub lon : ℤ
  pub lat : ℤ

abbrev pub nowhere : Option Stop → Waypoint → Stop
nowhere none w = record {
  lon = w.lon;
  lat = w.lat;
  stop_id = none;
  on_street_name = none;
  bearing_code = none;
}
nowhere (some s) w = record s { lon = w.lon; lat = w.lat }

-- each waypoint's index with its stop, which `stops[inputIndex]` gives
unfoldable pub attach : List Waypoint → List Stop → List (ℕ × Stop)
attach [] stops = []
attach (w ∷ ws) [] = (w.waypoint_index, nowhere none w) ∷ attach ws []
attach (w ∷ ws) (s ∷ stops) = (w.waypoint_index, nowhere (some s) w) ∷ attach ws stops

abbrev pub by_index : ℕ × Stop → ℕ × Stop → Bool
by_index a b = leb a.0 b.0

unfoldable pub ordered_stops : List Waypoint → List Stop → List Stop
unfolding attach
ordered_stops ws stops = map (λ p. p.1) (sort_by by_index (attach ws stops))

-- `planRouteWithOsrm`; none where it throws
unfoldable pub plan_route_with_osrm :
    (List Stop → Option (List Waypoint)) → List Stop → Option (List Stop)
unfolding ordered_stops
plan_route_with_osrm trip stops =
    if ltb (length stops) 2 then none else Option.map (λ ws. ordered_stops ws stops) (trip stops)

abbrev pub has_stop_id : Text → Stop → Bool
has_stop_id id s = elim s.stop_id [ none ↦ false | some i ↦ eq_text i id ]

abbrev pub is_base : Stop → Bool
is_base s = has_stop_id (text "__BASE__") s

abbrev pub base_waypoint : ℤ → ℤ → Stop
base_waypoint lon lat = record {
  lon = lon;
  lat = lat;
  stop_id = some (text "__BASE__");
  on_street_name = none;
  bearing_code = none;
}

-- `metadataMap`: of two stops with one id the last is kept
unfoldable pub metadata_of : Text → List Stop → Option Stop
metadata_of id [] = none
metadata_of id (s ∷ stops) = elim (metadata_of id stops) [
  | some later ↦ some later
  | none ↦ if has_stop_id id s then some s else none
]

abbrev pub from_metadata : Stop → Option Stop → Stop
from_metadata s none = s
from_metadata s (some m) = record s {
  on_street_name = m.on_street_name;
  bearing_code = m.bearing_code;
}

-- an id that is empty counts as none
abbrev pub metadata_for : Option Text → List Stop → Option Stop
metadata_for none stops = none
metadata_for (some []) stops = none
metadata_for (some (c ∷ id)) stops = metadata_of (c ∷ id) stops

unfoldable pub with_metadata : List Stop → Stop → Stop
unfolding metadata_of
with_metadata stops s = from_metadata s (metadata_for s.stop_id stops)

unfoldable pub real_stops : List Stop → List Stop → List Stop
unfolding with_metadata
real_stops stops planned = map (with_metadata stops) (filter (λ s. not (is_base s)) planned)

abbrev pub insertion : Options
insertion = record { lookahead = 8; max_moves = 30; min_improvement = 5 }

abbrev pub four_fifths : Fraction
four_fifths = record { num = 4; den = 5 }

infixl 1 ◌>>=◌
abbrev ◌>>=◌ {ℓ κ} : {A : Type ℓ} → {B : Type κ} → Option A → (A → Option B) → Option B
none >>= next = none
some a >>= next = next a

-- the passes, in their order
unfoldable pub post_process : (Stop → Stop → ℕ) → List Stop → Option (List Stop)
post_process cost stops = do
  optimized ← post_optimize_curbside_order cost stops insertion
  regrouped ← regroup_corridor_within_window optimized 8
  refined ← refine_corridor_runs regrouped
  enforce_corridor_sanity refined four_fifths

-- the stops that `createRouteRun` inserts, in their order
unfoldable pub order_stops :
    (List Stop → Option (List Waypoint)) → (Stop → Stop → ℕ) → Stop → List Stop → Option (List Stop)
unfolding plan_route_with_osrm real_stops post_process
order_stops trip cost base stops = elim (plan_route_with_osrm trip (base ∷ stops)) [
  | none ↦ none
  | some planned ↦ post_process cost (real_stops stops planned)
]
