-- ===== src/Service/Dispatch/Preview/Agrees.antt =====
-- A preview shows the stops that the created run will have.
use fieldpro_pilot.Base.{
  ℕ, zero, suc, ◌<◌, ◌≡◌, refl, sym, subst, true, false, some, List, [], ◌∷◌, arith, map, take, All,
  length, ltb,
}
use mathlib.Core.List.{Perm}
use mathlib.Core.List.Perm
use fieldpro_pilot.Corridor.{Stop}
use fieldpro_pilot.Planning.{
  Waypoint, base_waypoint, is_base, order_stops, ordered_stops, plan_route_with_osrm, real_stops,
}
use fieldpro_pilot.Planning.Order.{ids, ids-with_metadata, real_stops-ids, order_stops-perm}
use fieldpro_pilot.Service.Dispatch.Create.{Roads, Base, max_osrm_stops}
use fieldpro_pilot.Service.Dispatch.Preview.{
  Preview, previewed, without_base, shown_preview, preview_stops,
}

-- The ids that are shown are those of the real stops before the passes.
without_base-ids :
    (roads : Roads) (stops ordered : List Stop)
    → ids (without_base roads ordered) ≡ ids (real_stops stops ordered)
unfolding without_base real_stops
without_base-ids roads stops ordered = sym (ids-with_metadata stops _)

-- the stops that fit into a request to the routing service
abbrev pub first_stops : List Stop → List Stop
first_stops stops = take max_osrm_stops stops

two-take : (n : ℕ) (stops : List Stop) → 1 < length stops → 1 < n → 1 < length (take n stops)
two-take (suc (suc n)) (s ∷ t ∷ stops) many room = omega arith
two-take (suc (suc n)) (s ∷ []) many room = absurd (omega arith)
two-take (suc (suc n)) [] many room = absurd (omega arith)
two-take (suc zero) stops many room = absurd (omega arith)
two-take zero stops many room = absurd (omega arith)

-- For the stops and the base of one request, also more stops than the routing service takes, when that
-- service answers the trip of the first `MAX_OSRM_STOPS` of them with one waypoint for each place: the
-- preview shows a route from the base and whether stops were left out, the run that is created of the
-- first `MAX_OSRM_STOPS` stops has a route, and both hold the same stops, each as often. The base's id
-- is that of no stop.
pub preview_stops-order_stops :
    (roads : Roads) (cost : Stop → Stop → ℕ) (base : Base) (stops : List Stop) (ws : List Waypoint)
    → 1 < length stops
    → is_base (base_waypoint base.lon base.lat) ≡ true
    → All (λ s. is_base s ≡ false) (first_stops stops)
    → roads.trip (base_waypoint base.lon base.lat ∷ first_stops stops) ≡ some ws
    → length ws ≡ suc (length (first_stops stops))
    → (p : Preview) × (preview_stops roads (some base) stops ≡ previewed p)
      × (p.base_anchored ≡ true)
      × (p.truncated ≡ ltb max_osrm_stops (length stops))
      × (out : List Stop) × (order_stops roads.trip cost
            (base_waypoint base.lon base.lat)
            (first_stops stops)
          ≡ some out)
      × Perm (map (λ s. s.stop_id) p.ordered_stops) (map (λ s. s.stop_id) out)
preview_stops-order_stops roads cost base stops [] many own real answer h = absurd (omega arith)
preview_stops-order_stops roads cost base stops (w ∷ ws) many own real answer h =
    let start = base_waypoint base.lon base.lat in
    let asked = first_stops stops in
    let ordered = ordered_stops (w ∷ ws) (start ∷ asked) in
    let two : ltb (length stops) 2 ≡ false = ground arith in
    let enough = two-take max_osrm_stops stops many (omega arith) in
    let three : ltb (length (start ∷ asked)) 2 ≡ false = ground arith in
    let (out, made, same) =
      order_stops-perm roads.trip cost start asked (w ∷ ws) own (omega (arith, enough)) real answer
        h in
    (
      shown_preview roads (some base) stops ordered,
      unfold preview_stops in
          rw (two, preview_stops) (unfold plan_route_with_osrm in rw (three, answer) refl),
      refl,
      refl,
      out,
      made,
      Perm.trans
          (subst (λ l. Perm l (ids asked)) (sym (without_base-ids roads asked ordered))
            (real_stops-ids w ws start asked own (omega (arith, enough)) real))
          (Perm.symm same),
    )
