-- ===== src/Planning/Order.antt =====
-- The planned order holds every stop exactly once.
use fieldpro_pilot.Base.{
  ℕ, ◌<◌, ◌≡◌, refl, ap, sym, subst, ◌∙◌, true, false, not, Option, none, some, List, [], ◌∷◌,
  arith, map, filter, filter-perm, All, length, ltb, Text,
}
use mathlib.Core.List.{Perm}
use mathlib.Core.List.Perm
use fieldpro_pilot.Base.Sort.{sort_by-perm}
use fieldpro_pilot.Corridor.{Stop}
use fieldpro_pilot.Corridor.Regroup.Conserve.{regroup_corridor_within_window-perm}
use fieldpro_pilot.Corridor.Runs.Conserve.{refine_corridor_runs-perm, enforce_corridor_sanity-perm}
use fieldpro_pilot.Curbside.Improve.{post_optimize_curbside_order-improves}
use fieldpro_pilot.Planning.{
  Waypoint, attach, by_index, ordered_stops, plan_route_with_osrm, is_base, from_metadata,
  metadata_for, with_metadata, real_stops, insertion, four_fifths, post_process, order_stops,
}

-- The passes return for every route, with the same stops.
post_process-perm :
    (cost : Stop → Stop → ℕ) (stops : List Stop)
    → (out : List Stop) × (post_process cost stops ≡ some out) × Perm out stops
unfolding post_process
post_process-perm cost stops =
    let (a, _, ea, pa, _, _, _, _) = post_optimize_curbside_order-improves cost stops insertion in
    let (b, eb, pb) = regroup_corridor_within_window-perm a 8 in
    let (c, ec, pc) = refine_corridor_runs-perm b in
    let (d, ed, pd) = enforce_corridor_sanity-perm c four_fifths in
    (d, rw (ea, eb, ec, ed), Perm.trans pd (Perm.trans pc (Perm.trans pb pa)))

abbrev pub ids : List Stop → List (Option Text)
ids = map (λ s. s.stop_id)

-- the stops of the trip in the order of the request
attached : List Waypoint → List Stop → List Stop
attached ws stops = map (λ p. p.1) (attach ws stops)

attached-ids :
    (ws : List Waypoint) (stops : List Stop)
    → length ws ≡ length stops
    → ids (attached ws stops) ≡ ids stops
unfolding attached attach
attached-ids [] [] h = refl
attached-ids [] (s ∷ stops) h = absurd (omega arith)
attached-ids (w ∷ ws) [] h = absurd (omega arith)
attached-ids (w ∷ ws) (s ∷ stops) h = ap (◌∷◌ s.stop_id) (attached-ids ws stops (omega arith))

from_metadata_id : (s : Stop) (m : Option Stop) → (from_metadata s m).stop_id ≡ s.stop_id
from_metadata_id s none = refl
from_metadata_id s (some m) = refl

pub ids-with_metadata :
    (stops planned : List Stop) → ids (map (with_metadata stops) planned) ≡ ids planned
unfolding with_metadata
ids-with_metadata stops [] = refl
ids-with_metadata stops (s ∷ planned) =
    rw (from_metadata_id s (metadata_for s.stop_id stops), ids-with_metadata stops planned)

-- Of the stops with ids other than the base's, none is filtered out.
attached-real :
    (ws : List Waypoint) (stops : List Stop)
    → length ws ≡ length stops
    → All (λ s. is_base s ≡ false) stops
    → filter (λ s. not (is_base s)) (attached ws stops) ≡ attached ws stops
unfolding attached attach
attached-real [] [] h a = refl
attached-real [] (s ∷ stops) h a = absurd (omega arith)
attached-real (w ∷ ws) [] h a = absurd (omega arith)
attached-real (w ∷ ws) (s ∷ stops) h (real, a) = rw (real, attached-real ws stops (omega arith) a)

-- the real stops of a trip, by their ids
pub real_stops-ids :
    (w : Waypoint) (ws : List Waypoint) (base : Stop) (stops : List Stop)
    → is_base base ≡ true
    → length ws ≡ length stops
    → All (λ s. is_base s ≡ false) stops
    → Perm (ids (real_stops stops (ordered_stops (w ∷ ws) (base ∷ stops)))) (ids stops)
unfolding real_stops ordered_stops attached
real_stops-ids w ws base stops b h a =
    let real = λ (s : Stop). not (is_base s) in
    let sorted =
      Perm.map (λ (p : ℕ × Stop). p.1) (sort_by-perm by_index (attach (w ∷ ws) (base ∷ stops))) in
    let kept : filter real (attached (w ∷ ws) (base ∷ stops)) ≡ attached ws stops =
      let moved : is_base (record base { lon = w.lon; lat = w.lat }) ≡ true = b in
      rw (moved, attached-real ws stops h a) in
    subst (λ l. Perm l (ids stops)) (sym (ids-with_metadata stops _))
      (subst (λ l. Perm (ids (filter real (ordered_stops (w ∷ ws) (base ∷ stops)))) l)
        (ap ids kept ∙ attached-ids ws stops h)
        (Perm.map (λ (s : Stop). s.stop_id) (filter-perm real sorted)))

order_stops_at :
    (trip : List Stop → Option (List Waypoint)) (cost : Stop → Stop → ℕ) (base : Stop)
    (stops : List Stop) (ws : List Waypoint)
    → 0 < length stops
    → trip (base ∷ stops) ≡ some ws
    → order_stops trip cost base stops
      ≡ post_process cost (real_stops stops (ordered_stops ws (base ∷ stops)))
unfolding order_stops plan_route_with_osrm
order_stops_at trip cost base stops ws many answer =
    let enough : ltb (length (base ∷ stops)) 2 ≡ false = ground arith in
    rw (order_stops, enough, answer)

-- When the routing service answers the trip from the base through at least one stop with one waypoint
-- for each place asked for, and no stop has the base's id, then a route is planned, whatever the legs
-- cost, and the ids of its stops are those of the given stops, each as often.
pub order_stops-perm :
    (trip : List Stop → Option (List Waypoint)) (cost : Stop → Stop → ℕ) (base : Stop)
    (stops : List Stop) (ws : List Waypoint)
    → is_base base ≡ true
    → 0 < length stops
    → All (λ s. is_base s ≡ false) stops
    → trip (base ∷ stops) ≡ some ws
    → length ws ≡ length (base ∷ stops)
    → (out : List Stop) × (order_stops trip cost base stops ≡ some out)
      × Perm (map (λ s. s.stop_id) out) (map (λ s. s.stop_id) stops)
order_stops-perm trip cost base stops [] b many real answer h = absurd (omega arith)
order_stops-perm trip cost base stops (w ∷ ws) b many real answer h =
    let planned = real_stops stops (ordered_stops (w ∷ ws) (base ∷ stops)) in
    let (out, made, same) = post_process-perm cost planned in
    (
      out,
      order_stops_at trip cost base stops (w ∷ ws) many answer ∙ made,
      Perm.trans (Perm.map (λ (s : Stop). s.stop_id) same)
          (real_stops-ids w ws base stops b (omega arith) real),
    )
