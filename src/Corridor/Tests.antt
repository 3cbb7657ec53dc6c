-- ===== src/Corridor/Tests.antt =====
-- The corridor passes on a small route.
use fieldpro_pilot.Base.{ℕ, ◌≡◌, refl, true, none, some, List, [], ◌∷◌, Text, text, includes}
use fieldpro_pilot.Base.Int.{pos, min_ℤ, max_ℤ}
use mathlib.Core.List.{Perm}
use fieldpro_pilot.Corridor.{
  Stop, RunMeta, lon, asc, Fraction, normalize, get_bearing_components, widen, extent, meta_of,
  resolve_run_meta,
}
use fieldpro_pilot.Corridor.Regroup.{regroup_corridor_within_window}
use fieldpro_pilot.Corridor.Regroup.Conserve.{regroup_corridor_within_window-perm}
use fieldpro_pilot.Corridor.Runs.{refine_corridor_runs, enforce_corridor_sanity}
use fieldpro_pilot.Corridor.Runs.Idle.{enforce_corridor_sanity-refine_corridor_runs}

abbrev at : ℕ → Text → Text → Stop
at x street bearing = record {
  lon = pos x;
  lat = pos 40;
  stop_id = none;
  on_street_name = some street;
  bearing_code = some bearing;
}

-- Three stops of one corridor, out of order, and one of another between them.
abbrev route : List Stop
route =
    at 7 (text "Main St") (text "EB")
    ∷ at 5 (text "2nd Ave") (text "N")
    ∷ at 3 (text "main st ") (text "eb")
    ∷ at 4 (text "Main St") (text "EB")
    ∷ []

abbrev run : List Stop
run = at 7 (text "Main St") (text "EB") ∷ at 3 (text "Main St") (text "EB") ∷ []

abbrev west_run : List Stop
west_run = at 7 (text "Main St") (text "Westbound") ∷ at 3 (text "Main St") (text "Westbound") ∷ []

abbrev eastward : RunMeta
eastward = record { sort_key = lon; direction = asc }

abbrev half : Fraction
half = record { num = 1; den = 2 }

regroup_example :
    (out : List Stop) × (regroup_corridor_within_window route 8 ≡ some out) × Perm out route
regroup_example = regroup_corridor_within_window-perm route 8

idle_example :
    (out : List Stop) × (refine_corridor_runs route ≡ some out)
    × (enforce_corridor_sanity out half ≡ some out)
idle_example = enforce_corridor_sanity-refine_corridor_runs route half

eastward_found : resolve_run_meta run (text "EB") ≡ some eastward
unfolding resolve_run_meta meta_of extent widen get_bearing_components normalize includes max_ℤ
    min_ℤ
eastward_found = refl

west_includes : includes (text "WEST") (normalize (some (text "Westbound"))) ≡ true
unfolding normalize includes
west_includes = refl

west_resolves : resolve_run_meta west_run (text "Westbound") ≡ some eastward
unfolding resolve_run_meta meta_of extent widen get_bearing_components normalize includes max_ℤ
    min_ℤ
west_resolves = refl
