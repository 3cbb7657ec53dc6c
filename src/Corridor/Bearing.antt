-- ===== src/Corridor/Bearing.antt =====
-- What `getBearingComponents` reads out of a bearing that is spelled out.
use fieldpro_pilot.Base.{◌≡◌, true, some, List, [], ◌∷◌, arith, Text, text, starts_with, includes}
use fieldpro_pilot.Corridor.{
  Stop, normalize, east, get_bearing_components, has_component, RunMeta, lon, asc, meta_of,
  resolve_run_meta,
}

west_head : (t : Text) → starts_with (text "WEST") t ≡ true → includes (text "E") t ≡ true
unfolding includes starts_with
west_head [] h = h
west_head (a ∷ []) h = ground arith
west_head (a ∷ b ∷ t) h = ground arith

includes_e : (t : Text) → includes (text "WEST") t ≡ true → includes (text "E") t ≡ true
unfolding includes
includes_e [] h = ground arith
includes_e (a ∷ t) h = ground (arith, west_head (a ∷ t), includes_e t)

-- A bearing whose text contains "WEST" has the component E, since the word contains that letter.
components-west :
    (code : Text)
    → includes (text "WEST") (normalize (some code)) ≡ true
    → has_component east (get_bearing_components code) ≡ true
unfolding get_bearing_components
components-west code h = ground (arith, includes_e (normalize (some code)) h)

-- Where a run lies along its street from west to east and its bearing is spelled out with "WEST", as
-- "Westbound" or "Northwest" are, the run is given the direction of growing longitude, as an
-- eastbound run is.
pub resolve_run_meta-west :
    (run : List Stop) (code : Text) (m : RunMeta)
    → includes (text "WEST") (normalize (some code)) ≡ true
    → resolve_run_meta run code ≡ some m
    → m.sort_key ≡ lon
    → m.direction ≡ asc
unfolding resolve_run_meta meta_of
resolve_run_meta-west [] code m h e k = cc
resolve_run_meta-west (p ∷ ps) code m h e k = ground (arith, components-west code h)
