-- ===== src/Corridor.antt =====
-- Corridor post-processing of a planned route: backend/src/routing/corridorRefine.ts. Coordinates
-- are fixed-point integers (degrees scaled by a power of ten), since the code only compares and
-- subtracts them; a score `ok / total` is a fraction, compared by cross multiplication.
pub mod Regroup
pub mod Runs
pub mod Bearing
mod Tests
use fieldpro_pilot.Base.{
  ℕ, suc, ◌+◌, ◌*◌, ◌≡◌, Bool, true, false, ◌&&◌, ◌||◌, Option, none, some, List, [], ◌∷◌, ◌++◌,
  leb, ltb, if◌then◌else◌, Text, text, eq_text, trim, to_upper_case, includes,
}
use fieldpro_pilot.Base.Int.{ℤ, leb_ℤ, distance, min_ℤ, max_ℤ}

-- `OsrmStop` of osrmClient.ts
pub record Stop : Type 0 where
  pub lon : ℤ
  pub lat : ℤ
  pub stop_id : Option Text
  pub on_street_name : Option Text
  pub bearing_code : Option Text

unfoldable pub normalize : Option Text → Text
unfolding trim to_upper_case
normalize none = []
normalize (some s) = to_upper_case (trim s)

abbrev pub street : Stop → Text
street s = normalize s.on_street_name

abbrev pub bearing : Stop → Text
bearing s = normalize s.bearing_code

pub data Cardinal : Type 0 where
  north south east west : Cardinal

-- `components.push(c)` under its test
abbrev pub push_if : Bool → Cardinal → List Cardinal → List Cardinal
push_if true c cs = c ∷ cs
push_if false c cs = cs

unfoldable pub get_bearing_components : Text → List Cardinal
get_bearing_components code =
    let b = normalize (some code) in
    push_if (includes (text "N") b || includes (text "NORTH") b) north (
      push_if (includes (text "S") b || includes (text "SOUTH") b) south (
        push_if (includes (text "E") b || includes (text "EAST") b) east
          (push_if (includes (text "W") b || includes (text "WEST") b) west [])))

abbrev pub is_cardinal : Cardinal → Cardinal → Bool
is_cardinal north north = true
is_cardinal south south = true
is_cardinal east east = true
is_cardinal west west = true
is_cardinal _ _ = false

-- `components.includes(c)`
abbrev pub has_component : Cardinal → List Cardinal → Bool
has_component c [] = false
has_component c (d ∷ ds) = is_cardinal c d || has_component c ds

pub data SortKey : Type 0 where
  lon lat : SortKey

pub data Direction : Type 0 where
  asc desc : Direction

pub record RunMeta : Type 0 where
  pub sort_key : SortKey
  pub direction : Direction

-- the extremes that the loop of `resolveRunMeta` keeps
pub record Extent : Type 0 where
  pub min_lon : ℤ
  pub max_lon : ℤ
  pub min_lat : ℤ
  pub max_lat : ℤ

abbrev pub point : Stop → Extent
point p = record { min_lon = p.lon; max_lon = p.lon; min_lat = p.lat; max_lat = p.lat }

-- one round of the loop
unfoldable pub widen : Extent → Stop → Extent
widen x p = record {
  min_lon = min_ℤ x.min_lon p.lon;
  max_lon = max_ℤ x.max_lon p.lon;
  min_lat = min_ℤ x.min_lat p.lat;
  max_lat = max_ℤ x.max_lat p.lat;
}

unfoldable pub extent : Extent → List Stop → Extent
extent x [] = x
extent x (p ∷ ps) = extent (widen x p) ps

abbrev pub is_horizontal : Extent → Bool
is_horizontal x = leb (distance x.max_lat x.min_lat) (distance x.max_lon x.min_lon)

abbrev pub horizontal_direction : List Cardinal → Option Direction
horizontal_direction components =
    if has_component east components
    then some asc
    else if has_component west components
    then some desc
    else none

abbrev pub vertical_direction : List Cardinal → Option Direction
vertical_direction components =
    if has_component north components
    then some asc
    else if has_component south components
    then some desc
    else none

abbrev pub with_key : SortKey → Option Direction → Option RunMeta
with_key key none = none
with_key key (some d) = some (record { sort_key = key; direction = d })

-- what `resolveRunMeta` decides once the extremes and the components are known
unfoldable pub meta_of : Extent → List Cardinal → Option RunMeta
meta_of x components =
    if is_horizontal x
    then with_key lon (horizontal_direction components)
    else with_key lat (vertical_direction components)

unfoldable pub resolve_run_meta : List Stop → Text → Option RunMeta
resolve_run_meta [] b = none
resolve_run_meta (p ∷ ps) b = meta_of (extent (point p) (p ∷ ps)) (get_bearing_components b)

abbrev pub coordinate : SortKey → Stop → ℤ
coordinate lon p = p.lon
coordinate lat p = p.lat

-- `direction === "ASC" ? b >= a : b <= a`
abbrev pub ordered : Direction → ℤ → ℤ → Bool
ordered asc a b = leb_ℤ a b
ordered desc a b = leb_ℤ b a

-- two stops in this order have the direction of the run; also the comparator of the sorts
abbrev pub in_order : RunMeta → Stop → Stop → Bool
in_order m a b = ordered m.direction (coordinate m.sort_key a) (coordinate m.sort_key b)

pub record Fraction : Type 0 where
  pub num : ℕ
  pub den : ℕ

abbrev pub less : Fraction → Fraction → Bool
less p q = ltb (p.num * q.den) (q.num * p.den)

-- the loop of `scoreMonotonicRun`: how many neighbours are in order, and how many there are
unfoldable pub count_in_order : RunMeta → Stop → List Stop → Fraction
count_in_order m a [] = record { num = 0; den = 0 }
count_in_order m a (b ∷ rest) =
    let later = count_in_order m b rest in
    record { num = (if in_order m a b then 1 else 0) + later.num; den = 1 + later.den }

abbrev pub one : Fraction
one = record { num = 1; den = 1 }

unfoldable pub score_monotonic_run : List Stop → Text → Fraction
score_monotonic_run [] b = one
score_monotonic_run (p ∷ []) b = one
score_monotonic_run (p ∷ q ∷ rest) b = elim (resolve_run_meta (p ∷ q ∷ rest) b) [
  | none ↦ one
  | some m ↦ count_in_order m p (q ∷ rest)
]
