-- ===== src/Corridor/Runs.antt =====
-- `refineCorridorRuns` and `enforceCorridorSanity`: both cut the route into maximal runs of one
-- street and bearing, and put a corrected run back in its place.
pub mod Conserve
pub mod Extent
pub mod Stable
pub mod Idle
use fieldpro_pilot.Base.{
  ℕ, zero, suc, Bool, true, false, ◌||◌, Option, none, some, List, [], ◌∷◌, ◌++◌, length,
  if◌then◌else◌, Text, is_empty,
}
use fieldpro_pilot.Base.Sort.{sort_by}
use mathlib.Core.Option
use fieldpro_pilot.Corridor.{
  Stop, street, bearing, RunMeta, in_order, resolve_run_meta, Fraction, less, score_monotonic_run,
}
use fieldpro_pilot.Corridor.Regroup.{same_corridor}

-- the inner `while (j < out.length)`: the rest of the run, and what comes after it
unfoldable pub split_run : Stop → List Stop → List Stop × List Stop
split_run start [] = ([], [])
split_run start (p ∷ ps) =
    let more = split_run start ps in
    if same_corridor start p then (p ∷ more.0, more.1) else ([], p ∷ ps)

-- `correct` is what the body of the loop does to a run and its bearing.
unfoldable pub over_runs : (List Stop → Text → List Stop) → ℕ → List Stop → Option (List Stop)
over_runs correct fuel [] = some []
over_runs correct zero (start ∷ rest) = none
over_runs correct (suc fuel) (start ∷ rest) =
    let skipped = Option.map (◌∷◌ start) (over_runs correct fuel rest) in
    let cut = split_run start rest in
    let corrected =
      Option.map (◌++◌ (correct (start ∷ cut.0) (bearing start))) (over_runs correct fuel cut.1) in
    if is_empty (street start) || is_empty (bearing start) then skipped else corrected

-- a run of at least two stops is sorted along its axis, if its direction is known
unfoldable pub refine_run : List Stop → Text → List Stop
refine_run [] b = []
refine_run (p ∷ []) b = p ∷ []
refine_run (p ∷ q ∷ rest) b = elim (resolve_run_meta (p ∷ q ∷ rest) b) [
  | none ↦ p ∷ q ∷ rest
  | some m ↦ sort_by (in_order m) (p ∷ q ∷ rest)
]

unfoldable pub refine_corridor_runs : List Stop → Option (List Stop)
refine_corridor_runs stops = over_runs refine_run (length stops) stops

-- a run of at least two stops is sorted if its score is below the threshold
unfoldable pub sanity_run : Fraction → List Stop → Text → List Stop
sanity_run threshold [] b = []
sanity_run threshold (p ∷ []) b = p ∷ []
sanity_run threshold (p ∷ q ∷ rest) b = elim (resolve_run_meta (p ∷ q ∷ rest) b) [
  | none ↦ p ∷ q ∷ rest
  | some m ↦
      if less (score_monotonic_run (p ∷ q ∷ rest) b) threshold
      then sort_by (in_order m) (p ∷ q ∷ rest)
      else p ∷ q ∷ rest
]

unfoldable pub enforce_corridor_sanity : List Stop → Fraction → Option (List Stop)
enforce_corridor_sanity stops threshold = over_runs (sanity_run threshold) (length stops) stops
