-- ===== src/Curbside/Tests.antt =====
-- The post-optimiser on a route that one move shortens.
use fieldpro_pilot.Base.{ℕ, ◌≡◌, ◌≤◌, ◌<◌, ◌+◌, ◌*◌, ◌⊎◌, some, List, [], ◌∷◌}
use fieldpro_pilot.Base.Int.{distance, pos}
use mathlib.Core.List.{Perm, head?}
use fieldpro_pilot.Curbside.{Options, post_optimize_curbside_order}
use fieldpro_pilot.Curbside.Deltas.{duration}
use fieldpro_pilot.Curbside.Improve.{post_optimize_curbside_order-improves}

-- the time between two places on a line
abbrev apart : ℕ → ℕ → ℕ
apart x y = distance (pos x) (pos y)

abbrev places : List ℕ
places = 0 ∷ 30 ∷ 10 ∷ 40 ∷ []

abbrev defaults : Options
defaults = record { lookahead = 8; max_moves = 30; min_improvement = 5 }

improves_example :
    (out : List ℕ) × (moves : ℕ) × (post_optimize_curbside_order apart places defaults ≡ some out)
    × Perm out places
    × (moves ≤ 30)
    × (duration apart out + 5 * moves ≤ duration apart places)
    × ((out ≡ places) ⊎ (0 < moves))
    × (head? out ≡ head? places)
improves_example = post_optimize_curbside_order-improves apart places defaults
