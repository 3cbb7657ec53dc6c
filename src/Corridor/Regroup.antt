-- ===== src/Corridor/Regroup.antt =====
-- `regroupCorridorWithinWindow`: the outer loop walks over the array; in the model its state is the
-- part of the array from `i` on, and the indices of the inner loops count from `i + 1`.
pub mod Conserve
use fieldpro_pilot.Base.{
  ℕ, zero, suc, ◌+◌, ◌-◌, Bool, ◌&&◌, ◌||◌, Option, none, some, List, [], ◌∷◌, ◌++◌, ◌==◌, length,
  remove_at, if◌then◌else◌, Text, eq_text, is_empty,
}
use mathlib.Core.Option
use fieldpro_pilot.Corridor.{Stop, street, bearing}

unfoldable pub same_corridor : Stop → Stop → Bool
same_corridor base p = eq_text (street p) (street base) && eq_text (bearing p) (bearing base)

-- `matches`: the indices `j` of the first `window` elements that pass the test
unfoldable pub match_indices {ℓ} : {A : Type ℓ} → (A → Bool) → ℕ → ℕ → List A → List ℕ
match_indices test j zero xs = []
match_indices test j (suc window) [] = []
match_indices test j (suc window) (x ∷ xs) =
    let later = match_indices test (suc j) window xs in if test x then j ∷ later else later

-- the loop over `matches`; `m` elements were removed before
unfoldable pub pull {ℓ} : {A : Type ℓ} → ℕ → List ℕ → List A → Option (List A × List A)
unfolding remove_at
pull m [] arr = some ([], arr)
pull m (idx ∷ matches) arr = elim (remove_at (idx - m) arr) [
  | none ↦ none
  | some r ↦ Option.map (λ q. (r.0 ∷ q.0, q.1)) (pull (suc m) matches r.1)
]

-- The whole loop. `none` stands for fuel that ran out, or for a `splice` past the end.
unfoldable pub regroup_loop : ℕ → ℕ → List Stop → Option (List Stop)
regroup_loop fuel window [] = some []
regroup_loop zero window (base ∷ rest) = none
regroup_loop (suc fuel) window (base ∷ rest) =
    let skipped = Option.map (◌∷◌ base) (regroup_loop fuel window rest) in
    let grouped : Option (List Stop) =
      elim (pull 0 (match_indices (same_corridor base) 0 (window - 1) rest) rest) [
        | none ↦ none
        | some r ↦ Option.map (◌∷◌ base) (regroup_loop fuel window (r.0 ++ r.1))
      ] in
    if is_empty (street base) || is_empty (bearing base) then skipped else grouped

unfoldable pub regroup_corridor_within_window : List Stop → ℕ → Option (List Stop)
regroup_corridor_within_window stops window = regroup_loop (length stops) window stops
