-- ===== src/Curbside.antt =====
-- The post-optimiser of a planned route: backend/src/routing/curbsidePostOptimize.ts. `getCost` is a
-- parameter, the duration of the leg between two stops in a fixed unit of time; every cost query is
-- taken to be answered (a rejected one rejects the whole call, with no route returned). The array is
-- walked from `i = 0` on: the state of a loop is the part of the array from `i`, and the index of a
-- candidate counts from `i + 2`.
mod Tests
use fieldpro_pilot.Base.{
  ℕ, zero, suc, ◌+◌, ◌-◌, ◌≡◌, Bool, Option, none, some, List, [], ◌∷◌, length, ltb, leb,
  if◌then◌else◌, remove_at,
}
use fieldpro_pilot.Base.Int.{ℤ, pos, sub_ℕ, ltb_ℤ}
use mathlib.Core.Option
pub mod Deltas
pub mod Improve

-- `bestMoveIndex` (-1 is `none`) and `bestDelta`
pub record Best : Type 0 where
  pub index : Option ℕ
  pub delta : ℤ

pub record Options : Type 0 where
  pub lookahead : ℕ
  pub max_moves : ℕ
  pub min_improvement : ℕ

-- `if (delta < bestDelta)` at index `j`
unfoldable pub better : ℕ → ℤ → Best → Best
better j delta best =
    if ltb_ℤ delta best.delta then record { index = some j; delta = delta } else best

-- the index of a candidate that is worth moving
unfoldable pub worthy : Options → Best → Option ℕ
worthy opts best = if ltb_ℤ best.delta (sub_ℕ 0 opts.min_improvement) then best.index else none

-- the two `splice` calls: the part of the array from `i + 1` on, and how many moves were made
unfoldable pub move {ℓ} : {A : Type ℓ} → A → List A → Option ℕ → Option (List A × ℕ)
move b rest none = some (b ∷ rest, 0)
move b rest (some j) = Option.map (λ r. (r.0 ∷ b ∷ r.1, 1)) (remove_at j rest)

module _ {ℓ} {A : Type ℓ} (cost : A → A → ℕ) where
  -- the legs `A → B`, `P → C` and `C → N`, if there is an `N`
  unfoldable pub current_total : A → A → A → A → List A → ℕ
  current_total a b p c [] = cost a b + cost p c
  current_total a b p c (n ∷ rest) = cost a b + cost p c + cost c n

  -- the legs `A → C`, `C → B` and `P → N`
  unfoldable pub proposed_total : A → A → A → A → List A → ℕ
  proposed_total a b p c [] = cost a c + cost c b
  proposed_total a b p c (n ∷ rest) = cost a c + cost c b + cost p n

  -- the loop over `j`; `p` stands in front of the rest, and `window` rounds are left
  unfoldable pub search_candidate : A → A → A → ℕ → ℕ → List A → Best → Best
  search_candidate a b p j zero rest best = best
  search_candidate a b p j (suc window) [] best = best
  search_candidate a b p j (suc window) (c ∷ rest) best =
      let delta = sub_ℕ (proposed_total a b p c rest) (current_total a b p c rest) in
      search_candidate a b c (suc j) window rest (better j delta best)

  unfoldable pub best_candidate : Options → A → A → List A → Option ℕ
  best_candidate opts a b rest =
      worthy opts (
        search_candidate a b b 0 (opts.lookahead - 1) rest (record { index = none; delta = pos 0 }))

  -- The loop over `i`: the route and the number of moves. `none` stands for fuel that ran out, or
  -- for a `splice` past the end.
  unfoldable pub optimize_loop : Options → ℕ → ℕ → List A → Option (List A × ℕ)
  optimize_loop opts fuel moves [] = some ([], moves)
  optimize_loop opts fuel moves (a ∷ []) = some (a ∷ [], moves)
  optimize_loop opts zero moves (a ∷ b ∷ rest) = none
  optimize_loop opts (suc fuel) moves (a ∷ b ∷ rest) =
      let go : Option (List A × ℕ) = elim (move b rest (best_candidate opts a b rest)) [
        | none ↦ none
        | some r ↦ Option.map (λ q. (a ∷ q.0, q.1)) (optimize_loop opts fuel (moves + r.1) r.0)
      ] in
      if leb opts.max_moves moves then some (a ∷ b ∷ rest, moves) else go

  unfoldable pub post_optimize_curbside_order : List A → Options → Option (List A)
  post_optimize_curbside_order stops opts =
      if ltb 150 (length stops)
      then some stops
      else Option.map (λ r. r.0) (optimize_loop opts (length stops) 0 stops)
