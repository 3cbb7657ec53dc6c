-- ===== src/Planning/Candidates.antt =====
-- getCandidateStopsForPoolWithRisk of routeRunService.ts. Scores are integers in a fixed unit. The rows
-- of its two queries are arguments: the stops of the pool with the highest risk, and the stops of the
-- pool, of which the second query takes those with the ids asked for. How two ids are compared in the
-- locale is a parameter.
pub mod Chosen
use fieldpro_pilot.Base.{
  ℕ, ◌+◌, Bool, true, false, not, ◌||◌, ◌&&◌, Option, none, some, List, [], ◌∷◌, ◌++◌, map, filter,
  any, take, if◌then◌else◌, ◌==◌, Text, eq_text,
}
use fieldpro_pilot.Base.Int.{ℤ, pos, sub_ℕ, pos_part, neg_part, leb_ℤ, ltb_ℤ, max_ℤ}
use fieldpro_pilot.Base.Sort.{sort_by}
use fieldpro_pilot.Corridor.{Stop}

pub record Candidate : Type 0 where
  pub stop_id : Text
  pub stop : Stop
  pub combined_risk_score : ℤ
  pub hotspot_weight : ℤ
  pub l3_urgency_weight : ℤ

-- the `override_type` of a row of `lead_route_overrides`, with its `value` (0 for null)
pub data Override : Type 0 where
  force_exclude force_include : Text → Override
  priority_bump : Text → ℤ → Override

abbrev pub add_ℤ : ℤ → ℤ → ℤ
add_ℤ a b = sub_ℕ (pos_part a + pos_part b) (neg_part a + neg_part b)

unfoldable pub excludes : Text → Override → Bool
excludes id (force_exclude other) = eq_text other id
excludes id (force_include other) = false
excludes id (priority_bump other value) = false

unfoldable pub includes_stop : Text → Override → Bool
includes_stop id (force_exclude other) = false
includes_stop id (force_include other) = eq_text other id
includes_stop id (priority_bump other value) = false

-- `forceExcludeIds.has` and `forceIncludeIds.has`
abbrev pub is_excluded : List Override → Text → Bool
is_excluded overrides id = any (excludes id) overrides

abbrev pub is_included : List Override → Text → Bool
is_included overrides id = any (includes_stop id) overrides

-- the sum of the bumps of a stop; none where it has no bump is the same as 0
unfoldable pub bump_of : Text → List Override → ℤ
bump_of id [] = pos 0
bump_of id (force_exclude other ∷ overrides) = bump_of id overrides
bump_of id (force_include other ∷ overrides) = bump_of id overrides
bump_of id (priority_bump other value ∷ overrides) =
    if eq_text other id then add_ℤ value (bump_of id overrides) else bump_of id overrides

abbrev pub has_candidate : List Candidate → Text → Bool
has_candidate candidates id = any (λ c. eq_text c.stop_id id) candidates

abbrev pub without_excluded : List Override → List Candidate → List Candidate
without_excluded overrides candidates =
    filter (λ c. not (is_excluded overrides c.stop_id)) candidates

-- a row of the second query, with the scores set to 0
abbrev pub unscored : Candidate → Candidate
unscored c = record c {
  combined_risk_score = pos 0;
  hotspot_weight = pos 0;
  l3_urgency_weight = pos 0;
}

-- the candidates after the excludes and the includes
unfoldable pub apply_overrides : List Candidate → List Candidate → List Override → List Candidate
apply_overrides rows pool overrides =
    let kept = without_excluded overrides rows in
    kept
    ++ map unscored
        (filter (λ c. is_included overrides c.stop_id && not (has_candidate kept c.stop_id)) pool)

unfoldable pub max_risk : List Candidate → ℤ
max_risk [] = pos 0
max_risk (c ∷ candidates) = max_ℤ c.combined_risk_score (max_risk candidates)

unfoldable pub effective_score : List Override → ℤ → Candidate → ℤ
effective_score overrides bonus c =
    let bumped = add_ℤ c.combined_risk_score (bump_of c.stop_id overrides) in
    if is_included overrides c.stop_id then add_ℤ bumped bonus else bumped

pub record Scored : Type 0 where
  pub candidate : Candidate
  pub effective : ℤ

unfoldable pub scored : List Override → List Candidate → List Scored
unfolding effective_score
scored overrides candidates =
    let bonus = add_ℤ (max_risk candidates) (pos 1000) in
    map (λ c. record { candidate = c; effective = effective_score overrides bonus c }) candidates

abbrev pub same_ℤ : ℤ → ℤ → Bool
same_ℤ a b = leb_ℤ a b && leb_ℤ b a

module _ (id_before : Text → Text → Bool) where
  -- the comparator is at most 0
  unfoldable pub chosen_before : Scored → Scored → Bool
  chosen_before a b =
      if not (same_ℤ a.effective b.effective)
      then ltb_ℤ b.effective a.effective
      else if not (same_ℤ a.candidate.hotspot_weight b.candidate.hotspot_weight)
      then ltb_ℤ b.candidate.hotspot_weight a.candidate.hotspot_weight
      else if not (same_ℤ a.candidate.l3_urgency_weight b.candidate.l3_urgency_weight)
      then ltb_ℤ b.candidate.l3_urgency_weight a.candidate.l3_urgency_weight
      else id_before a.candidate.stop_id b.candidate.stop_id

  unfoldable pub get_candidate_stops_for_pool_with_risk :
      List Candidate → List Candidate → List Override → ℕ → List Candidate
  unfolding apply_overrides scored
  get_candidate_stops_for_pool_with_risk rows pool overrides limit =
      map (λ s. s.candidate)
        (take limit
          (sort_by chosen_before (scored overrides (apply_overrides rows pool overrides))))
