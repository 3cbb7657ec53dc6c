-- ===== src/Export/Erased.antt =====
-- What a deletion erases, and what it keeps.
use fieldpro_pilot.Base.{
  ℕ, ◌≡◌, refl, ap, ◌∙◌, Bool, false, not, List, [], ◌∷◌, ◌++◌, arith, filter, Bool-cases, ◌==◌,
  Text, inl, inr,
}
use fieldpro_pilot.Export.{
  Scoped, History, AuditEntry, Tables, of_org, rows_of, rows_not_of, of_visits, purged,
  audit_purged,
}

module _ {ℓ} {A : Type ℓ} (p : A → Bool) where
  filter-not : (xs : List A) → filter p (filter (λ x. not (p x)) xs) ≡ []
  filter-not [] = refl
  filter-not (x ∷ xs) = elim (Bool-cases (p x)) [
    | inl e ↦ rw e (filter-not xs)
    | inr e ↦ rw (e, e) (filter-not xs)
  ]

  not-not :
      (xs : List A)
      → filter (λ x. not (p x)) (filter (λ x. not (p x)) xs) ≡ filter (λ x. not (p x)) xs
  not-not [] = refl
  not-not (x ∷ xs) = elim (Bool-cases (p x)) [
    | inl e ↦ rw e (not-not xs)
    | inr e ↦ rw (e, e) (ap (◌∷◌ x) (not-not xs))
  ]

-- a table from which the rows of an organisation are gone, and no other
abbrev pub Cleared : ℕ → List Scoped → List Scoped → Type 0
Cleared org before after =
    (rows_of org after ≡ []) × (rows_not_of org after ≡ rows_not_of org before)

rows_not_of-Cleared : (org : ℕ) (rows : List Scoped) → Cleared org rows (rows_not_of org rows)
rows_not_of-Cleared org rows = (filter-not (of_org org) rows, not-not (of_org org) rows)

-- the same for a history, whose rows belong to visits
abbrev pub ClearedOf : List Scoped → List History → List History → Type 0
ClearedOf visits before after =
    (filter (of_visits visits) after ≡ [])
    × (filter (λ h. not (of_visits visits h)) after ≡ filter (λ h. not (of_visits visits h)) before)

filter-ClearedOf :
    (visits : List Scoped) (rows : List History)
    → ClearedOf visits rows (filter (λ h. not (of_visits visits h)) rows)
filter-ClearedOf visits rows = (filter-not (of_visits visits) rows, not-not (of_visits visits) rows)

abbrev pub logged_by : ℕ → AuditEntry → Bool
logged_by org a = a.org_id == org

-- an organisation's data was deleted
pub record IsErased (org : ℕ) (a b : Tables) : Type 0 where
  pub locations_cleared : Cleared org a.locations b.locations
  pub location_external_ids_cleared : Cleared org a.location_external_ids b.location_external_ids
  pub asset_locations_cleared : Cleared org a.asset_locations b.asset_locations
  pub assignments_cleared : Cleared org a.assignments b.assignments
  pub visits_cleared : Cleared org a.visits b.visits
  pub observations_cleared : Cleared org a.observations b.observations
  pub evidence_cleared : Cleared org a.evidence b.evidence
  pub eam_cleared : Cleared org a.eam_bridge_route_log b.eam_bridge_route_log
  pub efforts_cleared : ClearedOf (rows_of org a.visits) a.stop_effort_history b.stop_effort_history
  pub conditions_cleared :
      ClearedOf (rows_of org a.visits) a.stop_condition_history b.stop_condition_history
  pub audit_cleared : filter (logged_by org) b.audit_log ≡ []
  pub audit_kept :
      filter (λ x. not (logged_by org x)) b.audit_log
      ≡ filter (λ x. not (logged_by org x)) a.audit_log
  pub organizations_kept : b.organizations ≡ a.organizations

filter-append_dropped {ℓ} :
    {A : Type ℓ} (p : A → Bool) (xs : List A) (x : A)
    → p x ≡ false
    → filter p (xs ++ x ∷ []) ≡ filter p xs
filter-append_dropped p [] x h = rw h
filter-append_dropped p (y ∷ xs) x h = elim (Bool-cases (p y)) [
  | inl e ↦ rw e (ap (◌∷◌ y) (filter-append_dropped p xs x h))
  | inr e ↦ rw e (filter-append_dropped p xs x h)
]

pub purged-IsErased :
    (actor : Text) (org token : ℕ) (t : Tables)
    → IsErased org t (audit_purged actor org token (purged org t))
unfolding audit_purged purged
purged-IsErased actor org token t = record {
  locations_cleared = rows_not_of-Cleared org t.locations;
  location_external_ids_cleared = rows_not_of-Cleared org t.location_external_ids;
  asset_locations_cleared = rows_not_of-Cleared org t.asset_locations;
  assignments_cleared = rows_not_of-Cleared org t.assignments;
  visits_cleared = rows_not_of-Cleared org t.visits;
  observations_cleared = rows_not_of-Cleared org t.observations;
  evidence_cleared = rows_not_of-Cleared org t.evidence;
  eam_cleared = rows_not_of-Cleared org t.eam_bridge_route_log;
  efforts_cleared = filter-ClearedOf (rows_of org t.visits) t.stop_effort_history;
  conditions_cleared = filter-ClearedOf (rows_of org t.visits) t.stop_condition_history;
  audit_cleared = filter-not (logged_by org) _;
  audit_kept =
      not-not (logged_by org) _
      ∙ filter-append_dropped (λ x. not (logged_by org x)) t.audit_log _ (ground arith);
  organizations_kept = refl;
}
