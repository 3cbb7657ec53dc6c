-- ===== src/Service/Observe.antt =====
-- `emitObservationsForStop`, `insertObservations` and `emitSpotCheckObservation` of
-- backend/src/domains/observation/observationService.ts, with `loadRegistryRules` of
-- observationNormalizer.ts.
use fieldpro_pilot.Base.{
  ℕ, suc, ◌&&◌, Option, none, some, List, [], ◌∷◌, ◌++◌, map, filter, if◌then◌else◌, Text, text,
  eq_text, ◌==◌,
}
use fieldpro_pilot.Observation.{RegistryRule, normalize_observation}
use fieldpro_pilot.Observation.Mapping.{contains}
use fieldpro_pilot.Observation.Submit.{StopUiPayload, ObservationInsert, plain, submit_observations}
use fieldpro_pilot.Service.{Db, Services, Result, ok, error}
use fieldpro_pilot.Service.Visit.{Context, insert_audit}

unfoldable pub load_registry_rules : ℕ → List Text → Db → List RegistryRule
load_registry_rules org keys db =
    map (λ r. r.rule)
      (filter (λ r. r.org_id == org && contains r.rule.observation_key keys) db.registry)

-- `map.get(key)`: the last row with the key was set last
unfoldable pub rule_for : Text → List RegistryRule → Option RegistryRule
rule_for key [] = none
rule_for key (r ∷ rules) =
    let later = rule_for key rules in
    elim later [ some s ↦ some s | none ↦ if eq_text r.observation_key key then some r else none ]

-- the two `INSERT`s of one observation
unfoldable pub insert_observation :
    Text × Text → ℕ → Context → List RegistryRule → ObservationInsert → Db → Db
insert_observation secret visit ctx rules o db = record db {
  observations =
      db.observations
      ++ record {
        id = db.serial;
        org_id = ctx.org_id;
        visit_id = visit;
        location_id = ctx.location_id;
        asset_id = ctx.asset_id;
        observation_type = o.observation_type;
        payload = o.payload;
        severity = o.severity;
        norm =
            normalize_observation (rule_for o.observation_type rules) o.observation_type o.payload;
      }
        ∷ [];
  observation_audits =
      insert_audit
        (record {
          subject_id = db.serial;
          org_id = ctx.org_id;
          actor_ref = text "encrypted";
          actor_ref_ciphertext = secret.0;
          actor_ref_key_id = secret.1;
        })
        db.observation_audits;
  serial = suc db.serial;
}

unfoldable pub insert_each :
    Text × Text → ℕ → Context → List RegistryRule → List ObservationInsert → Db → Db
unfolding insert_observation
insert_each secret visit ctx rules [] db = db
insert_each secret visit ctx rules (o ∷ os) db =
    insert_each secret visit ctx rules os (insert_observation secret visit ctx rules o db)

module _ (svc : Services) where
  unfoldable pub insert_observations :
      ℕ → Context → Text → List ObservationInsert → Db → Result (Unit {0})
  insert_observations visit ctx actor os db =
      let rules = load_registry_rules ctx.org_id (map (λ o. o.observation_type) os) db in
      elim (svc.encrypt actor) [
        | none ↦ error (text "encrypt")
        | some secret ↦ ok tt (insert_each secret visit ctx rules os db)
      ]

  abbrev pub emit_rows : ℕ → Context → Text → List ObservationInsert → Db → Result (Unit {0})
  emit_rows visit ctx actor [] db = ok tt db
  emit_rows visit ctx actor (o ∷ os) db = insert_observations visit ctx actor (o ∷ os) db

  -- with the client of the caller
  unfoldable pub emit_observations_for_stop :
      ℕ → Context → Text → StopUiPayload → Db → Result (Unit {0})
  emit_observations_for_stop visit ctx actor ui db =
      emit_rows visit ctx actor (submit_observations ui) db

  unfoldable pub emit_spot_check_observation : ℕ → Context → Text → Db → Result (Unit {0})
  emit_spot_check_observation visit ctx actor db = elim (svc.encrypt actor) [
    | none ↦ error (text "encrypt")
    | some secret ↦
        let key = text "spot_check" in
        ok tt (
          insert_observation secret visit ctx (load_registry_rules ctx.org_id (key ∷ []) db)
            (plain key) db)
  ]
