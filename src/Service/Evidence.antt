-- ===== src/Service/Evidence.antt =====
-- backend/src/domains/routeRunStop/stopPhotosService.ts: the photos of a stop, as rows of `core.evidence`
-- with their actors. The tables of photos are a state of their own beside the others; the signing of a
-- link is a parameter, none where it fails.
pub mod Laws
use fieldpro_pilot.Base.{
  ℕ, suc, ◌+◌, Bool, true, false, ◌&&◌, ◌||◌, Option, none, some, List, [], ◌∷◌, ◌++◌, map, any,
  find, filter, count, if◌then◌else◌, Text, text, eq_text, is_empty, ◌==◌, ltb, leb,
}
use fieldpro_pilot.Base.Sort.{sort_by}
use fieldpro_pilot.Service.{Db, Services, VisitRow, ActorAudit}
use fieldpro_pilot.Service.Visit.{has_client_id, insert_audit}

-- `core.evidence`
pub record Evidence : Type 0 where
  pub id : ℕ
  pub org_id : ℕ
  pub visit_id : ℕ
  pub kind : Text
  pub storage_key : Text
  pub captured_at : ℕ

pub record EvidenceStore : Type 0 where
  pub evidence : List Evidence
  pub evidence_audits : List ActorAudit
  pub serial : ℕ

-- the two writes for a key, for the visit that was found
unfoldable pub insert_evidence :
    ℕ → Text × Text → Text → VisitRow → Text → EvidenceStore → EvidenceStore
insert_evidence now secret kind v key store = record {
  evidence =
      store.evidence
      ++ record {
        id = store.serial;
        org_id = v.org_id;
        visit_id = v.id;
        kind = kind;
        storage_key = key;
        captured_at = now;
      }
        ∷ [];
  evidence_audits =
      insert_audit
        (record {
          subject_id = store.serial;
          org_id = v.org_id;
          actor_ref = text "encrypted";
          actor_ref_ciphertext = secret.0;
          actor_ref_key_id = secret.1;
        })
        store.evidence_audits;
  serial = suc store.serial;
}

-- the loop over the keys; without a visit nothing is written
unfoldable pub insert_each :
    ℕ → Text × Text → Text → Option VisitRow → List Text → EvidenceStore → EvidenceStore
unfolding insert_evidence
insert_each now secret kind visit [] store = store
insert_each now secret kind none (key ∷ keys) store = insert_each now secret kind none keys store
insert_each now secret kind (some v) (key ∷ keys) store =
    insert_each now secret kind (some v) keys (insert_evidence now secret kind v key store)

abbrev pub kind_matches : Option Text → Text → Bool
kind_matches none k = true
kind_matches (some []) k = true
kind_matches (some (c ∷ kind)) k = eq_text k (c ∷ kind)

module _ (svc : Services) where
  abbrev pub visit_of_stop : ℕ → Db → Option VisitRow
  visit_of_stop id db = find (has_client_id (svc.uuid_of_stop id)) db.visits

  abbrev pub default_kind : Option Text → Text
  default_kind none = text "completion"
  default_kind (some k) = k

  unfoldable pub create_keys :
      ℕ → Text → Text → List Text → Db → EvidenceStore → Option EvidenceStore
  unfolding insert_each
  create_keys id actor kind keys db store = elim (svc.encrypt actor) [
    | none ↦ none
    | some secret ↦ some (insert_each svc.now secret kind (visit_of_stop id db) keys store)
  ]

  -- none where it throws, and the transaction is rolled back
  unfoldable pub create_stop_photos :
      ℕ → Text → List Text → Option Text → Db → EvidenceStore → Option EvidenceStore
  unfolding create_keys
  create_stop_photos id actor [] kind db store = some store
  create_stop_photos id actor (key ∷ keys) kind db store =
      create_keys id actor (default_kind kind) (key ∷ keys) db store

  -- a row that the join with the visits of the stop keeps
  unfoldable pub of_stop : ℕ → Db → Evidence → Bool
  of_stop id db e =
      any (λ (v : VisitRow). v.id == e.visit_id && has_client_id (svc.uuid_of_stop id) v) db.visits

  unfoldable pub count_stop_photos_by_route_run_stop : ℕ → Option Text → Db → EvidenceStore → ℕ
  unfolding of_stop
  count_stop_photos_by_route_run_stop id kind db store =
      count (λ e. of_stop id db e && kind_matches kind e.kind) store.evidence

  abbrev pub captured_before : Evidence → Evidence → Bool
  captured_before a b =
      if a.captured_at == b.captured_at then leb a.id b.id else ltb a.captured_at b.captured_at

  abbrev pub url_of : Option Text → Text
  url_of none = []
  url_of (some url) = url

  -- the photos with their links
  unfoldable pub list_stop_photos_by_route_run_stop :
      (Text → Option Text) → ℕ → Option Text → Db → EvidenceStore → List (Evidence × Text)
  unfolding of_stop
  list_stop_photos_by_route_run_stop sign id kind db store =
      map (λ e. (e, if is_empty e.storage_key then [] else url_of (sign e.storage_key)))
        (sort_by captured_before
          (filter (λ e. of_stop id db e && kind_matches kind e.kind) store.evidence))
