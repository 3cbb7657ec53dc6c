-- ===== src/Export.antt =====
-- backend/src/modules/admin/exportDeleteRoutes.ts: the export of an organisation's data and its deletion
-- with a confirmation token. The tables hold rows with an id, an organisation and the rest of their
-- columns; the organisation of a request is none where it is not resolved. The hash of a token, the
-- random token and the clock are given. Rows that hang on a deleted row are deleted with it by the
-- schema and are not listed here.
pub mod Erased
pub mod Tokens
mod Tests
use fieldpro_pilot.Base.{
  ℕ, suc, ◌+◌, ◌*◌, Bool, true, false, not, ◌&&◌, Option, none, some, List, [], ◌∷◌, ◌++◌, map, any,
  filter, find, length, update_where, ltb, ◌==◌, if◌then◌else◌, Text, text, eq_text, is_empty,
}

pub record Scoped : Type 0 where
  pub id : ℕ
  pub org_id : ℕ
  pub content : Text

-- a row of `stop_effort_history` or `stop_condition_history`
pub record History : Type 0 where
  pub visit_id : ℕ
  pub content : Text

pub record AuditEntry : Type 0 where
  pub actor_oid : Text
  pub org_id : ℕ
  pub action : Text
  pub resource_id : ℕ

-- `export_delete_tokens`, whose organisation is the tenant
pub record Token : Type 0 where
  pub id : ℕ
  pub token_hash : Text
  pub tenant : Text
  pub actor_oid : Text
  pub export_path : Text
  pub expires_at : ℕ
  pub consumed_at : Option ℕ

pub record Tables : Type 0 where
  pub organizations : List Scoped
  pub locations : List Scoped
  pub location_external_ids : List Scoped
  pub asset_locations : List Scoped
  pub assignments : List Scoped
  pub visits : List Scoped
  pub observations : List Scoped
  pub evidence : List Scoped
  pub stop_effort_history : List History
  pub stop_condition_history : List History
  pub eam_bridge_route_log : List Scoped
  pub audit_log : List AuditEntry

-- the content of an export file
pub record Bundle : Type 0 where
  pub tenant : Text
  pub org_id : ℕ
  pub organizations : List Scoped
  pub locations : List Scoped
  pub assignments : List Scoped
  pub visits : List Scoped
  pub observations : List Scoped
  pub evidence : List Scoped
  pub stop_effort_history : List History
  pub stop_condition_history : List History
  pub audit_log : List AuditEntry
  pub eam_bridge_route_log : List Scoped

pub record Store : Type 0 where
  pub tables : Tables
  pub tokens : List Token
  pub files : List (Text × Bundle)
  pub serial : ℕ

abbrev pub of_org : ℕ → Scoped → Bool
of_org org r = r.org_id == org

abbrev pub rows_of : ℕ → List Scoped → List Scoped
rows_of org rows = filter (of_org org) rows

-- what `DELETE … WHERE org_id = $1` leaves
abbrev pub rows_not_of : ℕ → List Scoped → List Scoped
rows_not_of org rows = filter (λ r. not (of_org org r)) rows

-- `visit_id = ANY(ids)`
abbrev pub of_visits : List Scoped → History → Bool
of_visits visits h = any (λ v. v.id == h.visit_id) visits

unfoldable pub bundle_of : Text → ℕ → Tables → Bundle
bundle_of tenant org t = record {
  tenant = tenant;
  org_id = org;
  organizations = filter (λ r. r.id == org) t.organizations;
  locations = rows_of org t.locations;
  assignments = rows_of org t.assignments;
  visits = rows_of org t.visits;
  observations = rows_of org t.observations;
  evidence = rows_of org t.evidence;
  stop_effort_history = filter (of_visits (rows_of org t.visits)) t.stop_effort_history;
  stop_condition_history = filter (of_visits (rows_of org t.visits)) t.stop_condition_history;
  audit_log = filter (λ a. a.org_id == org) t.audit_log;
  eam_bridge_route_log = rows_of org t.eam_bridge_route_log;
}

-- the tables after the deletions, step a
unfoldable pub purged : ℕ → Tables → Tables
purged org t = record t {
  stop_effort_history =
      filter (λ h. not (of_visits (rows_of org t.visits) h)) t.stop_effort_history;
  stop_condition_history =
      filter (λ h. not (of_visits (rows_of org t.visits) h)) t.stop_condition_history;
  eam_bridge_route_log = rows_not_of org t.eam_bridge_route_log;
  evidence = rows_not_of org t.evidence;
  observations = rows_not_of org t.observations;
  visits = rows_not_of org t.visits;
  assignments = rows_not_of org t.assignments;
  location_external_ids = rows_not_of org t.location_external_ids;
  asset_locations = rows_not_of org t.asset_locations;
  locations = rows_not_of org t.locations;
}

-- steps c and d: the entry of the deletion is written, and all entries of the organisation are deleted
unfoldable pub audit_purged : Text → ℕ → ℕ → Tables → Tables
audit_purged actor org token t = record t {
  audit_log =
      filter (λ a. not (a.org_id == org))
        (t.audit_log
          ++ record {
            actor_oid = actor;
            org_id = org;
            action = text "export.delete_execute";
            resource_id = token;
          }
            ∷ []);
}

abbrev pub has_hash : Text → Token → Bool
has_hash hash t = eq_text t.token_hash hash

abbrev pub consumed : ℕ → Token → Token
consumed now t = record t { consumed_at = some now }

-- the answers of the handlers: 200, 400, 403, 404, 409 and 410
pub data Answer : Type 0 where
  requested : Text → ℕ → Answer
  deleted : Answer
  downloaded : Bundle → Answer
  file_missing org_unresolved token_required token_unknown token_expired token_used token_foreign :
      Answer

abbrev pub seven_days : ℕ
seven_days = 7 * 24 * 60 * 60 * 1000

abbrev pub is_used : Token → Bool
is_used t = elim t.consumed_at [ none ↦ false | some at ↦ true ]

-- `now` is the clock in milliseconds; `printed` is how a number is printed
module _ (hash : Text → Text) (printed : ℕ → Text) where
  abbrev pub path_of : Text → ℕ → Text
  path_of tenant now =
      text "/tmp/baseline-exports/export_" ++ tenant ++ text "_" ++ printed now ++ text ".json.gz"

  unfoldable pub new_token : ℕ → ℕ → Text → Text → Text → Token
  new_token now id actor tenant raw = record {
    id = id;
    token_hash = hash raw;
    tenant = tenant;
    actor_oid = actor;
    export_path = path_of tenant now;
    expires_at = now + seven_days;
    consumed_at = none;
  }

  unfoldable pub request_entry : Text → ℕ → Text → ℕ → AuditEntry
  request_entry actor org action token = record {
    actor_oid = actor;
    org_id = org;
    action = action;
    resource_id = token;
  }

  -- `POST /admin/export-and-delete/request`, where each of its statements succeeds
  unfoldable pub request_handler : ℕ → Option ℕ → Text → Text → Text → Store → Store × Answer
  unfolding bundle_of new_token request_entry
  request_handler now none actor tenant raw s = (s, org_unresolved)
  request_handler now (some org) actor tenant raw s = (
    record {
      tables = record s.tables {
        audit_log =
            s.tables.audit_log
            ++ request_entry actor org (text "export.data_export") s.serial
              ∷ request_entry actor org (text "export.delete_confirm") s.serial
              ∷ [];
      };
      tokens = s.tokens ++ new_token now s.serial actor tenant raw ∷ [];
      files = (path_of tenant now, bundle_of tenant org s.tables) ∷ s.files;
      serial = suc s.serial;
    },
    requested raw (now + seven_days),
  )

  -- why a token that was found is refused
  unfoldable pub token_refusal : ℕ → Text → Token → Option Answer
  token_refusal now tenant t =
      if ltb t.expires_at now
      then some token_expired
      else if is_used t
      then some token_used
      else if eq_text t.tenant tenant
      then none
      else some token_foreign

  -- the transaction
  unfoldable pub erase : ℕ → ℕ → Text → Token → Store → Store
  unfolding purged audit_purged
  erase now org actor t s = record s {
    tables = audit_purged actor org t.id (purged org s.tables);
    tokens = update_where (λ x. x.id == t.id) (consumed now) s.tokens;
  }

  unfoldable pub execute_checked : ℕ → ℕ → Text → Text → Text → Store → Store × Answer
  unfolding token_refusal erase
  execute_checked now org actor tenant raw s = elim (find (has_hash (hash raw)) s.tokens) [
    | none ↦ (s, token_unknown)
    | some t ↦ elim (token_refusal now tenant t) [
      | some answer ↦ (s, answer)
      | none ↦ (erase now org actor t s, deleted)
    ]
  ]

  -- `POST /admin/export-and-delete/execute`; the token is none where the body has no text
  unfoldable pub execute_handler : ℕ → Option ℕ → Text → Text → Option Text → Store → Store × Answer
  unfolding execute_checked
  execute_handler now none actor tenant raw s = (s, org_unresolved)
  execute_handler now (some org) actor tenant none s = (s, token_required)
  execute_handler now (some org) actor tenant (some []) s = (s, token_required)
  execute_handler now (some org) actor tenant (some (c ∷ raw)) s =
      execute_checked now org actor tenant (c ∷ raw) s

-- `GET /admin/export-and-delete/export/:token_id`
unfoldable pub download_file : Token → Store → Answer
download_file t s = elim (find (λ f. eq_text f.0 t.export_path) s.files) [
  | none ↦ file_missing
  | some f ↦ downloaded f.1
]

unfoldable pub download_handler : Option ℕ → Text → ℕ → Store → Answer
unfolding download_file
download_handler none tenant id s = org_unresolved
download_handler (some org) tenant id s = elim (find (λ t. t.id == id) s.tokens) [
  | none ↦ token_unknown
  | some t ↦ if eq_text t.tenant tenant then download_file t s else token_foreign
]
