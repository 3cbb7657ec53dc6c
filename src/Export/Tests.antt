-- ===== src/Export/Tests.antt =====
-- The deletion token at concrete requests.
use fieldpro_pilot.Base.{ℕ, ◌≡◌, refl, some, [], ◌∷◌, arith, Text, text, eq_text}
use fieldpro_pilot.Export.{
  Scoped, Tables, Store, token_used, deleted, token_foreign, execute_handler, request_handler,
  execute_checked,
}
use fieldpro_pilot.Export.Erased.{IsErased}
use fieldpro_pilot.Export.Tokens.{execute-request, after_request}

abbrev hashed : Text → Text
hashed s = 7 ∷ s

abbrev printed : ℕ → Text
printed n = n ∷ []

abbrev raw : Text
raw = text "secret"

abbrev worker : Text
worker = text "w1"

abbrev tenant : Text
tenant = text "t1"

abbrev row : ℕ → ℕ → Scoped
row id org = record { id = id; org_id = org; content = [] }

abbrev tables : Tables
tables = record {
  organizations = row 1 1 ∷ row 2 2 ∷ [];
  locations = row 10 1 ∷ row 11 2 ∷ [];
  location_external_ids = row 12 1 ∷ [];
  asset_locations = row 13 1 ∷ [];
  assignments = row 14 1 ∷ row 15 2 ∷ [];
  visits = row 20 1 ∷ row 21 2 ∷ [];
  observations = row 30 1 ∷ [];
  evidence = row 40 2 ∷ [];
  stop_effort_history = record { visit_id = 20; content = [] } ∷ [];
  stop_condition_history = record { visit_id = 21; content = [] } ∷ [];
  eam_bridge_route_log = [];
  audit_log =
      record { actor_oid = worker; org_id = 2; action = text "login"; resource_id = 1 } ∷ [];
}

abbrev before : Store
before = record { tables = tables; tokens = []; files = []; serial = 5 }

request_example :
    (b : Store) × (execute_handler hashed printed 200
        (some 1)
        worker
        tenant
        (some raw)
        (after_request hashed printed 100 1 worker tenant raw before)
      ≡ (b, deleted))
    × IsErased 1 (after_request hashed printed 100 1 worker tenant raw before).tables b.tables
    × (execute_handler hashed printed 300 (some 1) worker tenant (some raw) b ≡ (b, token_used))
request_example =
    execute-request hashed printed 100 200 300 1 worker worker tenant 115 (text "ecret") before refl
      (omega arith) (omega arith)

abbrev asked : Store
asked = after_request hashed printed 100 1 worker tenant raw before

-- the token is refused to another tenant
foreign_test :
    execute_handler hashed printed 200 (some 2) worker (text "t2") (some raw) asked
    ≡ (asked, token_foreign)
unfolding execute_handler request_handler execute_checked eq_text
foreign_test = refl
