-- ===== src/Service/Dispatch.antt =====
-- The transaction of `createRouteRun` of backend/src/domains/routeRun/routeRunService.ts, which writes a
-- planned run, its stops and their assignments. What comes before it is in Create.
pub mod Keys
pub mod Linked
pub mod Stored
pub mod Audited
pub mod Written
pub mod Create
pub mod Preview
mod Tests
use fieldpro_pilot.Base.{
  ℕ, suc, ◌+◌, Bool, true, false, ◌&&◌, Option, none, some, List, [], ◌∷◌, ◌++◌, map, any, filter,
  find, length, ltb, ◌==◌, if◌then◌else◌, Text, text, eq_text,
}
use fieldpro_pilot.Corridor.{Stop}
use fieldpro_pilot.Service.{
  Db, Services, Result, ok, error, and_then, in_transaction, RouteRun, RouteRunStop, pending,
  run_planned, Asset, Location, Assignment, RunAssignment, PublicStop, ActorAudit, truthy,
}
use fieldpro_pilot.Service.Visit.{insert_audit}

pub record RunParams : Type 0 where
  pub stops : List Stop
  pub assigned_user_oid : Option Text
  pub created_by_oid : Option Text
  pub route_pool_id : Text
  pub base_id : Text
  pub run_date : ℕ
  pub shift_type : Option Text
  pub is_adhoc : Bool

-- a stop in its place, with the distance and the duration of the leg to it
pub record Leg : Type 0 where
  pub stop : Stop
  pub dist : ℕ
  pub dur : ℕ

-- the legs from `prev` on
unfoldable pub legs_of : (Stop → Stop → ℕ) → (Stop → Stop → ℕ) → Stop → List Stop → List Leg
legs_of distance duration prev [] = []
legs_of distance duration prev (s ∷ stops) =
    record { stop = s; dist = distance prev s; dur = duration prev s }
    ∷ legs_of distance duration s stops

-- what the `SELECT` of the assignments joins for a stop
pub record Link : Type 0 where
  pub org_id : Option ℕ
  pub location_id : Option ℕ
  pub asset_id : Option ℕ

unfoldable pub sum : List ℕ → ℕ
sum [] = 0
sum (n ∷ ns) = n + sum ns

unfoldable pub concat_map {ℓ κ} : {A : Type ℓ} {B : Type κ} → (A → List B) → List A → List B
concat_map f [] = []
concat_map f (x ∷ xs) = f x ++ concat_map f xs

-- `assetIdMap.get(id)`: an asset that is null or 0 is not in the map, a later row replaces an earlier
unfoldable pub asset_for : Text → List PublicStop → Option ℕ
asset_for id [] = none
asset_for id (p ∷ ps) = elim (asset_for id ps) [
  | some a ↦ some a
  | none ↦ if eq_text p.stop_id id then truthy p.asset_id else none
]

-- `stop.stop_id ? assetIdMap.get(stop.stop_id) : null`
unfoldable pub asset_or_null : Text → List PublicStop → Option ℕ
unfolding asset_for
asset_or_null [] stops = none
asset_or_null (c ∷ id) stops = asset_for (c ∷ id) stops

unfoldable pub new_run : ℕ → RunParams → List Leg → Db → RouteRun
new_run org params legs db = record {
  id = db.serial;
  org_id = org;
  route_pool_id = params.route_pool_id;
  base_id = params.base_id;
  run_date = params.run_date;
  status = run_planned;
  total_distance_m = sum (map (λ l. l.dist) legs);
  total_duration_s = sum (map (λ l. l.dur) legs);
  shift_type = elim params.shift_type [ none ↦ text "day" | some s ↦ s ];
  is_adhoc = params.is_adhoc;
  started_at = none;
  finished_at = none;
  updated_at = none;
}

unfoldable pub insert_run : ℕ → ℕ → RunParams → List Leg → Db → Db
unfolding new_run sum
insert_run now org params legs db = record db {
  runs = db.runs ++ new_run org params legs db ∷ [];
  run_assignments =
      db.run_assignments
      ++ record {
        route_run_id = db.serial;
        org_id = org;
        assigned_user_oid = params.assigned_user_oid;
        created_by_oid = params.created_by_oid;
        assigned_at = now;
      }
        ∷ [];
  serial = suc db.serial;
}

unfoldable pub new_stop : ℕ → ℕ → ℕ → ℕ → Text → ℕ → Leg → ℕ → RouteRunStop
new_stop now run org i stop asset leg id = record {
  id = id;
  route_run_id = run;
  stop_id = stop;
  asset_id = some asset;
  status = pending;
  created_at = now;
  started_at = none;
  completed_at = none;
  updated_at = some now;
  trash_volume = none;
  sequence = i;
  planned_distance_m = leg.dist;
  planned_duration_s = leg.dur;
  org_id = org;
}

-- the columns `stop_id` and `asset_id` refuse null
unfoldable pub insert_stop : ℕ → ℕ → ℕ → ℕ → Leg → Db → Result (Unit {0})
insert_stop now run org i leg db = elim leg.stop.stop_id [
  | none ↦ error (text "null value in column stop_id")
  | some stop ↦ elim (asset_or_null stop db.public_stops) [
    | none ↦ error (text "null value in column asset_id")
    | some asset ↦ ok tt (record db {
      stops = db.stops ++ new_stop now run org i stop asset leg db.serial ∷ [];
      serial = suc db.serial;
    })
  ]
]

unfoldable pub insert_stops : ℕ → ℕ → ℕ → ℕ → List Leg → Db → Result (Unit {0})
insert_stops now run org i [] db = ok tt db
insert_stops now run org i (leg ∷ legs) db =
    and_then (insert_stop now run org i leg db)
      (λ done db'. insert_stops now run org (suc i) legs db')

abbrev pub has_asset_id : Option ℕ → Asset → Bool
has_asset_id none a = false
has_asset_id (some id) a = a.id == id

-- the `LEFT JOIN` with the locations: null if there is none
unfoldable pub locations_of : Text → List Location → List (Option ℕ)
locations_of stop locations = elim (filter (λ l. eq_text l.stop_id stop) locations) [
  | [] ↦ none ∷ []
  | l ∷ ls ↦ some l.location_id ∷ map (λ k. some k.location_id) ls
]

-- the rows that a stop of the run is joined to
unfoldable pub links_of : Db → RouteRunStop → List Link
links_of db row =
    concat_map
      (λ p.
        concat_map
          (λ a.
            map (λ l. record { org_id = a.org_id; location_id = l; asset_id = p.asset_id })
              (locations_of row.stop_id db.locations))
          (filter (has_asset_id row.asset_id) db.assets))
      (filter (λ p. eq_text p.stop_id row.stop_id) db.public_stops)

abbrev pub same_location : Option ℕ → Option ℕ → Bool
same_location none b = false
same_location (some a) none = false
same_location (some a) (some b) = a == b

-- the unique index of the source: null locations do not conflict
unfoldable pub conflicts : ℕ → Option ℕ → List Assignment → Bool
conflicts run location assignments =
    any (λ a. a.route_run_id == run && same_location location a.location_id) assignments

unfoldable pub new_assignment : ℕ → ℕ → ℕ → Link → ℕ → Assignment
new_assignment run date org link id = record {
  id = id;
  route_run_id = run;
  org_id = org;
  location_id = link.location_id;
  asset_id = link.asset_id;
  planned_for = date;
}

-- one row of `INSERT … ON CONFLICT DO NOTHING`, and the rows that were inserted before it
unfoldable pub insert_link : ℕ → ℕ → Link → List Assignment → Db → Result (List Assignment)
unfolding new_assignment
insert_link run date link inserted db = elim link.org_id [
  | none ↦ error (text "null value in column org_id")
  | some org ↦
      if conflicts run link.location_id db.assignments
      then ok inserted db
      else ok (inserted ++ new_assignment run date org link db.serial ∷ []) (record db {
        assignments = db.assignments ++ new_assignment run date org link db.serial ∷ [];
        serial = suc db.serial;
      })
]

unfoldable pub insert_links : ℕ → ℕ → List Link → List Assignment → Db → Result (List Assignment)
insert_links run date [] inserted db = ok inserted db
insert_links run date (link ∷ links) inserted db =
    and_then (insert_link run date link inserted db)
      (λ inserted' db'. insert_links run date links inserted' db')

unfoldable pub creator_or_system : Option Text → Text
creator_or_system none = text "system"
creator_or_system (some oid) = oid

unfoldable pub audit_each : Text × Text → List Assignment → List ActorAudit → List ActorAudit
audit_each secret [] audits = audits
audit_each secret (a ∷ rows) audits = audit_each secret rows (
    insert_audit
      (record {
        subject_id = a.id;
        org_id = a.org_id;
        actor_ref = text "encrypted";
        actor_ref_ciphertext = secret.0;
        actor_ref_key_id = secret.1;
      })
      audits)

module _ (svc : Services) where
  -- the actors of the assignments
  unfoldable pub audit_assignments : Option Text → List Assignment → Db → Result (Unit {0})
  unfolding audit_each creator_or_system
  audit_assignments creator [] db = ok tt db
  audit_assignments creator (a ∷ rows) db = elim (svc.encrypt (creator_or_system creator)) [
    | none ↦ error (text "encrypt")
    | some secret ↦
        ok tt (record db { assignment_audits = audit_each secret (a ∷ rows) db.assignment_audits })
  ]

  -- one assignment for each stop, and their actors
  unfoldable pub linked : ℕ → ℕ → RunParams → List Assignment → Db → Result ℕ
  linked run expected params inserted db =
      if length inserted == expected
      then and_then (audit_assignments params.created_by_oid inserted db) (λ done db'. ok run db')
      else error (text "[createRouteRun] Q-C linkage validation failed")

  -- the assignments of the stops that the run has now
  unfoldable pub assign_stops : ℕ → ℕ → RunParams → Db → Result ℕ
  unfolding linked links_of
  assign_stops run expected params db =
      and_then
        (insert_links run params.run_date
          (concat_map (links_of db) (filter (λ s. s.route_run_id == run) db.stops)) [] db)
        (λ inserted db'. linked run expected params inserted db')

  unfoldable pub create_body : ℕ → RunParams → List Leg → Db → Result ℕ
  unfolding insert_run insert_stops assign_stops
  create_body org params legs db =
      and_then (insert_stops svc.now db.serial org 0 legs (insert_run svc.now org params legs db))
        (λ done db'. assign_stops db.serial (length legs) params db')
