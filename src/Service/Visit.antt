-- ===== src/Service/Visit.antt =====
-- backend/src/domains/visit/visitService.ts
pub mod Once
pub mod Closed
use fieldpro_pilot.Base.{
  ℕ, suc, ◌+◌, Bool, true, false, ◌&&◌, Option, none, some, List, [], ◌∷◌, ◌++◌, filter, find,
  update_where, if◌then◌else◌, Text, text, eq_text, ◌==◌,
}
use mathlib.Core.Option
use fieldpro_pilot.Service.{
  Db, Services, Result, ok, error, and_then, RouteRunStop, VisitRow, Asset, Location, Assignment,
  ActorAudit, is_stop, coalesce, truthy,
}

pub record Context : Type 0 where
  pub org_id : ℕ
  pub asset_id : ℕ
  pub location_id : ℕ

-- the asset that the inner join finds, none if there is no row
unfoldable pub asset_of : RouteRunStop → Db → Option Asset
asset_of row db = elim row.asset_id [ none ↦ none | some a ↦ find (λ x. x.id == a) db.assets ]

unfoldable pub location_of : RouteRunStop → Db → Option ℕ
location_of row db =
    Option.map (λ l. l.location_id) (find (λ l. eq_text l.stop_id row.stop_id) db.locations)

-- the checks on the joined row
unfoldable pub check_context : Option ℕ → ℕ → Option ℕ → Db → Result Context
check_context org asset location db = elim (truthy org) [
  | none ↦ error (text "missing org_id/primary_asset_id")
  | some o ↦ elim (truthy (some asset)) [
    | none ↦ error (text "missing org_id/primary_asset_id")
    | some a ↦ elim (truthy location) [
      | none ↦ error (text "missing location_id")
      | some l ↦ ok (record { org_id = o; asset_id = a; location_id = l }) db
    ]
  ]
]

unfoldable pub get_visit_context : ℕ → Db → Result Context
get_visit_context id db = elim (find (is_stop id) db.stops) [
  | none ↦ error (text "route_run_stop not found")
  | some row ↦ elim (asset_of row db) [
    | none ↦ error (text "route_run_stop not found")
    | some a ↦ check_context a.org_id a.id (location_of row db) db
  ]
]

abbrev pub has_client_id : Text → VisitRow → Bool
has_client_id client_id v = eq_text v.client_visit_id client_id

-- an assignment of the stop's route run; which one is left to the database
unfoldable pub assignment_of : Services → ℕ → Db → Option ℕ
assignment_of svc id db = elim (find (is_stop id) db.stops) [
  | none ↦ none
  | some row ↦
      Option.map (λ a. a.id)
        (svc.limit_one (filter (λ a. a.route_run_id == row.route_run_id) db.assignments))
]

abbrev pub has_audit : ℕ → List ActorAudit → Option ActorAudit
has_audit id audits = find (λ a. a.subject_id == id) audits

-- `INSERT … ON CONFLICT (subject) DO NOTHING`
unfoldable pub insert_audit : ActorAudit → List ActorAudit → List ActorAudit
insert_audit audit audits = elim (has_audit audit.subject_id audits) [
  | none ↦ audits ++ audit ∷ []
  | some a ↦ audits
]

module _ (svc : Services) where
  unfoldable pub new_visit : ℕ → Text → Option Text → Context → Db → VisitRow
  new_visit id visit_type outcome ctx db = record {
    id = db.serial;
    client_visit_id = svc.uuid_of_stop id;
    org_id = ctx.org_id;
    location_id = ctx.location_id;
    primary_asset_id = ctx.asset_id;
    assignment_id = assignment_of svc id db;
    visit_type = visit_type;
    outcome = outcome;
    reason_code = none;
    started_at = svc.now;
    ended_at = none;
  }

  -- the `INSERT` of the visit and of its actor; no other transaction comes between
  unfoldable pub create_visit : ℕ → Text → Text → Option Text → Context → Db → Result ℕ
  create_visit id actor visit_type outcome ctx db = elim (svc.encrypt actor) [
    | none ↦ error (text "encrypt")
    | some secret ↦ ok db.serial (record db {
      visits = db.visits ++ new_visit id visit_type outcome ctx db ∷ [];
      visit_audits =
          insert_audit
            (record {
              subject_id = db.serial;
              org_id = ctx.org_id;
              actor_ref = text "encrypted";
              actor_ref_ciphertext = secret.0;
              actor_ref_key_id = secret.1;
            })
            db.visit_audits;
      serial = suc db.serial;
    })
  ]

  unfoldable pub ensure_visit_for_route_run_stop : ℕ → Text → Text → Option Text → Db → Result ℕ
  ensure_visit_for_route_run_stop id actor visit_type outcome db =
      elim (find (has_client_id (svc.uuid_of_stop id)) db.visits) [
        | some v ↦ ok v.id db
        | none ↦ and_then (get_visit_context id db) (create_visit id actor visit_type outcome)
      ]

  abbrev pub is_ended : VisitRow → Bool
  is_ended v = elim v.ended_at [ none ↦ false | some t ↦ true ]

  unfoldable pub close_visit_for_route_run_stop : ℕ → Text → Option Text → Option ℕ → Db → Db
  close_visit_for_route_run_stop id outcome reason ended db = record db {
    visits =
        update_where (λ v. if is_ended v then false else has_client_id (svc.uuid_of_stop id) v)
          (λ v. record v {
            ended_at = coalesce v.ended_at (coalesce ended (some svc.now));
            outcome = coalesce v.outcome (some outcome);
            reason_code = coalesce v.reason_code reason;
          })
          db.visits;
  }
