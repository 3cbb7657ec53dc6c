-- ===== src/Service/Dispatch/Written.antt =====
-- What a transaction that commits has written: the run, its stops in their order, and one assignment
-- for each stop.
use fieldpro_pilot.Base.{
  ℕ, ◌≤◌, ◌≡◌, refl, ap, ◌∙◌, sym, subst, false, Option, List, [], ◌∷◌, ◌++◌, arith, map, any,
  filter, length, Bool-cases, ◌==◌, Text, text, inl, inr,
}
use fieldpro_pilot.Service.{
  Db, Services, Result, ok, error, and_then, Assignment, RunAssignment, RouteRun, RouteRunStop,
  run_planned,
}
use fieldpro_pilot.Service.Dispatch.{
  RunParams, Leg, concat_map, links_of, insert_stops, insert_run, new_run, sum, insert_links,
  audit_assignments, linked, assign_stops, create_body,
}
use fieldpro_pilot.Service.Dispatch.Audited.{AllAudited, audit_assignments-AllAudited}
use fieldpro_pilot.Service.Dispatch.Linked.{Inserted, insert_links-Inserted, Each, Each-counted}
use fieldpro_pilot.Service.Dispatch.Stored.{
  Placed, length-Placed, filter-Placed, filter-fresh, Stored, insert_stops-Stored,
}

and_then_ok {ℓ κ} :
    {A : Type ℓ} {B : Type κ} (m : Result A) (f : A → Db → Result B) (b : B) (after : Db)
    → and_then m f ≡ ok b after
    → (a : A) × (db : Db) × (m ≡ ok a db) × (f a db ≡ ok b after)
and_then_ok (ok a db) f b after h = (a, db, refl, h)
and_then_ok (error e) f b after h = absurd (cc)

-- what the check of the linkage lets pass
record Passed (svc : Services) (creator : Option Text) (run n : ℕ) (rows : List Assignment)
    (db : Db) (r : ℕ) (after : Db) : Type 0 where
  same_run : r ≡ run
  counted : length rows ≡ n
  audited : AllAudited svc creator rows db.assignment_audits after.assignment_audits
  same_rest : after ≡ record db { assignment_audits = after.assignment_audits }

-- a run was created
pub record Created (svc : Services) (org : ℕ) (params : RunParams) (run : ℕ) (legs : List Leg)
    (db after : Db) : Type 0 where
  pub new_id : run ≡ db.serial
  pub frame : RouteRun
  pub frame_id : frame.id ≡ run
  pub frame_org : frame.org_id ≡ org
  pub frame_pool : frame.route_pool_id ≡ params.route_pool_id
  pub frame_base : frame.base_id ≡ params.base_id
  pub frame_date : frame.run_date ≡ params.run_date
  pub frame_adhoc : frame.is_adhoc ≡ params.is_adhoc
  pub frame_planned : frame.status ≡ run_planned
  pub frame_distance : frame.total_distance_m ≡ sum (map (λ l. l.dist) legs)
  pub frame_duration : frame.total_duration_s ≡ sum (map (λ l. l.dur) legs)
  pub frame_added : after.runs ≡ db.runs ++ frame ∷ []
  pub work : RunAssignment
  pub work_of_run : work.route_run_id ≡ run
  pub work_of_org : work.org_id ≡ org
  pub work_by : work.assigned_user_oid ≡ params.assigned_user_oid
  pub work_from : work.created_by_oid ≡ params.created_by_oid
  pub work_added : after.run_assignments ≡ db.run_assignments ++ work ∷ []
  pub new_stops : List RouteRunStop
  pub stops_added : after.stops ≡ db.stops ++ new_stops
  pub in_order : Placed run 0 legs new_stops
  pub rows : List Assignment
  pub rows_added : after.assignments ≡ db.assignments ++ rows
  pub one_each : Each run (links_of db) new_stops rows
  pub audited :
      AllAudited svc params.created_by_oid rows db.assignment_audits after.assignment_audits

module _ (svc : Services) where
  linked-Passed :
      (run n : ℕ) (params : RunParams) (rows : List Assignment) (db : Db) (r : ℕ) (after : Db)
      → linked svc run n params rows db ≡ ok r after
      → Passed svc params.created_by_oid run n rows db r after
  linked-Passed run n params rows db r after h = elim (Bool-cases (length rows == n)) [
    | inl e ↦
        let audit = audit_assignments svc params.created_by_oid rows db in
        let opened : linked svc run n params rows db ≡ and_then audit (λ done db'. ok run db') =
          unfold linked in rw (e, linked) refl in
        let (done, db', made, end) =
          and_then_ok audit (λ done db'. ok run db') r after (sym opened ∙ h) in
        let same : db' ≡ after = cc in
        let (audits, rest) =
          audit_assignments-AllAudited svc params.created_by_oid rows db done db' made in
        record {
          same_run = cc;
          counted = ground arith;
          audited =
              subst
                (λ (d : Db).
                  AllAudited svc params.created_by_oid rows db.assignment_audits
                    d.assignment_audits)
                same audits;
          same_rest =
              subst (λ (d : Db). d ≡ record db { assignment_audits = d.assignment_audits }) same
                rest;
        }
    | inr e ↦
        let refused : linked svc run n params rows db
            ≡ error (text "[createRouteRun] Q-C linkage validation failed") =
          unfold linked in rw (e, linked) refl in
        absurd (cc)
  ]

  -- the assignments of a run whose stops are the new ones
  assign_stops-Each :
      (run : ℕ) (params : RunParams) (legs : List Leg) (new : List RouteRunStop) (db : Db)
      → ((row : RouteRunStop) → length (links_of db row) ≤ 1)
      → filter (λ s. s.route_run_id == run) db.stops ≡ new
      → length new ≡ length legs
      → (r : ℕ) (after : Db) → assign_stops svc run (length legs) params db ≡ ok r after
      → (r ≡ run)
        × (rows : List Assignment) × (serial : ℕ) × (after ≡ record db {
          assignments = db.assignments ++ rows;
          assignment_audits = after.assignment_audits;
          serial = serial;
        })
        × Each run (links_of db) new rows
        × AllAudited svc params.created_by_oid rows db.assignment_audits after.assignment_audits
  assign_stops-Each run params legs new db few own counted r after h =
      let links = concat_map (links_of db) new in
      let inserts = insert_links run params.run_date links [] db in
      let next = λ (inserted : List Assignment) (db' : Db).
        linked svc run (length legs) params inserted db' in
      let opened : assign_stops svc run (length legs) params db ≡ and_then inserts next =
        unfold assign_stops in rw own refl in
      let (inserted, db', made, end) = and_then_ok inserts next r after (sym opened ∙ h) in
      let passed = linked-Passed run (length legs) params inserted db' r after end in
      let (rows, serial, i, t, l, a) =
        subst (λ (m : Result (List Assignment)). Inserted run links [] db m) made
          (insert_links-Inserted run params.run_date links [] db) in
      (
        passed.same_run,
        rows,
        serial,
        passed.same_rest
            ∙ ap (λ (d : Db). record d { assignment_audits = after.assignment_audits }) t,
        Each-counted run (links_of db) few new rows (omega (arith, ap length i, passed.counted)) l
            a,
        subst
            (λ (l : List Assignment).
              AllAudited svc params.created_by_oid l db.assignment_audits after.assignment_audits)
            i
            (subst
              (λ (d : Db).
                AllAudited svc params.created_by_oid inserted d.assignment_audits
                  after.assignment_audits)
              t passed.audited),
      )

  -- A transaction that commits, in tables where no stop is of a run with the next id, and where no stop
  -- is joined to more than one link, has added one planned run with that id, of the pool, base and date
  -- given and with the lengths of its legs together; the row that says who works on it; its stops,
  -- pending and in the order of the legs, behind the others; behind the other assignments exactly one
  -- for each of its stops, in the same order; and each of these has the row of its creator.
  pub create_body_lem :
      (org : ℕ) (params : RunParams) (legs : List Leg) (db : Db)
      → any (λ s. s.route_run_id == db.serial) db.stops ≡ false
      → ((row : RouteRunStop) → length (links_of db row) ≤ 1)
      → (run : ℕ) (after : Db) → create_body svc org params legs db ≡ ok run after
      → Created svc org params run legs db after
  unfolding insert_run new_run links_of
  create_body_lem org params legs db fresh few run after h =
      let db0 = insert_run svc.now org params legs db in
      let stored = insert_stops svc.now db.serial org 0 legs db0 in
      let next = λ (done : Unit {0}) (d : Db). assign_stops svc db.serial (length legs) params d in
      let opened : create_body svc org params legs db ≡ and_then stored next =
        unfold create_body in refl in
      let (done, d, made, end) = and_then_ok stored next run after (sym opened ∙ h) in
      let (new, k, t, placed) =
        subst (Stored db.serial 0 legs db0) made
          (insert_stops-Stored svc.now db.serial org 0 legs db0) in
      let d' = record db0 { stops = db0.stops ++ new; serial = k } in
      let (same, rows, serial, rest, each, audited) =
        assign_stops-Each db.serial params legs new d' few
          (filter-fresh db.serial db0.stops new fresh ∙ filter-Placed db.serial 0 legs new placed)
          (length-Placed db.serial 0 legs new placed) run after
          (subst (λ (x : Db). assign_stops svc db.serial (length legs) params x ≡ ok run after) t
            end) in
      record {
        new_id = same;
        frame = new_run org params legs db;
        frame_id = sym same;
        frame_org = refl;
        frame_pool = refl;
        frame_base = refl;
        frame_date = refl;
        frame_adhoc = refl;
        frame_planned = refl;
        frame_distance = refl;
        frame_duration = refl;
        frame_added = ap (λ (x : Db). x.runs) rest;
        work = record {
          route_run_id = db.serial;
          org_id = org;
          assigned_user_oid = params.assigned_user_oid;
          created_by_oid = params.created_by_oid;
          assigned_at = svc.now;
        };
        work_of_run = sym same;
        work_of_org = refl;
        work_by = refl;
        work_from = refl;
        work_added = ap (λ (x : Db). x.run_assignments) rest;
        new_stops = new;
        stops_added = ap (λ (x : Db). x.stops) rest;
        in_order = subst (λ r. Placed r 0 legs new) (sym same) placed;
        rows = rows;
        rows_added = ap (λ (x : Db). x.assignments) rest;
        one_each = subst (λ r. Each r (links_of db) new rows) (sym same) each;
        audited = audited;
      }
