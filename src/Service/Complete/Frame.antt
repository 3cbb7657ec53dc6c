-- ===== src/Service/Complete/Frame.antt =====
-- What the steps of `completeStop` leave of the stops: all rows but the one that it closes.
use fieldpro_pilot.Base.{
  ℕ, zero, suc, ◌≡◌, refl, ap, subst, ◌∙◌, inl, inr, Bool, true, false, Option, none, some, List,
  [], ◌∷◌, arith, find, update_where, Bool-cases, Option-cases, Text, text,
}
use mathlib.Core.Option
use fieldpro_pilot.Observation.Submit.{ObservationInsert, submit_observations}
use fieldpro_pilot.Observation.{RegistryRule}
use fieldpro_pilot.Service.{
  Db, Services, Result, ok, error, and_then, RouteRunStop, done, is_stop, is_done,
}
use fieldpro_pilot.Service.Visit.{
  Context, get_visit_context, check_context, ensure_visit_for_route_run_stop, create_visit,
  close_visit_for_route_run_stop, asset_of, location_of, has_client_id,
}
use fieldpro_pilot.Service.Observe.{
  insert_observation, insert_each, insert_observations, emit_rows, emit_observations_for_stop,
  emit_spot_check_observation,
}
use fieldpro_pilot.Service.Run.{check_and_complete_route_run}
use fieldpro_pilot.Service.Complete.{
  Completion, set_volume, set_done, record_effort, spot_check_if, close_stop, complete_visit,
  complete_row, ui_payload,
}

-- A call that, where it succeeds, leaves the stops as they are.
abbrev pub StopsOf {ℓ} : {A : Type ℓ} → List RouteRunStop → Result A → Type 0
StopsOf stops (ok a db) = db.stops ≡ stops
StopsOf stops (error e) = Unit {0}

pub and_then-StopsOf {ℓ κ} :
    {A : Type ℓ} {B : Type κ} (before stops : List RouteRunStop) (r : Result A)
    (next : A → Db → Result B)
    → StopsOf before r
    → ((a : A) (db : Db) → db.stops ≡ before → StopsOf stops (next a db))
    → StopsOf stops (and_then r next)
and_then-StopsOf before stops (ok a db) next h k = k a db h
and_then-StopsOf before stops (error e) next h k = tt

check_context-StopsOf :
    (org : Option ℕ) (a : ℕ) (l : Option ℕ) (db : Db) → StopsOf db.stops (check_context org a l db)
unfolding check_context
check_context-StopsOf none a l db = tt
check_context-StopsOf (some zero) a l db = tt
check_context-StopsOf (some (suc o)) zero l db = tt
check_context-StopsOf (some (suc o)) (suc a) none db = tt
check_context-StopsOf (some (suc o)) (suc a) (some zero) db = tt
check_context-StopsOf (some (suc o)) (suc a) (some (suc l)) db = refl

pub get_visit_context-StopsOf : (id : ℕ) (db : Db) → StopsOf db.stops (get_visit_context id db)
unfolding get_visit_context
get_visit_context-StopsOf id db = elim (Option-cases (find (is_stop id) db.stops)) [
  | inl e ↦ rw (e, get_visit_context) tt
  | inr (row, e) ↦ elim (Option-cases (asset_of row db)) [
    | inl f ↦ rw (e, get_visit_context, f) tt
    | inr (a, f) ↦
        rw (e, get_visit_context, f) (check_context-StopsOf a.org_id a.id (location_of row db) db)
  ]
]

insert_each-stops :
    (secret : Text × Text) (visit : ℕ) (ctx : Context) (rules : List RegistryRule)
    (os : List ObservationInsert) (db : Db)
    → (insert_each secret visit ctx rules os db).stops ≡ db.stops
unfolding insert_each insert_observation
insert_each-stops secret visit ctx rules [] db = refl
insert_each-stops secret visit ctx rules (o ∷ os) db =
    insert_each-stops secret visit ctx rules os (insert_observation secret visit ctx rules o db)

record_effort-stops : (visit id : ℕ) (db : Db) → (record_effort visit id db).stops ≡ db.stops
unfolding record_effort
record_effort-stops visit id db = ground arith

pub check_and_complete_route_run-stops :
    (now run : ℕ) (db : Db) → (check_and_complete_route_run now run db).stops ≡ db.stops
unfolding check_and_complete_route_run
check_and_complete_route_run-stops now run db = ground arith

module _ (svc : Services) where
  create_visit-StopsOf :
      (id : ℕ) (actor t : Text) (o : Option Text) (ctx : Context) (db : Db)
      → StopsOf db.stops (create_visit svc id actor t o ctx db)
  unfolding create_visit
  create_visit-StopsOf id actor t o ctx db = elim (Option-cases (svc.encrypt actor)) [
    | inl e ↦ rw (e, create_visit) tt
    | inr (s, e) ↦ rw (e, create_visit) refl
  ]

  pub ensure-StopsOf :
      (id : ℕ) (actor t : Text) (o : Option Text) (db : Db)
      → StopsOf db.stops (ensure_visit_for_route_run_stop svc id actor t o db)
  unfolding ensure_visit_for_route_run_stop
  ensure-StopsOf id actor t o db =
      elim (Option-cases (find (has_client_id (svc.uuid_of_stop id)) db.visits)) [
        | inr (v, e) ↦ rw (e, ensure_visit_for_route_run_stop) refl
        | inl e ↦
            rw (e, ensure_visit_for_route_run_stop)
              (and_then-StopsOf db.stops db.stops (get_visit_context id db)
                (create_visit svc id actor t o) (get_visit_context-StopsOf id db)
                (λ ctx later same.
                  subst (λ stops. StopsOf stops (create_visit svc id actor t o ctx later)) same
                    (create_visit-StopsOf id actor t o ctx later)))
      ]

  pub emit_rows-StopsOf :
      (visit : ℕ) (ctx : Context) (actor : Text) (os : List ObservationInsert) (db : Db)
      → StopsOf db.stops (emit_rows svc visit ctx actor os db)
  unfolding insert_observations
  emit_rows-StopsOf visit ctx actor [] db = refl
  emit_rows-StopsOf visit ctx actor (o ∷ os) db = elim (Option-cases (svc.encrypt actor)) [
    | inl e ↦ rw (e, insert_observations) tt
    | inr (s, e) ↦ rw (e, insert_observations) (insert_each-stops s visit ctx _ (o ∷ os) db)
  ]

  spot_check-StopsOf :
      (b : Bool) (visit : ℕ) (ctx : Context) (actor : Text) (db : Db)
      → StopsOf db.stops (spot_check_if svc b visit ctx actor db)
  unfolding spot_check_if emit_spot_check_observation insert_observation
  spot_check-StopsOf false visit ctx actor db = refl
  spot_check-StopsOf true visit ctx actor db = elim (Option-cases (svc.encrypt actor)) [
    | inl e ↦ rw (e, emit_spot_check_observation) tt
    | inr (s, e) ↦ rw (e, emit_spot_check_observation) refl
  ]

  -- the stops of the tables after the writes of `completeStop`
  abbrev pub closed_stops : ℕ → Completion → List RouteRunStop → List RouteRunStop
  closed_stops id c stops =
      update_where (is_stop id)
        (λ s. record s { status = done; completed_at = some svc.now; updated_at = some svc.now })
        (elim c.trash_volume [
          | none ↦ stops
          | some v ↦ update_where (is_stop id) (λ s. record s { trash_volume = some v }) stops
        ])

  close_stop-stops :
      (id : ℕ) (c : Completion) (db : Db)
      → (close_stop svc id c db).stops ≡ closed_stops id c db.stops
  unfolding close_stop close_visit_for_route_run_stop set_done set_volume
  close_stop-stops id c db = elim (Option-cases c.trash_volume) [ inl e ↦ rw e | inr (v, e) ↦ rw e ]

  complete_visit-StopsOf :
      (id run : ℕ) (c : Completion) (visit : ℕ) (ctx : Context) (db : Db)
      → StopsOf (closed_stops id c db.stops) (complete_visit svc id run c visit ctx db)
  unfolding complete_visit emit_observations_for_stop
  complete_visit-StopsOf id run c visit ctx db =
      and_then-StopsOf db.stops (closed_stops id c db.stops)
        (spot_check_if svc c.spot_check visit ctx c.actor_oid db) _
        (spot_check-StopsOf c.spot_check visit ctx c.actor_oid db)
        (λ _ later same.
          let closed : (close_stop svc id c later).stops ≡ closed_stops id c db.stops =
            close_stop-stops id c later ∙ ap (closed_stops id c) same in
          and_then-StopsOf (close_stop svc id c later).stops (closed_stops id c db.stops)
            (emit_rows svc visit ctx c.actor_oid (submit_observations (ui_payload c))
              (close_stop svc id c later))
            _
            (emit_rows-StopsOf visit ctx c.actor_oid (submit_observations (ui_payload c))
              (close_stop svc id c later))
            (λ _ last kept.
              check_and_complete_route_run-stops svc.now run (record_effort visit id last)
              ∙ record_effort-stops visit id last
              ∙ kept
              ∙ closed))

  pub complete_row-StopsOf :
      (id : ℕ) (c : Completion) (row : RouteRunStop) (db : Db)
      → StopsOf (closed_stops id c db.stops) (complete_row svc id c row db)
  unfolding complete_row
  complete_row-StopsOf id c row db = elim (Bool-cases (is_done row.status)) [
    | inl e ↦ rw e tt
    | inr e ↦
        let target = closed_stops id c db.stops in
        rw e (
          and_then-StopsOf db.stops target
            (ensure_visit_for_route_run_stop svc id c.actor_oid (text "service") none db) _
            (ensure-StopsOf id c.actor_oid (text "service") none db)
            (λ visit d1 same1.
              and_then-StopsOf d1.stops target (get_visit_context id d1) _
                (get_visit_context-StopsOf id d1)
                (λ ctx d2 same2.
                  and_then-StopsOf target target
                    (complete_visit svc id row.route_run_id c visit ctx d2) _
                    (subst
                      (λ stops.
                        StopsOf (closed_stops id c stops)
                          (complete_visit svc id row.route_run_id c visit ctx d2))
                      (same2 ∙ same1) (complete_visit-StopsOf id row.route_run_id c visit ctx d2))
                    (λ r d3 same3. same3))))
  ]

-- What a row that the `UPDATE`s write is found as.
pub find-update_where :
    (id : ℕ) (f : RouteRunStop → RouteRunStop) (xs : List RouteRunStop)
    → ((s : RouteRunStop) → (f s).id ≡ s.id)
    → find (is_stop id) (update_where (is_stop id) f xs) ≡ Option.map f (find (is_stop id) xs)
find-update_where id f [] keeps = refl
find-update_where id f (x ∷ xs) keeps = elim (Bool-cases (is_stop id x)) [
  | inl e ↦ rw (e, keeps x, e)
  | inr e ↦ rw (e, e, find-update_where id f xs keeps)
]
