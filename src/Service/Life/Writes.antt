-- ===== src/Service/Life/Writes.antt =====
-- What each request does to the table of the stops: nothing, or one `UPDATE` of one stop that was there
-- in a status which allows it.
use fieldpro_pilot.Base.{
  ℕ, ◌≡◌, refl, sym, subst, ◌∙◌, inl, inr, ◌⊎◌, Bool, true, not, Option, none, some, List, [], ◌∷◌,
  arith, find, update_where, Bool-cases, Option-cases, Text, text,
}
use fieldpro_pilot.Service.{
  Db, Services, Result, ok, error, settled, RouteRunStop, StopStatus, is_stop, is_done, done,
}
use fieldpro_pilot.Service.Visit.{ensure_visit_for_route_run_stop}
use fieldpro_pilot.Service.Start.{
  StartResult, allows, started, start_allowed, start_route_run_stop_internal,
}
use fieldpro_pilot.Service.Complete.{
  Completion, Response, complete_row, refused, respond, complete_handler,
}
use fieldpro_pilot.Service.Complete.Frame.{
  StopsOf, and_then-StopsOf, ensure-StopsOf, closed_stops, complete_row-StopsOf,
}
use fieldpro_pilot.Service.Complete.Again.{
  closed_row, complete_stop_at, complete_stop_missing, complete_handler-refused,
  complete_handler_at,
}
use fieldpro_pilot.Service.Start.Laws.{start_missing, start_refused, start_made}

abbrev pub Writes :
    ℕ
    → (RouteRunStop → RouteRunStop)
    → (StopStatus → Bool)
    → List RouteRunStop
    → List RouteRunStop
    → Type 0
Writes id f allowed before after =
    (after ≡ before)
    ⊎ ((row : RouteRunStop) × (find (is_stop id) before ≡ some row)
        × (allowed row.status ≡ true)
        × (after ≡ update_where (is_stop id) f before))

-- the tables of a transaction, and those of a handler, that are the old ones or hold these stops
Writes-settled {ℓ} :
    {A : Type ℓ} (id : ℕ) (f : RouteRunStop → RouteRunStop) (allowed : StopStatus → Bool)
    (before : Db) (row : RouteRunStop) (r : Result A)
    → find (is_stop id) before.stops ≡ some row
    → allowed row.status ≡ true
    → StopsOf (update_where (is_stop id) f before.stops) r
    → Writes id f allowed before.stops (settled before r).0.stops
Writes-settled id f allowed before row (ok a db) e h k = inr (row, e, h, k)
Writes-settled id f allowed before row (error m) e h k = inl refl

module _ (svc : Services) (id : ℕ) where
  -- the volume and the status written to a row
  both :
      (v : ℕ) (stops : List RouteRunStop)
      → update_where
          (is_stop id)
          (λ s. record s { status = done; completed_at = some svc.now; updated_at = some svc.now })
          (update_where (is_stop id) (λ s. record s { trash_volume = some v }) stops)
        ≡ update_where (is_stop id) (closed_row svc.now (some v)) stops
  both v [] = refl
  both v (s ∷ stops) = elim (Bool-cases (is_stop id s)) [
    | inl e ↦ rw (e, e, both v stops)
    | inr e ↦ rw (e, e, both v stops)
  ]

  pub start-Writes :
      (actor : Text) (statuses : List StopStatus) (db : Db)
      → Writes id
          (started svc.now)
          (allows statuses)
          db.stops
          (start_route_run_stop_internal svc id actor statuses db).0.stops
  unfolding start_route_run_stop_internal start_allowed
  start-Writes actor statuses db =
      let Outcome = λ (r : Result StartResult).
        Writes id (started svc.now) (allows statuses) db.stops (settled db r).0.stops in
      elim (Option-cases (find (is_stop id) db.stops)) [
        | inl e ↦ subst Outcome (sym (start_missing svc id actor statuses db e)) (inl refl)
        | inr (row, e) ↦ elim (Bool-cases (allows statuses row.status)) [
          | inr f ↦ subst Outcome (sym (start_refused svc id actor statuses db row e f)) (inl refl)
          | inl f ↦
              let stops = update_where (is_stop id) (started svc.now) db.stops in
              subst Outcome (sym (start_made svc id actor statuses db row e f)) (
                Writes-settled id (started svc.now) (allows statuses) db row _ e f (
                  and_then-StopsOf stops stops
                    (ensure_visit_for_route_run_stop svc id actor (text "service") none
                      (record db { stops = stops }))
                    _ (ensure-StopsOf svc id actor (text "service") none _)
                    (λ visit later same. same)))
        ]
      ]

  -- both writes of a completion are one
  closed_stops-once :
      (c : Completion) (stops : List RouteRunStop)
      → closed_stops svc id c stops
        ≡ update_where (is_stop id) (closed_row svc.now c.trash_volume) stops
  closed_stops-once c stops = elim (Option-cases c.trash_volume) [
    | inl e ↦ rw e
    | inr (v, e) ↦ rw e (both v stops)
  ]

  respond-stops :
      (c : Completion) (row : RouteRunStop) (db : Db) (r : Result (Option (ℕ × ℕ)))
      → find (is_stop id) db.stops ≡ some row
      → not (is_done row.status) ≡ true
      → StopsOf (closed_stops svc id c db.stops) r
      → Writes id
          (closed_row svc.now c.trash_volume)
          (λ s. not (is_done s))
          db.stops
          (respond svc db r).0.stops
  respond-stops c row db (ok none after) found open_stop h =
      inr (row, found, open_stop, h ∙ closed_stops-once c db.stops)
  respond-stops c row db (ok (some r) after) found open_stop h =
      inr (row, found, open_stop, h ∙ closed_stops-once c db.stops)
  respond-stops c row db (error e) found open_stop h = inl refl

  respond-Writes :
      (c : Completion) (row : RouteRunStop) (db : Db)
      → find (is_stop id) db.stops ≡ some row
      → Writes id
          (closed_row svc.now c.trash_volume)
          (λ s. not (is_done s))
          db.stops
          (respond svc db (complete_row svc id c row db)).0.stops
  unfolding complete_row
  respond-Writes c row db found = elim (Bool-cases (is_done row.status)) [
    | inl e ↦ rw (complete_row, e) (inl refl)
    | inr e ↦
        respond-stops c row db (complete_row svc id c row db) found (ground arith)
          (complete_row-StopsOf svc id c row db)
  ]

  pub complete-Writes :
      (photos : Bool) (c : Completion) (db : Db)
      → Writes id
          (closed_row svc.now c.trash_volume)
          (λ s. not (is_done s))
          db.stops
          (complete_handler svc id photos c db).0.stops
  complete-Writes photos c db =
      let Outcome = λ (r : Db × Response).
        Writes id (closed_row svc.now c.trash_volume) (λ s. not (is_done s)) db.stops r.0.stops in
      elim (Option-cases (refused photos c)) [
        | inr (answer, e) ↦
            subst Outcome (sym (complete_handler-refused svc id photos c db answer e)) (inl refl)
        | inl e ↦
            subst Outcome (sym (complete_handler_at svc id photos c db e))
              (elim (Option-cases (find (is_stop id) db.stops)) [
                | inl missing ↦
                    subst (λ r. Outcome (respond svc db r))
                      (sym (complete_stop_missing svc id c db missing)) (inl refl)
                | inr (row, found) ↦
                    subst (λ r. Outcome (respond svc db r))
                      (sym (complete_stop_at svc id c db row found)) (respond-Writes c row db found)
              ])
      ]
