-- ===== src/Service/Life/Skips.antt =====
-- What a skip does to the table of the stops.
use fieldpro_pilot.Base.{
  ℕ, zero, suc, ◌≡◌, refl, sym, subst, ◌∙◌, inl, inr, true, Option, none, some, List, [], ◌∷◌, find,
  update_where, Option-cases, Text, text,
}
use fieldpro_pilot.Service.Life.Writes.{Writes}
use fieldpro_pilot.Service.{
  Db, Services, Result, ok, error, RouteRunStop, StopStatus, pending, planned, assigned,
  in_progress, skipped, is_stop, is_open, done,
}
use fieldpro_pilot.Observation.Submit.{StopUiPayload, submit_observations}
use fieldpro_pilot.Service.Visit.{
  get_visit_context, ensure_visit_for_route_run_stop, close_visit_for_route_run_stop,
}
use fieldpro_pilot.Service.Observe.{emit_rows, emit_observations_for_stop}
use fieldpro_pilot.Service.Complete.Frame.{
  StopsOf, emit_rows-StopsOf, get_visit_context-StopsOf, check_and_complete_route_run-stops,
  and_then-StopsOf, ensure-StopsOf,
}
use fieldpro_pilot.Service.Skip.{
  SkipBody, SkipResponse, Hazard, skip_payload, merge_hazard, skipped_row, skip_refusal,
  skip_transaction, skip_observations, skip_answer, skip_committed, skip_row, skip_found,
  skip_hazards, skip_handler,
}

module _ (svc : Services) (id : ℕ) where
  -- what the skip does after its `COMMIT`
  skip_answer-stops :
      (row : RouteRunStop) (committed : Db) (r : Result (Unit {0}))
      → StopsOf committed.stops r
      → (skip_answer svc row committed r).0.stops ≡ committed.stops
  skip_answer-stops row committed (ok t db) h =
      check_and_complete_route_run-stops svc.now row.route_run_id db ∙ h
  skip_answer-stops row committed (error e) h = refl

  skip_observations-StopsOf :
      (actor : Text) (ui : StopUiPayload) (visit : ℕ) (db : Db)
      → StopsOf db.stops (skip_observations svc id actor ui visit db)
  unfolding skip_observations emit_observations_for_stop
  skip_observations-StopsOf actor ui visit db =
      and_then-StopsOf db.stops db.stops (get_visit_context id db) _
        (get_visit_context-StopsOf id db)
        (λ ctx later same.
          subst
            (λ stops. StopsOf stops (emit_rows svc visit ctx actor (submit_observations ui) later))
            same (emit_rows-StopsOf svc visit ctx actor (submit_observations ui) later))

  skip_transaction-StopsOf :
      (actor reason : Text) (db : Db)
      → StopsOf
          (update_where (is_stop id) (skipped_row svc.now) db.stops)
          (skip_transaction svc id actor reason db)
  unfolding skip_transaction close_visit_for_route_run_stop
  skip_transaction-StopsOf actor reason db =
      let stops = update_where (is_stop id) (skipped_row svc.now) db.stops in
      and_then-StopsOf stops stops
        (ensure_visit_for_route_run_stop svc id actor (text "service") none
          (record db { stops = stops }))
        _ (ensure-StopsOf svc id actor (text "service") none _) (λ visit later same. same)

  -- the statuses that a skip accepts
  abbrev pub SkipWrites : Db → Db × SkipResponse → Type 0
  SkipWrites db r = Writes id (skipped_row svc.now) is_open db.stops r.0.stops

  skip_committed-Writes :
      (actor : Text) (ui : StopUiPayload) (row : RouteRunStop) (db : Db) (r : Result ℕ)
      → find (is_stop id) db.stops ≡ some row
      → is_open row.status ≡ true
      → StopsOf (update_where (is_stop id) (skipped_row svc.now) db.stops) r
      → SkipWrites db (skip_committed svc id actor ui row db r)
  skip_committed-Writes actor ui row db (ok visit later) found open_stop h = inr (
    row,
    found,
    open_stop,
    skip_answer-stops row later (skip_observations svc id actor ui visit later)
          (skip_observations-StopsOf actor ui visit later)
        ∙ h,
  )
  skip_committed-Writes actor ui row db (error e) found open_stop h = inl refl

  skip_refusal-open : (s : StopStatus) → skip_refusal s ≡ none → is_open s ≡ true
  unfolding skip_refusal
  skip_refusal-open pending h = refl
  skip_refusal-open planned h = absurd cc
  skip_refusal-open assigned h = absurd cc
  skip_refusal-open in_progress h = refl
  skip_refusal-open done h = absurd cc
  skip_refusal-open skipped h = absurd cc

  skip_found-Writes :
      (actor reason : Text) (ui : StopUiPayload) (db : Db)
      → SkipWrites db (skip_found svc id actor reason ui db)
  unfolding skip_found skip_row
  skip_found-Writes actor reason ui db = elim (Option-cases (find (is_stop id) db.stops)) [
    | inl e ↦ rw (skip_found, e) (inl refl)
    | inr (row, e) ↦ elim (Option-cases (skip_refusal row.status)) [
      | inr (answer, f) ↦ rw (skip_found, e, skip_row, f) (inl refl)
      | inl f ↦
          let made : skip_found svc id actor reason ui db
              ≡ skip_committed svc id actor ui row db (skip_transaction svc id actor reason db) =
            rw (skip_found, e, skip_row, f) in
          subst (SkipWrites db) (sym made) (
            skip_committed-Writes actor ui row db (skip_transaction svc id actor reason db) e
              (skip_refusal-open row.status f) (skip_transaction-StopsOf actor reason db))
    ]
  ]

  skip_hazards-Writes :
      (actor : Text) (h : Hazard) (hazards : Option (List Text)) (db : Db)
      → SkipWrites db (skip_hazards svc id actor h hazards db)
  skip_hazards-Writes actor h none db = inl refl
  skip_hazards-Writes actor h (some []) db = inl refl
  skip_hazards-Writes actor h (some (first ∷ rest)) db =
      skip_found-Writes actor first (skip_payload first rest h) db

  pub skip-Writes :
      (photos : ℕ) (actor : Text) (body : SkipBody) (db : Db)
      → SkipWrites db (skip_handler svc id photos actor body db)
  unfolding skip_handler
  skip-Writes zero actor body db = inl refl
  skip-Writes (suc photos) actor body db =
      skip_hazards-Writes actor (merge_hazard body) (merge_hazard body).hazard_types db
