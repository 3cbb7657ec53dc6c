-- ===== src/Service/Complete/Again.antt =====
-- A stop that was completed stays completed: what `completeStop` leaves of the stop, and what a
-- second request does.
use fieldpro_pilot.Base.{
  ℕ, ◌≡◌, refl, ap, sym, subst, ◌∙◌, inl, inr, Bool, true, false, Option, none, some, List, arith,
  find, Bool-cases, Option-cases, text, eq_text,
}
use fieldpro_pilot.Service.{
  Db, Services, Result, ok, error, RouteRunStop, done, is_stop, is_done, coalesce,
}
use fieldpro_pilot.Service.Complete.{
  Completion, complete_row, complete_stop, refused, respond, complete_handler, Refusal, completed,
  bad_request, already_complete,
}
use fieldpro_pilot.Service.Complete.Frame.{
  StopsOf, closed_stops, complete_row-StopsOf, find-update_where,
}

-- the row of a stop after its completion
abbrev pub closed_row : ℕ → Option ℕ → RouteRunStop → RouteRunStop
closed_row now volume s = record s {
  status = done;
  trash_volume = coalesce volume s.trash_volume;
  completed_at = some now;
  updated_at = some now;
}

module _ (svc : Services) (id : ℕ) (c : Completion) where
  find-closed_stops :
      (stops : List RouteRunStop) (row : RouteRunStop)
      → find (is_stop id) stops ≡ some row
      → find (is_stop id) (closed_stops svc id c stops)
        ≡ some (closed_row svc.now c.trash_volume row)
  find-closed_stops stops row h = elim (Option-cases c.trash_volume) [
    | inl e ↦ rw (e, find-update_where id, h)
    | inr (v, e) ↦ rw (e, find-update_where id, find-update_where id, h)
  ]

  complete_row-result :
      (row : RouteRunStop) (db after : Db) (r : ℕ × ℕ)
      → complete_row svc id c row db ≡ ok (some r) after
      → (is_done row.status ≡ false) × (after.stops ≡ closed_stops svc id c db.stops)
  unfolding complete_row
  complete_row-result row db after r h = elim (Bool-cases (is_done row.status)) [
    | inl e ↦ absurd (ground arith)
    | inr e ↦ (
      e,
      subst (StopsOf (closed_stops svc id c db.stops)) h (complete_row-StopsOf svc id c row db),
    )
  ]

  pub complete_stop_at :
      (db : Db) (row : RouteRunStop)
      → find (is_stop id) db.stops ≡ some row
      → complete_stop svc id c db ≡ complete_row svc id c row db
  unfolding complete_stop
  complete_stop_at db row e = rw (complete_stop, e)

  pub complete_stop_missing :
      (db : Db) → find (is_stop id) db.stops ≡ none → complete_stop svc id c db ≡ ok none db
  unfolding complete_stop
  complete_stop_missing db e = rw (complete_stop, e)

  -- `completeStop` returns a result only for a stop that is there and not done. In the tables that it
  -- leaves that stop is done, with the time of the call as its completion and the given volume, if
  -- there was one, and is otherwise the same.
  pub complete_stop_lem :
      (db after : Db) (r : ℕ × ℕ)
      → complete_stop svc id c db ≡ ok (some r) after
      → (row : RouteRunStop) × (find (is_stop id) db.stops ≡ some row)
        × (is_done row.status ≡ false)
        × (find (is_stop id) after.stops ≡ some (closed_row svc.now c.trash_volume row))
  complete_stop_lem db after r h = elim (Option-cases (find (is_stop id) db.stops)) [
    | inl e ↦ absurd (let k = complete_stop_missing db e in cc)
    | inr (row, e) ↦
        let (waiting, same) =
          complete_row-result row db after r (sym (complete_stop_at db row e) ∙ h) in
        (row, e, waiting, rw same (find-closed_stops db.stops row e))
  ]

complete_stop_done :
    (svc : Services) (id : ℕ) (c : Completion) (db : Db) (row : RouteRunStop)
    → find (is_stop id) db.stops ≡ some row
    → is_done row.status ≡ true
    → complete_stop svc id c db ≡ error (text "ALREADY_COMPLETE")
unfolding complete_row
complete_stop_done svc id c db row e d = complete_stop_at svc id c db row e ∙ rw d

pub complete_handler-refused :
    (svc : Services) (id : ℕ) (photos : Bool) (c : Completion) (db : Db) (answer : Refusal)
    → refused photos c ≡ some answer
    → complete_handler svc id photos c db ≡ (db, bad_request answer)
unfolding complete_handler
complete_handler-refused svc id photos c db answer e = rw (complete_handler, e)

pub complete_handler_at :
    (svc : Services) (id : ℕ) (photos : Bool) (c : Completion) (db : Db)
    → refused photos c ≡ none
    → complete_handler svc id photos c db ≡ respond svc db (complete_stop svc id c db)
unfolding complete_handler
complete_handler_at svc id photos c db e = rw (complete_handler, e)

respond-completed :
    (svc : Services) (before after : Db) (visit run : ℕ) (r : Result (Option (ℕ × ℕ)))
    → respond svc before r ≡ (after, completed visit run)
    → r ≡ ok (some (visit, run)) after
respond-completed svc before after visit run (ok none db) h = absurd (let k = ap (λ x. x.1) h in cc)
respond-completed svc before after visit run (ok (some (v, n)) db) h =
    let tables : db ≡ after = ap (λ x. x.0) h in
    let answer : completed v n ≡ completed visit run = ap (λ x. x.1) h in cc
respond-completed svc before after visit run (error e) h =
    let answer = ap (λ x. x.1) h in
    elim (Bool-cases (eq_text e (text "ALREADY_COMPLETE"))) [
      | inl f ↦ absurd (ground arith)
      | inr f ↦ absurd (ground arith)
    ]

-- A request that passes the handler's checks and whose stop an earlier request has completed is
-- answered with `ALREADY_COMPLETE` and leaves the tables as they are, whatever it says was done.
pub complete_handler-again :
    (svc later : Services) (id : ℕ) (photos photos' : Bool) (c c' : Completion) (db after : Db)
    (visit run : ℕ)
    → complete_handler svc id photos c db ≡ (after, completed visit run)
    → refused photos' c' ≡ none
    → complete_handler later id photos' c' after ≡ (after, already_complete)
complete_handler-again svc later id photos photos' c c' db after visit run h passes =
    elim (Option-cases (refused photos c)) [
      | inr (answer, e) ↦ absurd (
          let k = ap (λ x. x.1) (sym (complete_handler-refused svc id photos c db answer e) ∙ h) in
          cc)
      | inl e ↦
          let first =
            respond-completed svc db after visit run (complete_stop svc id c db)
              (sym (complete_handler_at svc id photos c db e) ∙ h) in
          let (row, _, _, found) = complete_stop_lem svc id c db after (visit, run) first in
          complete_handler_at later id photos' c' after passes
          ∙ ap (respond later after) (
              complete_stop_done later id c' after (closed_row svc.now c.trash_volume row) found
                refl)
          ∙ unfold eq_text in refl
    ]
