-- ===== src/Service/Start/Laws.antt =====
-- What a start does to the stop, and that it does nothing where it is refused.
use fieldpro_pilot.Base.{ℕ, ◌≡◌, true, false, Option, none, some, List, find, Text}
use fieldpro_pilot.Service.{Db, Services, ok, RouteRunStop, StopStatus, is_stop}
use fieldpro_pilot.Service.Start.{
  StartResult, not_found, unchanged, updated, allows, started, start_allowed, start_body,
}

-- What a start may leave: the tables as they were, or those where the stop is started.
abbrev pub Started : ℕ → ℕ → List StopStatus → Db → Db × Option StartResult → Type 0
Started now id statuses db (after, none) = after ≡ db
Started now id statuses db (after, some not_found) =
    (after ≡ db) × (find (is_stop id) db.stops ≡ none)
Started now id statuses db (after, some (unchanged row)) =
    (after ≡ db) × (find (is_stop id) db.stops ≡ some row) × (allows statuses row.status ≡ false)
Started now id statuses db (after, some (updated row)) =
    (before : RouteRunStop) × (find (is_stop id) db.stops ≡ some before)
    × (allows statuses before.status ≡ true)
    × (row ≡ started now before)
    × (find (is_stop id) after.stops ≡ some row)

module _ (svc : Services) (id : ℕ) (actor : Text) (statuses : List StopStatus) where
  pub start_missing :
      (db : Db)
      → find (is_stop id) db.stops ≡ none
      → start_body svc id actor statuses db ≡ ok not_found db
  unfolding start_body
  start_missing db e = rw (start_body, e)

  pub start_refused :
      (db : Db) (row : RouteRunStop)
      → find (is_stop id) db.stops ≡ some row
      → allows statuses row.status ≡ false
      → start_body svc id actor statuses db ≡ ok (unchanged row) db
  unfolding start_body
  start_refused db row e f = rw (start_body, e, f)

  pub start_made :
      (db : Db) (row : RouteRunStop)
      → find (is_stop id) db.stops ≡ some row
      → allows statuses row.status ≡ true
      → start_body svc id actor statuses db ≡ start_allowed svc id actor row db
  unfolding start_body
  start_made db row e f = rw (start_body, e, f)
