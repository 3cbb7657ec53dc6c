-- ===== src/Service/Visit/Once.antt =====
-- A stop of a route run has one visit, however often it is asked for.
use fieldpro_pilot.Base.{ℕ, ◌≡◌, Option, none, some, find}
use fieldpro_pilot.Service.{Db, Services, Result, ok, error, VisitRow}
use fieldpro_pilot.Service.Visit.{has_client_id}

-- A call that only reads.
abbrev Reads {ℓ} : {A : Type ℓ} → Db → Result A → Type 0
Reads before (ok a db) = db ≡ before
Reads before (error e) = Unit {0}

abbrev id_of : Option VisitRow → Option ℕ
id_of none = none
id_of (some v) = some v.id

module _ (svc : Services) (id : ℕ) where
  abbrev named : Db → Option ℕ
  named db = id_of (find (has_client_id (svc.uuid_of_stop id)) db.visits)

  -- the visit that a call returns is the one that the tables then hold
  abbrev Holds : Result ℕ → Type 0
  Holds (ok v db) = named db ≡ some v
  Holds (error e) = Unit {0}
