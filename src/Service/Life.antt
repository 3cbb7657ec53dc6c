-- ===== src/Service/Life.antt =====
-- The requests that change a stop, as steps of the tables: starts, completions and skips, of any stop
-- and at any time, in any order.
mod Writes
mod Skips
pub mod Advance
use fieldpro_pilot.Base.{ℕ, Bool, Option, Text}
use fieldpro_pilot.Service.{
  Db, Services, StopStatus, pending, planned, assigned, in_progress, done, skipped,
}
use fieldpro_pilot.Service.Complete.{Completion, complete_handler}
use fieldpro_pilot.Service.Skip.{SkipBody, skip_handler}
use fieldpro_pilot.Service.Start.Handlers.{start_handler, start_pending_handler}

pub data Request : Db → Db → Type 0 where
  starts :
      (svc : Services) (id : ℕ) (actor : Option Text) (db : Db)
      → Request db (start_handler svc id actor db).0
  starts_pending :
      (svc : Services) (id : ℕ) (actor : Text) (db : Db)
      → Request db (start_pending_handler svc id actor db).0
  completes :
      (svc : Services) (id : ℕ) (photos : Bool) (c : Completion) (db : Db)
      → Request db (complete_handler svc id photos c db).0
  skips :
      (svc : Services) (id photos : ℕ) (actor : Text) (body : SkipBody) (db : Db)
      → Request db (skip_handler svc id photos actor body db).0

-- What a sequence of requests makes of the tables.
pub data Requests : Db → Db → Type 0 where
  none_yet : (db : Db) → Requests db db
  then : (a b c : Db) → Requests a b → Request b c → Requests a c

-- How far a stop has come.
abbrev pub rank : StopStatus → ℕ
rank pending = 0
rank planned = 0
rank assigned = 0
rank in_progress = 1
rank skipped = 2
rank done = 3
