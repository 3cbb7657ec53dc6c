-- ===== src/Service/Run/Tests.antt =====
-- A run that is assigned, started and finished.
use fieldpro_pilot.Base.{refl, false, none, some, [], ◌∷◌, arith, text}
use fieldpro_pilot.Service.{Db, RouteRun, run_planned}
use fieldpro_pilot.Service.Run.Routes.{assign_handler, start_run_handler}
use fieldpro_pilot.Service.Run.Assigned.{AssignedTo, assign_route_run_lem}
use fieldpro_pilot.Service.Run.Life.{none_yet, further, starts, assigns, KeptIn, RunRequests-KeptIn}

abbrev run : RouteRun
run = record {
  id = 3;
  org_id = 1;
  route_pool_id = text "P1";
  base_id = text "NORTH";
  run_date = 20;
  status = run_planned;
  total_distance_m = 100;
  total_duration_s = 60;
  shift_type = text "day";
  is_adhoc = false;
  started_at = none;
  finished_at = none;
  updated_at = none;
}

abbrev db : Db
db = record {
  stops = [];
  runs = run ∷ [];
  visits = [];
  observations = [];
  visit_audits = [];
  observation_audits = [];
  efforts = [];
  assets = [];
  locations = [];
  assignments = [];
  public_stops = [];
  registry = [];
  run_assignments = [];
  assignment_audits = [];
  serial = 100;
}

assign_example : AssignedTo 50 3 4 (some (text "worker")) db (some run)
assign_example = assign_route_run_lem 50 3 (some (text "worker")) db (omega arith) 4 refl

abbrev started : Db
started = (start_run_handler 60 (some 1) 3 db).0

abbrev given : Db
given = (assign_handler 61 (some 1) 3 (some (text "worker")) started).0

kept_example : KeptIn 3 run given
kept_example =
    RunRequests-KeptIn 3 run db given
      (further db started given (further db db started (none_yet db) (starts 60 (some 1) 3 db))
        (assigns 61 (some 1) 3 (some (text "worker")) started))
      refl
