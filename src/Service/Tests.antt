-- ===== src/Service/Tests.antt =====
-- A stop of a run of one stop, started and completed.
use fieldpro_pilot.Base.{◌≡◌, refl, true, false, none, some, [], ◌∷◌, find, text, eq_text}
use fieldpro_pilot.Service.{
  Db, Services, ok, RouteRunStop, pending, RouteRun, run_in_progress, is_stop, is_done,
}
use fieldpro_pilot.Service.Visit.{
  get_visit_context, asset_of, location_of, check_context, create_visit, new_visit,
  ensure_visit_for_route_run_stop,
}
use fieldpro_pilot.Service.Observe.{insert_observations, emit_observations_for_stop}
use fieldpro_pilot.Observation.Submit.{
  submit_observations, hazard_rows, action_rows, action_if, volume_rows, infra_rows,
}
use fieldpro_pilot.Service.Run.{check_and_complete_route_run}
use fieldpro_pilot.Service.Run.Finish.{
  IsOver, NoneAwaited, AnyServed, check_and_complete_route_run_lem,
}
use fieldpro_pilot.Base.{◌==◌, ◌⊎◌, ◌↔◌}
use fieldpro_pilot.Service.{skipped}
use fieldpro_pilot.Service.Complete.{
  Completion, ui_payload, spot_check_if, complete_visit, complete_row, complete_stop, refused,
  complete_handler, completed, already_complete,
}
use fieldpro_pilot.Service.Complete.Again.{closed_row, complete_stop_lem, complete_handler-again}
use fieldpro_pilot.Service.Start.Handlers.{start_handler}
use fieldpro_pilot.Service.Skip.{SkipBody, no_photo, skip_handler}
use fieldpro_pilot.Service.Evidence.{
  EvidenceStore, create_stop_photos, count_stop_photos_by_route_run_stop,
}
use fieldpro_pilot.Service.Evidence.Laws.{skip-create_stop_photos}
use fieldpro_pilot.Service.{VisitRow}
use fieldpro_pilot.Service.Visit.{has_client_id}
use fieldpro_pilot.Service.Life.{Requests, none_yet, then, starts, completes, skips}
use fieldpro_pilot.Service.Life.Advance.{AdvancedTo, Requests-AdvancedTo}

abbrev stop : RouteRunStop
stop = record {
  id = 7;
  route_run_id = 3;
  stop_id = text "S1";
  asset_id = some 2;
  status = pending;
  created_at = 50;
  started_at = none;
  completed_at = none;
  updated_at = none;
  trash_volume = none;
  sequence = 0;
  planned_distance_m = 100;
  planned_duration_s = 60;
  org_id = 1;
}

abbrev run : RouteRun
run = record {
  id = 3;
  org_id = 1;
  route_pool_id = text "P1";
  base_id = text "NORTH";
  run_date = 20;
  status = run_in_progress;
  total_distance_m = 100;
  total_duration_s = 60;
  shift_type = text "day";
  is_adhoc = false;
  started_at = some 40;
  finished_at = none;
  updated_at = none;
}

abbrev db : Db
db = record {
  stops = stop ∷ [];
  runs = run ∷ [];
  visits = [];
  observations = [];
  visit_audits = [];
  observation_audits = [];
  efforts = [];
  assets = record { id = 2; org_id = some 1 } ∷ [];
  locations = record { stop_id = text "S1"; location_id = 5 } ∷ [];
  assignments = [];
  public_stops =
      record { stop_id = text "S1"; is_hotspot = true; compactor = false; asset_id = some 2 } ∷ [];
  registry = [];
  run_assignments = [];
  assignment_audits = [];
  serial = 100;
}

abbrev services : Services
services = record {
  uuid_of_stop = λ id. id ∷ [];
  encrypt = λ actor. some (actor, text "k1");
  limit_one = λ rows. elim rows [ [] ↦ none | a ∷ others ↦ some a ];
  now = 60;
}

abbrev emptied : Completion
emptied = record {
  picked_up_litter = false;
  emptied_trash = true;
  washed_shelter = false;
  washed_pad = false;
  washed_can = false;
  infra_issues = [];
  trash_volume = some 2;
  actor_oid = text "worker";
  safety = none;
  spot_check = false;
}

-- a stop whose visit was an inspection
abbrev inspected : Completion
inspected = record emptied { emptied_trash = false; trash_volume = none; spot_check = true }

abbrev visited : Db
visited =
    elim (ensure_visit_for_route_run_stop services 7 (text "worker") (text "service") none db) [
      | ok v after ↦ after
      | _ ↦ db
    ]

abbrev after : Db
after = (complete_handler services 7 true emptied db).0

handler_answer : complete_handler services 7 true emptied db ≡ (after, completed 100 3)
unfolding complete_handler refused complete_stop complete_row ensure_visit_for_route_run_stop
    get_visit_context asset_of location_of check_context create_visit new_visit eq_text
    complete_visit spot_check_if emit_observations_for_stop submit_observations hazard_rows
    action_rows action_if volume_rows infra_rows ui_payload insert_observations
handler_answer = refl

inspected_passes : refused true inspected ≡ none
unfolding refused
inspected_passes = refl

again_example :
    complete_handler (record services { now = 90 }) 7 true inspected after
    ≡ (after, already_complete)
again_example =
    complete_handler-again services (record services { now = 90 }) 7 true true emptied inspected db
      after 100 3 handler_answer inspected_passes

completion : complete_stop services 7 emptied db ≡ ok (some (100, 3)) after
unfolding complete_handler refused complete_stop complete_row ensure_visit_for_route_run_stop
    get_visit_context asset_of location_of check_context create_visit new_visit eq_text
    complete_visit spot_check_if emit_observations_for_stop submit_observations hazard_rows
    action_rows action_if volume_rows infra_rows ui_payload insert_observations
completion = refl

complete_example :
    (row : RouteRunStop) × (find (is_stop 7) db.stops ≡ some row)
    × (is_done row.status ≡ false)
    × (find (is_stop 7) after.stops ≡ some (closed_row 60 (some 2) row))
complete_example = complete_stop_lem services 7 emptied db after (100, 3) completion

-- the tables once the only stop of the run was skipped
abbrev stop_over : Db
stop_over = record db { stops = record stop { status = skipped } ∷ [] }

finish_example :
    (r : RouteRun) × (find
        (λ (x : RouteRun). x.id == 3)
        (check_and_complete_route_run 60 3 stop_over).runs
      ≡ some r)
    × (IsOver r.status
        ↔ (IsOver run_in_progress ⊎ (NoneAwaited 3 stop_over.stops × AnyServed 3 stop_over.stops)))
finish_example = check_and_complete_route_run_lem 60 3 stop_over run refl

-- the stop is started, completed, and asked to be skipped
abbrev served : Db
served = (start_handler services 7 (some (text "worker")) db).0

abbrev completed_later : Db
completed_later = (complete_handler services 7 true emptied served).0

abbrev blocked : SkipBody
blocked = record {
  legacy = record { hazard_types = some (text "needles" ∷ []); notes = none; severity = none };
  safety = none;
}

abbrev skipped_after : Db
skipped_after = (skip_handler services 7 1 (text "worker") blocked completed_later).0

day : Requests db skipped_after
day =
    then db completed_later skipped_after
      (then db served completed_later
        (then db db served (none_yet db) (starts services 7 (some (text "worker")) db))
        (completes services 7 true emptied served))
      (skips services 7 1 (text "worker") blocked completed_later)

day_example : AdvancedTo stop (find (is_stop 7) skipped_after.stops)
day_example = Requests-AdvancedTo db skipped_after 7 stop day refl

abbrev visit : VisitRow
visit =
    new_visit services 7 (text "service") none
      (record { org_id = 1; asset_id = 2; location_id = 5 }) db

visit_there : find (has_client_id (7 ∷ [])) visited.visits ≡ some visit
unfolding ensure_visit_for_route_run_stop get_visit_context asset_of location_of check_context
    create_visit new_visit eq_text
visit_there = refl

abbrev no_photos : EvidenceStore
no_photos = record { evidence = []; evidence_audits = []; serial = 1 }

unvisited_skip_example :
    (create_stop_photos services 7
        (text "worker")
        (text "k1" ∷ [])
        (some (text "safety"))
        db
        no_photos
      ≡ some no_photos)
    × (skip_handler services 7
          (count_stop_photos_by_route_run_stop services 7 (some (text "safety")) db no_photos)
          (text "worker")
          blocked
          db
        ≡ (db, no_photo))
unvisited_skip_example =
    skip-create_stop_photos services 7 (text "worker") [] db no_photos (text "safety") (text "k1")
      (text "worker", text "k1") (text "worker") blocked refl refl
