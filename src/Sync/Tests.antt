-- ===== src/Sync/Tests.antt =====
-- The replay against a server that refuses, and one that takes everything.
use fieldpro_pilot.Base.{
  ℕ, ◌≡◌, refl, true, false, Option, none, some, List, [], ◌∷◌, All, Text, text, eq_text, is_empty,
}
use fieldpro_pilot.Base.Dict.{lookup}
use fieldpro_pilot.Queue.{
  Action, ActionType, pending, running, start_stop, upload_stop_photos, complete_stop, is_pending,
}
use fieldpro_pilot.Queue.Store.{World, Env, get_queue_key, identity_key, load_key}
use fieldpro_pilot.Queue.Store.Laws.{view}
use fieldpro_pilot.Queue.Update.{pending_of}
use fieldpro_pilot.Queue.Replay.{mark, run_replay, replay_action}
use fieldpro_pilot.Sync.Api.{
  said, answered, call, start_route_run_stop, complete_stop_call, upload_stop_photos_call,
}
use fieldpro_pilot.Sync.Executor.{
  Remote, StoredPhoto, execute, execute_start, execute_complete, execute_upload, executor_map,
  outcome_of, gather, upload_files,
}
use fieldpro_pilot.Sync.Refused.{GoesOn, not_ok, replay_action-not_ok}
use fieldpro_pilot.Sync.Drained.{Distinct, Works, run_replay-drained}
use fieldpro_pilot.Sync.Uploaded.{DeletesSafely, execute_upload-safe}

abbrev queued : Text → ActionType → ℕ → Action
queued id type at = record {
  id = id;
  type = type;
  route_run_id = text "1";
  route_run_stop_id = some (text "7");
  created_at = at;
  payload = record {
    kind = none;
    local_photo_ids = some (text "p" ∷ []);
    route_run_stop_id = none;
    stop_id = none;
    rest = [];
  };
  status = pending;
  last_error = none;
  retry_count = none;
}

abbrev actions : List Action
actions =
    queued (text "c") complete_stop 5
    ∷ queued (text "u") upload_stop_photos 4
    ∷ queued (text "s") start_stop 3
    ∷ []

abbrev key : Text
key = text "fieldpro-offline-queue:t:u"

abbrev world : World
world = record {
  memory = [];
  storage = (key, record { actions = actions; requires_auth = false; last_updated_at = none }) ∷ [];
  notified = [];
}

abbrev env : Env
env = record { now = 10; writable = true }

abbrev photos : Text → Option StoredPhoto
photos id = some (record {
  blob = some (text "jpeg");
  filename = text "a.jpg";
  content_type = text "image/jpeg";
})

abbrev start : Action
start = queued (text "s") start_stop 3

-- a server whose login has run out
abbrev unauthorized : Remote
unauthorized = record {
  attempt = λ action w. (w, not_ok 401 (some (text "Unauthorized")));
  get_photo = photos;
}

not_ok_example :
    GoesOn key
      (unauthorized.attempt start (mark env key start running none world)).0
      (replay_action env key (executor_map unauthorized) start world)
not_ok_example =
    replay_action-not_ok env key unauthorized start world 401 (some (text "Unauthorized")) tt refl
      refl

abbrev accepting : Remote
accepting = record {
  attempt = λ action w. (w, record { token_error = none; answer = answered 200 (said none) });
  get_photo = photos;
}

accepting-Works :
    All (λ a. Works key a (executor_map accepting a.type)) (pending_of (view key world).actions)
unfolding executor_map execute execute_start execute_complete execute_upload outcome_of
    start_route_run_stop complete_stop_call upload_stop_photos_call call gather upload_files
    pending_of load_key lookup eq_text
accepting-Works = ((λ w. (refl, refl)), ((λ w. (refl, refl)), ((λ w. (refl, refl)), tt)))

key_of_user : identity_key (some (text "t")) (some (text "u")) ≡ some key
unfolding identity_key get_queue_key is_empty
key_of_user = refl

ids_differ : Distinct (view key world).actions
unfolding load_key lookup eq_text
ids_differ = ((refl, (refl, tt)), ((refl, tt), (tt, tt)))

drained_example :
    All
      (λ a. is_pending a.status ≡ false)
      (view key
        (run_replay env
          (some (text "t"))
          (some (text "u"))
          (executor_map accepting)
          world).0).actions
drained_example =
    run_replay-drained env (some (text "t")) (some (text "u")) (executor_map accepting) key world
      key_of_user ids_differ accepting-Works

deleted_example :
    DeletesSafely photos (queued (text "u") upload_stop_photos 4) (answered 200 (said none)) (
      execute_upload photos
        (queued (text "u") upload_stop_photos 4)
        (record { token_error = none; answer = answered 200 (said none) }))
deleted_example =
    execute_upload-safe photos (queued (text "u") upload_stop_photos 4)
      (record { token_error = none; answer = answered 200 (said none) })
