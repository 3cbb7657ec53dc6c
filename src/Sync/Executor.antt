-- ===== src/Sync/Executor.antt =====
-- The executors of frontend/src/offline/OfflineSyncManager.tsx.
use fieldpro_pilot.Base.{
  Bool, ◌++◌, Option, none, some, List, [], ◌∷◌, any, ◌==◌, if◌then◌else◌, Text, text, includes,
}
use fieldpro_pilot.Queue.{
  Action, start_stop, upload_stop_photos, skip_stop_with_hazard, complete_stop, other,
}
use fieldpro_pilot.Queue.Store.{World}
use fieldpro_pilot.Queue.Replay.{Outcome, returned, threw, Executors}
use fieldpro_pilot.Sync.Errors.{Thrown, plain_error, failure_of}
use fieldpro_pilot.Sync.Api.{
  Fetched, or_else, start_route_run_stop, complete_stop_call, skip_route_run_stop_with_hazard,
  upload_stop_photos_call,
}

-- A try of an action: what getting the token throws, if it does, and the answer to the request.
pub record Attempt : Type 0 where
  pub token_error : Option Thrown
  pub answer : Fetched

-- `err?.response?.data?.message || err?.message || ""`
abbrev pub message_of : Thrown → Text
message_of e = or_else e.response_message e.message

abbrev pub photo_missing_error : Thrown
photo_missing_error = plain_error (text "Error") (text "RETRY_NEEDED_PHOTO_MISSING")

-- the phrases that the executors look for
abbrev pub complete_phrases : List Text
complete_phrases = text "photo required" ∷ text "after photo" ∷ text "Photo Required" ∷ []

abbrev pub skip_phrases : List Text
skip_phrases =
    text "safety photo" ∷ text "after photo" ∷ text "Photo Required" ∷ text "required to skip" ∷ []

unfoldable pub has_phrase : List Text → Text → Bool
has_phrase phrases message = any (λ p. includes p message) phrases

-- the `catch` of the two executors that look for a photo
abbrev pub photo_catch : List Text → Thrown → Thrown
photo_catch phrases e = if has_phrase phrases (message_of e) then photo_missing_error else e

-- the `catch` of the start
unfoldable pub conflict_catch : Thrown → Thrown
conflict_catch e = elim e.response_status [
  | none ↦ e
  | some s ↦
      if s == 409
      then record (plain_error (text "Error")
          (or_else e.response_message (text "Stop already started or completed"))) {
            code = some (text "ALREADY_COMPLETE");
          }
      else e
]

abbrev pub caught : (Thrown → Thrown) → Option Thrown → Option Thrown
caught handler none = none
caught handler (some e) = some (handler e)

-- the token is requested outside of the `try`
abbrev pub with_token : Option Thrown → Option Thrown → Option Thrown
with_token (some e) result = some e
with_token none result = result

unfoldable pub execute_complete : Attempt → Option Thrown
unfolding complete_stop_call
execute_complete t =
    with_token t.token_error (caught (photo_catch complete_phrases) (complete_stop_call t.answer))

unfoldable pub execute_start : Attempt → Option Thrown
unfolding start_route_run_stop conflict_catch
execute_start t = with_token t.token_error (caught conflict_catch (start_route_run_stop t.answer))

unfoldable pub execute_skip : Attempt → Option Thrown
unfolding skip_route_run_stop_with_hazard
execute_skip t =
    with_token t.token_error
      (caught (photo_catch skip_phrases) (skip_route_run_stop_with_hazard t.answer))

-- a stored photo; `blob` is none where it is empty
pub record StoredPhoto : Type 0 where
  pub blob : Option Text
  pub filename : Text
  pub content_type : Text

pub record File : Type 0 where
  pub content : Text
  pub filename : Text
  pub content_type : Text

abbrev pub file_of : Option StoredPhoto → Option File
file_of none = none
file_of (some p) = elim p.blob [
  | none ↦ none
  | some b ↦ some (record { content = b; filename = p.filename; content_type = p.content_type })
]

-- the loop that builds the files, up to the first id without a photo
pub data Gathered : Type 0 where
  all_files : List File → Gathered
  missing : Text → Gathered

abbrev pub with_file : File → Gathered → Gathered
with_file f (all_files fs) = all_files (f ∷ fs)
with_file f (missing id) = missing id

unfoldable pub gather : (Text → Option StoredPhoto) → List Text → Gathered
gather get_photo [] = all_files []
gather get_photo (id ∷ ids) =
    let rest = gather get_photo ids in
    elim (file_of (get_photo id)) [ none ↦ missing id | some f ↦ with_file f rest ]

-- what an upload throws, what it sends, and which photos it deletes
pub record Upload : Type 0 where
  pub thrown : Option Thrown
  pub sent : List File
  pub deleted : List Text

abbrev pub sent_upload : List Text → List File → Option Thrown → Upload
sent_upload ids files none = record { thrown = none; sent = files; deleted = ids }
sent_upload ids files (some e) = record { thrown = some e; sent = files; deleted = [] }

unfoldable pub upload_files : List Text → Fetched → Gathered → Upload
unfolding upload_stop_photos_call
upload_files ids answer (missing id) = record {
  thrown = some (plain_error (text "Error") (text "Missing blob for localPhotoId: " ++ id));
  sent = [];
  deleted = [];
}
upload_files ids answer (all_files []) = record { thrown = none; sent = []; deleted = [] }
upload_files ids answer (all_files (f ∷ fs)) =
    sent_upload ids (f ∷ fs) (upload_stop_photos_call answer)

unfoldable pub execute_upload : (Text → Option StoredPhoto) → Action → Attempt → Upload
unfolding gather upload_files
execute_upload get_photo action t = elim t.token_error [
  | some e ↦ record { thrown = some e; sent = []; deleted = [] }
  | none ↦ elim action.payload.local_photo_ids [
    | none ↦ record { thrown = none; sent = []; deleted = [] }
    | some ids ↦ upload_files ids t.answer (gather get_photo ids)
  ]
]

-- The other side of a replay: the try of an action, with the world as it is when the try is over, and
-- the photos that are stored.
pub record Remote : Type 0 where
  pub attempt : Action → World → World × Attempt
  pub get_photo : Text → Option StoredPhoto

unfoldable pub outcome_of : Option Thrown → Outcome
unfolding failure_of
outcome_of none = returned
outcome_of (some e) = threw (failure_of e)

unfoldable pub execute :
    Remote → (Action → Attempt → Option Thrown) → Action → World → World × Outcome
unfolding outcome_of
execute remote run action w =
    let tried = remote.attempt action w in (tried.0, outcome_of (run action tried.1))

unfoldable pub executor_map : Remote → Executors
unfolding execute_start execute_complete execute_skip execute_upload execute
executor_map remote start_stop = some (λ action w. execute remote (λ a t. execute_start t) action w)
executor_map remote complete_stop =
    some (λ action w. execute remote (λ a t. execute_complete t) action w)
executor_map remote skip_stop_with_hazard =
    some (λ action w. execute remote (λ a t. execute_skip t) action w)
executor_map remote upload_stop_photos =
    some (λ action w. execute remote (λ a t. (execute_upload remote.get_photo a t).thrown) action w)
executor_map remote (other name) = none
