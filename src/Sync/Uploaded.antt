-- ===== src/Sync/Uploaded.antt =====
-- Which photos an upload deletes from the device.
use fieldpro_pilot.Base.{
  ℕ, ◌≡◌, refl, sym, subst, inl, inr, ◌⊎◌, true, Option, none, some, List, [], ◌∷◌, arith, map,
  Bool-cases, Option-cases, Text,
}
use fieldpro_pilot.Queue.{Action}
use fieldpro_pilot.Sync.Api.{
  Fetched, no_answer, answered, unreadable, said, is_ok, call, upload_stop_photos_call,
}
use fieldpro_pilot.Sync.Executor.{
  Attempt, StoredPhoto, File, file_of, Gathered, all_files, missing, with_file, gather, Upload,
  upload_files, execute_upload,
}

-- The server took the request, and its answer was read.
abbrev pub IsAccepted : Fetched → Type 0
IsAccepted answer =
    (status : ℕ) × (error : Option Text) × (is_ok status ≡ true)
    × (answer ≡ answered status (said error))

upload_stop_photos_call-IsAccepted :
    (answer : Fetched) → upload_stop_photos_call answer ≡ none → IsAccepted answer
unfolding upload_stop_photos_call call
upload_stop_photos_call-IsAccepted (no_answer m) h = absurd cc
upload_stop_photos_call-IsAccepted (answered status (unreadable m)) h =
    elim (Bool-cases (is_ok status)) [
      | inl e ↦ absurd (ground arith)
      | inr e ↦ absurd (ground arith)
    ]
upload_stop_photos_call-IsAccepted (answered status (said error)) h =
    elim (Bool-cases (is_ok status)) [
      | inl e ↦ (status, error, e, refl)
      | inr e ↦ absurd (ground arith)
    ]

-- The files are those of the photos, in the order of the ids.
abbrev pub FilesOf : (Text → Option StoredPhoto) → List Text → Gathered → Type 0
FilesOf get_photo ids (all_files files) =
    map (λ id. file_of (get_photo id)) ids ≡ map (λ f. some f) files
FilesOf get_photo ids (missing id) = Unit {0}

with_file-FilesOf :
    (get_photo : Text → Option StoredPhoto) (id : Text) (ids : List Text) (f : File) (g : Gathered)
    → file_of (get_photo id) ≡ some f
    → FilesOf get_photo ids g
    → FilesOf get_photo (id ∷ ids) (with_file f g)
with_file-FilesOf get_photo id ids f (all_files files) e h = cc
with_file-FilesOf get_photo id ids f (missing other) e h = tt

gather-FilesOf :
    (get_photo : Text → Option StoredPhoto) (ids : List Text)
    → FilesOf get_photo ids (gather get_photo ids)
unfolding gather
gather-FilesOf get_photo [] = refl
gather-FilesOf get_photo (id ∷ ids) = elim (Option-cases (file_of (get_photo id))) [
  | inl e ↦
      let stopped : gather get_photo (id ∷ ids) ≡ missing id = rw (gather, e) in
      subst (FilesOf get_photo (id ∷ ids)) (sym stopped) tt
  | inr (f, e) ↦
      let grown : gather get_photo (id ∷ ids) ≡ with_file f (gather get_photo ids) =
        rw (gather, e) in
      subst (FilesOf get_photo (id ∷ ids)) (sym grown) (
        with_file-FilesOf get_photo id ids f (gather get_photo ids) e
          (gather-FilesOf get_photo ids))
]

-- Nothing is deleted, or the request was accepted with the files of all the action's photos, and just
-- these photos are deleted.
abbrev pub DeletesSafely : (Text → Option StoredPhoto) → Action → Fetched → Upload → Type 0
DeletesSafely get_photo action answer u =
    (u.deleted ≡ [])
    ⊎ ((action.payload.local_photo_ids ≡ some u.deleted)
        × (map (λ id. file_of (get_photo id)) u.deleted ≡ map (λ f. some f) u.sent)
        × (u.thrown ≡ none)
        × IsAccepted answer)

upload_files-safe :
    (get_photo : Text → Option StoredPhoto) (action : Action) (answer : Fetched) (ids : List Text)
    (g : Gathered)
    → action.payload.local_photo_ids ≡ some ids
    → FilesOf get_photo ids g
    → DeletesSafely get_photo action answer (upload_files ids answer g)
unfolding upload_files
upload_files-safe get_photo action answer ids (missing id) e h = inl refl
upload_files-safe get_photo action answer ids (all_files []) e h = inl refl
upload_files-safe get_photo action answer ids (all_files (f ∷ fs)) e h =
    elim (Option-cases (upload_stop_photos_call answer)) [
      | inl k ↦ rw k (inr (e, h, refl, upload_stop_photos_call-IsAccepted answer k))
      | inr (err, k) ↦ rw k (inl refl)
    ]

-- An upload deletes no photo from the device unless the server accepted a request that held the files of
-- all photos of the action, in their order; then these photos are deleted and the upload returns.
pub execute_upload-safe :
    (get_photo : Text → Option StoredPhoto) (action : Action) (t : Attempt)
    → DeletesSafely get_photo action t.answer (execute_upload get_photo action t)
unfolding execute_upload
execute_upload-safe get_photo action t = elim (Option-cases t.token_error) [
  | inr (err, e) ↦ rw e (inl refl)
  | inl e ↦ elim (Option-cases action.payload.local_photo_ids) [
    | inl k ↦ rw (e, k) (inl refl)
    | inr (ids, k) ↦
        let uploads : execute_upload get_photo action t
            ≡ upload_files ids t.answer (gather get_photo ids) =
          rw (execute_upload, e, k) in
        subst (DeletesSafely get_photo action t.answer) (sym uploads) (
          upload_files-safe get_photo action t.answer ids (gather get_photo ids) k
            (gather-FilesOf get_photo ids))
  ]
]
