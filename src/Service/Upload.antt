-- ===== src/Service/Upload.antt =====
-- backend/src/middleware/uploadValidation.ts, and the handler of
-- `POST /route-runs/:runId/stops/:stopId/photos` of backend/src/modules/work/ulRoutes.ts. A buffer is the
-- list of its bytes. The object store and the printing of a number are parameters; the size limit is the
-- parser's. The audit of a rejected file, which the request does not wait for, is left out.
pub mod Accepted
mod Tests
use fieldpro_pilot.Base.{
  ℕ, suc, Bool, true, false, not, ◌&&◌, ◌||◌, Option, none, some, List, [], ◌∷◌, ◌++◌, any, take,
  drop, length, if◌then◌else◌, ltb, ◌==◌, Text, text, eq_text, is_empty, includes,
}
use mathlib.Core.Option
use fieldpro_pilot.Base.Dict.{lookup}
use fieldpro_pilot.Service.{Db, Services}
use fieldpro_pilot.Service.Evidence.{
  Evidence, EvidenceStore, create_stop_photos, list_stop_photos_by_route_run_stop,
}

abbrev pub Bytes : Type 0
Bytes = List ℕ

abbrev pub jpeg_magic : Bytes
jpeg_magic = 255 ∷ 216 ∷ 255 ∷ []

abbrev pub png_magic : Bytes
png_magic = 137 ∷ 80 ∷ 78 ∷ 71 ∷ 13 ∷ 10 ∷ 26 ∷ 10 ∷ []

abbrev pub heic_brands : List Text
heic_brands = text "heic" ∷ text "heis" ∷ text "mif1" ∷ text "msf1" ∷ []

abbrev pub has_text : Text → List Text → Bool
has_text x xs = any (λ y. eq_text y x) xs

-- the bytes from `i` on begin with these
abbrev pub has_bytes : ℕ → Bytes → Bytes → Bool
has_bytes i magic buf = eq_text (take (length magic) (drop i buf)) magic

unfoldable pub detect_mime_from_bytes : Bytes → Option Text
detect_mime_from_bytes buf =
    if ltb (length buf) 12
    then none
    else if has_bytes 0 jpeg_magic buf
    then some (text "image/jpeg")
    else if has_bytes 0 png_magic buf
    then some (text "image/png")
    else if has_bytes 0 (text "RIFF") buf && has_bytes 8 (text "WEBP") buf
    then some (text "image/webp")
    else if has_bytes 4 (text "ftyp") buf && has_text (take 4 (drop 8 buf)) heic_brands
    then some (text "image/heic")
    else none

abbrev pub allowed_mime_types : List Text
allowed_mime_types =
    text "image/jpeg" ∷ text "image/png" ∷ text "image/webp" ∷ text "image/heic" ∷ []

-- the detected type; none where the file is rejected for `mime_mismatch`
unfoldable pub validate_mime_bytes : Bytes → Option Text
unfolding detect_mime_from_bytes
validate_mime_bytes buf = elim (detect_mime_from_bytes buf) [
  | none ↦ none
  | some mime ↦ if has_text mime allowed_mime_types then some mime else none
]

-- false where the name is rejected
unfoldable pub validate_filename : Text → Bool
validate_filename filename = not (
    is_empty filename
    || includes (text "/") filename
    || includes (b'\\' ∷ []) filename
    || includes (text "..") filename)

abbrev pub ext_map : List (Text × Text)
ext_map =
    (text "image/jpeg", text "jpg")
    ∷ (text "image/png", text "png")
    ∷ (text "image/webp", text "webp")
    ∷ (text "image/heic", text "heic")
    ∷ []

-- the number of the stop is given as it is printed, and the random part is an argument
unfoldable pub generate_storage_key : Text → Text → Text → Text → Text
generate_storage_key stop kind mime uuid =
    let ext : Text = elim (lookup mime ext_map) [ none ↦ text "bin" | some e ↦ e ] in
    text "route-run-stops/" ++ stop ++ text "/" ++ kind ++ text "/" ++ uuid ++ text "." ++ ext

-- `uploadStopPhotos` of backend/src/s3Client.ts: the keys, none where it throws. `put` says whether the
-- object store takes an object, and `uuid` is the random part for the file at an index.
unfoldable pub upload_stop_photos :
    (Text → Bytes → Text → Bool) → (ℕ → Text) → Text → Text → ℕ → List Bytes → Option (List Text)
unfolding validate_mime_bytes generate_storage_key
upload_stop_photos put uuid stop kind i [] = some []
upload_stop_photos put uuid stop kind i (f ∷ files) =
    let rest = upload_stop_photos put uuid stop kind (suc i) files in
    elim (validate_mime_bytes f) [
      | none ↦ none
      | some mime ↦
          let key = generate_storage_key stop kind mime (uuid i) in
          if put key f mime then Option.map (λ keys. key ∷ keys) rest else none
    ]

-- the loop over the files
unfoldable pub all_valid : List Bytes → Bool
unfolding validate_mime_bytes
all_valid [] = true
all_valid (f ∷ files) = elim (validate_mime_bytes f) [ none ↦ false | some mime ↦ all_valid files ]

pub data UploadResponse : Type 0 where
  invalid_ids no_files no_user wrong_type upload_failed : UploadResponse
  photos : List (Evidence × Text) → UploadResponse

-- What a request brings: the ids (none where they are no numbers), the files, the caller's oid and
-- organisation (none where it is not resolved), and the kind.
pub record UploadRequest : Type 0 where
  pub route_run_id : Option ℕ
  pub route_run_stop_id : Option ℕ
  pub files : List Bytes
  pub user_oid : Option Text
  pub org_id : Option ℕ
  pub kind : Option Text

-- `req.body.kind || "completion"`
abbrev pub kind_or_default : Option Text → Text
kind_or_default none = text "completion"
kind_or_default (some []) = text "completion"
kind_or_default (some (c ∷ kind)) = c ∷ kind

module _ (svc : Services) (put : Text → Bytes → Text → Bool) (uuid : ℕ → Text) (print : ℕ → Text)
    (sign : Text → Option Text) where
  -- the transaction, and the list that is read after it
  abbrev pub persisted :
      ℕ → Db → EvidenceStore → Option EvidenceStore → EvidenceStore × UploadResponse
  persisted stop db before none = (before, upload_failed)
  persisted stop db before (some after) =
      (after, photos (list_stop_photos_by_route_run_stop svc sign stop none db after))

  -- after the checks
  unfoldable pub store_files :
      ℕ → Text → UploadRequest → Db → EvidenceStore → EvidenceStore × UploadResponse
  unfolding upload_stop_photos
  store_files stop user req db store =
      elim (upload_stop_photos put uuid (print stop) (kind_or_default req.kind) 0 req.files) [
        | none ↦ (store, upload_failed)
        | some keys ↦ elim req.org_id [
          | none ↦ (store, upload_failed)
          | some org ↦
              persisted stop db store
                (create_stop_photos svc stop user keys (some (kind_or_default req.kind)) db store)
        ]
      ]

  abbrev pub check_files :
      ℕ → Option Text → UploadRequest → Db → EvidenceStore → EvidenceStore × UploadResponse
  check_files stop none req db store = (store, no_user)
  check_files stop (some user) req db store =
      if is_empty user
      then (store, no_user)
      else if not (all_valid req.files)
      then (store, wrong_type)
      else store_files stop user req db store

  abbrev pub check_ids :
      Option ℕ → Option ℕ → UploadRequest → Db → EvidenceStore → EvidenceStore × UploadResponse
  check_ids none stop req db store = (store, invalid_ids)
  check_ids (some run) none req db store = (store, invalid_ids)
  check_ids (some run) (some stop) req db store =
      if length req.files == 0
      then (store, no_files)
      else check_files stop req.user_oid req db store

  unfoldable pub photos_handler :
      UploadRequest → Db → EvidenceStore → EvidenceStore × UploadResponse
  unfolding all_valid store_files
  photos_handler req db store = check_ids req.route_run_id req.route_run_stop_id req db store
