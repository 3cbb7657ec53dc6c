-- ===== src/Service/Upload/Accepted.antt =====
-- When an upload is stored.
use fieldpro_pilot.Base.{
  ℕ, ◌≡◌, refl, sym, subst, ◌∙◌, inl, inr, Bool, true, false, ◌&&◌, Option, none, some, List, [],
  ◌∷◌, arith, All, length, take, drop, ◌<◌, Bool-cases, Option-cases, Text, text, eq_text, is_empty,
  if◌then◌else◌, ltb, ◌==◌,
}
use fieldpro_pilot.Base.Dict.{lookup}
use fieldpro_pilot.Service.{Db, Services}
use fieldpro_pilot.Service.Evidence.{EvidenceStore, create_stop_photos}
use fieldpro_pilot.Service.Upload.{
  Bytes, jpeg_magic, png_magic, heic_brands, has_text, has_bytes, detect_mime_from_bytes,
  allowed_mime_types, validate_mime_bytes, ext_map, upload_stop_photos, all_valid, UploadResponse,
  invalid_ids, no_files, no_user, wrong_type, upload_failed, photos, UploadRequest, kind_or_default,
  persisted, store_files, check_files, check_ids, photos_handler,
}

-- A file whose bytes show a type that is allowed and has an extension of its own.
abbrev pub IsPhoto : Bytes → Type 0
IsPhoto f =
    (mime : Text) × (ext : Text) × (validate_mime_bytes f ≡ some mime)
    × (lookup mime ext_map ≡ some ext)

abbrev HasExt : Option Text → Type 0
HasExt none = Unit {0}
HasExt (some mime) = (ext : Text) × (lookup mime ext_map ≡ some ext)

either-HasExt : (b : Bool) (x y : Option Text) → HasExt x → HasExt y → HasExt (if b then x else y)
either-HasExt true x y h k = h
either-HasExt false x y h k = k

detect_mime-HasExt : (f : Bytes) → HasExt (detect_mime_from_bytes f)
unfolding detect_mime_from_bytes lookup eq_text
detect_mime-HasExt f = either-HasExt (ltb (length f) 12) none _ tt (
    either-HasExt (has_bytes 0 jpeg_magic f) (some (text "image/jpeg")) _ (text "jpg", refl)
      (either-HasExt (has_bytes 0 png_magic f) (some (text "image/png")) _ (text "png", refl)
        (either-HasExt (has_bytes 0 (text "RIFF") f && has_bytes 8 (text "WEBP") f)
          (some (text "image/webp")) _ (text "webp", refl)
          (either-HasExt (has_bytes 4 (text "ftyp") f && has_text (take 4 (drop 8 f)) heic_brands)
            (some (text "image/heic")) none (text "heic", refl) tt))))

validate_mime_bytes-HasExt : (f : Bytes) → HasExt (validate_mime_bytes f)
unfolding validate_mime_bytes
validate_mime_bytes-HasExt f = elim (Option-cases (detect_mime_from_bytes f)) [
  | inl e ↦
      let nothing : validate_mime_bytes f ≡ none = rw (validate_mime_bytes, e) in
      subst HasExt (sym nothing) tt
  | inr (mime, e) ↦
      let tested : validate_mime_bytes f
          ≡ (if has_text mime allowed_mime_types then some mime else none) =
        rw (validate_mime_bytes, e) in
      subst HasExt (sym tested) (
        either-HasExt (has_text mime allowed_mime_types) (some mime) none
          (subst HasExt e (detect_mime-HasExt f)) tt)
]

stopped :
    (f : Bytes) (files : List Bytes) → validate_mime_bytes f ≡ none → all_valid (f ∷ files) ≡ false
unfolding all_valid
stopped f files e = rw (all_valid, e)

went_on :
    (f : Bytes) (files : List Bytes) (mime : Text)
    → validate_mime_bytes f ≡ some mime
    → all_valid (f ∷ files) ≡ all_valid files
unfolding all_valid
went_on f files mime e = rw (all_valid, e)

all_valid-photos : (files : List Bytes) → all_valid files ≡ true → All IsPhoto files
unfolding all_valid
all_valid-photos [] h = tt
all_valid-photos (f ∷ files) h = elim (Option-cases (validate_mime_bytes f)) [
  | inl e ↦ absurd (let k : false ≡ true = (sym (stopped f files e)) ∙ h in cc)
  | inr (mime, e) ↦
      let (ext, found) = subst HasExt e (validate_mime_bytes-HasExt f) in
      ((mime, ext, e, found), all_valid-photos files (sym (went_on f files mime e) ∙ h))
]

-- What an upload leaves: the photos as they were, or, if it was accepted, those that were created for
-- the stop, by a caller with an oid and an organisation, from files that are all photos.
abbrev pub Uploaded : UploadRequest → EvidenceStore → EvidenceStore × UploadResponse → Type 0
Uploaded req before (after, photos shown) =
    All IsPhoto req.files × (0 < length req.files) × ((org : ℕ) × (req.org_id ≡ some org))
Uploaded req before (after, invalid_ids) = after ≡ before
Uploaded req before (after, no_files) = after ≡ before
Uploaded req before (after, no_user) = after ≡ before
Uploaded req before (after, wrong_type) = after ≡ before
Uploaded req before (after, upload_failed) = after ≡ before

module _ (svc : Services) (put : Text → Bytes → Text → Bool) (uuid : ℕ → Text) (print : ℕ → Text)
    (sign : Text → Option Text) (req : UploadRequest) (db : Db) (store : EvidenceStore) where
  persisted-Uploaded :
      (stop org : ℕ) (after : Option EvidenceStore)
      → All IsPhoto req.files
      → 0 < length req.files
      → req.org_id ≡ some org
      → Uploaded req store (persisted svc put uuid print sign stop db store after)
  persisted-Uploaded stop org none h n o = refl
  persisted-Uploaded stop org (some after) h n o = (h, n, (org, o))

  store_files-Uploaded :
      (stop : ℕ) (user : Text)
      → All IsPhoto req.files
      → 0 < length req.files
      → Uploaded req store (store_files svc put uuid print sign stop user req db store)
  unfolding store_files
  store_files-Uploaded stop user h n =
      elim (Option-cases
        (upload_stop_photos put uuid (print stop) (kind_or_default req.kind) 0 req.files)) [
          | inl e ↦
              let made : store_files svc put uuid print sign stop user req db store
                  ≡ (store, upload_failed) =
                rw (store_files, e) in
              subst (Uploaded req store) (sym made) refl
          | inr (keys, e) ↦ elim (Option-cases req.org_id) [
            | inl o ↦
                let made : store_files svc put uuid print sign stop user req db store
                    ≡ (store, upload_failed) =
                  rw (store_files, e, o) in
                subst (Uploaded req store) (sym made) refl
            | inr (org, o) ↦
                let created =
                  create_stop_photos svc stop user keys (some (kind_or_default req.kind)) db
                    store in
                let made : store_files svc put uuid print sign stop user req db store
                    ≡ persisted svc put uuid print sign stop db store created =
                  rw (store_files, e, o) in
                subst (Uploaded req store) (sym made) (persisted-Uploaded stop org created h n o)
          ]
        ]

  check_files-Uploaded :
      (stop : ℕ) (user : Option Text)
      → 0 < length req.files
      → Uploaded req store (check_files svc put uuid print sign stop user req db store)
  check_files-Uploaded stop none n = refl
  check_files-Uploaded stop (some user) n =
      let checked = check_files svc put uuid print sign stop (some user) req db store in
      elim (Bool-cases (is_empty user)) [
        | inl e ↦
            let made : checked ≡ (store, no_user) = rw e in
            subst (Uploaded req store) (sym made) refl
        | inr e ↦ elim (Bool-cases (all_valid req.files)) [
          | inr f ↦
              let made : checked ≡ (store, wrong_type) = rw (e, f) in
              subst (Uploaded req store) (sym made) refl
          | inl f ↦
              let made : checked ≡ store_files svc put uuid print sign stop user req db store =
                rw (e, f) in
              subst (Uploaded req store) (sym made)
                (store_files-Uploaded stop user (all_valid-photos req.files f) n)
        ]
      ]

  check_ids-Uploaded :
      (run stop : Option ℕ)
      → Uploaded req store (check_ids svc put uuid print sign run stop req db store)
  check_ids-Uploaded none stop = refl
  check_ids-Uploaded (some run) none = refl
  check_ids-Uploaded (some run) (some stop) =
      let checked = check_ids svc put uuid print sign (some run) (some stop) req db store in
      elim (Bool-cases (length req.files == 0)) [
        | inl e ↦
            let made : checked ≡ (store, no_files) = rw e in
            subst (Uploaded req store) (sym made) refl
        | inr e ↦
            let made : checked
                ≡ check_files svc put uuid print sign stop req.user_oid req db store =
              rw e in
            subst (Uploaded req store) (sym made)
              (check_files-Uploaded stop req.user_oid (ground arith))
      ]

  -- An upload that is answered with a list of photos came with at least one file, whose bytes all show
  -- types that are allowed and have extensions, and with an organisation. Any other answer leaves the
  -- photos of the stop and their actors as they were.
  pub photos_handler-Uploaded :
      Uploaded req store (photos_handler svc put uuid print sign req db store)
  unfolding photos_handler
  photos_handler-Uploaded = check_ids-Uploaded req.route_run_id req.route_run_stop_id
