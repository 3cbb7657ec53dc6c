-- ===== src/Service/Upload/Tests.antt =====
-- An upload of one photo for a stop that was not started.
use fieldpro_pilot.Base.{none, true, some, [], ◌∷◌, text}
use fieldpro_pilot.Service.{Db, Services}
use fieldpro_pilot.Service.Evidence.{EvidenceStore}
use fieldpro_pilot.Service.Upload.{Bytes, UploadRequest, photos_handler}
use fieldpro_pilot.Service.Upload.Accepted.{Uploaded, photos_handler-Uploaded}

abbrev nothing : Db
nothing = record {
  stops = [];
  runs = [];
  visits = [];
  observations = [];
  visit_audits = [];
  observation_audits = [];
  efforts = [];
  assets = [];
  locations = [];
  assignments = [];
  public_stops = [];
  registry = [];
  run_assignments = [];
  assignment_audits = [];
  serial = 1;
}

abbrev services : Services
services = record {
  uuid_of_stop = λ id. id ∷ [];
  encrypt = λ actor. some (actor, text "k1");
  limit_one = λ rows. elim rows [ [] ↦ none | a ∷ others ↦ some a ];
  now = 60;
}

abbrev jpeg : Bytes
jpeg = 255 ∷ 216 ∷ 255 ∷ 224 ∷ 0 ∷ 16 ∷ 74 ∷ 70 ∷ 73 ∷ 70 ∷ 0 ∷ 1 ∷ []

abbrev request : UploadRequest
request = record {
  route_run_id = some 3;
  route_run_stop_id = some 7;
  files = jpeg ∷ [];
  user_oid = some (text "worker");
  org_id = some 1;
  kind = some (text "safety");
}

abbrev empty_store : EvidenceStore
empty_store = record { evidence = []; evidence_audits = []; serial = 1 }

posted_photo_example : Uploaded request empty_store (
    photos_handler services
      (λ key f mime. true)
      (λ i. i ∷ [])
      (λ n. n ∷ [])
      (λ key. some key)
      request
      nothing
      empty_store)
posted_photo_example =
    photos_handler-Uploaded services (λ key f mime. true) (λ i. i ∷ []) (λ n. n ∷ [])
      (λ key. some key) request nothing empty_store
