-- ===== src/Device.antt =====
-- What the app keeps on the device besides the queue: frontend/src/offline/photoStore.ts,
-- frontend/src/offline/stopDraftStore.ts and frontend/src/offline/todayRouteCache.ts. An object store is
-- the list of its records, or of its keys with their values; a request of the browser's database that
-- fails rejects the call and changes nothing. A blob is a text.
mod Laws
mod Tests
use fieldpro_pilot.Base.{
  ℕ, Bool, true, false, not, ◌&&◌, ◌||◌, Option, none, some, List, [], ◌∷◌, ◌++◌, any, find, filter,
  if◌then◌else◌, Text, text, eq_text, is_empty, starts_with,
}
use fieldpro_pilot.Base.Dict.{lookup, insert, remove}

-- the arguments of `putPhoto`
pub record PhotoParams : Type 0 where
  pub tenant_id : Text
  pub oid : Text
  pub route_run_stop_id : ℕ
  pub kind : Text
  pub filename : Text
  pub content_type : Text
  pub blob : Text

pub record StoredPhoto : Type 0 where
  pub local_photo_id : Text
  pub params : PhotoParams
  pub created_at : ℕ

abbrev pub has_photo_id : Text → StoredPhoto → Bool
has_photo_id id p = eq_text p.local_photo_id id

-- with the random id and the time of the call; none where `add` finds the id in use
unfoldable pub put_photo :
    Text → ℕ → PhotoParams → List StoredPhoto → Option (List StoredPhoto × Text)
put_photo id now params photos =
    if any (has_photo_id id) photos
    then none
    else some (photos ++ record { local_photo_id = id; params = params; created_at = now } ∷ [], id)

unfoldable pub get_photo : Text → List StoredPhoto → Option StoredPhoto
get_photo id photos = find (has_photo_id id) photos

unfoldable pub delete_photo : Text → List StoredPhoto → List StoredPhoto
delete_photo id photos = filter (λ p. not (has_photo_id id p)) photos

abbrev pub is_users : Text → Text → StoredPhoto → Bool
is_users tenant_id oid p = eq_text p.params.tenant_id tenant_id && eq_text p.params.oid oid

unfoldable pub clear_photos_for_user : Text → Text → List StoredPhoto → List StoredPhoto
clear_photos_for_user tenant_id oid photos = filter (λ p. not (is_users tenant_id oid p)) photos

-- the fields of a draft; `wizard` stands for the state of the form, which is copied
pub record Draft : Type 0 where
  pub route_run_stop_id : ℕ
  pub step_index : ℕ
  pub step_key : Option Text
  pub trash_volume : Option ℕ
  pub wizard : Text

pub record StopDraft : Type 0 where
  pub draft : Draft
  pub draft_version : ℕ
  pub updated_at : ℕ

-- the number of the stop is given as it is printed
unfoldable pub get_draft_key : Text → Text → Text → Text
get_draft_key tenant_id oid stop = tenant_id ++ text ":" ++ oid ++ text ":" ++ stop

abbrev pub no_identity : Text → Text → Bool
no_identity tenant_id oid = is_empty tenant_id || is_empty oid

abbrev pub Drafts : Type 0
Drafts = List (Text × StopDraft)

unfoldable pub save_stop_draft : ℕ → Text → Text → Text → Draft → Drafts → Drafts
unfolding get_draft_key
save_stop_draft now tenant_id oid stop draft drafts =
    if no_identity tenant_id oid
    then drafts
    else insert (get_draft_key tenant_id oid stop)
        (record { draft = draft; draft_version = 1; updated_at = now }) drafts

unfoldable pub load_stop_draft : Text → Text → Text → Drafts → Option StopDraft
unfolding get_draft_key
load_stop_draft tenant_id oid stop drafts =
    if no_identity tenant_id oid then none else lookup (get_draft_key tenant_id oid stop) drafts

unfoldable pub clear_stop_draft : Text → Text → Text → Drafts → Drafts
unfolding get_draft_key
clear_stop_draft tenant_id oid stop drafts =
    if no_identity tenant_id oid then drafts else remove (get_draft_key tenant_id oid stop) drafts

abbrev pub draft_prefix : Text → Text → Text
draft_prefix tenant_id oid = tenant_id ++ text ":" ++ oid ++ text ":"

unfoldable pub clear_drafts_for_user : Text → Text → Drafts → Drafts
clear_drafts_for_user tenant_id oid drafts =
    filter (λ (d : Text × StopDraft). not (starts_with (draft_prefix tenant_id oid) d.0)) drafts

abbrev pub route_key : Text → Text → Text
route_key tenant_id oid = text "fieldpro-today-route:" ++ tenant_id ++ text ":" ++ oid

abbrev pub cache_key : Option Text → Option Text → Option Text
cache_key none oid = none
cache_key (some t) none = none
cache_key (some t) (some o) = if no_identity t o then none else some (route_key t o)

-- The cache of today's route, of what parsing yields; `writable` says whether the storage accepts a write.
module _ {ℓ} {RouteRun : Type ℓ} where
  unfoldable pub save_today_route_cache :
      Bool → Option Text → Option Text → RouteRun → List (Text × RouteRun) → List (Text × RouteRun)
  save_today_route_cache writable tenant_id oid run cache = elim (cache_key tenant_id oid) [
    | none ↦ cache
    | some key ↦ if writable then insert key run cache else cache
  ]

  unfoldable pub clear_today_route_cache :
      Option Text → Option Text → List (Text × RouteRun) → List (Text × RouteRun)
  clear_today_route_cache tenant_id oid cache = elim (cache_key tenant_id oid) [
    | none ↦ cache
    | some key ↦ remove key cache
  ]

  unfoldable pub load_today_route_cache :
      Option Text → Option Text → List (Text × RouteRun) → Option RouteRun
  load_today_route_cache tenant_id oid cache = elim (cache_key tenant_id oid) [
    | none ↦ none
    | some key ↦ lookup key cache
  ]
