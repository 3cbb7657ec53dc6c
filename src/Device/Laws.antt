-- ===== src/Device/Laws.antt =====
-- What is read back from the device.
use fieldpro_pilot.Base.{
  ℕ, ◌≡◌, refl, inl, inr, true, false, not, none, some, List, [], ◌∷◌, ◌++◌, arith, any, find,
  filter, append_assoc, sym, ◌∙◌, All, ◌==◌, Bool-cases, Text, eq_text, eq_text_iff, eq_text_refl,
  starts_with, if◌then◌else◌,
}
use fieldpro_pilot.Base.Dict.{lookup, lookup-insert}
use fieldpro_pilot.Device.{
  PhotoParams, StoredPhoto, has_photo_id, put_photo, get_photo, Draft, StopDraft, get_draft_key,
  no_identity, Drafts, save_stop_draft, load_stop_draft, draft_prefix, clear_drafts_for_user,
}

abbrev pub stored_draft : ℕ → Draft → StopDraft
stored_draft now draft = record { draft = draft; draft_version = 1; updated_at = now }

-- a text without the colon that a key is separated by
abbrev pub HasNoColon : Text → Type 0
HasNoColon s = All (λ c. (c == b':') ≡ false) s

-- The first colon of a key ends its first part.
colon_parts :
    (a b x y : Text)
    → HasNoColon a
    → HasNoColon b
    → (a ++ b':' ∷ x) ≡ (b ++ b':' ∷ y)
    → (a ≡ b) × (x ≡ y)
colon_parts [] [] x y p q e = (refl, cc)
colon_parts [] (d ∷ b) x y p (q, qs) e = let same : b':' ≡ d = cc in absurd (ground arith)
colon_parts (c ∷ a) [] x y (p, ps) q e = let same : c ≡ b':' = cc in absurd (ground arith)
colon_parts (c ∷ a) (d ∷ b) x y (p, ps) (q, qs) e =
    let same : c ≡ d = cc in let (u, v) = colon_parts a b x y ps qs cc in (cc, v)

draft_key_parts :
    (tenant_id oid stop : Text)
    → get_draft_key tenant_id oid stop ≡ tenant_id ++ b':' ∷ (oid ++ b':' ∷ stop)
unfolding get_draft_key
draft_key_parts tenant_id oid stop = simp append_assoc

-- Keys differ between users and between stops, where no id of a tenant or a user has a colon.
get_draft_key-parts :
    (tenant_id oid stop tenant_id' oid' stop' : Text)
    → HasNoColon tenant_id
    → HasNoColon tenant_id'
    → HasNoColon oid
    → HasNoColon oid'
    → get_draft_key tenant_id oid stop ≡ get_draft_key tenant_id' oid' stop'
    → (tenant_id ≡ tenant_id') × (oid ≡ oid') × (stop ≡ stop')
get_draft_key-parts tenant_id oid stop tenant_id' oid' stop' t t' o o' e =
    let (same_tenant, rest) =
      colon_parts tenant_id tenant_id' (oid ++ b':' ∷ stop) (oid' ++ b':' ∷ stop') t t'
        (sym (draft_key_parts tenant_id oid stop) ∙ e ∙ draft_key_parts tenant_id' oid' stop') in
    let (same_oid, same_stop) = colon_parts oid oid' stop stop' o o' rest in
    (same_tenant, same_oid, same_stop)

-- For a user with an identity, a draft that was saved for a stop is loaded for it, with the time of the
-- save and version 1; and for any other user, tenant or stop the same is loaded as before. The ids of
-- tenants and users are supposed to have no colon.
pub load_stop_draft-save_stop_draft :
    (now : ℕ) (tenant_id oid stop tenant_id' oid' stop' : Text) (draft : Draft) (drafts : Drafts)
    → no_identity tenant_id oid ≡ false
    → HasNoColon tenant_id
    → HasNoColon tenant_id'
    → HasNoColon oid
    → HasNoColon oid'
    → ((tenant_id ≡ tenant_id') × (oid ≡ oid') × (stop ≡ stop') → ⊥)
    → (load_stop_draft tenant_id oid stop (save_stop_draft now tenant_id oid stop draft drafts)
        ≡ some (stored_draft now draft))
      × (load_stop_draft tenant_id' oid' stop' (save_stop_draft now tenant_id oid stop draft drafts)
          ≡ load_stop_draft tenant_id' oid' stop' drafts)
unfolding load_stop_draft save_stop_draft
load_stop_draft-save_stop_draft now tenant_id oid stop tenant_id' oid' stop' draft drafts h t t' o
      o' other =
    let k = get_draft_key tenant_id oid stop in
    let k' = get_draft_key tenant_id' oid' stop' in
    let v = stored_draft now draft in
    let apart : eq_text k k' ≡ false = elim (Bool-cases (eq_text k k')) [
      | inl e ↦ absurd (
          other (
            get_draft_key-parts tenant_id oid stop tenant_id' oid' stop' t t' o o'
              ((eq_text_iff k k').0 e)))
      | inr e ↦ e
    ] in
    (
      rw (h, lookup-insert k k v drafts, eq_text_refl k),
      elim (Bool-cases (no_identity tenant_id' oid')) [
        | inl e ↦ rw e
        | inr e ↦ rw (h, e, lookup-insert k k' v drafts, apart)
      ],
    )

starts_with-append : (p s : Text) → starts_with p (p ++ s) ≡ true
unfolding starts_with
starts_with-append [] [] = refl
starts_with-append [] (x ∷ s) = refl
starts_with-append (c ∷ p) s = ground (arith, starts_with-append p s)

lookup-filter :
    (prefix key : Text) (drafts : Drafts)
    → lookup key (filter (λ (d : Text × StopDraft). not (starts_with prefix d.0)) drafts)
      ≡ (if starts_with prefix key then none else lookup key drafts)
unfolding lookup
lookup-filter prefix key [] = elim (Bool-cases (starts_with prefix key)) [
  | inl e ↦ rw e
  | inr e ↦ rw e
]
lookup-filter prefix key ((k, v) ∷ drafts) =
    ground (arith, eq_text_iff k key, lookup-filter prefix key drafts)

draft_key-prefix :
    (tenant_id oid stop : Text)
    → starts_with (draft_prefix tenant_id oid) (get_draft_key tenant_id oid stop) ≡ true
unfolding get_draft_key
draft_key-prefix tenant_id oid stop = starts_with-append (draft_prefix tenant_id oid) stop

-- Clearing the drafts of a user leaves no draft of that user for any stop, and every entry whose key
-- does not begin with the user's prefix.
pub load_stop_draft-clear_drafts_for_user :
    (tenant_id oid stop key : Text) (drafts : Drafts)
    → starts_with (draft_prefix tenant_id oid) key ≡ false
    → (load_stop_draft tenant_id oid stop (clear_drafts_for_user tenant_id oid drafts) ≡ none)
      × (lookup key (clear_drafts_for_user tenant_id oid drafts) ≡ lookup key drafts)
unfolding load_stop_draft clear_drafts_for_user
load_stop_draft-clear_drafts_for_user tenant_id oid stop key drafts other =
    let prefix = draft_prefix tenant_id oid in
    let own = lookup-filter prefix (get_draft_key tenant_id oid stop) drafts in
    let users = draft_key-prefix tenant_id oid stop in
    (
      elim (Bool-cases (no_identity tenant_id oid)) [ inl e ↦ rw e | inr e ↦ rw (e, own, users) ],
      rw (lookup-filter prefix key drafts, other),
    )

find-append :
    (id : Text) (photos : List StoredPhoto) (p : StoredPhoto)
    → find (has_photo_id id) (photos ++ p ∷ []) ≡ (
        if any (has_photo_id id) photos
        then find (has_photo_id id) photos
        else find (has_photo_id id) (p ∷ []))
find-append id [] p = refl
find-append id (q ∷ photos) p = elim (Bool-cases (has_photo_id id q)) [
  | inl e ↦ rw e
  | inr e ↦ rw (e, find-append id photos p)
]

find-append_ne :
    (id : Text) (photos : List StoredPhoto) (p : StoredPhoto)
    → has_photo_id id p ≡ false
    → find (has_photo_id id) (photos ++ p ∷ []) ≡ find (has_photo_id id) photos
find-append_ne id [] p h = rw h
find-append_ne id (q ∷ photos) p h = elim (Bool-cases (has_photo_id id q)) [
  | inl e ↦ rw e
  | inr e ↦ rw (e, find-append_ne id photos p h)
]

abbrev pub stored_photo : Text → ℕ → PhotoParams → StoredPhoto
stored_photo id now params = record { local_photo_id = id; params = params; created_at = now }

-- A photo that is put under an id that is not in use is found under it, as it was given, and every
-- photo that was found under another id is still found.
pub get_photo-put_photo :
    (id other : Text) (now : ℕ) (params : PhotoParams) (photos : List StoredPhoto)
    → any (has_photo_id id) photos ≡ false
    → eq_text id other ≡ false
    → (after : List StoredPhoto) × (put_photo id now params photos ≡ some (after, id))
      × (get_photo id after ≡ some (stored_photo id now params))
      × (get_photo other after ≡ get_photo other photos)
unfolding put_photo get_photo
get_photo-put_photo id other now params photos fresh apart =
    let p = stored_photo id now params in
    (
      photos ++ p ∷ [],
      rw fresh,
      rw (find-append id photos p, fresh, eq_text_refl id),
      find-append_ne other photos p apart,
    )
