-- ===== src/Queue/Enqueue.antt =====
-- `enqueueAction`: what a new action does to the queue.
use fieldpro_pilot.Base.{
  ℕ, Bool, true, false, not, ◌&&◌, ◌||◌, Option, none, some, List, [], ◌∷◌, ◌++◌, any, filter,
  update_first, if◌then◌else◌, Text, eq_text, is_empty,
}
use fieldpro_pilot.Queue.{
  Action, QueueState, Payload, default_state, is_pending, is_live, is_upload, is_start, is_skip,
  same_stop,
}
use fieldpro_pilot.Queue.Store.{World, Env, identity_key, load_key, commit}
pub mod Once
pub mod Stored

-- `Array.from(new Set(xs))`: the first of each
unfoldable pub distinct : List Text → List Text
distinct [] = []
distinct (x ∷ xs) = x ∷ filter (λ y. not (eq_text x y)) (distinct xs)

-- `(a.payload)?.kind === kind`
unfoldable pub has_kind : Text → Action → Bool
has_kind kind a = elim a.payload.kind [ none ↦ false | some k ↦ eq_text k kind ]

-- a pending upload for the same stop and kind of photo
unfoldable pub same_upload : Action → Text → Action → Bool
same_upload action kind a =
    is_upload a.type && is_pending a.status && same_stop a action && has_kind kind a

unfoldable pub ids_of : Action → List Text
ids_of a = elim a.payload.local_photo_ids [ none ↦ [] | some ids ↦ ids ]

-- the existing action with the new photos merged into its payload
unfoldable pub merge_photos : List Text → Action → Action
merge_photos ids a = record a {
  payload = record (a.payload) { local_photo_ids = some (distinct (ids_of a ++ ids)) };
}

abbrev pub push : Action → List Action → List Action
push action actions = actions ++ action ∷ []

-- the branch of a pending upload with a kind and an array of photos
unfoldable pub enqueue_upload : Action → Text → List Text → List Action → List Action
enqueue_upload action kind ids actions =
    if any (same_upload action kind) actions
    then update_first (same_upload action kind) (merge_photos ids) actions
    else push action actions

unfoldable pub same_start : Action → Action → Bool
same_start action a = is_start a.type && is_live a.status && same_stop a action

unfoldable pub same_skip : Action → Action → Bool
same_skip action a = is_skip a.type && is_pending a.status && same_stop a action

-- `kind && Array.isArray(newPhotoIds)`
unfoldable pub upload_parts : Payload → Option (Text × List Text)
upload_parts p = elim p.kind [
  | none ↦ none
  | some k ↦ elim p.local_photo_ids [
    | none ↦ none
    | some ids ↦ if is_empty k then none else some (k, ids)
  ]
]

unfoldable pub enqueue_into : Action → List Action → List Action
enqueue_into action actions =
    if is_upload action.type && is_pending action.status
    then elim (upload_parts action.payload) [
      | some p ↦ enqueue_upload action p.0 p.1 actions
      | none ↦ push action actions
    ]
    else if is_start action.type && is_live action.status
    then if any (same_start action) actions then actions else push action actions
    else if is_skip action.type && is_pending action.status
    then if any (same_skip action) actions
      then update_first (same_skip action) (λ _. action) actions
      else push action actions
    else push action actions

unfoldable pub enqueue_action :
    Env → Option Text → Option Text → Action → World → World × QueueState
enqueue_action env tenant_id oid action w = elim (identity_key tenant_id oid) [
  | none ↦ (w, default_state)
  | some key ↦
      let loaded = load_key key w in
      let state = record (loaded.1) {
        actions = enqueue_into action loaded.1.actions;
        last_updated_at = some env.now;
      } in
      (commit env key state loaded.0, state)
]
