-- ===== src/Service/Evidence/Laws.antt =====
-- What an upload adds to the photos of a stop, with and without a visit.
use fieldpro_pilot.Base.{
  ℕ, suc, ◌+◌, ◌≡◌, refl, ap, sym, subst, ◌∙◌, inl, inr, Bool, true, false, ◌&&◌, none, some, List,
  [], ◌∷◌, ◌++◌, arith, any, find, count, length, Bool-cases, some_unique, Text, text, eq_text_refl,
  ◌==◌,
}
use fieldpro_pilot.Service.{Db, Services, VisitRow}
use fieldpro_pilot.Service.Visit.{has_client_id}
use fieldpro_pilot.Service.Skip.{SkipBody, no_photo, skip_handler}
use fieldpro_pilot.Service.Evidence.{
  Evidence, EvidenceStore, insert_evidence, insert_each, kind_matches, visit_of_stop,
  create_stop_photos, create_keys, of_stop, count_stop_photos_by_route_run_stop,
}

count_append_one :
    (p : Evidence → Bool) (xs : List Evidence) (x : Evidence)
    → p x ≡ true
    → count p (xs ++ x ∷ []) ≡ suc (count p xs)
count_append_one p [] x h = rw h
count_append_one p (y ∷ xs) x h = omega (arith, count_append_one p xs x h)

insert_each-none :
    (now : ℕ) (secret : Text × Text) (kind : Text) (keys : List Text) (store : EvidenceStore)
    → insert_each now secret kind none keys store ≡ store
unfolding insert_each
insert_each-none now secret kind [] store = refl
insert_each-none now secret kind (key ∷ keys) store = insert_each-none now secret kind keys store

count-insert_each :
    (p : Evidence → Bool) (now : ℕ) (secret : Text × Text) (kind : Text) (v : VisitRow)
    (keys : List Text) (store : EvidenceStore)
    → ((e : Evidence) → (e.visit_id ≡ v.id) → (e.kind ≡ kind) → p e ≡ true)
    → count p (insert_each now secret kind (some v) keys store).evidence
      ≡ count p store.evidence + length keys
unfolding insert_each insert_evidence
count-insert_each p now secret kind v [] store h = omega arith
count-insert_each p now secret kind v (key ∷ keys) store h = omega (
  arith,
  count-insert_each p now secret kind v keys (insert_evidence now secret kind v key store) h,
  count_append_one p store.evidence _ (h _ refl refl),
)

find_tail :
    (client_id : Text) (w : VisitRow) (visits : List VisitRow)
    → has_client_id client_id w ≡ false
    → find (has_client_id client_id) visits ≡ find (has_client_id client_id) (w ∷ visits)
find_tail client_id w visits e = rw e

found-of_stop :
    (client_id : Text) (visits : List VisitRow) (v : VisitRow)
    → find (has_client_id client_id) visits ≡ some v
    → any (λ (w : VisitRow). w.id == v.id && has_client_id client_id w) visits ≡ true
found-of_stop client_id [] v h = absurd cc
found-of_stop client_id (w ∷ visits) v h = elim (Bool-cases (has_client_id client_id w)) [
  | inl e ↦
      let whole : find (has_client_id client_id) (w ∷ visits) ≡ some w = rw e in
      let same = ap (λ (x : VisitRow). x.id) (some_unique {a = w} {b = v} whole h) in ground arith
  | inr e ↦
      let later : find (has_client_id client_id) visits ≡ some v =
        find_tail client_id w visits e ∙ h in
      let rest = found-of_stop client_id visits v later in ground arith
]

no_visit-of_stop :
    (client_id : Text) (id : ℕ) (visits : List VisitRow)
    → find (has_client_id client_id) visits ≡ none
    → any (λ (w : VisitRow). w.id == id && has_client_id client_id w) visits ≡ false
no_visit-of_stop client_id id [] h = refl
no_visit-of_stop client_id id (w ∷ visits) h = elim (Bool-cases (has_client_id client_id w)) [
  | inl e ↦ absurd (ground arith)
  | inr e ↦
      let rest = no_visit-of_stop client_id id visits (find_tail client_id w visits e ∙ h) in
      ground arith
]

count_none :
    (p : Evidence → Bool) (xs : List Evidence) → ((e : Evidence) → p e ≡ false) → count p xs ≡ 0
count_none p [] h = refl
count_none p (x ∷ xs) h = let here = h x in let rest = count_none p xs h in ground arith

kind_matches-same : (kind : Text) → kind_matches (some kind) kind ≡ true
kind_matches-same [] = refl
kind_matches-same (c ∷ kind) = eq_text_refl (c ∷ kind)

module _ (svc : Services) (id : ℕ) (actor : Text) (keys : List Text) (db : Db)
    (store : EvidenceStore) where
  create_stop_photos_at :
      (kind : Text) (key : Text) (secret : Text × Text)
      → svc.encrypt actor ≡ some secret
      → create_stop_photos svc id actor (key ∷ keys) (some kind) db store
        ≡ some (insert_each svc.now secret kind (visit_of_stop svc id db) (key ∷ keys) store)
  unfolding create_stop_photos create_keys
  create_stop_photos_at kind key secret e = rw (create_stop_photos, create_keys, e)

  -- Where the stop has a visit and the encryption works, an upload of at least one photo is stored, and
  -- the stop then has as many more photos of its kind as were uploaded.
  pub count-create_stop_photos :
      (kind key : Text) (secret : Text × Text) (v : VisitRow)
      → svc.encrypt actor ≡ some secret
      → find (has_client_id (svc.uuid_of_stop id)) db.visits ≡ some v
      → (after : EvidenceStore) × (create_stop_photos svc id actor (key ∷ keys) (some kind) db store
          ≡ some after)
        × (count_stop_photos_by_route_run_stop svc id (some kind) db after
            ≡ count_stop_photos_by_route_run_stop svc id (some kind) db store + suc (length keys))
  unfolding count_stop_photos_by_route_run_stop of_stop
  count-create_stop_photos kind key secret v e found = (
    insert_each svc.now secret kind (some v) (key ∷ keys) store,
    create_stop_photos_at kind key secret e
        ∙ ap (λ o. some (insert_each svc.now secret kind o (key ∷ keys) store)) found,
    count-insert_each (λ x. of_stop svc id db x && kind_matches (some kind) x.kind) svc.now secret
        kind v (key ∷ keys) store
        (λ x at k.
          let joined = found-of_stop (svc.uuid_of_stop id) db.visits v found in
          let same = kind_matches-same kind in rw (at, k, joined, same)),
  )

  -- Where the stop has no visit and the actor's id can be encrypted, the creation of the rows of at
  -- least one uploaded photo, of a given kind, succeeds and stores none, and a skip of the stop with
  -- the safety photos that are counted then is refused for want of a photo, whatever its body says.
  pub skip-create_stop_photos :
      (kind key : Text) (secret : Text × Text) (skipper : Text) (body : SkipBody)
      → svc.encrypt actor ≡ some secret
      → find (has_client_id (svc.uuid_of_stop id)) db.visits ≡ none
      → (create_stop_photos svc id actor (key ∷ keys) (some kind) db store ≡ some store)
        × (skip_handler svc id
              (count_stop_photos_by_route_run_stop svc id (some (text "safety")) db store)
              skipper
              body
              db
            ≡ (db, no_photo))
  unfolding skip_handler count_stop_photos_by_route_run_stop of_stop
  skip-create_stop_photos kind key secret skipper body e missing = (
    create_stop_photos_at kind key secret e
        ∙ ap (λ o. some (insert_each svc.now secret kind o (key ∷ keys) store)) missing
        ∙ ap some (insert_each-none svc.now secret kind (key ∷ keys) store),
    subst (λ n. skip_handler svc id n skipper body db ≡ (db, no_photo))
        (sym (
          count_none (λ x. of_stop svc id db x && kind_matches (some (text "safety")) x.kind)
            store.evidence
            (λ x.
              let apart = no_visit-of_stop (svc.uuid_of_stop id) x.visit_id db.visits missing in
              rw apart)))
        refl,
  )
