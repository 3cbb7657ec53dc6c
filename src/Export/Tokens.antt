-- ===== src/Export/Tokens.antt =====
-- The confirmation token: what it takes to delete, and that it does so once.
use fieldpro_pilot.Base.{
  ℕ, ◌+◌, ◌≤◌, ◌≡◌, refl, ap, true, Option, none, some, List, [], ◌∷◌, ◌++◌, arith, find,
  update_where, Bool-cases, ◌==◌, Text, eq_text_iff, eq_text_refl, inl, inr,
}
use fieldpro_pilot.Export.{
  Token, Store, has_hash, consumed, seven_days, Answer, deleted, requested, downloaded,
  file_missing, org_unresolved, token_required, token_unknown, token_expired, token_used,
  token_foreign, new_token, request_handler, token_refusal, erase, execute_checked, execute_handler,
}
use fieldpro_pilot.Export.Erased.{IsErased, purged-IsErased}

module _ (hash : Text → Text) (printed : ℕ → Text) where
  -- the deletion was confirmed by a token of the tenant, which is used up by it
  pub record IsDeleted (now org : ℕ) (tenant raw : Text) (a b : Store) : Type 0 where
    pub token : Token
    pub found : find (has_hash (hash raw)) a.tokens ≡ some token
    pub in_time : now ≤ token.expires_at
    pub unused : token.consumed_at ≡ none
    pub own : token.tenant ≡ tenant
    pub erased : IsErased org a.tables b.tables
    pub used_up : find (has_hash (hash raw)) b.tokens ≡ some (consumed now token)
    pub files_kept : b.files ≡ a.files

  -- what an answer says of the tables
  abbrev pub Outcome : ℕ → ℕ → Text → Text → Store → Store × Answer → Type 0
  Outcome now org tenant raw a (b, deleted) = IsDeleted now org tenant raw a b
  Outcome now org tenant raw a (b, requested token at) = b ≡ a
  Outcome now org tenant raw a (b, downloaded bundle) = b ≡ a
  Outcome now org tenant raw a (b, file_missing) = b ≡ a
  Outcome now org tenant raw a (b, org_unresolved) = b ≡ a
  Outcome now org tenant raw a (b, token_required) = b ≡ a
  Outcome now org tenant raw a (b, token_unknown) = b ≡ a
  Outcome now org tenant raw a (b, token_expired) = b ≡ a
  Outcome now org tenant raw a (b, token_used) = b ≡ a
  Outcome now org tenant raw a (b, token_foreign) = b ≡ a

  token_refusal-none :
      (now : ℕ) (tenant : Text) (t : Token)
      → token_refusal hash printed now tenant t ≡ none
      → (now ≤ t.expires_at) × (t.consumed_at ≡ none) × (t.tenant ≡ tenant)
  unfolding token_refusal
  token_refusal-none now tenant t h =
      (ground arith, ground arith, ground (arith, eq_text_iff t.tenant tenant))

  find-consumed :
      (now : ℕ) (h : Text) (tokens : List Token) (t : Token)
      → find (has_hash h) tokens ≡ some t
      → find (has_hash h) (update_where (λ x. x.id == t.id) (consumed now) tokens)
        ≡ some (consumed now t)
  find-consumed now h [] t e = absurd (cc)
  find-consumed now h (x ∷ tokens) t e = elim (Bool-cases (has_hash h x)) [
    | inl f ↦
        let same : x ≡ t = ground arith in
        let hit : (x.id == t.id) ≡ true = ground arith in
        simp (hit, f) (ap (λ (y : Token). some (consumed now y)) same)
    | inr f ↦ elim (Bool-cases (x.id == t.id)) [
      | inl g ↦ simp (g, f) (find-consumed now h tokens t (ground arith))
      | inr g ↦ simp (g, f) (find-consumed now h tokens t (ground arith))
    ]
  ]

  erase-IsDeleted :
      (now org : ℕ) (actor tenant raw : Text) (s : Store) (t : Token)
      → find (has_hash (hash raw)) s.tokens ≡ some t
      → token_refusal hash printed now tenant t ≡ none
      → IsDeleted now org tenant raw s (erase hash printed now org actor t s)
  erase-IsDeleted now org actor tenant raw s t f h =
      let (in_time, unused, own) = token_refusal-none now tenant t h in
      record {
        token = t;
        found = f;
        in_time = in_time;
        unused = unused;
        own = own;
        erased = unfold erase in purged-IsErased actor org t.id s.tables;
        used_up = unfold erase in find-consumed now (hash raw) s.tokens t f;
        files_kept = unfold erase in refl;
      }

  abbrev pub raw_of : Option Text → Text
  raw_of none = []
  raw_of (some raw) = raw

  find-added :
      (h : Text) (tokens : List Token) (t : Token)
      → find (has_hash h) tokens ≡ none
      → has_hash h t ≡ true
      → find (has_hash h) (tokens ++ t ∷ []) ≡ some t
  find-added h [] t e f = simp f
  find-added h (x ∷ tokens) t e f = elim (Bool-cases (has_hash h x)) [
    | inl g ↦ absurd (ground arith)
    | inr g ↦ simp g (find-added h tokens t (ground arith) f)
  ]

  -- the tables after a request
  abbrev pub after_request : ℕ → ℕ → Text → Text → Text → Store → Store
  after_request now org actor tenant raw s =
      (request_handler hash printed now (some org) actor tenant raw s).0

  requested_token :
      (now org : ℕ) (actor tenant raw : Text) (s : Store)
      → find (has_hash (hash raw)) s.tokens ≡ none
      → find (has_hash (hash raw)) (after_request now org actor tenant raw s).tokens
        ≡ some (new_token hash printed now s.serial actor tenant raw)
  unfolding request_handler
  requested_token now org actor tenant raw s fresh =
      find-added (hash raw) s.tokens (new_token hash printed now s.serial actor tenant raw) fresh
        (unfold new_token in eq_text_refl (hash raw))

  allowed :
      (now later id : ℕ) (actor tenant raw : Text)
      → later ≤ now + seven_days
      → token_refusal hash printed later tenant (new_token hash printed now id actor tenant raw)
        ≡ none
  unfolding token_refusal new_token
  allowed now later id actor tenant raw h = ground (arith, eq_text_refl tenant)

  used :
      (at later : ℕ) (tenant : Text) (t : Token)
      → later ≤ t.expires_at
      → token_refusal hash printed later tenant (consumed at t) ≡ some token_used
  unfolding token_refusal
  used at later tenant t h = ground arith

  execute_checked-erase :
      (now org : ℕ) (actor tenant raw : Text) (s : Store) (t : Token)
      → find (has_hash (hash raw)) s.tokens ≡ some t
      → token_refusal hash printed now tenant t ≡ none
      → execute_checked hash printed now org actor tenant raw s
        ≡ (erase hash printed now org actor t s, deleted)
  execute_checked-erase now org actor tenant raw s t e f =
      unfold execute_checked in rw (e, f, execute_checked) refl

  execute_checked-refused :
      (now org : ℕ) (actor tenant raw : Text) (s : Store) (t : Token) (answer : Answer)
      → find (has_hash (hash raw)) s.tokens ≡ some t
      → token_refusal hash printed now tenant t ≡ some answer
      → execute_checked hash printed now org actor tenant raw s ≡ (s, answer)
  execute_checked-refused now org actor tenant raw s t answer e f =
      unfold execute_checked in rw (e, f, execute_checked) refl

  -- A token that was requested, and whose hash no other has, deletes the tenant's data when it is
  -- presented within seven days by anyone of the tenant, and it does so once: presented again within
  -- that time it is refused as used, and nothing changes.
  pub execute-request :
      (now first again org : ℕ) (actor other tenant : Text) (c : ℕ) (raw : Text) (s : Store)
      → find (has_hash (hash (c ∷ raw))) s.tokens ≡ none
      → first ≤ now + seven_days
      → again ≤ now + seven_days
      → (b : Store) × (execute_handler hash printed first
            (some org)
            other
            tenant
            (some (c ∷ raw))
            (after_request now org actor tenant (c ∷ raw) s)
          ≡ (b, deleted))
        × IsErased org (after_request now org actor tenant (c ∷ raw) s).tables b.tables
        × (execute_handler hash printed again (some org) other tenant (some (c ∷ raw)) b
            ≡ (b, token_used))
  unfolding execute_handler
  execute-request now first again org actor other tenant c raw s fresh in_time again_in_time =
      let a = after_request now org actor tenant (c ∷ raw) s in
      let t = new_token hash printed now s.serial actor tenant (c ∷ raw) in
      let b = erase hash printed first org other t a in
      let found = requested_token now org actor tenant (c ∷ raw) s fresh in
      let ok = allowed now first s.serial actor tenant (c ∷ raw) in_time in
      let d = erase-IsDeleted first org other tenant (c ∷ raw) a t found ok in
      (
        b,
        execute_checked-erase first org other tenant (c ∷ raw) a t found ok,
        d.erased,
        execute_checked-refused again org other tenant (c ∷ raw) b (consumed first t) token_used
            (unfold erase in find-consumed first (hash (c ∷ raw)) a.tokens t found)
            (used first again tenant t (unfold new_token in again_in_time)),
      )
