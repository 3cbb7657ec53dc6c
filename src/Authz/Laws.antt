-- ===== src/Authz/Laws.antt =====
-- What a request that reaches a handler has shown, and the fate of the old role names.
use fieldpro_pilot.Base.{
  ◌≡◌, refl, sym, subst, inl, inr, Bool, true, ◌||◌, Option, none, some, List, [], ◌∷◌, arith, any,
  Bool-cases, Option-cases, Text, text, eq_text,
}
use fieldpro_pilot.Authz.{
  Config, Claims, has_text, extract_roles_from_claims, aud_ok, iss_ok, oid_ok, assert_claims,
  Request, Answer, passed, refused, bearer, verified, check_token, require_auth, require_any_role,
  next_role, guarded,
}

-- A role that lets the request through, or an administrator's.
abbrev pub suffices : Config → List Text → Text → Bool
suffices cfg required r = eq_text r cfg.app_role_admin || has_text r required

assert_claims_lem :
    (cfg : Config) (claims : Claims)
    → assert_claims cfg claims ≡ none
    → (aud_ok cfg claims ≡ true) × (iss_ok cfg claims ≡ true) × (oid_ok claims ≡ true)
unfolding assert_claims
assert_claims_lem cfg claims h = ground arith

module _ (cfg : Config) (verify : Text → Option (Option Claims)) where
  -- The claims of a token that was verified, with the right audience, issuer and oid, and a role.
  abbrev pub IsAuthorized : List Text → Text → Claims → Type 0
  IsAuthorized required token claims =
      (verify token ≡ some (some claims))
      × (aud_ok cfg claims ≡ true)
      × (iss_ok cfg claims ≡ true)
      × (oid_ok claims ≡ true)
      × (any (suffices cfg required) (extract_roles_from_claims cfg claims) ≡ true)

  require_any_role_lem :
      (required : List Text) (req after : Request)
      → require_any_role cfg verify required req ≡ passed after
      → any (suffices cfg required) req.roles ≡ true
  unfolding require_any_role
  require_any_role_lem required req after h =
      elim (Bool-cases (any (suffices cfg required) req.roles)) [
        | inl e ↦ e
        | inr e ↦ absurd (ground arith)
      ]

  -- the answer of `requireAuth` to a request with this header
  abbrev Authenticated : Text → Answer → Type 0
  Authenticated authorization (refused status error) = Unit {0}
  Authenticated authorization (passed r) =
      (token : Text) × (claims : Claims) × (bearer authorization ≡ some token)
      × (verify token ≡ some (some claims))
      × (assert_claims cfg claims ≡ none)
      × (r.roles ≡ extract_roles_from_claims cfg claims)

  verified-Authenticated :
      (req : Request) (token : Text) (signed : Option (Option Claims))
      → bearer req.authorization ≡ some token
      → verify token ≡ signed
      → Authenticated req.authorization (verified cfg verify req signed)
  unfolding verified
  verified-Authenticated req token none b v = tt
  verified-Authenticated req token (some none) b v = tt
  verified-Authenticated req token (some (some claims)) b v =
      elim (Option-cases (assert_claims cfg claims)) [
        | inl e ↦
            let through : verified cfg verify req (some (some claims))
                ≡ passed (record req {
                  user = some claims;
                  roles = extract_roles_from_claims cfg claims;
                }) =
              rw (verified, e) in
            subst (Authenticated req.authorization) (sym through) (token, claims, b, v, e, refl)
        | inr (reason, e) ↦
            let stopped : verified cfg verify req (some (some claims))
                ≡ refused 401 (text "invalid token") =
              rw (verified, e) in
            subst (Authenticated req.authorization) (sym stopped) tt
      ]

  check_token-Authenticated :
      (req : Request) (token : Option Text)
      → bearer req.authorization ≡ token
      → Authenticated req.authorization (check_token cfg verify req token)
  check_token-Authenticated req none b = tt
  check_token-Authenticated req (some []) b = tt
  check_token-Authenticated req (some (c ∷ token)) b =
      verified-Authenticated req (c ∷ token) (verify (c ∷ token)) b refl

  require_auth-Authenticated :
      (req : Request)
      → req.user ≡ none
      → Authenticated req.authorization (require_auth cfg verify req)
  unfolding require_auth
  require_auth-Authenticated req u =
      let checked : require_auth cfg verify req
          ≡ check_token cfg verify req (bearer req.authorization) =
        rw (require_auth, u) in
      subst (Authenticated req.authorization) (sym checked)
        (check_token-Authenticated req (bearer req.authorization) refl)

  next_role-IsAuthorized :
      (required : List Text) (authorization : Text) (a : Answer) (after : Request)
      → Authenticated authorization a
      → next_role cfg verify required a ≡ passed after
      → (token : Text) × (claims : Claims) × (bearer authorization ≡ some token)
        × IsAuthorized required token claims
  next_role-IsAuthorized required authorization (refused status error) after h n = absurd cc
  next_role-IsAuthorized required authorization (passed r) after (token, claims, b, v, e, roles) n =
      let (aud, iss, oid) = assert_claims_lem cfg claims e in
      (
        token,
        claims,
        b,
        (
          v,
          aud,
          iss,
          oid,
          subst (λ l. any (suffices cfg required) l ≡ true) roles
              (require_any_role_lem required r after n),
        ),
      )

  -- A request on which nothing was set before passes `requireAuth` and `requireAnyRole` only with a
  -- bearer token that is verified and whose claims have an audience and the issuer of the configuration,
  -- an oid that is not empty, and a role that is the administrator's or one of those required.
  pub guarded-IsAuthorized :
      (required : List Text) (req after : Request)
      → req.user ≡ none
      → guarded cfg verify required req ≡ passed after
      → (token : Text) × (claims : Claims) × (bearer req.authorization ≡ some token)
        × IsAuthorized required token claims
  unfolding guarded
  guarded-IsAuthorized required req after u h =
      next_role-IsAuthorized required req.authorization (require_auth cfg verify req) after
        (require_auth-Authenticated req u) h
