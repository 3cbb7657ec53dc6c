-- ===== src/Authz.antt =====
-- Who may call: backend/src/authz.ts, with backend/src/middleware/resolveOrgId.ts and
-- backend/src/middleware/auditLog.ts in the module Org. The verification of a token's signature, times
-- and algorithm is a parameter, `verify`: none where it fails, and an inner none where what was signed
-- is a plain text. Claims of another type than the one that is read count as absent; `aud` is a list in
-- either form.
pub mod Org
mod Laws
mod Legacy
mod Tests
use fieldpro_pilot.Base.{
  ℕ, Bool, true, false, not, ◌&&◌, ◌||◌, Option, none, some, List, [], ◌∷◌, ◌++◌, any, drop,
  if◌then◌else◌, Text, text, eq_text, is_empty, starts_with,
}

pub record Config : Type 0 where
  pub tenant_id : Text
  pub api_audience_client_id : Text
  pub app_role_admin : Text
  pub app_role_lead : Text
  pub app_role_ul : Text
  pub admin_group_id : Option Text
  pub lead_group_id : Option Text
  pub ul_group_id : Option Text

pub record Claims : Type 0 where
  pub aud : List Text
  pub iss : Option Text
  pub oid : Option Text
  pub tid : Option Text
  pub roles : List Text
  pub groups : List Text
  pub org_id : Option ℕ
  pub name : Option Text
  pub email : Option Text

abbrev pub app_role_dispatch : Text
app_role_dispatch = text "Dispatch"

abbrev pub app_role_specialist : Text
app_role_specialist = text "Specialist"

-- `xs.includes(x)`
abbrev pub has_text : Text → List Text → Bool
has_text x xs = any (λ y. eq_text y x) xs

-- `out.add(r)`
unfoldable pub add_role : Text → List Text → List Text
add_role r out = if has_text r out then out else out ++ r ∷ []

unfoldable pub accepted : Config → List Text
accepted cfg =
    cfg.app_role_admin ∷ cfg.app_role_lead ∷ cfg.app_role_ul ∷ app_role_dispatch
    ∷ app_role_specialist ∷ []

unfoldable pub add_accepted : Config → List Text → List Text → List Text
unfolding accepted add_role
add_accepted cfg [] out = out
add_accepted cfg (r ∷ roles) out =
    add_accepted cfg roles (if has_text r (accepted cfg) then add_role r out else out)

-- a role that comes with a group, where the group is configured
unfoldable pub add_group : Option Text → Text → List Text → List Text → List Text
unfolding add_role
add_group none role groups out = out
add_group (some id) role groups out =
    if not (is_empty id) && has_text id groups then add_role role out else out

unfoldable pub extract_roles_from_claims : Config → Claims → List Text
unfolding add_accepted add_group
extract_roles_from_claims cfg claims = add_group cfg.ul_group_id cfg.app_role_ul claims.groups (
    add_group cfg.lead_group_id cfg.app_role_lead claims.groups (
      add_group cfg.admin_group_id cfg.app_role_admin claims.groups
        (add_accepted cfg claims.roles [])))

unfoldable pub aud_ok : Config → Claims → Bool
aud_ok cfg claims =
    any
      (λ a.
        eq_text a cfg.api_audience_client_id
        || eq_text a (text "api://" ++ cfg.api_audience_client_id))
      claims.aud

unfoldable pub iss_ok : Config → Claims → Bool
iss_ok cfg claims = elim claims.iss [
  | none ↦ false
  | some iss ↦
      eq_text iss (text "https://login.microsoftonline.com/" ++ cfg.tenant_id ++ text "/v2.0")
]

unfoldable pub oid_ok : Claims → Bool
oid_ok claims = elim claims.oid [ none ↦ false | some oid ↦ not (is_empty oid) ]

-- `assertClaims`: what it throws, none where it returns
unfoldable pub assert_claims : Config → Claims → Option Text
unfolding aud_ok iss_ok oid_ok
assert_claims cfg claims =
    if not (aud_ok cfg claims)
    then some (text "Invalid aud claim")
    else if not (iss_ok cfg claims)
    then some (text "Invalid iss claim")
    else if not (oid_ok claims)
    then some (text "Missing or invalid oid claim")
    else none

-- A request: what was set on it, and the header `authorization` (empty where it is absent).
pub record Request : Type 0 where
  pub user : Option Claims
  pub roles : List Text
  pub authorization : Text

-- `next()` with the request as it is then, or an answer
pub data Answer : Type 0 where
  passed : Request → Answer
  refused : ℕ → Text → Answer

abbrev pub bearer : Text → Option Text
bearer authorization =
    if starts_with (text "Bearer ") authorization then some (drop 7 authorization) else none

module _ (cfg : Config) (verify : Text → Option (Option Claims)) where
  -- the callback of `jwt.verify`
  unfoldable pub verified : Request → Option (Option Claims) → Answer
  unfolding extract_roles_from_claims
  verified req none = refused 401 (text "invalid token")
  verified req (some none) = refused 401 (text "invalid token payload")
  verified req (some (some claims)) = elim (assert_claims cfg claims) [
    | some reason ↦ refused 401 (text "invalid token")
    | none ↦
        passed (record req { user = some claims; roles = extract_roles_from_claims cfg claims })
  ]

  abbrev pub check_token : Request → Option Text → Answer
  check_token req none = refused 401 (text "missing bearer token")
  check_token req (some []) = refused 401 (text "missing bearer token")
  check_token req (some (c ∷ token)) = verified req (verify (c ∷ token))

  unfoldable pub require_auth : Request → Answer
  unfolding verified
  require_auth req = elim req.user [
    | some claims ↦ passed req
    | none ↦ check_token req (bearer req.authorization)
  ]

  unfoldable pub require_any_role : List Text → Request → Answer
  require_any_role required req =
      if any (λ r. eq_text r cfg.app_role_admin || has_text r required) req.roles
      then passed req
      else refused 403 (text "forbidden")

  abbrev pub next_role : List Text → Answer → Answer
  next_role required (passed req) = require_any_role required req
  next_role required (refused status error) = refused status error

  -- both in front of a handler
  unfoldable pub guarded : List Text → Request → Answer
  unfolding require_auth require_any_role
  guarded required req = next_role required (require_auth req)
