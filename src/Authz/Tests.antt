-- ===== src/Authz/Tests.antt =====
-- Tokens of a tenant with one organisation.
use fieldpro_pilot.Base.{
  ◌≡◌, refl, inl, false, Option, none, some, List, [], ◌∷◌, Text, text, eq_text, is_empty,
  starts_with,
}
use fieldpro_pilot.Authz.{
  Config, Claims, accepted, add_accepted, add_group, add_role, extract_roles_from_claims, aud_ok,
  iss_ok, oid_ok, assert_claims, Request, passed, refused, bearer, verified, require_auth,
  require_any_role, guarded,
}
use fieldpro_pilot.Authz.Laws.{suffices, IsAuthorized, guarded-IsAuthorized}
use fieldpro_pilot.Authz.Legacy.{require_any_role-legacy}

abbrev config : Config
config = record {
  tenant_id = text "t";
  api_audience_client_id = text "a";
  app_role_admin = text "Admin";
  app_role_lead = text "Lead";
  app_role_ul = text "UL";
  admin_group_id = none;
  lead_group_id = none;
  ul_group_id = none;
}

abbrev claims_with : Text → Claims
claims_with role = record {
  aud = text "api://a" ∷ [];
  iss = some (text "https://login.microsoftonline.com/t/v2.0");
  oid = some (text "o");
  tid = some (text "t");
  roles = role ∷ [];
  groups = [];
  org_id = none;
  name = none;
  email = none;
}

abbrev verify : Text → Option (Option Claims)
verify token = some (some (claims_with (text "Specialist")))

abbrev request : Request
request = record { user = none; roles = []; authorization = text "Bearer x" }

abbrev routes : List Text
routes = text "Specialist" ∷ text "Dispatch" ∷ text "Admin" ∷ []

let_through :
    guarded config verify routes request
    ≡ passed (record request {
      user = some (claims_with (text "Specialist"));
      roles = text "Specialist" ∷ [];
    })
unfolding guarded require_auth verified assert_claims aud_ok iss_ok oid_ok require_any_role
    extract_roles_from_claims add_accepted add_group add_role accepted starts_with eq_text is_empty
let_through = refl

token_example :
    (token : Text) × (claims : Claims) × (bearer request.authorization ≡ some token)
    × IsAuthorized config verify routes token claims
token_example =
    guarded-IsAuthorized config verify routes request
      (record request {
        user = some (claims_with (text "Specialist"));
        roles = text "Specialist" ∷ [];
      })
      refl let_through

abbrev old_request : Request
old_request = record request {
  user = some (claims_with (text "UL"));
  roles = extract_roles_from_claims config (claims_with (text "UL"));
}

ul_insufficient : suffices config routes (text "UL") ≡ false
unfolding eq_text
ul_insufficient = refl

lead_insufficient : suffices config routes (text "Lead") ≡ false
unfolding eq_text
lead_insufficient = refl

legacy_example : require_any_role config verify routes old_request ≡ refused 403 (text "forbidden")
legacy_example =
    require_any_role-legacy config verify routes (claims_with (text "UL")) old_request refl
      ul_insufficient lead_insufficient (inl refl, tt) refl
