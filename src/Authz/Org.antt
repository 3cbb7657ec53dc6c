-- ===== src/Authz/Org.antt =====
-- The organisation of a caller: `resolveNumericOrgId`, `upsertIdentity` and `writeAuditLog`. The table
-- `organizations` is a list of tenants with their ids.
use fieldpro_pilot.Base.{
  ℕ, ◌+◌, ◌-◌, ◌*◌, Bool, false, ◌&&◌, Option, none, some, List, [], ◌∷◌, ◌++◌, all, leb,
  if◌then◌else◌, Text, text,
}
use fieldpro_pilot.Base.Dict.{lookup, insert}
use fieldpro_pilot.Authz.{Claims}

abbrev pub Organizations : Type 0
Organizations = List (Text × ℕ)

-- none where it throws `OrgResolutionError`
unfoldable pub resolve_numeric_org_id : Organizations → Option Claims → Option ℕ
resolve_numeric_org_id orgs none = none
resolve_numeric_org_id orgs (some user) = elim user.org_id [
  | some id ↦ some id
  | none ↦ elim user.tid [ none ↦ none | some tid ↦ lookup tid orgs ]
]

-- a row of `identity_directory`
pub record Identity : Type 0 where
  pub org_id : ℕ
  pub display_name : Text
  pub email : Option Text
  pub last_seen_role : Option Text

abbrev pub first_role : List Text → Option Text
first_role [] = none
first_role (r ∷ roles) = some r

-- `a || b` for optional texts
abbrev pub or_text : Option Text → Option Text → Option Text
or_text none b = b
or_text (some []) b = b
or_text (some (c ∷ a)) b = some (c ∷ a)

abbrev pub default_text : Option Text → Text → Text
default_text none b = b
default_text (some a) b = a

-- the row of a conflict keeps its organisation
unfoldable pub upsert_row : Text → Identity → List (Text × Identity) → List (Text × Identity)
upsert_row oid row directory = elim (lookup oid directory) [
  | none ↦ insert oid row directory
  | some old ↦ insert oid (record row { org_id = old.org_id }) directory
]

unfoldable pub identity_of : ℕ → Option Text → Claims → List Text → Identity
identity_of org username user roles = record {
  org_id = org;
  display_name = default_text (or_text user.name (or_text username none)) (text "Unknown");
  email = or_text user.email (or_text username none);
  last_seen_role = first_role roles;
}

-- `username` is the claim `preferred_username`
unfoldable pub upsert_identity :
    Organizations
    → Option Text
    → Claims
    → List Text
    → List (Text × Identity)
    → List (Text × Identity)
unfolding upsert_row identity_of
upsert_identity orgs username user roles directory = elim (or_text user.oid none) [
  | none ↦ directory
  | some oid ↦ elim user.tid [
    | none ↦ directory
    | some tid ↦ elim (lookup tid orgs) [
      | none ↦ directory
      | some org ↦ upsert_row oid (identity_of org username user roles) directory
    ]
  ]
]

pub data OrgRef : Type 0 where
  number : ℕ → OrgRef
  name : Text → OrgRef

abbrev pub is_digit : ℕ → Bool
is_digit c = leb b'0' c && leb c b'9'

abbrev pub is_digits : Text → Bool
is_digits [] = false
is_digits (c ∷ s) = all is_digit (c ∷ s)

-- `parseInt` of digits
unfoldable pub digits_value : ℕ → Text → ℕ
digits_value n [] = n
digits_value n (c ∷ s) = digits_value (n * 10 + (c - b'0')) s

unfoldable pub audit_org : Organizations → OrgRef → Option ℕ
unfolding digits_value
audit_org orgs (number n) = some n
audit_org orgs (name s) = if is_digits s then some (digits_value 0 s) else lookup s orgs

-- a row of `audit_log`; `rest` stands for the columns that are copied
pub record AuditRow : Type 0 where
  pub actor_oid : Text
  pub org_id : ℕ
  pub action : Text
  pub rest : Text

-- none where it throws
unfoldable pub write_audit_log :
    Organizations → Text → OrgRef → Text → Text → List AuditRow → Option (List AuditRow)
unfolding audit_org
write_audit_log orgs actor org action rest rows = elim (audit_org orgs org) [
  | none ↦ none
  | some n ↦
      some (rows ++ record { actor_oid = actor; org_id = n; action = action; rest = rest } ∷ [])
]
