-- ===== src/Authz/Legacy.antt =====
-- The old role names, which are accepted in a token.
use fieldpro_pilot.Base.{
  ◌≡◌, refl, sym, subst, ◌⊎◌, inl, inr, false, not, ◌&&◌, Option, none, some, List, [], ◌∷◌, ◌++◌,
  any, All, Bool-cases, Text, text, is_empty,
}
use fieldpro_pilot.Authz.{
  Config, Claims, has_text, add_role, accepted, add_accepted, add_group, extract_roles_from_claims,
  Request, refused, require_any_role,
}
use fieldpro_pilot.Authz.Laws.{suffices}

-- A role that is the old name of the specialist or of the dispatcher.
abbrev pub IsLegacy : Config → Text → Type 0
IsLegacy cfg r = (r ≡ cfg.app_role_ul) ⊎ (r ≡ cfg.app_role_lead)

module _ (cfg : Config) where
  append_one-All :
      (r : Text) (out : List Text)
      → IsLegacy cfg r
      → All (IsLegacy cfg) out
      → All (IsLegacy cfg) (out ++ r ∷ [])
  append_one-All r [] h a = (h, tt)
  append_one-All r (x ∷ out) h (p, a) = (p, append_one-All r out h a)

  add_role-IsLegacy :
      (r : Text) (out : List Text)
      → IsLegacy cfg r
      → All (IsLegacy cfg) out
      → All (IsLegacy cfg) (add_role r out)
  unfolding add_role
  add_role-IsLegacy r out h a = elim (Bool-cases (has_text r out)) [
    | inl e ↦ rw e a
    | inr e ↦ rw e (append_one-All r out h a)
  ]

  add_accepted-IsLegacy :
      (roles out : List Text)
      → All (IsLegacy cfg) roles
      → All (IsLegacy cfg) out
      → All (IsLegacy cfg) (add_accepted cfg roles out)
  unfolding add_accepted
  add_accepted-IsLegacy [] out h a = a
  add_accepted-IsLegacy (r ∷ roles) out (p, h) a = elim (Bool-cases (has_text r (accepted cfg))) [
    | inl e ↦ rw e (add_accepted-IsLegacy roles (add_role r out) h (add_role-IsLegacy r out p a))
    | inr e ↦ rw e (add_accepted-IsLegacy roles out h a)
  ]

  add_group-IsLegacy :
      (group : Option Text) (role : Text) (groups out : List Text)
      → IsLegacy cfg role
      → All (IsLegacy cfg) out
      → All (IsLegacy cfg) (add_group group role groups out)
  unfolding add_group
  add_group-IsLegacy none role groups out h a = a
  add_group-IsLegacy (some id) role groups out h a =
      elim (Bool-cases (not (is_empty id) && has_text id groups)) [
        | inl e ↦ rw e (add_role-IsLegacy role out h a)
        | inr e ↦ rw e a
      ]

  extract_roles-IsLegacy :
      (claims : Claims)
      → cfg.admin_group_id ≡ none
      → All (IsLegacy cfg) claims.roles
      → All (IsLegacy cfg) (extract_roles_from_claims cfg claims)
  unfolding extract_roles_from_claims
  extract_roles-IsLegacy claims g h =
      add_group-IsLegacy cfg.ul_group_id cfg.app_role_ul claims.groups _ (inl refl) (
        add_group-IsLegacy cfg.lead_group_id cfg.app_role_lead claims.groups _ (inr refl) (
          subst
            (λ o.
              All (IsLegacy cfg)
                (add_group o cfg.app_role_admin claims.groups (add_accepted cfg claims.roles [])))
            (sym g) (unfold add_group in add_accepted-IsLegacy claims.roles [] h tt)))

  no_legacy-suffices :
      (required roles : List Text)
      → suffices cfg required cfg.app_role_ul ≡ false
      → suffices cfg required cfg.app_role_lead ≡ false
      → All (IsLegacy cfg) roles
      → any (suffices cfg required) roles ≡ false
  no_legacy-suffices required [] u l h = refl
  no_legacy-suffices required (r ∷ roles) u l (inl e, h) =
      let here : suffices cfg required r ≡ false = rw e u in
      let rest = no_legacy-suffices required roles u l h in rw (here, rest)
  no_legacy-suffices required (r ∷ roles) u l (inr e, h) =
      let here : suffices cfg required r ≡ false = rw e l in
      let rest = no_legacy-suffices required roles u l h in rw (here, rest)

  -- Where no group makes an administrator and a handler asks for roles under their new names only: a
  -- caller whose claims have only the old role names, whatever groups they have, is answered with 403.
  pub require_any_role-legacy :
      (verify : Text → Option (Option Claims)) (required : List Text) (claims : Claims)
      (req : Request)
      → cfg.admin_group_id ≡ none
      → suffices cfg required cfg.app_role_ul ≡ false
      → suffices cfg required cfg.app_role_lead ≡ false
      → All (IsLegacy cfg) claims.roles
      → req.roles ≡ extract_roles_from_claims cfg claims
      → require_any_role cfg verify required req ≡ refused 403 (text "forbidden")
  unfolding require_any_role
  require_any_role-legacy verify required claims req g u l h e =
      let none_suffices : any (suffices cfg required) req.roles ≡ false = rw e (
        no_legacy-suffices required (extract_roles_from_claims cfg claims) u l
          (extract_roles-IsLegacy claims g h)) in
      rw none_suffices
