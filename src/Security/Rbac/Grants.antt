-- ===== src/Security/Rbac/Grants.antt =====
-- Who holds which permission: `has_permission`, `role_satisfies` and `in_area` of
-- src/egr/security/rbac.py, over the expansion of roles.
use mathlib.Core.Path.{subst, fun_ext}
use enterprise_agi_runtime.Prelude.{
  String, ◌≡◌, refl, sym, ap, ◌∙◌, Bool, true, false, ◌||◌, some, List, [], ◌∷◌, arith, ◌==◌,
  eq_iff, any, contains, contains-append, any_witness, All-contains, ◌≢◌, any_of_contains,
}
use enterprise_agi_runtime.Security.Rbac.{
  role_permissions, role_inherits, expand_roles, permissions_of, permissions_for, has_permission,
  role_satisfies, approval_decide, identity_manage,
}
use enterprise_agi_runtime.Security.Rbac.Closure.{role_cases, stands_for, contains-expand_roles}

-- A role grants a permission by its own table.
abbrev grants : String → String → Bool
grants p r = contains p (role_permissions r)

contains-permissions_of :
    (p : String) (roles : List String) → contains p (permissions_of roles) ≡ any (grants p) roles
unfolding permissions_of
contains-permissions_of p [] = refl
contains-permissions_of p (r ∷ roles) = ground (
  arith,
  contains-append p (role_permissions r) (permissions_of roles),
  contains-permissions_of p roles,
)

-- The permission `p` belongs to the role `r` and to no role below it.
module _ (p : String) (holders : String → Bool)
    (sound : (r : String)
      → grants p r ≡ true
      → (t : String) → stands_for r t ≡ true
      → holders t ≡ true)
    (complete : (t : String)
      → holders t ≡ true
      → (r : String) × (stands_for r t ≡ true) × (grants p r ≡ true)) where
  to_holders : (roles : List String) → has_permission roles p ≡ true → any holders roles ≡ true
  unfolding has_permission permissions_for
  to_holders roles h =
      let (r, m, g) =
        any_witness (grants p) (expand_roles roles)
          (sym (contains-permissions_of p (expand_roles roles)) ∙ h) in
      let (t, n, s) = any_witness (stands_for r) roles (sym (contains-expand_roles r roles) ∙ m) in
      any_of_contains holders t roles n (sound r g t s)

  of_holders : (roles : List String) → any holders roles ≡ true → has_permission roles p ≡ true
  unfolding has_permission permissions_for
  of_holders roles h =
      let (t, n, k) = any_witness holders roles h in
      let (r, s, g) = complete t k in
      let m = contains-expand_roles r roles ∙ any_of_contains (stands_for r) t roles n s in
      contains-permissions_of p (expand_roles roles)
      ∙ any_of_contains (grants p) r (expand_roles roles) m g

  holders_exactly : (roles : List String) → has_permission roles p ≡ any holders roles
  holders_exactly roles = ground (arith, to_holders roles, of_holders roles)

abbrev pub manages_identities : String → Bool
manages_identities r = (r == "security_admin") || (r == "admin")

abbrev pub decides_approvals : String → Bool
decides_approvals r = (r == "approver") || (r == "admin")

identity_granted :
    (r : String)
    → grants identity_manage r ≡ true
    → contains r ("security_admin" ∷ "admin" ∷ []) ≡ true
unfolding role_permissions
identity_granted r g = ground (
  arith,
  eq_iff r "security_admin",
  eq_iff "security_admin" r,
  eq_iff r "admin",
  eq_iff "admin" r,
)

identity_by_security_admin :
    (t : String) → stands_for "security_admin" t ≡ true → manages_identities t ≡ true
unfolding role_inherits
identity_by_security_admin =
    role_cases (λ t. stands_for "security_admin" t ≡ true → manages_identities t ≡ true)
      (λ h. ground arith) (λ h. ground arith) (λ h. ground arith) (λ h. ground arith)
      (λ h. ground arith)
      (λ r e h.
        let k : ((r == "security_admin") || contains "security_admin" []) ≡ true =
          subst (λ xs. ((r == "security_admin") || contains "security_admin" xs) ≡ true) e h in
        ground arith)

identity_by_admin : (t : String) → stands_for "admin" t ≡ true → manages_identities t ≡ true
unfolding role_inherits
identity_by_admin =
    role_cases (λ t. stands_for "admin" t ≡ true → manages_identities t ≡ true) (λ h. ground arith)
      (λ h. ground arith) (λ h. ground arith) (λ h. ground arith) (λ h. ground arith)
      (λ r e h.
        let k : ((r == "admin") || contains "admin" []) ≡ true =
          subst (λ xs. ((r == "admin") || contains "admin" xs) ≡ true) e h in
        ground arith)

identity_sound :
    (r : String)
    → grants identity_manage r ≡ true
    → (t : String) → stands_for r t ≡ true
    → manages_identities t ≡ true
identity_sound r g =
    All-contains (λ r. (t : String) → stands_for r t ≡ true → manages_identities t ≡ true) r
      ("security_admin" ∷ "admin" ∷ []) (identity_by_security_admin, (identity_by_admin, tt))
      (identity_granted r g)

identity_complete :
    (t : String)
    → manages_identities t ≡ true
    → (r : String) × (stands_for r t ≡ true) × (grants identity_manage r ≡ true)
unfolding role_permissions role_inherits
identity_complete t h = ("security_admin", ground arith, refl)

-- Exactly the lists of roles with `security_admin` or `admin` have the permission `identity.manage`,
-- whatever other roles, known or not, they hold.
pub identity_manage_holders :
    (roles : List String) → has_permission roles identity_manage ≡ any manages_identities roles
identity_manage_holders =
    holders_exactly identity_manage manages_identities identity_sound identity_complete

approval_granted :
    (r : String) → grants approval_decide r ≡ true → contains r ("approver" ∷ "admin" ∷ []) ≡ true
unfolding role_permissions
approval_granted r g =
    ground (arith, eq_iff r "approver", eq_iff "approver" r, eq_iff r "admin", eq_iff "admin" r)

approval_by_approver : (t : String) → stands_for "approver" t ≡ true → decides_approvals t ≡ true
unfolding role_inherits
approval_by_approver =
    role_cases (λ t. stands_for "approver" t ≡ true → decides_approvals t ≡ true)
      (λ h. ground arith) (λ h. ground arith) (λ h. ground arith) (λ h. ground arith)
      (λ h. ground arith)
      (λ r e h.
        let k : ((r == "approver") || contains "approver" []) ≡ true =
          subst (λ xs. ((r == "approver") || contains "approver" xs) ≡ true) e h in
        ground arith)

approval_by_admin : (t : String) → stands_for "admin" t ≡ true → decides_approvals t ≡ true
unfolding role_inherits
approval_by_admin =
    role_cases (λ t. stands_for "admin" t ≡ true → decides_approvals t ≡ true) (λ h. ground arith)
      (λ h. ground arith) (λ h. ground arith) (λ h. ground arith) (λ h. ground arith)
      (λ r e h.
        let k : ((r == "admin") || contains "admin" []) ≡ true =
          subst (λ xs. ((r == "admin") || contains "admin" xs) ≡ true) e h in
        ground arith)

approval_sound :
    (r : String)
    → grants approval_decide r ≡ true
    → (t : String) → stands_for r t ≡ true
    → decides_approvals t ≡ true
approval_sound r g =
    All-contains (λ r. (t : String) → stands_for r t ≡ true → decides_approvals t ≡ true) r
      ("approver" ∷ "admin" ∷ []) (approval_by_approver, (approval_by_admin, tt))
      (approval_granted r g)

approval_complete :
    (t : String)
    → decides_approvals t ≡ true
    → (r : String) × (stands_for r t ≡ true) × (grants approval_decide r ≡ true)
unfolding role_permissions role_inherits
approval_complete t h = ("approver", ground arith, refl)

-- Exactly the lists of roles with `approver` or `admin` have the permission `approval.decide`: an
-- operator's role or a security administrator's alone does not give it.
pub approval_decide_holders :
    (roles : List String) → has_permission roles approval_decide ≡ any decides_approvals roles
approval_decide_holders =
    holders_exactly approval_decide decides_approvals approval_sound approval_complete

abbrev known_roles : List String
known_roles = "viewer" ∷ "operator" ∷ "approver" ∷ "auditor" ∷ "security_admin" ∷ "admin" ∷ []

stands_for_unknown :
    (required : String)
    → contains required known_roles ≡ false
    → (t : String) → stands_for required t ≡ (t == required)
unfolding role_inherits
stands_for_unknown required h =
    role_cases (λ t. stands_for required t ≡ (t == required)) (ground arith) (ground arith)
      (ground arith) (ground arith) (ground arith) (λ r e. rw e (ground arith))

-- A role that the tables do not know satisfies a policy's `required_role` only by being held
-- itself: no other role stands for it, `admin` included.
pub unknown_role_only_itself :
    (held : List String) (required : String)
    → contains required known_roles ≡ false
    → required ≢ ""
    → role_satisfies held (some required) ≡ contains required held
unfolding role_satisfies
unknown_role_only_itself held required h e =
    let collected =
      contains-expand_roles required held
      ∙ ap (λ f. any f held) (fun_ext (stands_for_unknown required h)) in
    ground (arith, eq_iff required "")
