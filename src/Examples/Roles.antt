-- ===== src/Examples/Roles.antt =====
-- Sets of roles of src/egr/security/rbac.py.
use enterprise_agi_runtime.Prelude.{◌≡◌, refl, true, false, some, [], ◌∷◌, contains, eq_iff}
use enterprise_agi_runtime.Security.Rbac.{
  expand_roles, has_permission, role_satisfies, role_inherits, identity_manage, approval_decide,
}
use enterprise_agi_runtime.Security.Rbac.Closure.{contains-expand_roles}
use enterprise_agi_runtime.Security.Rbac.Grants.{
  identity_manage_holders, approval_decide_holders, unknown_role_only_itself,
}

contains-expand_roles_example : contains "viewer" (expand_roles ("guest" ∷ "approver" ∷ [])) ≡ true
unfolding role_inherits
contains-expand_roles_example = contains-expand_roles "viewer" ("guest" ∷ "approver" ∷ [])

identity_manage_holders_example :
    has_permission ("operator" ∷ "approver" ∷ []) identity_manage ≡ false
identity_manage_holders_example = identity_manage_holders ("operator" ∷ "approver" ∷ [])

approval_decide_holders_example :
    has_permission ("operator" ∷ "approver" ∷ []) approval_decide ≡ true
approval_decide_holders_example = approval_decide_holders ("operator" ∷ "approver" ∷ [])

unknown_role_only_itself_example : role_satisfies ("admin" ∷ []) (some "treasurer") ≡ false
unknown_role_only_itself_example =
    unknown_role_only_itself ("admin" ∷ []) "treasurer" refl
      (λ h. let e : false ≡ true = (eq_iff "treasurer" "").1 h in absurd (cc))
