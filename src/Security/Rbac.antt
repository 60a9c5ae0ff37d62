-- ===== src/Security/Rbac.antt =====
-- Roles and permissions: the tables and the tests of src/egr/security/rbac.py.
pub mod Closure
pub mod Grants
use enterprise_agi_runtime.Prelude.{
  ℕ, zero, suc, ◌+◌, ◌*◌, String, Bool, true, false, ◌&&◌, ◌||◌, not, Option, none, some, List, [],
  ◌∷◌, ◌++◌, ◌==◌, any, contains, keep, length, is_empty, if◌then◌else◌,
}
use mathlib.Core.List.{reverse}
use enterprise_agi_runtime.Prelude.Exec.{Error, authorization_error, Result, ok, err}

abbrev pub task_read : String
task_read = "task.read"

abbrev pub task_submit : String
task_submit = "task.submit"

abbrev pub task_cancel : String
task_cancel = "task.cancel"

abbrev pub task_handoff : String
task_handoff = "task.handoff"

abbrev pub tools_execute : String
tools_execute = "tools.execute"

abbrev pub approval_read : String
approval_read = "approval.read"

abbrev pub approval_decide : String
approval_decide = "approval.decide"

abbrev pub policy_read : String
policy_read = "policy.read"

abbrev pub policy_write : String
policy_write = "policy.write"

abbrev pub policy_sync : String
policy_sync = "policy.sync"

abbrev pub agent_read : String
agent_read = "agent.read"

abbrev pub agent_write : String
agent_write = "agent.write"

abbrev pub agent_promote : String
agent_promote = "agent.promote"

abbrev pub release_promote : String
release_promote = "release.promote"

abbrev pub memory_read : String
memory_read = "memory.read"

abbrev pub memory_write : String
memory_write = "memory.write"

abbrev pub audit_read : String
audit_read = "audit.read"

abbrev pub secret_read : String
secret_read = "secret.read"

abbrev pub secret_write : String
secret_write = "secret.write"

abbrev pub secret_rotate : String
secret_rotate = "secret.rotate"

abbrev pub key_manage : String
key_manage = "key.manage"

abbrev pub identity_manage : String
identity_manage = "identity.manage"

abbrev pub gateway_use : String
gateway_use = "gateway.use"

abbrev pub gateway_pair : String
gateway_pair = "gateway.pair"

abbrev pub integration_call : String
integration_call = "integration.call"

abbrev pub integration_manage : String
integration_manage = "integration.manage"

-- `PERMISSIONS`; it does not list `task_handoff`.
abbrev pub permissions : List String
permissions =
    task_read ∷ task_submit ∷ task_cancel ∷ tools_execute ∷ approval_read ∷ approval_decide
    ∷ policy_read ∷ policy_write ∷ policy_sync ∷ agent_read ∷ agent_write ∷ agent_promote
    ∷ release_promote ∷ memory_read ∷ memory_write ∷ audit_read ∷ secret_read ∷ secret_write
    ∷ secret_rotate ∷ key_manage ∷ identity_manage ∷ gateway_use ∷ gateway_pair ∷ integration_call
    ∷ integration_manage ∷ []

abbrev pub viewer_permissions : List String
viewer_permissions =
    task_read ∷ policy_read ∷ agent_read ∷ approval_read ∷ memory_read ∷ audit_read ∷ gateway_use
    ∷ []

abbrev pub operator_permissions : List String
operator_permissions =
    viewer_permissions
    ++ task_submit ∷ task_cancel ∷ task_handoff ∷ tools_execute ∷ memory_write ∷ policy_sync
      ∷ release_promote ∷ integration_call ∷ []

abbrev pub approver_permissions : List String
approver_permissions = viewer_permissions ++ approval_decide ∷ release_promote ∷ gateway_pair ∷ []

abbrev pub auditor_permissions : List String
auditor_permissions = viewer_permissions ++ audit_read ∷ []

abbrev pub security_admin_permissions : List String
security_admin_permissions =
    operator_permissions
    ++ secret_read ∷ secret_write ∷ secret_rotate ∷ key_manage ∷ identity_manage ∷ policy_write
      ∷ integration_manage ∷ []

-- `ROLE_PERMISSIONS.get(role, frozenset())`
unfoldable pub role_permissions : String → List String
role_permissions role =
    if role == "viewer"
    then viewer_permissions
    else if role == "operator"
    then operator_permissions
    else if role == "approver"
    then approver_permissions
    else if role == "auditor"
    then auditor_permissions
    else if role == "security_admin"
    then security_admin_permissions
    else if role == "admin"
    then permissions
    else []

-- `ROLE_INHERITS.get(role, ())`
unfoldable pub role_inherits : String → List String
role_inherits role =
    if role == "admin"
    then "security_admin" ∷ "approver" ∷ "operator" ∷ "auditor" ∷ "viewer" ∷ []
    else if role == "security_admin"
    then "operator" ∷ "viewer" ∷ []
    else if role == "approver"
    then "operator" ∷ "viewer" ∷ []
    else if role == "auditor"
    then "viewer" ∷ []
    else if role == "operator"
    then "viewer" ∷ []
    else []

-- The loop of `expand_roles`, on fuel. `pending` is a stack whose top, the end of Python's list,
-- stands first; `expanded` is a set.
unfoldable pub expand : ℕ → List String → List String → Option (List String)
expand zero pending expanded = none
expand (suc fuel) [] expanded = some expanded
expand (suc fuel) (role ∷ pending) expanded =
    let skip = expand fuel pending expanded in
    let visit =
      expand fuel
        (reverse (keep (λ r. not (contains r (role ∷ expanded))) (role_inherits role)) ++ pending)
        (role ∷ expanded) in
    if contains role expanded then skip else visit

-- Each round pops a role, and pushes at most the roles that a new one inherits; all the tables
-- together hold eleven.
abbrev pub expand_fuel : List String → ℕ
expand_fuel roles = length roles + 12

unfoldable pub expand_roles : List String → List String
expand_roles roles = elim (expand (expand_fuel roles) (reverse roles) []) [
  | none ↦ []
  | some expanded ↦ expanded
]

-- `permissions_for`, a set as a list
unfoldable pub permissions_of : List String → List String
permissions_of [] = []
permissions_of (role ∷ expanded) = role_permissions role ++ permissions_of expanded

unfoldable pub permissions_for : List String → List String
permissions_for roles = permissions_of (expand_roles roles)

unfoldable pub has_permission : List String → String → Bool
has_permission roles permission = contains permission (permissions_for roles)

unfoldable pub require : List String → String → Result (Unit {0})
require roles permission =
    if has_permission roles permission then ok tt else err authorization_error

unfoldable pub role_satisfies : List String → Option String → Bool
role_satisfies held none = true
role_satisfies held (some required) =
    if required == "" then true else contains required (expand_roles held)

-- The fields of `Principal` that decisions read.
pub record Principal : Type 0 where
  pub id : String
  pub agent_kind : Bool
  pub roles : List String
  pub areas : List String

unfoldable pub in_area : Principal → Option String → Bool
in_area principal none = true
in_area principal (some area) =
    if area == ""
    then true
    else if is_empty principal.areas || contains "*" principal.areas
    then true
    else if contains "admin" (expand_roles principal.roles)
    then true
    else contains area principal.areas
