-- ===== src/Agent/Deciders.antt =====
-- Who can decide an approval: `_authorize_decision` of src/egr/runtime/runtime.py with the roles of
-- src/egr/security/rbac.py.
use enterprise_agi_runtime.Prelude.{
  String, ◌≡◌, refl, ◌⊎◌, inl, inr, true, ◌||◌, not, Bool-cases, Option, some, any, lookup, ◌∙◌,
  sym, arith, Option-cases,
}
use enterprise_agi_runtime.Prelude.Exec.{ok, Result-cases}
use enterprise_agi_runtime.Security.Rbac.{
  Principal, has_permission, role_satisfies, in_area, approval_decide,
}
use enterprise_agi_runtime.Security.Rbac.Grants.{approval_decide_holders, decides_approvals}
use enterprise_agi_runtime.Agent.{Approval, World, Site, record_event}
use enterprise_agi_runtime.Agent.Desk.{
  get_approval, authorize_decision, authorize_known, authorize_unknown, qualified, or_denied,
  approve, task_area, principal_of,
}

-- The runtime has at most written to the trail.
pub record Untouched {N : Type 0} (w v : World N) : Type 0 where
  pub agents : v.agents ≡ w.agents
  pub tasks : v.tasks ≡ w.tasks
  pub approvals : v.approvals ≡ w.approvals
  pub executed : v.executed ≡ w.executed

module _ {N : Type 0} (site : Site N) where
  -- The decision is made by a known principal who may make it.
  pub record Decider (approval : Approval N) (decided_by : String) (token : Option String)
      (w : World N) : Type 0 where
    pub principal : Principal
    pub known : principal_of site decided_by token ≡ some principal
    pub holder : any decides_approvals principal.roles ≡ true
    pub human : (site.allow_agent_approval || not principal.agent_kind) ≡ true
    pub role : role_satisfies principal.roles approval.required_role ≡ true
    pub area : in_area principal (task_area approval.task_id w) ≡ true

  module _ (approval : Approval N) (actor : String) (token : Option String) (w : World N) where
    known-Untouched : (p : Principal) → Untouched w (authorize_known site approval actor p w).1
    unfolding authorize_known qualified or_denied record_event
    known-Untouched p = record {
      agents = ground arith;
      tasks = ground arith;
      approvals = ground arith;
      executed = ground arith;
    }

    pub authorize-Untouched : Untouched w (authorize_decision site approval actor token w).1
    unfolding authorize_decision authorize_unknown record_event
    authorize-Untouched = elim (Option-cases (principal_of site actor token)) [
      | inl e ↦
          rw (authorize_decision, e)
            (elim (Bool-cases site.identity_required) [
              | inl e' ↦
                  rw e' (record { agents = refl; tasks = refl; approvals = refl; executed = refl })
              | inr e' ↦
                  rw e' (record { agents = refl; tasks = refl; approvals = refl; executed = refl })
            ])
      | inr (p, e) ↦ rw (authorize_decision, e) (known-Untouched p)
    ]

    known-tests :
        (p : Principal) (decisor : String)
        → site.identity_required ≡ true
        → (authorize_known site approval actor p w).0 ≡ ok decisor
        → (has_permission p.roles approval_decide ≡ true)
          × ((site.allow_agent_approval || not p.agent_kind) ≡ true)
          × (role_satisfies p.roles approval.required_role ≡ true)
          × (in_area p (task_area approval.task_id w) ≡ true)
    unfolding authorize_known qualified or_denied record_event
    known-tests p decisor required h = (ground arith, ground arith, ground arith, ground arith)

    authorize-Decider :
        (decisor : String)
        → site.identity_required ≡ true
        → (authorize_decision site approval actor token w).0 ≡ ok decisor
        → Decider approval actor token w
    unfolding authorize_decision authorize_unknown record_event
    authorize-Decider decisor required h = elim (Option-cases (principal_of site actor token)) [
      | inl e ↦ absurd (ground arith)
      | inr (p, e) ↦
          let authorized : (authorize_known site approval actor p w).0 ≡ ok decisor =
            rw (authorize_decision, e) at h in
          let (permits, human, role, area) = known-tests p decisor required authorized in
          record {
            principal = p;
            known = e;
            holder = sym (approval_decide_holders p.roles) ∙ permits;
            human = human;
            role = role;
            area = area;
          }
    ]

  -- Where identity is required, approving changes no task, no approval and calls no tool, unless the
  -- approval is found and a known principal decides it, who has the role approver or admin and the
  -- required role, reaches the task's area, and is no agent if agents may not approve.
  pub approve-Decider :
      (approval_id decided_by : String) (remark token : Option String) (w : World N)
      → site.identity_required ≡ true
      → Untouched w (approve site approval_id decided_by remark token w).1
        ⊎ ((approval : Approval N) × (lookup approval_id w.approvals ≡ some approval)
            × Decider approval decided_by token w)
  unfolding approve get_approval
  approve-Decider approval_id decided_by remark token w required =
      elim (Option-cases (lookup approval_id w.approvals)) [
        | inl e ↦ inl (
            rw (approve, e)
              (record { agents = refl; tasks = refl; approvals = refl; executed = refl }))
        | inr (approval, e) ↦
            let same = authorize-Untouched approval decided_by token w in
            elim (Result-cases (authorize_decision site approval decided_by token w).0) [
              | inl (decisor, d) ↦
                  inr
                    (approval, e, authorize-Decider approval decided_by token w decisor required d)
              | inr (why, d) ↦ inl (rw (approve, e, d) same)
            ]
      ]
