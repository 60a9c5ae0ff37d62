-- ===== src/Agent/Desk.antt =====
-- Who decides an approval, and what the decision does: `_authorize_decision`, `approve` and `deny` of
-- src/egr/runtime/runtime.py, and the task engine of src/egr/runtime/task_engine.py.
use enterprise_agi_runtime.Prelude.{
  String, Bool, true, false, ◌&&◌, ◌||◌, not, Option, none, some, ◌==◌, lookup, insert,
  if◌then◌else◌,
}
use enterprise_agi_runtime.Prelude.Exec.{
  Exec, key_error, authentication_error, authorization_error, ok, pure, raise, gets, required,
  modify, ◌>>=◌, ◌>>◌,
}
use enterprise_agi_runtime.Domain.{TaskStatus}
use enterprise_agi_runtime.Security.Rbac.{
  Principal, has_permission, role_satisfies, in_area, approval_decide,
}
use enterprise_agi_runtime.Agent.{
  Task, ApprovalStatus, Approval, EventType, World, Site, record_event, save,
}
use enterprise_agi_runtime.Agent.Engine.{add_record}
use enterprise_agi_runtime.Agent.Ending.{to_next, clear_pending}
use enterprise_agi_runtime.Agent.Run.{run, resume_after_approval}

module _ {N : Type 0} where
  -- `audit.record`, in a method that may raise
  abbrev pub tell : EventType → String → Option String → String → Exec (World N) (Unit {0})
  tell event_type actor task_id about = modify (record_event event_type actor task_id about)

  -- `tasks.get(approval.task_id) if approval.task_id else None`
  unfoldable pub task_of : Option String → World N → Option (Task N)
  task_of none w = none
  task_of (some task_id) w = if task_id == "" then none else lookup task_id w.tasks

  -- `_task_area`
  unfoldable pub task_area : Option String → World N → Option String
  task_area task_id w = elim (task_of task_id w) [
    | none ↦ none
    | some task ↦ if task.agent_id == "" then none else elim (lookup task.agent_id w.agents) [
      | some agent ↦ agent.area
      | none ↦ elim (lookup task.agent_id w.agent_rows) [ none ↦ none | some agent ↦ agent.area ]
    ]
  ]

  -- `deny` of `_authorize_decision`
  unfoldable pub or_denied : Bool → Approval N → String → String → Exec (World N) (Unit {0})
  or_denied true approval actor why = pure tt
  or_denied false approval actor why = do
    tell EventType.authorization_denied (if actor == "" then "anonymous" else actor)
        approval.task_id why
    raise authorization_error

  -- A review of a delegated task is only recorded.
  unfoldable pub is_review : Approval N → Bool
  is_review approval = (approval.action == "review") && (approval.tool == "task.delegate")

  unfoldable pub approved_by : String → Option String → Approval N → Approval N
  approved_by decisor remark approval = record approval {
    status = ApprovalStatus.approved;
    decided_by = some decisor;
    decision_note = remark;
  }

  unfoldable pub denied_by : String → Option String → Approval N → Approval N
  denied_by decisor remark approval = record approval {
    status = ApprovalStatus.denied;
    decided_by = some decisor;
    decision_note = remark;
  }

  -- `approvals.save`, with the two events of a decision
  unfoldable pub decide : Approval N → String → Exec (World N) (Unit {0})
  decide approval decisor = do
    modify (λ w. record w { approvals = insert approval.id approval w.approvals })
    tell EventType.approval_decided decisor approval.task_id approval.id
    tell EventType.human_decision decisor approval.task_id approval.id

  -- The record of a step that a human has denied: `if task.result is not None and step_id`.
  unfoldable pub denied_record : Approval N → Option String → Task N → Task N
  denied_record approval remark task = elim task.result [
    | none ↦ task
    | some result ↦ elim task.pending_step [
      | none ↦ task
      | some step_id ↦
          if step_id == ""
          then task
          else add_record
              (record {
                id = step_id;
                tool = approval.tool;
                args = approval.args;
                rationale = "";
                decision = "denied_by_human";
                rule_id = none;
                approval_id = some approval.id;
                ok = false;
                output = "";
                error = some (elim remark [
                  | none ↦ "denied by human"
                  | some why ↦ if why == "" then "denied by human" else why
                ]);
              })
              task
    ]
  ]

  unfoldable pub skip_pending : Approval N → Option String → Task N → Task N
  skip_pending approval remark task =
      record (clear_pending (to_next (denied_record approval remark task))) {
        status = TaskStatus.running;
      }

module _ {N : Type 0} where
  abbrev pub answered : Exec (World N) (Task N) → Exec (World N) (Option (Task N))
  answered m = do task ← m; pure (some task)

module _ {N : Type 0} (site : Site N) where
  -- `identity.resolve(token) if token else identity.resolve(actor)`
  unfoldable pub principal_of : String → Option String → Option Principal
  principal_of actor token = elim token [
    | none ↦ site.resolve actor
    | some t ↦ if t == "" then site.resolve actor else site.resolve t
  ]

  -- The tests on a principal where identity is required.
  unfoldable pub qualified : Approval N → String → Principal → Exec (World N) String
  qualified approval actor principal = do
    or_denied (has_permission principal.roles approval_decide) approval actor "permission"
    or_denied (site.allow_agent_approval || not principal.agent_kind) approval actor "agent"
    or_denied (role_satisfies principal.roles approval.required_role) approval actor "role"
    pure principal.id

  unfoldable pub authorize_known : Approval N → String → Principal → Exec (World N) String
  authorize_known approval actor principal = do
    area ← gets (task_area approval.task_id)
    or_denied (in_area principal area) approval actor "area"
    if site.identity_required then qualified approval actor principal else pure principal.id

  unfoldable pub authorize_unknown : Approval N → String → Exec (World N) String
  authorize_unknown approval actor =
      if site.identity_required
      then (do
        tell EventType.auth_failed (if actor == "" then "anonymous" else actor) approval.task_id
            "unverified_identity"
        raise authentication_error)
      else pure (if actor == "" then "human" else actor)

  -- `_authorize_decision`
  unfoldable pub authorize_decision : Approval N → String → Option String → Exec (World N) String
  authorize_decision approval actor token = elim (principal_of actor token) [
    | none ↦ authorize_unknown approval actor
    | some principal ↦ authorize_known approval actor principal
  ]

  -- `approvals.get`
  unfoldable pub get_approval : String → Exec (World N) (Approval N)
  get_approval approval_id w = required key_error (lookup approval_id w.approvals) w

  -- What `approve` does after the decision is recorded.
  unfoldable pub after_approval : Approval N → Exec (World N) (Option (Task N))
  after_approval approval w = elim (task_of approval.task_id w) [
    | none ↦ (ok none, w)
    | some task ↦
        if is_review approval
        then (ok (some task), w)
        else answered (resume_after_approval site task approval) w
  ]

  unfoldable pub conclude_approval :
      Approval N → Option String → String → Exec (World N) (Option (Task N))
  conclude_approval approval remark decisor = do
    decide (approved_by decisor remark approval) decisor
    after_approval (approved_by decisor remark approval)

  unfoldable pub approve :
      String → String → Option String → Option String → Exec (World N) (Option (Task N))
  approve approval_id decided_by remark token = do
    approval ← get_approval approval_id
    decisor ← authorize_decision approval decided_by token
    conclude_approval approval remark decisor

  unfoldable pub after_denial : Approval N → Option String → Exec (World N) (Option (Task N))
  after_denial approval remark w = elim (task_of approval.task_id w) [
    | none ↦ (ok none, w)
    | some task ↦
        if is_review approval
        then (ok (some task), w)
        else let skipped = skip_pending approval remark task in
          answered (run site skipped) (save skipped w)
  ]

  unfoldable pub conclude_denial :
      Approval N → Option String → String → Exec (World N) (Option (Task N))
  conclude_denial approval remark decisor = do
    decide (denied_by decisor remark approval) decisor
    after_denial (denied_by decisor remark approval) remark

  -- `Runtime.deny`
  unfoldable pub deny_approval :
      String → String → Option String → Option String → Exec (World N) (Option (Task N))
  deny_approval approval_id decided_by remark token = do
    approval ← get_approval approval_id
    decisor ← authorize_decision approval decided_by token
    conclude_denial approval remark decisor
