-- ===== src/Agent/Loop.antt =====
-- Planning, running and resuming a task: `AgentEngine.plan`, `run` and `resume_after_approval` of
-- src/egr/runtime/agent_engine.py, and `Runtime.request_approval` of src/egr/runtime/runtime.py.
use enterprise_agi_runtime.Prelude.{
  ℕ, zero, suc, String, Bool, true, false, ◌&&◌, Option, none, some, List, [], ◌∷◌, ◌==◌, find,
  keep, insert, values, if◌then◌else◌,
}
use enterprise_agi_runtime.Domain.{Environment, TaskStatus}
use enterprise_agi_runtime.Policy.{AgentSpec, Decision, ToolRequest, policy_action}
use enterprise_agi_runtime.Agent.{
  PlanStep, Task, ApprovalStatus, Approval, ToolResult, EventType, World, Site, record_event, save,
}
use enterprise_agi_runtime.Agent.Engine.{
  Session, log, store, result_of, add_record, request_of, remember_step, preview, capture_artifacts,
  execute_tool,
}
use enterprise_agi_runtime.Agent.Ending.{to_next, clear_pending}

abbrev pub is_pending : ApprovalStatus → Bool
is_pending ApprovalStatus.pending = true
is_pending _ = false

-- `a == b` where either may be `None`
unfoldable pub eq_optional : Option String → Option String → Bool
eq_optional none none = true
eq_optional (some a) (some b) = a == b
eq_optional _ _ = false

-- `list[n:]`
unfoldable pub from_index {ℓ} : {A : Type ℓ} → ℕ → List A → List A
from_index zero xs = xs
from_index (suc n) [] = []
from_index (suc n) (x ∷ xs) = from_index n xs

module _ {N : Type 0} where
  -- `ApprovalRepository.pending_for_task`
  unfoldable pub pending_for_task : String → World N → List (Approval N)
  pending_for_task task_id w =
      keep (λ a. eq_optional a.task_id (some task_id) && is_pending a.status) (values w.approvals)

  -- The events and the change of the task with which `run` begins.
  unfoldable pub started : AgentSpec → Task N → World N → Session N
  started agent task w =
      let begun : World N =
        record_event EventType.agent_loaded agent.id (some task.id) agent.id
          (record_event EventType.task_started task.created_by (some task.id) task.objective w) in
      let running = record task { status = TaskStatus.running; result = some (result_of task) } in
      record { task = running; world = save running begun }

module _ {N : Type 0} (site : Site N) where
  -- `Runtime.request_approval`
  unfoldable pub request_approval :
      ToolRequest N
      → Decision
      → Option AgentSpec
      → Option String
      → String
      → Environment
      → World N
      → Approval N × World N
  request_approval request decision agent task_id step_id environment w =
      let requested_by : String = elim agent [ none ↦ "cli" | some a ↦ a.id ] in
      let approval : Approval N = record {
        id = site.new_id "approval" w.drawn;
        action = policy_action request;
        tool = request.tool;
        args = site.redact request.args;
        requested_by = requested_by;
        task_id = task_id;
        step_id = some step_id;
        environment = environment;
        status = ApprovalStatus.pending;
        required_role = elim decision.required_role [
          | none ↦ some site.approval_min_role
          | some role ↦ if role == "" then some site.approval_min_role else some role
        ];
        reason = decision.reason;
        decided_by = none;
        decision_note = none;
      } in
      (
        approval,
        record_event EventType.approval_requested requested_by task_id approval.id
            (record w { drawn = suc w.drawn; approvals = insert approval.id approval w.approvals }),
      )

  -- `_request_approval`: a pending approval of the step is used again.
  unfoldable pub approval_for : AgentSpec → PlanStep N → Decision → Session N → Approval N × World N
  approval_for agent step decision s =
      elim (find (λ a. eq_optional a.step_id (some step.id)) (pending_for_task s.task.id s.world)) [
        | some approval ↦ (approval, s.world)
        | none ↦
            request_approval (request_of s.task step) decision (some agent) (some s.task.id) step.id
              s.task.environment s.world
      ]

  -- The step waits for a human.
  unfoldable pub ask : AgentSpec → PlanStep N → Decision → Session N → Session N
  ask agent step decision s =
      let (approval, w) = approval_for agent step decision s in
      let waiting = record s.task {
        pending_approval = some approval.id;
        pending_step = some step.id;
        status = TaskStatus.requires_approval;
      } in
      log EventType.task_waiting agent approval.id (store waiting (record s { world = w }))

  -- The policy refuses the step.
  unfoldable pub refuse : AgentSpec → PlanStep N → Decision → Session N → Session N
  refuse agent step decision s =
      let denied = log EventType.policy_denied agent step.id s in
      store
        (to_next (
          add_record
            (record {
              id = step.id;
              tool = step.tool;
              args = site.redact step.args;
              rationale = step.rationale;
              decision = "deny";
              rule_id = decision.rule_id;
              approval_id = none;
              ok = false;
              output = "";
              error = some decision.reason;
            })
            s.task))
        denied

  -- `_capture_artifacts` and, after a step that the policy allowed, `_remember_step`.
  unfoldable pub after_success : AgentSpec → ToolResult → Session N → Session N
  after_success agent result s =
      if result.ok then remember_step agent (capture_artifacts site agent result.artifacts s) else s

  -- The call of the tool, with its events and its record.
  unfoldable pub perform_tool :
      AgentSpec → PlanStep N → Decision → Session N → ToolResult × Session N
  perform_tool agent step decision s =
      let (result, executed) =
        execute_tool site agent step (log EventType.policy_allowed agent step.id s) in
      (
        result,
        record executed {
          task =
              add_record
                (record {
                  id = step.id;
                  tool = step.tool;
                  args = site.redact step.args;
                  rationale = step.rationale;
                  decision = "allow";
                  rule_id = decision.rule_id;
                  approval_id = none;
                  ok = result.ok;
                  output = preview 1500 result.output;
                  error = result.error;
                })
                executed.task;
        },
      )

  unfoldable pub perform : AgentSpec → PlanStep N → Decision → Session N → Session N
  perform agent step decision s =
      let (result, recorded) = perform_tool agent step decision s in
      let s' = after_success agent result recorded in store (clear_pending (to_next s'.task)) s'
