-- ===== src/Agent/Run.antt =====
-- Planning, running and resuming a task: `AgentEngine.plan`, `run` and `resume_after_approval` of
-- src/egr/runtime/agent_engine.py.
use enterprise_agi_runtime.Prelude.{
  leb, false, Option, none, some, List, [], ◌∷◌, find, take, length, if◌then◌else◌,
}
use enterprise_agi_runtime.Prelude.Exec.{Exec, Result, ok, err, validation_error}
use enterprise_agi_runtime.Prelude.Text.{concat}
use enterprise_agi_runtime.Domain.{allow, deny, require_approval, TaskStatus}
use enterprise_agi_runtime.Policy.{AgentSpec, Decision}
use enterprise_agi_runtime.Agent.{
  PlanStep, Plan, Task, Approval, ToolResult, EventType, World, Answer, over_budget, unauthorized,
  broken, unreadable, malformed, planned, Site, fallback_plan, aborted,
}
use enterprise_agi_runtime.Agent.Engine.{
  Session, log, store, add_record, preview, capture_artifacts, executor, effective, step_decision,
  execute_tool,
}
use enterprise_agi_runtime.Agent.Ending.{finish, fail, to_next, clear_pending}
use enterprise_agi_runtime.Agent.Loop.{eq_optional, from_index, started, ask, refuse, perform}

-- Where a round of the loop leaves the task: it goes on, or it waits for a human.
pub data Progress (N : Type 0) : Type 0 where
  going : Session N → Progress N
  waiting : Session N → Progress N

-- How planning ends: with a plan, or with a task that `_fail` has ended.
pub data Planning (N : Type 0) : Type 0 where
  adopted : Plan N → Session N → Planning N
  refused : Session N → Planning N

module _ {N : Type 0} where
  -- `next((item for item in plan.steps if item.id == step_id), None)`
  unfoldable pub awaited_step : Task N → Option (PlanStep N)
  awaited_step task = elim task.plan [
    | none ↦ none
    | some plan ↦ find (λ step. eq_optional (some step.id) task.pending_step) plan.steps
  ]

module _ {N : Type 0} (site : Site N) where
  -- One round of the loop, on the decision that it acts on.
  unfoldable pub act : AgentSpec → PlanStep N → Decision → Session N → Progress N
  act agent step d s = elim d.decision [
    | require_approval ↦ waiting (ask site agent step d s)
    | deny ↦ going (refuse site agent step d s)
    | allow ↦ going (perform site agent step d s)
  ]

  unfoldable pub turn : AgentSpec → PlanStep N → Session N → Progress N
  turn agent step s =
      let proposed = log EventType.action_proposed agent step.id s in
      act agent step (effective site s.task (step_decision site agent s.task step)) proposed

  -- The loop, over the steps from the cursor on.
  unfoldable pub work : AgentSpec → List (PlanStep N) → Session N → Progress N
  work agent [] s = going s
  work agent (step ∷ steps) s = elim (turn agent step s) [
    | waiting s' ↦ waiting s'
    | going s' ↦ work agent steps s'
  ]

  -- `task.context["plan"] = …`, with the save of `run`
  unfoldable pub adopt : Plan N → Session N → Planning N
  adopt plan s = adopted plan (store (record s.task { plan = some plan }) s)

  -- `if len(plan.steps) > max_steps: plan.steps = plan.steps[:max_steps]`
  unfoldable pub within_budget : Plan N → Plan N
  within_budget plan =
      if leb (length plan.steps) site.max_steps
      then plan
      else record plan { steps = take site.max_steps plan.steps }

  -- What `plan` and `run` make of the answer. The errors before the request, but for two, and the
  -- exception for an answer that is not a plan are not caught.
  unfoldable pub on_answer : AgentSpec → Session N → Answer N → Result (Planning N)
  on_answer agent s (over_budget why) =
      ok (refused (fail agent why EventType.model_budget_blocked s))
  on_answer agent s (unauthorized why) =
      ok (refused (fail agent (concat ("negado: " ∷ why ∷ [])) EventType.authorization_denied s))
  on_answer agent s (aborted e) = err e
  on_answer agent s (broken why) =
      ok (adopt (fallback_plan s.task.objective) (log EventType.plan_failed agent why s))
  on_answer agent s (unreadable why) =
      ok (adopt (fallback_plan s.task.objective) (log EventType.plan_failed agent why s))
  on_answer agent s malformed = err validation_error
  on_answer agent s (planned plan) =
      ok (adopt (within_budget plan) (log EventType.plan_created agent "" s))

  -- `if plan_data: … else: … self.plan(task, agent)`
  abbrev pub plan_from : AgentSpec → Session N → Option (Plan N) → Result (Planning N)
  plan_from agent s (some plan) = ok (adopted plan s)
  plan_from agent s none = on_answer agent s (site.propose s.world s.task agent)

  unfoldable pub plan_of : AgentSpec → Session N → Result (Planning N)
  plan_of agent s = plan_from agent s s.task.plan

  abbrev pub closed : AgentSpec → Plan N → Progress N → Session N
  closed agent plan (waiting s) = s
  closed agent plan (going s) = finish agent plan s

  -- The loop and `_finish`.
  unfoldable pub carry_out : AgentSpec → Planning N → Session N
  carry_out agent (refused s) = s
  carry_out agent (adopted plan s) =
      closed agent plan (work agent (from_index s.task.cursor plan.steps) s)

  unfoldable pub run_with : AgentSpec → Session N → Result (Session N)
  run_with agent s = elim (plan_of agent s) [
    | err e ↦ err e
    | ok planning ↦ ok (carry_out agent planning)
  ]

  -- What is stored when an exception leaves `run`, or when it returns.
  abbrev pub outcome : Session N → Result (Session N) → Result (Task N) × World N
  outcome s (err e) = (err e, s.world)
  outcome s (ok ended) = (ok ended.task, ended.world)

  unfoldable pub run : Task N → Exec (World N) (Task N)
  run task w =
      let (agent, found) = executor site task w in
      let s = started agent task found in outcome s (run_with agent s)

  -- ---- resume_after_approval

  -- The step that waits, now refused by the policy: the pending step stays named.
  unfoldable pub refuse_resumed : PlanStep N → Decision → Session N → Session N
  refuse_resumed step d s =
      store
        (to_next (
          add_record
            (record {
              id = step.id;
              tool = step.tool;
              args = site.redact step.args;
              rationale = "";
              decision = "deny";
              rule_id = none;
              approval_id = none;
              ok = false;
              output = "";
              error = some d.reason;
            })
            s.task))
        s

  -- The call of the tool of the step that waits, with its event and its record.
  unfoldable pub approve_tool :
      AgentSpec → PlanStep N → Approval N → Session N → ToolResult × Session N
  approve_tool agent step approval s =
      let (result, executed) = execute_tool site agent step s in
      (
        result,
        record executed {
          task =
              add_record
                (record {
                  id = step.id;
                  tool = step.tool;
                  args = site.redact step.args;
                  rationale = step.rationale;
                  decision = "approved";
                  rule_id = none;
                  approval_id = some approval.id;
                  ok = result.ok;
                  output = preview 1500 result.output;
                  error = result.error;
                })
                executed.task;
        },
      )

  -- `if result.ok: self._capture_artifacts(...)`
  unfoldable pub captured : AgentSpec → ToolResult → Session N → Session N
  captured agent result s = if result.ok then capture_artifacts site agent result.artifacts s else s

  unfoldable pub perform_approved : AgentSpec → PlanStep N → Approval N → Session N → Session N
  perform_approved agent step approval s =
      let (result, recorded) = approve_tool agent step approval s in
      let s' = captured agent result recorded in
      store (record (clear_pending (to_next s'.task)) { status = TaskStatus.running }) s'

  unfoldable pub resume_step : AgentSpec → PlanStep N → Approval N → Session N → Session N
  resume_step agent step approval s =
      let d = step_decision site agent s.task step in
      elim d.decision [
        | deny ↦ refuse_resumed step d s
        | _ ↦ perform_approved agent step approval s
      ]

  unfoldable pub resume_after_approval : Task N → Approval N → Exec (World N) (Task N)
  resume_after_approval task approval w =
      let (agent, found) = executor site task w in
      elim (awaited_step task) [
        | none ↦ run task found
        | some step ↦
            let s = resume_step agent step approval (record { task = task; world = found }) in
            run s.task s.world
      ]
