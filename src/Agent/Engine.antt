-- ===== src/Agent/Engine.antt =====
-- The governed execution loop: `AgentEngine` of src/egr/runtime/agent_engine.py, and the agents and
-- the authorization that it takes from src/egr/runtime/runtime.py.
use enterprise_agi_runtime.Prelude.{
  ℕ, suc, String, Bool, ◌&&◌, ◌||◌, not, Option, none, some, List, [], ◌∷◌, ◌++◌, ◌==◌, is_empty,
  contains, lookup, insert, if◌then◌else◌,
}
use enterprise_agi_runtime.Prelude.Exec.{Result, ok, err, authorization_error}
use enterprise_agi_runtime.Prelude.Text.{concat, ends_with, text_take}
use enterprise_agi_runtime.Domain.{
  Environment, eq_environment, development, allow, require_approval, RiskLevel,
}
use enterprise_agi_runtime.Policy.{AgentSpec, Decision, ToolRequest, PolicyContext}
use enterprise_agi_runtime.Policy.Engine.{evaluate}
use enterprise_agi_runtime.Agent.{
  PlanStep, StepRecord, TaskResult, Task, ProducedFile, ToolResult, ArtifactKind, Artifact,
  Execution, MemoryKind, EventType, World, Site, record_event, save, new_result,
}

-- `text if len(text) <= limit else text[:limit] + "..."`
unfoldable pub preview : ℕ → String → String
preview limit output =
    let cut = text_take limit output in if cut == output then output else concat (cut ∷ "..." ∷ [])

-- `str(item.get("name", "")).endswith((".md", ".txt"))`
unfoldable pub kind_of : ProducedFile → ArtifactKind
kind_of item =
    let name : String = elim item.name [ none ↦ "" | some s ↦ s ] in
    if ends_with name ".md" || ends_with name ".txt" then ArtifactKind.report else ArtifactKind.file

-- `_scoped_namespace`, without the event of a refusal
unfoldable pub scoped_namespace : AgentSpec → Result String
scoped_namespace agent =
    let namespace : String = elim agent.memory [ [] ↦ "default" | n ∷ rest ↦ n ] in
    if not (is_empty agent.namespaces)
      && not (contains "*" agent.namespaces)
      && not (contains namespace agent.namespaces)
    then err authorization_error
    else ok namespace

-- A task at work, with the runtime around it.
pub record Session (N : Type 0) : Type 0 where
  pub task : Task N
  pub world : World N

module _ {N : Type 0} where
  -- `register_agent`
  unfoldable pub register_agent : AgentSpec → World N → World N
  register_agent agent w = record_event EventType.agent_loaded "runtime" none agent.id (record w {
    agents = insert agent.id agent w.agents;
    agent_rows = insert agent.id agent w.agent_rows;
  })

  -- `audit.record` of the engine: the agent acts, on the task.
  unfoldable pub log : EventType → AgentSpec → String → Session N → Session N
  log event_type agent about s = record s {
    world = record_event event_type agent.id (some s.task.id) about s.world;
  }

  -- A change of the task, and `tasks.save(task)`.
  unfoldable pub store : Task N → Session N → Session N
  store task s = record { task = task; world = save task s.world }

  -- `task.result.steps.append(...)`. The engine makes a result before it uses it.
  unfoldable pub result_of : Task N → TaskResult N
  result_of task = elim task.result [ none ↦ new_result | some result ↦ result ]

  unfoldable pub add_record : StepRecord N → Task N → Task N
  add_record step_record task =
      let result = result_of task in
      record task { result = some (record result { steps = result.steps ++ step_record ∷ [] }) }

  unfoldable pub request_of : Task N → PlanStep N → ToolRequest N
  request_of task step = record {
    tool = step.tool;
    args = step.args;
    action = step.action;
    task_id = some task.id;
  }

  abbrev pub execution_of : AgentSpec → Task N → PlanStep N → Execution N
  execution_of agent task step = record {
    tool = step.tool;
    action = step.action;
    args = step.args;
    task_id = task.id;
    agent = agent;
    environment = task.environment;
  }

  -- `_remember_step` and the end of `_finish`: a note in the agent's namespace.
  unfoldable pub remember : MemoryKind → AgentSpec → String → Session N → Session N
  remember kind agent namespace s =
      let w = s.world in
      record s {
        world = record w {
          memory =
              record {
                kind = kind;
                namespace = namespace;
                task_id = s.task.id;
                agent_id = agent.id;
              }
              ∷ w.memory;
        };
      }

  -- The refusal of `_scoped_namespace`, which is not on the task.
  unfoldable pub refuse_namespace : AgentSpec → Session N → Session N
  refuse_namespace agent s = record s {
    world = record_event EventType.authorization_denied agent.id none "memory.write" s.world;
  }

  unfoldable pub remember_step : AgentSpec → Session N → Session N
  remember_step agent s = elim (scoped_namespace agent) [
    | err e ↦ refuse_namespace agent s
    | ok namespace ↦ remember MemoryKind.operational agent namespace s
  ]

  unfoldable pub artifact_of : AgentSpec → Task N → ProducedFile → String → Artifact
  artifact_of agent task item id = record {
    id = id;
    kind = kind_of item;
    name = elim item.name [ none ↦ "artifact" | some name ↦ name ];
    path = item.path;
    task_id = task.id;
    agent_id = agent.id;
  }

  unfoldable pub add_artifact : String → Task N → Task N
  add_artifact id task =
      let result = result_of task in
      record task { result = some (record result { artifacts = result.artifacts ++ id ∷ [] }) }

module _ {N : Type 0} (site : Site N) where
  -- One round of `_capture_artifacts`
  unfoldable pub capture_artifact : AgentSpec → ProducedFile → Session N → Session N
  capture_artifact agent item s =
      let w = s.world in
      let id = site.new_id "artifact" w.drawn in
      let kept : Session N = record {
        task = add_artifact id s.task;
        world = record w {
          drawn = suc w.drawn;
          artifacts = artifact_of agent s.task item id ∷ w.artifacts;
        };
      } in
      log EventType.artifact_created agent id kept

  unfoldable pub capture_artifacts : AgentSpec → List ProducedFile → Session N → Session N
  capture_artifacts agent [] s = s
  capture_artifacts agent (item ∷ items) s =
      capture_artifacts agent items (capture_artifact agent item s)

  -- `Runtime.default_agent`
  unfoldable pub default_agent : World N → AgentSpec × World N
  default_agent w = elim (lookup "runtime-agent" w.agents) [
    | some agent ↦ (agent, w)
    | none ↦ elim w.agents [
      | (key, agent) ∷ agents ↦ (agent, w)
      | [] ↦ (site.first_default_agent, register_agent site.first_default_agent w)
    ]
  ]

  -- `runtime.agents.get(task.agent_id) or runtime.default_agent()`
  unfoldable pub executor : Task N → World N → AgentSpec × World N
  executor task w = elim (lookup task.agent_id w.agents) [
    | some agent ↦ (agent, w)
    | none ↦ default_agent w
  ]

  unfoldable pub policy_context : Environment → Option AgentSpec → ToolRequest N → PolicyContext N
  policy_context environment agent request = record {
    environment = environment;
    agent = agent;
    enterprise_settings = site.enterprise_settings;
    risk = elim (site.tool_risk request.tool) [ none ↦ RiskLevel.low | some risk ↦ risk ];
    security = site.security;
    extra = [];
  }

  -- `Runtime.authorize`
  unfoldable pub authorize : ToolRequest N → Environment → Option AgentSpec → Decision
  authorize request environment agent =
      evaluate site.condition site.policies request (policy_context environment agent request)

  -- `_auto_approve`
  unfoldable pub auto_approve : Task N → Bool
  auto_approve task =
      site.auto_approve_in_development && eq_environment task.environment development

  abbrev pub step_decision : AgentSpec → Task N → PlanStep N → Decision
  step_decision agent task step = authorize (request_of task step) task.environment (some agent)

  -- What the loop makes of the policy's answer.
  unfoldable pub effective : Task N → Decision → Decision
  effective task d = elim d.decision [
    | require_approval ↦
        if auto_approve task
        then record d { decision = allow; reason = "auto-approved in development" }
        else d
    | _ ↦ d
  ]

  -- `tools.execute`, with its event. What a tool does to the runtime itself is left out.
  unfoldable pub execute_tool : AgentSpec → PlanStep N → Session N → ToolResult × Session N
  execute_tool agent step s =
      let w = s.world in
      let call = execution_of agent s.task step in
      let result = site.execute w call in
      let done : Session N = record s { world = record w { executed = call ∷ w.executed } } in
      (
        result,
        log (if result.ok then EventType.tool_executed else EventType.tool_failed) agent step.id
            done,
      )
