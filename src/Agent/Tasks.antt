-- ===== src/Agent/Tasks.antt =====
-- The life of a task: `TaskEngine` of src/egr/runtime/task_engine.py, and `Runtime.resolve_agent`.
use enterprise_agi_runtime.Prelude.{
  suc, String, Option, none, some, [], ◌∷◌, ◌==◌, lookup, insert, if◌then◌else◌, Bool,
}
use enterprise_agi_runtime.Prelude.Exec.{Exec, key_error, ok, err, ◌>>=◌}
use enterprise_agi_runtime.Domain.{Environment, TaskStatus}
use enterprise_agi_runtime.Policy.{AgentSpec}
use enterprise_agi_runtime.Agent.{Task, EventType, World, Site, record_event, save}
use enterprise_agi_runtime.Agent.Engine.{default_agent}
use enterprise_agi_runtime.Agent.Loop.{pending_for_task}
use enterprise_agi_runtime.Agent.Run.{run}
use enterprise_agi_runtime.Agent.Desk.{answered, approve}

module _ {N : Type 0} where
  unfoldable pub cancelled : Task N → String → Task N
  cancelled task why = record task { status = TaskStatus.cancelled; error = some why }

  -- `cancel`
  unfoldable pub cancel : String → String → Exec (World N) (Task N)
  cancel task_id why w = elim (lookup task_id w.tasks) [
    | none ↦ (err key_error, w)
    | some task ↦ (
      ok (cancelled task why),
      record_event EventType.task_cancelled "operator" (some task.id) why
          (save (cancelled task why) w),
    )
  ]

module _ {N : Type 0} (site : Site N) where
  -- `Runtime.resolve_agent`: an agent found in the repository is kept.
  unfoldable pub resolve_agent : Option String → Exec (World N) AgentSpec
  resolve_agent none w = let (agent, found) = default_agent site w in (ok agent, found)
  resolve_agent (some agent_id) w =
      if agent_id == ""
      then (let (agent, found) = default_agent site w in (ok agent, found))
      else elim (lookup agent_id w.agents) [
        | some agent ↦ (ok agent, w)
        | none ↦ elim (lookup agent_id w.agent_rows) [
          | none ↦ (err key_error, w)
          | some agent ↦ (ok agent, record w { agents = insert agent.id agent w.agents })
        ]
      ]

  unfoldable pub new_task : String → AgentSpec → Option Environment → String → String → Task N
  new_task objective agent environment created_by id = record {
    id = id;
    objective = objective;
    agent_id = agent.id;
    environment = elim environment [ none ↦ site.environment | some e ↦ e ];
    status = TaskStatus.pending;
    created_by = created_by;
    plan = none;
    cursor = 0;
    pending_approval = none;
    pending_step = none;
    result = none;
    error = none;
  }

  unfoldable pub add_task :
      String → AgentSpec → Option Environment → String → Exec (World N) (Task N)
  add_task objective agent environment created_by w =
      let task = new_task objective agent environment created_by (site.new_id "task" w.drawn) in
      (
        ok task,
        record_event EventType.task_created created_by (some task.id) objective
            (save task (record w { drawn = suc w.drawn })),
      )

  -- `create`
  unfoldable pub create :
      String → Option String → Option Environment → String → Exec (World N) (Task N)
  create objective agent_id environment created_by = do
    agent ← resolve_agent agent_id
    add_task objective agent environment created_by

  -- `submit`
  unfoldable pub submit :
      String → Option String → Option Environment → String → Exec (World N) (Task N)
  submit objective agent_id environment created_by = do
    task ← create objective agent_id environment created_by
    run site task

  -- `resume`: the first pending approval of the task is approved.
  unfoldable pub resume : String → Bool → Exec (World N) (Option (Task N))
  resume task_id approve_pending w = elim (lookup task_id w.tasks) [
    | none ↦ (err key_error, w)
    | some task ↦ elim (pending_for_task task_id w) [
      | [] ↦ answered (run site task) w
      | approval ∷ others ↦
          if approve_pending
          then approve site approval.id "cli" (some "approved via task resume") none w
          else (ok (some task), w)
    ]
  ]
