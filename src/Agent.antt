-- ===== src/Agent.antt =====
-- Tasks, plans and approvals, and what the runtime keeps of them: src/egr/domain/task.py,
-- src/egr/domain/approval.py, src/egr/runtime/planner.py and src/egr/domain/tool.py.
pub mod Engine
pub mod Ending
pub mod Loop
pub mod Run
pub mod Desk
pub mod Tasks
pub mod Frame
pub mod Sanction
pub mod Growth
pub mod Approvals
pub mod Deciders
pub mod Awaited
pub mod Foreseen
pub mod Outcomes
pub mod Planning
use enterprise_agi_runtime.Prelude.{
  ℕ, zero, suc, String, Bool, true, false, ◌||◌, Option, none, some, List, [], ◌∷◌, ◌==◌, Dict,
  insert, is_empty, if◌then◌else◌,
}
use enterprise_agi_runtime.Prelude.Exec.{Error}
use enterprise_agi_runtime.Prelude.Text.{concat, ends_with}
use enterprise_agi_runtime.Domain.{Environment, RiskLevel, TaskStatus}
use enterprise_agi_runtime.Security.Rbac.{Principal}
use enterprise_agi_runtime.Policy.{AgentSpec, Policy, Value, text}
use enterprise_agi_runtime.Policy.Engine.{Verdict}

pub record PlanStep (N : Type 0) : Type 0 where
  pub id : String
  pub tool : String
  pub args : Dict (Value N)
  pub rationale : String
  pub action : Option String

pub record Plan (N : Type 0) : Type 0 where
  pub objective : String
  pub steps : List (PlanStep N)
  pub final_answer : String

-- Every record of a step is written with a verdict, so `ok` is a Boolean.
pub record StepRecord (N : Type 0) : Type 0 where
  pub id : String
  pub tool : String
  pub args : Dict (Value N)
  pub rationale : String
  pub decision : String
  pub rule_id : Option String
  pub approval_id : Option String
  pub ok : Bool
  pub output : String
  pub error : Option String

pub record TaskResult (N : Type 0) : Type 0 where
  pub answer : String
  pub steps : List (StepRecord N)
  pub artifacts : List String

-- `plan`, `cursor`, `pending_approval` and `pending_step` are the entries of `context`.
pub record Task (N : Type 0) : Type 0 where
  pub id : String
  pub objective : String
  pub agent_id : String
  pub environment : Environment
  pub status : TaskStatus
  pub created_by : String
  pub plan : Option (Plan N)
  pub cursor : ℕ
  pub pending_approval : Option String
  pub pending_step : Option String
  pub result : Option (TaskResult N)
  pub error : Option String

pub data ApprovalStatus : Type 0 where
  pending approved denied expired executed : ApprovalStatus

pub record Approval (N : Type 0) : Type 0 where
  pub id : String
  pub action : String
  pub tool : String
  pub args : Dict (Value N)
  pub requested_by : String
  pub task_id : Option String
  pub step_id : Option String
  pub environment : Environment
  pub status : ApprovalStatus
  pub required_role : Option String
  pub reason : String
  pub decided_by : Option String
  pub decision_note : Option String

pub record ProducedFile : Type 0 where
  pub name : Option String
  pub path : Option String

-- `output` is the text that `_preview` makes of the output, before it is cut.
pub record ToolResult : Type 0 where
  pub ok : Bool
  pub output : String
  pub error : Option String
  pub artifacts : List ProducedFile

pub data ArtifactKind : Type 0 where
  report file : ArtifactKind

pub record Artifact : Type 0 where
  pub id : String
  pub kind : ArtifactKind
  pub name : String
  pub path : Option String
  pub task_id : String
  pub agent_id : String

-- One call of `tools.execute`, with what its context says of the task, and the policy action that the
-- step names for which the call is made.
pub record Execution (N : Type 0) : Type 0 where
  pub tool : String
  pub action : Option String
  pub args : Dict (Value N)
  pub task_id : String
  pub agent : AgentSpec
  pub environment : Environment

pub data MemoryKind : Type 0 where
  operational episodic : MemoryKind

-- One call of `memory.write`.
pub record Note : Type 0 where
  pub kind : MemoryKind
  pub namespace : String
  pub task_id : String
  pub agent_id : String

pub data EventType : Type 0 where
  task_created task_started task_completed task_failed task_cancelled task_waiting : EventType
  agent_loaded plan_created plan_failed action_proposed : EventType
  policy_allowed policy_denied approval_requested approval_decided human_decision : EventType
  tool_executed tool_failed model_budget_blocked artifact_created : EventType
  auth_failed authorization_denied : EventType

-- A record of the audit trail: `about` is the step, the approval, the artifact or the reason that
-- its payload names.
pub record Event : Type 0 where
  pub event_type : EventType
  pub actor : String
  pub task_id : Option String
  pub about : String

-- What the runtime keeps. `executed`, `memory` and `trail` have their last entry first, and `drawn`
-- counts the ids that `new_id` has made.
pub record World (N : Type 0) : Type 0 where
  pub agents : Dict AgentSpec
  pub agent_rows : Dict AgentSpec
  pub tasks : Dict (Task N)
  pub approvals : Dict (Approval N)
  pub artifacts : List Artifact
  pub memory : List Note
  pub trail : List Event
  pub executed : List (Execution N)
  pub drawn : ℕ

-- What comes of the request for a plan: the budget is exceeded (`over_budget`), the recall of memory
-- is refused (`unauthorized`), recall, the catalog or the messages raise another error (`aborted`), the
-- gateway raises one (`broken`); or the answer has no JSON object (`unreadable`), or has one that is
-- not a plan (`malformed`), or has a plan.
pub data Answer (N : Type 0) : Type 0 where
  over_budget : String → Answer N
  unauthorized : String → Answer N
  aborted : Error → Answer N
  broken : String → Answer N
  unreadable : String → Answer N
  malformed : Answer N
  planned : Plan N → Answer N

-- The configuration, and the code around the engine.
pub record Site (N : Type 0) : Type 0 where
  pub environment : Environment
  pub max_steps : ℕ
  pub auto_approve_in_development : Bool
  pub identity_required : Bool
  pub allow_agent_approval : Bool
  pub approval_min_role : String
  pub enterprise_settings : Dict (Value N)
  pub security : Dict (Value N)
  pub first_default_agent : AgentSpec
  pub tool_risk : String → Option RiskLevel
  pub condition : Option String → Dict (Value N) → Verdict
  pub policies : List Policy
  pub resolve : String → Option Principal
  pub redact : Dict (Value N) → Dict (Value N)
  pub new_id : String → ℕ → String
  pub propose : World N → Task N → AgentSpec → Answer N
  pub execute : World N → Execution N → ToolResult

module _ {N : Type 0} where
  -- `audit.record`
  unfoldable pub record_event : EventType → String → Option String → String → World N → World N
  record_event event_type actor task_id about w =
      let event : Event = record {
        event_type = event_type;
        actor = actor;
        task_id = task_id;
        about = about;
      } in
      record w { trail = event ∷ w.trail }

  -- `tasks.save`
  unfoldable pub save : Task N → World N → World N
  save task w = record w { tasks = insert task.id task w.tasks }

  -- `TaskEngine.new_result`
  abbrev pub new_result : TaskResult N
  new_result = record { answer = ""; steps = []; artifacts = [] }

  -- `fallback_plan`
  unfoldable pub fallback_plan : String → Plan N
  fallback_plan objective = record {
    objective = objective;
    steps =
        record {
          id = "s1";
          tool = "filesystem.list";
          args = ("path", text "documents") ∷ ("recursive", Value.boolean true) ∷ [];
          rationale = "fallback: inspecionar o workspace antes de agir";
          action = none;
        }
        ∷ [];
    final_answer = "Plano de fallback executado (o modelo nao produziu um plano valido).";
  }
