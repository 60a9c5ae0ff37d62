-- ===== src/Workflow.antt =====
-- Workflows and their runs: src/egr/domain/workflow.py and src/egr/domain/run.py.
pub mod Levels
pub mod Order
pub mod Acyclic
pub mod Engine
pub mod Steps
pub mod Runs
pub mod Compensation
use enterprise_agi_runtime.Prelude.{
  ℕ, suc, String, Bool, true, false, Option, none, some, List, [], ◌∷◌, ◌++◌, ◌==◌, find, keep,
  length, Dict, if◌then◌else◌,
}
use enterprise_agi_runtime.Domain.{TaskStatus}

pub data OnError : Type 0 where
  fail continue compensate : OnError

-- The fields of a step that the engine reads. `on_error` is `none` where it is inherited.
pub record WorkflowStep : Type 0 where
  pub id : String
  pub depends_on : List String
  pub condition : Option String
  pub max_attempts : ℕ
  pub on_error : Option OnError
  pub compensate_with : Option String

pub record Workflow : Type 0 where
  pub id : String
  pub steps : List WorkflowStep
  pub on_error : OnError

-- `Workflow.step`
unfoldable pub workflow_step : Workflow → String → Option WorkflowStep
workflow_step workflow step_id = find (λ step. step.id == step_id) workflow.steps

-- `Workflow.on_error_for`
unfoldable pub on_error_for : Workflow → WorkflowStep → OnError
on_error_for workflow step = elim step.on_error [ none ↦ workflow.on_error | some policy ↦ policy ]

pub data StepRunStatus : Type 0 where
  pending running waiting completed failed skipped cancelled : StepRunStatus

pub data RunStatus : Type 0 where
  pending running waiting completed partial failed cancelled : RunStatus

-- Why a step stands where it stands.
pub data StepError : Type 0 where
  dependency_not_completed : String → StepError
  awaiting_approval : StepError
  task_ended : TaskStatus → StepError

pub record WorkflowStepRun : Type 0 where
  pub id : String
  pub status : StepRunStatus
  pub task_id : Option ℕ
  pub attempts : ℕ
  pub error : Option StepError

-- `WorkflowStepRun.terminal`
unfoldable pub terminal_status : StepRunStatus → Bool
terminal_status StepRunStatus.completed = true
terminal_status StepRunStatus.failed = true
terminal_status StepRunStatus.skipped = true
terminal_status StepRunStatus.cancelled = true
terminal_status _ = false

abbrev pub is_completed : StepRunStatus → Bool
is_completed StepRunStatus.completed = true
is_completed _ = false

abbrev pub is_failed : StepRunStatus → Bool
is_failed StepRunStatus.failed = true
is_failed _ = false

abbrev pub is_waiting : StepRunStatus → Bool
is_waiting StepRunStatus.waiting = true
is_waiting _ = false

pub data RunError : Type 0 where
  steps_failed : List String → RunError
  tolerated_failures : ℕ → RunError

-- What a finished task publishes for the later steps.
pub record Entry : Type 0 where
  pub status : TaskStatus
  pub task_id : ℕ

-- A run. `tasks` lists the tasks made for it, latest first: the step and the attempt. `finishes`
-- counts the audit events of its end.
pub record WorkflowRun : Type 0 where
  pub status : RunStatus
  pub steps : List WorkflowStepRun
  pub context : Dict Entry
  pub error : Option RunError
  pub tasks : List (String × ℕ)
  pub finishes : ℕ
  pub compensations : List (String × String)

-- `WorkflowRun.step`
unfoldable pub find_step : String → List WorkflowStepRun → Option WorkflowStepRun
find_step step_id steps = find (λ record'. record'.id == step_id) steps

abbrev pub new_step : String → WorkflowStepRun
new_step step_id = record {
  id = step_id;
  status = StepRunStatus.pending;
  task_id = none;
  attempts = 0;
  error = none;
}

-- `WorkflowRun.ensure_step`, and a change of the record that it returns.
unfoldable pub change_step :
    String → (WorkflowStepRun → WorkflowStepRun) → List WorkflowStepRun → List WorkflowStepRun
change_step step_id f [] = f (new_step step_id) ∷ []
change_step step_id f (s ∷ steps) =
    if s.id == step_id then f s ∷ steps else s ∷ change_step step_id f steps

-- `WorkflowRun.finished`
unfoldable pub finished : RunStatus → Bool
finished RunStatus.completed = true
finished RunStatus.partial = true
finished RunStatus.failed = true
finished RunStatus.cancelled = true
finished _ = false

-- `summary["failed"]`
unfoldable pub failed_count : List WorkflowStepRun → ℕ
failed_count steps = length (keep (λ s. is_failed s.status) steps)
