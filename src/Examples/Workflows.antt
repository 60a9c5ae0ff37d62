-- ===== src/Examples/Workflows.antt =====
-- A workflow of three steps, for src/egr/runtime/workflow_engine.py.
use enterprise_agi_runtime.Prelude.{
  insert, contains, ℕ, String, ◌≡◌, refl, true, false, Bool, ◌⊎◌, Option, none, some, List, [], ◌∷◌,
  ◌==◌, length, All, Dict, if◌then◌else◌, ◌<◌, any, eq_iff, arith,
}
use enterprise_agi_runtime.Prelude.Exec.{Result, ok, err, config_error, cycle}
use enterprise_agi_runtime.Prelude.Sort.{sorted, insert_sorted}
use mathlib.Core.Path.{subst}
use enterprise_agi_runtime.Domain.{TaskStatus}
use enterprise_agi_runtime.Policy.Engine.{Verdict, holds}
use enterprise_agi_runtime.Workflow.{
  OnError, WorkflowStep, Workflow, WorkflowStepRun, WorkflowRun, StepRunStatus, RunStatus,
  workflow_step, on_error_for, find_step, change_step, terminal_status, finished, failed_count,
}
use enterprise_agi_runtime.Workflow.Levels.{
  by_id, is_ready, ready_steps, blocked_steps, levels_loop, levels,
}
use enterprise_agi_runtime.Workflow.Order.{Layered, placed, in_levels, levels_total, levels-Layered}
use enterprise_agi_runtime.Workflow.Acyclic.{levels-acyclic}
use enterprise_agi_runtime.Workflow.Engine.{
  dependency_completed, is_terminal, first_broken, skip_step, skip_blocked, compensator,
  begin_attempt, collect, blocking, finish, after_level, condition_ok, attempts_loop, attempt_step,
  run_step, run_level, run_levels, execute,
}
use enterprise_agi_runtime.Workflow.Steps.{MayRun, skip_blocked-MayRun}
use enterprise_agi_runtime.Workflow.Compensation.{self_compensation_diverges}
use enterprise_agi_runtime.Workflow.Runs.{execute-completed, execute-Ended}

abbrev step : String → List String → Option String → WorkflowStep
step id depends_on compensate_with = record {
  id = id;
  depends_on = depends_on;
  condition = none;
  max_attempts = 2;
  on_error = none;
  compensate_with = compensate_with;
}

abbrev undo : WorkflowStep
undo = record (step "undo" [] none) { on_error = some OnError.continue }

abbrev work : WorkflowStep
work = step "work" ("undo" ∷ []) (some "undo")

abbrev workflow : Workflow
workflow = record { id = "w"; steps = work ∷ undo ∷ []; on_error = OnError.compensate }

abbrev new_run : WorkflowRun
new_run = record {
  status = RunStatus.pending;
  steps = [];
  context = [];
  error = none;
  tasks = [];
  finishes = 0;
  compensations = [];
}

abbrev condition : String → WorkflowRun → Verdict
condition expression run = holds true

abbrev succeeds : String → ℕ → WorkflowRun → Result TaskStatus
succeeds step_id attempt run = ok TaskStatus.completed

abbrev fails : String → ℕ → WorkflowRun → Result TaskStatus
fails step_id attempt run = ok TaskStatus.failed

abbrev order : List (Dict WorkflowStep)
order = (("undo", undo) ∷ []) ∷ (("work", work) ∷ []) ∷ []

levels_total_example :
    ((ls : List (Dict WorkflowStep)) × (levels workflow ≡ some (ok ls)))
    ⊎ (levels workflow ≡ some (err (config_error cycle)))
levels_total_example = levels_total workflow

levels-Layered_example :
    Layered [] order
    × (placed order ≡ length (by_id workflow.steps []))
    × ((p : String × WorkflowStep → Bool) → in_levels p order ≡ any p (by_id workflow.steps []))
unfolding levels levels_loop by_id ready_steps blocked_steps is_ready sorted insert_sorted insert
levels-Layered_example = levels-Layered workflow order refl

abbrev rank : String → ℕ
rank id = if id == "work" then 1 else 0

work_above_undo :
    (d : String)
    → contains d ("undo" ∷ []) ≡ true
    → (contains d ("work" ∷ "undo" ∷ []) ≡ true) × (rank d < 1)
work_above_undo d h =
    let e : "undo" ≡ d = (eq_iff "undo" d).0 (ground arith) in
    subst (λ d. (contains d ("work" ∷ "undo" ∷ []) ≡ true) × (rank d < 1)) e (refl, omega arith)

nothing_below : (d : String) {P : Type 0} → contains d [] ≡ true → P
nothing_below d h = absurd (cc)

levels-acyclic_example : (ls : List (Dict WorkflowStep)) × (levels workflow ≡ some (ok ls))
unfolding by_id insert
levels-acyclic_example = levels-acyclic workflow rank (work_above_undo, ((λ d h. absurd (cc)), tt))

skip_blocked-MayRun_example :
    All (MayRun (skip_blocked (work ∷ []) new_run)) (work ∷ [])
    × ((d : String)
        → dependency_completed (skip_blocked (work ∷ []) new_run) d
          ≡ dependency_completed new_run d)
    × ((d : String)
        → (is_terminal new_run d ≡ false)
          ⊎ (is_terminal (skip_blocked (work ∷ []) new_run) d ≡ true))
skip_blocked-MayRun_example = skip_blocked-MayRun (work ∷ []) new_run

abbrev loop_step : WorkflowStep
loop_step = step "loop" [] (some "loop")

abbrev looping : Workflow
looping = record { id = "l"; steps = loop_step ∷ []; on_error = OnError.compensate }

self_compensation_diverges_example : run_step condition fails 9 looping loop_step new_run ≡ none
unfolding compensator on_error_for workflow_step condition_ok
self_compensation_diverges_example =
    self_compensation_diverges condition fails looping loop_step refl (λ r. refl) (λ k r. refl) 9
      new_run

abbrev done : String → ℕ → WorkflowStepRun
done id task = record {
  id = id;
  status = StepRunStatus.completed;
  task_id = some task;
  attempts = 1;
  error = none;
}

abbrev completed_run : WorkflowRun
completed_run = record {
  status = RunStatus.completed;
  steps = done "undo" 1 ∷ done "work" 2 ∷ [];
  context =
      ("undo", record { status = TaskStatus.completed; task_id = 1 })
      ∷ ("work", record { status = TaskStatus.completed; task_id = 2 })
      ∷ [];
  error = none;
  tasks = ("work", 1) ∷ ("undo", 1) ∷ [];
  finishes = 1;
  compensations = [];
}

execute-completed_example : failed_count completed_run.steps ≡ 0
unfolding execute levels levels_loop by_id ready_steps blocked_steps is_ready sorted insert_sorted
    insert finished run_levels skip_blocked skip_step is_terminal find_step terminal_status
    first_broken dependency_completed change_step run_level run_step attempt_step attempts_loop
    begin_attempt collect condition_ok after_level blocking finish failed_count
execute-completed_example =
    execute-completed condition succeeds 1 workflow new_run completed_run refl refl refl

abbrev failed_run : WorkflowRun
failed_run = record new_run {
  status = RunStatus.waiting;
  steps = done "undo" 1 ∷ record (done "work" 2) { status = StepRunStatus.failed } ∷ [];
}

abbrev strict : Workflow
strict = record workflow { on_error = OnError.fail }

execute-Ended_example :
    (r : WorkflowRun) × (execute condition fails 1 strict failed_run ≡ some (ok r))
    × (r.status ≡ RunStatus.partial)
unfolding levels levels_loop by_id ready_steps blocked_steps is_ready sorted insert_sorted insert
    finished is_terminal find_step terminal_status failed_count
execute-Ended_example =
    execute-Ended condition fails 1 strict failed_run
      ((("undo", undo) ∷ []) ∷ (("work", work) ∷ []) ∷ []) refl refl
      (((refl, tt)), ((refl, tt), tt))
