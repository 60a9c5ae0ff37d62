-- ===== src/Workflow/Engine.antt =====
-- The execution of runs: `WorkflowEngine` of src/egr/runtime/workflow_engine.py. Conditions and tasks
-- enter as the parameters `condition` (a step's condition, evaluated in the context of the run)
-- and `outcome` (the status in which the agent leaves the task of a step's attempt). The steps of
-- a level run one after another, as they do unless the workflow is marked parallel.
use enterprise_agi_runtime.Prelude.{
  ℕ, zero, suc, ◌+◌, String, ◌==◌, Bool, true, false, not, ◌&&◌, Option, none, some, List, [], ◌∷◌,
  any, keep, length, is_empty, map, insert, leb, eqb, if◌then◌else◌,
}
use enterprise_agi_runtime.Prelude.Exec.{Error, Result, ok, err}
use enterprise_agi_runtime.Domain.{TaskStatus}
use enterprise_agi_runtime.Policy.Engine.{Verdict, holds, broken}
use enterprise_agi_runtime.Workflow.{
  OnError, WorkflowStep, Workflow, WorkflowStepRun, WorkflowRun, StepRunStatus, RunStatus,
  StepError, dependency_not_completed, awaiting_approval, task_ended, steps_failed,
  tolerated_failures, workflow_step, on_error_for, find_step, change_step, terminal_status,
  is_completed, is_failed, is_waiting, finished, failed_count,
}
use enterprise_agi_runtime.Workflow.Levels.{levels}

abbrev pub change : String → (WorkflowStepRun → WorkflowStepRun) → WorkflowRun → WorkflowRun
change step_id f run = record run { steps = change_step step_id f run.steps }

abbrev pub set_status : StepRunStatus → Option StepError → WorkflowStepRun → WorkflowStepRun
set_status status error s = record s { status = status; error = error }

-- `record is None or record.status != COMPLETED`, negated
unfoldable pub dependency_completed : WorkflowRun → String → Bool
dependency_completed run dependency = elim (find_step dependency run.steps) [
  | none ↦ false
  | some s ↦ is_completed s.status
]

unfoldable pub is_terminal : WorkflowRun → String → Bool
is_terminal run step_id = elim (find_step step_id run.steps) [
  | none ↦ false
  | some s ↦ terminal_status s.status
]

-- `for dependency in step.depends_on`, up to the `break`
unfoldable pub first_broken : WorkflowRun → List String → Option String
first_broken run [] = none
first_broken run (dependency ∷ rest) =
    if dependency_completed run dependency then first_broken run rest else some dependency

-- One step of `_skip_blocked`.
unfoldable pub skip_step : WorkflowStep → WorkflowRun → WorkflowRun
skip_step step run =
    if is_terminal run step.id
    then change step.id (λ s. s) run
    else elim (first_broken run step.depends_on) [
      | none ↦ change step.id (λ s. s) run
      | some dependency ↦
          change step.id
            (set_status StepRunStatus.skipped (some (dependency_not_completed dependency))) run
    ]

unfoldable pub skip_blocked : List WorkflowStep → WorkflowRun → WorkflowRun
skip_blocked [] run = run
skip_blocked (step ∷ level) run = skip_blocked level (skip_step step run)

-- `workflow.on_error_for(step) in ("continue", "compensate")`, negated
unfoldable pub is_blocking : Workflow → WorkflowStep → Bool
is_blocking workflow step = elim (on_error_for workflow step) [ OnError.fail ↦ true | _ ↦ false ]

-- The compensator that `_compensate` runs.
unfoldable pub compensator : Workflow → WorkflowStep → Option WorkflowStep
compensator workflow step = elim (on_error_for workflow step) [
  | OnError.compensate ↦ elim step.compensate_with [
    | none ↦ none
    | some step_id ↦ if step_id == "" then none else workflow_step workflow step_id
  ]
  | _ ↦ none
]

-- `record.status`; `_run_step` has made the record.
unfoldable pub status_of : WorkflowRun → String → StepRunStatus
status_of run step_id = elim (find_step step_id run.steps) [
  | none ↦ StepRunStatus.pending
  | some s ↦ s.status
]

-- `max(1, step.max_attempts)`
abbrev pub attempts_of : WorkflowStep → ℕ
attempts_of step = if leb 1 step.max_attempts then step.max_attempts else 1

-- How the loop over the attempts ended; `aborted` where running a task raised, which nobody catches.
pub data Attempts : Type 0 where
  succeeded paused exhausted : Attempts
  aborted : Error → Attempts

-- `record.attempts = attempt`, the task made, `record.task_id`
unfoldable pub begin_attempt : WorkflowStep → ℕ → WorkflowRun → WorkflowRun
begin_attempt step attempt run =
    record (change step.id
      (λ s. record s { attempts = attempt; task_id = some (length run.tasks + 1) }) run) {
        tasks = (step.id, attempt) ∷ run.tasks;
      }

-- `_collect`
unfoldable pub collect : WorkflowStep → TaskStatus → WorkflowRun → WorkflowRun
collect step status run = record run {
  context = insert step.id (record { status = status; task_id = length run.tasks }) run.context;
}

-- The steps of `failed` that no policy tolerates.
unfoldable pub blocking :
    Workflow → List (WorkflowStep × StepRunStatus) → List (WorkflowStep × StepRunStatus)
blocking workflow outcomes = keep (λ o. is_failed o.1 && is_blocking workflow o.0) outcomes

-- `_finish`, with `_record_finish`
unfoldable pub finish : WorkflowRun → WorkflowRun
finish run =
    let count = failed_count run.steps in
    if eqb count 0
    then record run { status = RunStatus.completed; finishes = run.finishes + 1 }
    else record run {
      status = RunStatus.partial;
      error = some (tolerated_failures count);
      finishes = run.finishes + 1;
    }

-- What follows the outcomes of a level: `none` goes on with the next level.
unfoldable pub after_level :
    Workflow → List (WorkflowStep × StepRunStatus) → WorkflowRun → Option WorkflowRun
after_level workflow outcomes run =
    let stopped = blocking workflow outcomes in
    if any (λ o. is_waiting o.1) outcomes
    then some (record run { status = RunStatus.waiting })
    else if is_empty stopped
    then none
    else some (record run {
      status = RunStatus.failed;
      error = some (steps_failed (map (λ o. o.0.id) stopped));
      finishes = run.finishes + 1;
    })

-- What `resume` does to one step: a step in wait is pending again.
unfoldable pub reopen : WorkflowStepRun → WorkflowStepRun
reopen s = elim s.status [
  | StepRunStatus.waiting ↦ record s { status = StepRunStatus.pending; error = none }
  | StepRunStatus.running ↦ record s { status = StepRunStatus.pending; error = none }
  | _ ↦ s
]

module _ (condition : String → WorkflowRun → Verdict)
    (outcome : String → ℕ → WorkflowRun → Result TaskStatus) where
  -- `_condition_ok`: a broken condition does not authorise.
  unfoldable pub condition_ok : Option String → WorkflowRun → Bool
  condition_ok none run = true
  condition_ok (some expression) run =
      if expression == ""
      then true
      else elim (condition expression run) [ holds b ↦ b | broken e ↦ false ]

  -- `for attempt in range(1, attempts + 1)`, with the attempts left.
  unfoldable pub attempts_loop : ℕ → ℕ → WorkflowStep → WorkflowRun → Attempts × WorkflowRun
  attempts_loop zero attempt step run = (exhausted, run)
  attempts_loop (suc left) attempt step run =
      let begun = begin_attempt step attempt run in
      elim (outcome step.id attempt begun) [
        | err e ↦ (aborted e, begun)
        | ok status ↦
            let run' = collect step status begun in
            let again =
              attempts_loop left (suc attempt) step
                (change step.id (λ s. record s { error = some (task_ended status) }) run') in
            elim status [
              | TaskStatus.completed ↦
                  (succeeded, change step.id (set_status StepRunStatus.completed none) run')
              | TaskStatus.requires_approval ↦ (
                paused,
                change step.id (set_status StepRunStatus.waiting (some awaiting_approval)) run',
              )
              | _ ↦ again
            ]
      ]

  -- `_run_step` up to the call of `_compensate`: the status of the step, or what its task raised, the
  -- run, and the step that `_compensate` is to run.
  unfoldable pub attempt_step :
      Workflow
      → WorkflowStep
      → WorkflowRun
      → Result StepRunStatus × WorkflowRun × Option WorkflowStep
  attempt_step workflow step run =
      let started = change step.id (λ s. record s { status = StepRunStatus.running }) run in
      let (ended, run') = attempts_loop (attempts_of step) 1 step started in
      elim (condition_ok step.condition started) [
        | false ↦ (
          ok StepRunStatus.skipped,
          change step.id (λ s. record s { status = StepRunStatus.skipped }) started,
          none,
        )
        | true ↦ elim ended [
          | succeeded ↦ (ok StepRunStatus.completed, run', none)
          | paused ↦ (ok StepRunStatus.waiting, run', none)
          | aborted e ↦ (err e, run', none)
          | exhausted ↦ (
            ok StepRunStatus.failed,
            change step.id (λ s. record s { status = StepRunStatus.failed }) run',
            compensator workflow step,
          )
        ]
      ]

  -- `_run_step` and `_compensate`, which call each other; the fuel counts the calls. `none` is a
  -- call that has not returned.
  unfoldable pub run_step :
      ℕ → Workflow → WorkflowStep → WorkflowRun → Option (Result StepRunStatus × WorkflowRun)
  run_step zero workflow step run = none
  run_step (suc fuel) workflow step run =
      let (status, run', to_run) = attempt_step workflow step run in
      elim to_run [
        | none ↦ some (status, run')
        | some undo ↦
            elim (run_step fuel workflow undo
              (record run' { compensations = (step.id, undo.id) ∷ run'.compensations })) [
                | none ↦ none
                | some (err e, run'') ↦ some (err e, run'')
                | some (ok _, run'') ↦ some (ok (status_of run'' step.id), run'')
              ]
      ]

  -- `_run_level`: the outcomes in the order of the steps, or what a task raised.
  unfoldable pub run_level :
      ℕ
      → Workflow
      → List WorkflowStep
      → WorkflowRun
      → Option (Result (List (WorkflowStep × StepRunStatus)) × WorkflowRun)
  run_level fuel workflow [] run = some (ok [], run)
  run_level fuel workflow (step ∷ steps) run = elim (run_step fuel workflow step run) [
    | none ↦ none
    | some (err e, run') ↦ some (err e, run')
    | some (ok status, run') ↦ elim (run_level fuel workflow steps run') [
      | none ↦ none
      | some (err e, run'') ↦ some (err e, run'')
      | some (ok outcomes, run'') ↦ some (ok ((step, status) ∷ outcomes), run'')
    ]
  ]

  -- The loop of `execute` over the levels, and `_finish` behind it.
  unfoldable pub run_levels :
      ℕ → Workflow → List (List WorkflowStep) → WorkflowRun → Option (Result WorkflowRun)
  run_levels fuel workflow [] run = some (ok (finish run))
  run_levels fuel workflow (level ∷ rest) run =
      let skipped = skip_blocked level run in
      let pending = keep (λ step. not (is_terminal skipped step.id)) level in
      elim (is_empty pending) [
        | true ↦ run_levels fuel workflow rest skipped
        | false ↦ elim (run_level fuel workflow pending skipped) [
          | none ↦ none
          | some (err e, run') ↦ some (err e)
          | some (ok outcomes, run') ↦ elim (after_level workflow outcomes run') [
            | some stopped ↦ some (ok stopped)
            | none ↦ run_levels fuel workflow rest run'
          ]
        ]
      ]

  -- `execute`: nothing for a finished run, else the levels in their order.
  unfoldable pub execute : ℕ → Workflow → WorkflowRun → Option (Result WorkflowRun)
  execute fuel workflow run =
      let going = record run { status = RunStatus.running } in
      if finished run.status then some (ok run) else elim (levels workflow) [
        | none ↦ none
        | some (err e) ↦ some (err e)
        | some (ok ls) ↦ run_levels fuel workflow (map (map (λ e. e.1)) ls) going
      ]

  unfoldable pub resume : ℕ → Workflow → WorkflowRun → Option (Result WorkflowRun)
  resume fuel workflow run =
      if finished run.status
      then some (ok run)
      else execute fuel workflow (record run { steps = map reopen run.steps })
