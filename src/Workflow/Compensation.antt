-- ===== src/Workflow/Compensation.antt =====
-- Attempts and compensation of one step: `_run_step` and `_compensate` of
-- src/egr/runtime/workflow_engine.py.
use enterprise_agi_runtime.Prelude.{
  ℕ, zero, suc, ◌+◌, ◌≤◌, ◌<◌, String, ◌≡◌, refl, inl, inr, true, none, some, ◌∷◌, arith, length,
}
use enterprise_agi_runtime.Prelude.Exec.{Result, ok, Result-cases}
use enterprise_agi_runtime.Domain.{TaskStatus}
use enterprise_agi_runtime.Policy.Engine.{Verdict}
use enterprise_agi_runtime.Workflow.{Workflow, WorkflowStep, WorkflowRun, StepRunStatus, task_ended}
use enterprise_agi_runtime.Workflow.Engine.{
  change, compensator, Attempts, exhausted, begin_attempt, collect, attempts_loop, attempts_of,
  condition_ok, run_step, attempt_step,
}

-- The compensator of a step, if it has one, has a lower rank.
abbrev pub Falls : Workflow → (String → ℕ) → WorkflowStep → Type 0
Falls workflow rank step =
    (undo : WorkflowStep) → compensator workflow step ≡ some undo → rank undo.id < rank step.id

module _ (condition : String → WorkflowRun → Verdict)
    (outcome : String → ℕ → WorkflowRun → Result TaskStatus) where
  abbrev pub after_attempts : ℕ → ℕ → WorkflowStep → WorkflowRun → Attempts × WorkflowRun
  after_attempts = attempts_loop condition outcome

  -- The attempts of a step make at most as many tasks as are left to make, and give up only when
  -- they have made all of them.
  attempts_loop-tasks :
      (left attempt : ℕ) (step : WorkflowStep) (run : WorkflowRun)
      → (length run.tasks ≤ length (after_attempts left attempt step run).1.tasks)
        × (length (after_attempts left attempt step run).1.tasks ≤ length run.tasks + left)
        × ((after_attempts left attempt step run).0 ≡ exhausted
            → length (after_attempts left attempt step run).1.tasks ≡ length run.tasks + left)
  unfolding attempts_loop begin_attempt collect
  attempts_loop-tasks zero attempt step run = (omega arith, omega arith, λ _. omega arith)
  attempts_loop-tasks (suc left) attempt step run =
      let begun = begin_attempt step attempt run in
      elim (Result-cases (outcome step.id attempt begun)) [
        | inr (why, e) ↦ ground arith
        | inl (status, e) ↦ ground (
          arith,
          attempts_loop-tasks left (suc attempt) step (
              change step.id (λ s. record s { error = some (task_ended status) })
                (collect step status begun)),
        )
      ]

  -- When the loop over the attempts of a step gives up, it has made as many tasks as it was given
  -- attempts.
  pub attempts_loop-exhausted :
      (left attempt : ℕ) (step : WorkflowStep) (run : WorkflowRun)
      → (after_attempts left attempt step run).0 ≡ exhausted
      → length (after_attempts left attempt step run).1.tasks ≡ length run.tasks + left
  attempts_loop-exhausted left attempt step run h = (attempts_loop-tasks left attempt step run).2 h

  always_exhausted :
      (left attempt : ℕ) (step : WorkflowStep) (run : WorkflowRun)
      → ((k : ℕ) (r : WorkflowRun) → outcome step.id k r ≡ ok TaskStatus.failed)
      → (after_attempts left attempt step run).0 ≡ exhausted
  unfolding attempts_loop
  always_exhausted zero attempt step run h = refl
  always_exhausted (suc left) attempt step run h = ground (
    arith,
    h attempt (begin_attempt step attempt run),
    always_exhausted left (suc attempt) step
        (change step.id (λ s. record s { error = some (task_ended TaskStatus.failed) })
          (collect step TaskStatus.failed (begin_attempt step attempt run)))
        h,
  )

  fails_to_itself :
      (workflow : Workflow) (step : WorkflowStep)
      → compensator workflow step ≡ some step
      → ((r : WorkflowRun) → condition_ok condition outcome step.condition r ≡ true)
      → ((k : ℕ) (r : WorkflowRun) → outcome step.id k r ≡ ok TaskStatus.failed)
      → (run : WorkflowRun) → (attempt_step condition outcome workflow step run).2 ≡ some step
  unfolding attempt_step
  fails_to_itself workflow step itself holds fails run =
      let started = change step.id (λ s. record s { status = StepRunStatus.running }) run in
      ground (arith, holds started, always_exhausted (attempts_of step) 1 step started fails)

  -- A step that compensates with itself, whose condition holds and whose tasks fail, never
  -- returns: no number of calls is enough.
  pub self_compensation_diverges :
      (workflow : Workflow) (step : WorkflowStep)
      → compensator workflow step ≡ some step
      → ((r : WorkflowRun) → condition_ok condition outcome step.condition r ≡ true)
      → ((k : ℕ) (r : WorkflowRun) → outcome step.id k r ≡ ok TaskStatus.failed)
      → (fuel : ℕ) (run : WorkflowRun) → run_step condition outcome fuel workflow step run ≡ none
  unfolding run_step
  self_compensation_diverges workflow step itself holds fails zero run = refl
  self_compensation_diverges workflow step itself holds fails (suc fuel) run =
      let r = attempt_step condition outcome workflow step run in
      ground (
        arith,
        fails_to_itself workflow step itself holds fails run,
        self_compensation_diverges workflow step itself holds fails fuel
            (record (r.1) { compensations = (step.id, step.id) ∷ r.1.compensations }),
      )
