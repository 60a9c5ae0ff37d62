-- ===== src/Workflow/Runs.antt =====
-- How a run ends: `WorkflowEngine.execute` of src/egr/runtime/workflow_engine.py.
use enterprise_agi_runtime.Prelude.{
  ℕ, String, ◌≡◌, refl, ap, inl, inr, true, false, not, some, List, [], ◌∷◌, arith, ◌==◌, keep,
  is_empty, map, eqb, Bool-cases, Option-cases, All, Dict, if◌then◌else◌,
}
use enterprise_agi_runtime.Prelude.Exec.{Result, ok, err, Result-cases}
use enterprise_agi_runtime.Domain.{TaskStatus}
use enterprise_agi_runtime.Policy.Engine.{Verdict}
use enterprise_agi_runtime.Workflow.{
  Workflow, WorkflowStep, WorkflowStepRun, WorkflowRun, StepRunStatus, RunStatus, find_step,
  change_step, finished, failed_count,
}
use enterprise_agi_runtime.Workflow.Levels.{levels}
use enterprise_agi_runtime.Workflow.Engine.{
  is_terminal, skip_step, skip_blocked, run_level, after_level, finish, run_levels, execute,
}

change_step-same :
    (k : String) (steps : List WorkflowStepRun) (s : WorkflowStepRun)
    → find_step k steps ≡ some s
    → change_step k (λ s. s) steps ≡ steps
unfolding find_step change_step
change_step-same k [] s h = absurd (cc)
change_step-same k (x ∷ steps) s h = elim (Bool-cases (x.id == k)) [
  | inl e ↦ rw e
  | inr e ↦ rw e (ap (◌∷◌ x) (change_step-same k steps s (ground arith)))
]

skip_step-ended :
    (step : WorkflowStep) (run : WorkflowRun)
    → is_terminal run step.id ≡ true
    → skip_step step run ≡ run
unfolding skip_step
skip_step-ended step run h = rw h (
    unfold is_terminal in
    elim (Option-cases (find_step step.id run.steps)) [
      | inl e ↦ absurd (ground arith)
      | inr (s, e) ↦ ap (λ x. record run { steps = x }) (change_step-same step.id run.steps s e)
    ])

abbrev pub Ended : WorkflowRun → List WorkflowStep → Type 0
Ended run level = All (λ step. is_terminal run step.id ≡ true) level

skip_blocked-Ended :
    (level : List WorkflowStep) (run : WorkflowRun) → Ended run level → skip_blocked level run ≡ run
unfolding skip_blocked
skip_blocked-Ended [] run h = refl
skip_blocked-Ended (step ∷ level) run h =
    rw (skip_step-ended step run h.0) (skip_blocked-Ended level run h.1)

nothing_pending :
    (level : List WorkflowStep) (run : WorkflowRun)
    → Ended run level
    → keep (λ step. not (is_terminal run step.id)) level ≡ []
nothing_pending [] run h = refl
nothing_pending (step ∷ level) run h = rw h.0 (nothing_pending level run h.1)

finish-status :
    (run : WorkflowRun)
    → (finish run).status
      ≡ (if eqb (failed_count run.steps) 0 then RunStatus.completed else RunStatus.partial)
unfolding finish
finish-status run = ground arith

finish-completed :
    (run r : WorkflowRun)
    → finish run ≡ r
    → r.status ≡ RunStatus.completed
    → failed_count r.steps ≡ 0
unfolding finish
finish-completed run r h c = ground arith

after_level-not_completed :
    (workflow : Workflow) (outcomes : List (WorkflowStep × StepRunStatus)) (run r : WorkflowRun)
    → after_level workflow outcomes run ≡ some r
    → ¬ (r.status ≡ RunStatus.completed)
unfolding after_level
after_level-not_completed workflow outcomes run r h c = ground arith

module _ (condition : String → WorkflowRun → Verdict)
    (outcome : String → ℕ → WorkflowRun → Result TaskStatus) where
  run_levels-Ended :
      (fuel : ℕ) (workflow : Workflow) (ls : List (List WorkflowStep)) (run : WorkflowRun)
      → All (Ended run) ls
      → run_levels condition outcome fuel workflow ls run ≡ some (ok (finish run))
  unfolding run_levels
  run_levels-Ended fuel workflow [] run h = refl
  run_levels-Ended fuel workflow (level ∷ ls) run h = ground (
    arith,
    skip_blocked-Ended level run h.0,
    nothing_pending level run h.0,
    run_levels-Ended fuel workflow ls run h.1,
  )

  run_levels-completed :
      (fuel : ℕ) (workflow : Workflow) (ls : List (List WorkflowStep)) (run r : WorkflowRun)
      → run_levels condition outcome fuel workflow ls run ≡ some (ok r)
      → r.status ≡ RunStatus.completed
      → failed_count r.steps ≡ 0
  unfolding run_levels
  run_levels-completed fuel workflow [] run r h c = finish-completed run r (ground arith) c
  run_levels-completed fuel workflow (level ∷ ls) run r h c =
      let skipped = skip_blocked level run in
      let pending = keep (λ step. not (is_terminal skipped step.id)) level in
      elim (Bool-cases (is_empty pending)) [
        | inl empty ↦ run_levels-completed fuel workflow ls skipped r (ground arith) c
        | inr work ↦
            elim (Option-cases (run_level condition outcome fuel workflow pending skipped)) [
              | inl out_of_fuel ↦ absurd (ground arith)
              | inr (t, done) ↦ elim (Result-cases t.0) [
                | inr (why, raised) ↦ absurd (ground arith)
                | inl (outcomes, back) ↦ elim (Option-cases (after_level workflow outcomes t.1)) [
                  | inl on ↦ run_levels-completed fuel workflow ls t.1 r (ground arith) c
                  | inr (stopped, e) ↦
                      absurd
                        (after_level-not_completed workflow outcomes t.1 stopped e (ground arith))
                ]
              ]
            ]
      ]

  -- When `execute` is given an unfinished run and ends it as completed, no step of it has failed.
  pub execute-completed :
      (fuel : ℕ) (workflow : Workflow) (run r : WorkflowRun)
      → finished run.status ≡ false
      → execute condition outcome fuel workflow run ≡ some (ok r)
      → r.status ≡ RunStatus.completed
      → failed_count r.steps ≡ 0
  unfolding execute
  execute-completed fuel workflow run r going h c = elim (Option-cases (levels workflow)) [
    | inl e ↦ absurd (ground arith)
    | inr (err x, e) ↦ absurd (ground arith)
    | inr (ok ls, e) ↦
        let started = record run { status = RunStatus.running } in
        let todo = map (map (λ (s : String × WorkflowStep). s.1)) ls in
        run_levels-completed fuel workflow todo started r (ground arith) c
  ]

  -- When every step of an unfinished run has ended, also by a failure that its policy does not
  -- tolerate, and the workflow has levels, `execute` ends the run as completed or partial, by
  -- the number of failed steps.
  pub execute-Ended :
      (fuel : ℕ) (workflow : Workflow) (run : WorkflowRun) (ls : List (Dict WorkflowStep))
      → finished run.status ≡ false
      → levels workflow ≡ some (ok ls)
      → All (Ended run) (map (map (λ e. e.1)) ls)
      → (r : WorkflowRun) × (execute condition outcome fuel workflow run ≡ some (ok r))
        × (r.status
            ≡ (if eqb (failed_count run.steps) 0 then RunStatus.completed else RunStatus.partial))
  unfolding execute is_terminal
  execute-Ended fuel workflow run ls going sorted ended =
      let started = record run { status = RunStatus.running } in
      let todo = map (map (λ (s : String × WorkflowStep). s.1)) ls in
      (
        finish started,
        ground (arith, run_levels-Ended fuel workflow todo started ended),
        finish-status started,
      )
