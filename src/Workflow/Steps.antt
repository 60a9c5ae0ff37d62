-- ===== src/Workflow/Steps.antt =====
-- Steps are held back behind dependencies that are not completed, and retried as often as
-- declared: `_skip_blocked` and `_run_step` of src/egr/runtime/workflow_engine.py.
use mathlib.Core.Path.{fun_ext}
use enterprise_agi_runtime.Prelude.{
  String, ◌≡◌, refl, ap, ◌∙◌, inl, inr, ◌⊎◌, true, false, Option, none, some, List, [], ◌∷◌, arith,
  ◌==◌, eq_iff, all, Bool-cases, Option-cases, All, if◌then◌else◌,
}
use enterprise_agi_runtime.Workflow.{
  WorkflowStep, WorkflowStepRun, WorkflowRun, StepRunStatus, find_step, change_step, new_step,
  terminal_status, dependency_not_completed,
}
use enterprise_agi_runtime.Workflow.Engine.{
  change, set_status, dependency_completed, is_terminal, first_broken, skip_step, skip_blocked,
}

abbrev or_new : String → Option WorkflowStepRun → WorkflowStepRun
or_new k none = new_step k
or_new k (some s) = s

find-change_step :
    (k j : String) (f : WorkflowStepRun → WorkflowStepRun) (steps : List WorkflowStepRun)
    → ((s : WorkflowStepRun) → (f s).id ≡ s.id)
    → find_step j (change_step k f steps)
      ≡ (if k == j then some (f (or_new k (find_step k steps))) else find_step j steps)
unfolding find_step change_step
find-change_step k j f [] same = rw (same (new_step k)) refl
find-change_step k j f (s ∷ steps) same =
    ground
      (arith, same s, eq_iff s.id k, eq_iff s.id j, eq_iff k j, find-change_step k j f steps same)

abbrev skip : String → WorkflowStepRun → WorkflowStepRun
skip dependency = set_status StepRunStatus.skipped (some (dependency_not_completed dependency))

module _ (step : WorkflowStep) (run : WorkflowRun) where
  -- What `_skip_blocked` does to one step.
  skip_step_cases :
      (skip_step step run ≡ change step.id (λ s. s) run)
        × ((is_terminal run step.id ≡ true) ⊎ (first_broken run step.depends_on ≡ none))
      ⊎ ((dependency : String) × (skip_step step run ≡ change step.id (skip dependency) run)
          × (is_terminal run step.id ≡ false))
  unfolding skip_step
  skip_step_cases = elim (Bool-cases (is_terminal run step.id)) [
    | inl e ↦ inl (rw e, inl e)
    | inr e ↦ elim (Option-cases (first_broken run step.depends_on)) [
      | inl f ↦ inl (rw (e, f), inr f)
      | inr (dependency, f) ↦ inr (dependency, rw (e, f), e)
    ]
  ]

  kept_completed :
      (d : String)
      → dependency_completed (change step.id (λ s. s) run) d ≡ dependency_completed run d
  unfolding dependency_completed
  kept_completed d =
      ground (arith, find-change_step step.id d (λ s. s) run.steps (λ s. refl), eq_iff step.id d)

  kept_terminal : (d : String) → is_terminal (change step.id (λ s. s) run) d ≡ is_terminal run d
  unfolding is_terminal terminal_status
  kept_terminal d =
      ground (arith, find-change_step step.id d (λ s. s) run.steps (λ s. refl), eq_iff step.id d)

  skipped_completed :
      (dependency d : String)
      → is_terminal run step.id ≡ false
      → dependency_completed (change step.id (skip dependency) run) d ≡ dependency_completed run d
  unfolding dependency_completed is_terminal terminal_status
  skipped_completed dependency d h =
      ground (
        arith,
        find-change_step step.id d (skip dependency) run.steps (λ s. refl),
        eq_iff step.id d,
      )

  skipped_terminal :
      (dependency d : String)
      → is_terminal run d ≡ true
      → is_terminal (change step.id (skip dependency) run) d ≡ true
  unfolding is_terminal terminal_status
  skipped_terminal dependency d h =
      ground (
        arith,
        find-change_step step.id d (skip dependency) run.steps (λ s. refl),
        eq_iff step.id d,
      )

  skipped_itself :
      (dependency : String) → is_terminal (change step.id (skip dependency) run) step.id ≡ true
  unfolding is_terminal terminal_status
  skipped_itself dependency = ground (
    arith,
    find-change_step step.id step.id (skip dependency) run.steps (λ s. refl),
    eq_iff step.id step.id,
  )

  skip_step-completed :
      (d : String) → dependency_completed (skip_step step run) d ≡ dependency_completed run d
  skip_step-completed d = elim skip_step_cases [
    | inl (e, why) ↦ rw e (kept_completed d)
    | inr (dependency, e, live) ↦ rw e (skipped_completed dependency d live)
  ]

  skip_step-terminal :
      (d : String) → is_terminal run d ≡ true → is_terminal (skip_step step run) d ≡ true
  skip_step-terminal d h = elim skip_step_cases [
    | inl (e, why) ↦ rw e (kept_terminal d ∙ h)
    | inr (dependency, e, live) ↦ rw e (skipped_terminal dependency d h)
  ]

  skip_step-done :
      (is_terminal (skip_step step run) step.id ≡ true) ⊎ (first_broken run step.depends_on ≡ none)
  skip_step-done = elim skip_step_cases [
    | inl (e, inl ended) ↦ inl (rw e (kept_terminal step.id ∙ ended))
    | inl (e, inr clear) ↦ inr clear
    | inr (dependency, e, live) ↦ inl (rw e (skipped_itself dependency))
  ]

first_broken-none :
    (run : WorkflowRun) (ds : List String)
    → first_broken run ds ≡ none
    → all (dependency_completed run) ds ≡ true
unfolding first_broken
first_broken-none run [] h = refl
first_broken-none run (d ∷ ds) h = ground (arith, first_broken-none run ds)

skip_blocked-completed :
    (level : List WorkflowStep) (run : WorkflowRun) (d : String)
    → dependency_completed (skip_blocked level run) d ≡ dependency_completed run d
unfolding skip_blocked
skip_blocked-completed [] run d = refl
skip_blocked-completed (step ∷ level) run d =
    skip_blocked-completed level (skip_step step run) d ∙ skip_step-completed step run d

skip_blocked-terminal :
    (level : List WorkflowStep) (run : WorkflowRun) (d : String)
    → is_terminal run d ≡ true
    → is_terminal (skip_blocked level run) d ≡ true
unfolding skip_blocked
skip_blocked-terminal [] run d h = h
skip_blocked-terminal (step ∷ level) run d h =
    skip_blocked-terminal level (skip_step step run) d (skip_step-terminal step run d h)

-- A step that may still run after `_skip_blocked` has every dependency completed; every other
-- step of the level is ended.
abbrev pub MayRun : WorkflowRun → WorkflowStep → Type 0
MayRun run step =
    (is_terminal run step.id ≡ true) ⊎ (all (dependency_completed run) step.depends_on ≡ true)

may_run :
    (step : WorkflowStep) (level : List WorkflowStep) (run : WorkflowRun)
    → MayRun (skip_blocked (step ∷ level) run) step
unfolding skip_blocked
may_run step level run = elim (skip_step-done step run) [
  | inl ended ↦ inl (skip_blocked-terminal level (skip_step step run) step.id ended)
  | inr clear ↦
      let same : dependency_completed (skip_blocked level (skip_step step run))
          ≡ dependency_completed run =
        fun_ext (λ d.
          skip_blocked-completed level (skip_step step run) d ∙ skip_step-completed step run d) in
      inr (ap (λ f. all f step.depends_on) same ∙ first_broken-none run step.depends_on clear)
]

all-MayRun :
    (level : List WorkflowStep) (run : WorkflowRun) → All (MayRun (skip_blocked level run)) level
unfolding skip_blocked
all-MayRun [] run = tt
all-MayRun (step ∷ level) run = (may_run step level run, all-MayRun level (skip_step step run))

-- When `_skip_blocked` returns, each step of the level has ended or has all its dependencies
-- completed. The call completes no step and reopens none.
pub skip_blocked-MayRun :
    (level : List WorkflowStep) (run : WorkflowRun)
    → All (MayRun (skip_blocked level run)) level
      × ((d : String)
          → dependency_completed (skip_blocked level run) d ≡ dependency_completed run d)
      × ((d : String)
          → (is_terminal run d ≡ false) ⊎ (is_terminal (skip_blocked level run) d ≡ true))
skip_blocked-MayRun level run = (
  all-MayRun level run,
  skip_blocked-completed level run,
  λ d. elim (Bool-cases (is_terminal run d)) [
    | inl ended ↦ inr (skip_blocked-terminal level run d ended)
    | inr pending ↦ inl pending
  ],
)
