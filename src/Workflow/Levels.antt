-- ===== src/Workflow/Levels.antt =====
-- The levels of a workflow: `WorkflowEngine.levels` of src/egr/runtime/workflow_engine.py (Kahn).
use enterprise_agi_runtime.Prelude.{
  ℕ, zero, suc, ◌+◌, String, Bool, not, Option, none, some, List, [], ◌∷◌, ◌++◌, all, contains,
  keep, length, is_empty, map, Dict, insert, if◌then◌else◌,
}
use enterprise_agi_runtime.Prelude.Exec.{Result, ok, err, config_error, cycle}
use enterprise_agi_runtime.Prelude.Sort.{sorted, text_lt}
use enterprise_agi_runtime.Workflow.{WorkflowStep, Workflow}

-- `{step.id: step for step in workflow.steps}`. The dictionary `remaining` of the source has the
-- same keys, and holds the dependencies of the same steps.
unfoldable pub by_id : List WorkflowStep → Dict WorkflowStep → Dict WorkflowStep
by_id [] d = d
by_id (step ∷ steps) d = by_id steps (insert step.id step d)

-- `deps <= resolved`
unfoldable pub is_ready : List String → WorkflowStep → Bool
is_ready resolved step = all (λ dependency. contains dependency resolved) step.depends_on

abbrev pub step_before : String × WorkflowStep → String × WorkflowStep → Bool
step_before a b = text_lt a.0 b.0

unfoldable pub ready_steps : List String → Dict WorkflowStep → Dict WorkflowStep
ready_steps resolved remaining = sorted step_before (keep (λ e. is_ready resolved e.1) remaining)

-- What `remaining.pop` leaves for each ready step: the steps that are not ready.
unfoldable pub blocked_steps : List String → Dict WorkflowStep → Dict WorkflowStep
blocked_steps resolved remaining = keep (λ e. not (is_ready resolved e.1)) remaining

abbrev pub keys : Dict WorkflowStep → List String
keys = map (λ e. e.0)

module _ {A : Type 0} where
  abbrev pub add_level : A → Option (Result (List A)) → Option (Result (List A))
  add_level level none = none
  add_level level (some (err e)) = some (err e)
  add_level level (some (ok levels)) = some (ok (level ∷ levels))

-- The loop, on fuel; `none` would be a loop that is still running.
unfoldable pub levels_loop :
    ℕ → Dict WorkflowStep → List String → Option (Result (List (Dict WorkflowStep)))
levels_loop zero remaining resolved = none
levels_loop (suc fuel) [] resolved = some (ok [])
levels_loop (suc fuel) (e ∷ remaining) resolved =
    let ready = ready_steps resolved (e ∷ remaining) in
    let rest = levels_loop fuel (blocked_steps resolved (e ∷ remaining)) (keys ready ++ resolved) in
    if is_empty ready then some (err (config_error cycle)) else add_level ready rest

-- One round for each step, and the last look.
unfoldable pub levels : Workflow → Option (Result (List (Dict WorkflowStep)))
levels workflow = let steps = by_id workflow.steps [] in levels_loop (length steps + 1) steps []
