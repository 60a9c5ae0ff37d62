-- ===== src/Agent/Ending.antt =====
-- How a task ends: `AgentEngine._finish`, `_synthesize` and `_fail` of
-- src/egr/runtime/agent_engine.py.
use enterprise_agi_runtime.Prelude.{
  suc, String, ◌&&◌, not, Option, none, some, List, [], ◌∷◌, ◌++◌, ◌==◌, is_empty, keep, length,
  if◌then◌else◌,
}
use enterprise_agi_runtime.Prelude.Exec.{ok, err}
use enterprise_agi_runtime.Prelude.Text.{concat, decimal}
use enterprise_agi_runtime.Domain.{TaskStatus}
use enterprise_agi_runtime.Policy.{AgentSpec}
use enterprise_agi_runtime.Agent.{Plan, StepRecord, Task, MemoryKind, EventType}
use enterprise_agi_runtime.Agent.Engine.{
  Session, log, store, result_of, remember, refuse_namespace, scoped_namespace,
}

-- `lines` joined by line ends
unfoldable pub join_lines : List String → String
join_lines [] = ""
join_lines (s ∷ []) = s
join_lines (s ∷ t ∷ lines) = concat (s ∷ "\n" ∷ join_lines (t ∷ lines) ∷ [])

abbrev pub ended_event : TaskStatus → EventType
ended_event TaskStatus.completed = EventType.task_completed
ended_event _ = EventType.task_failed

module _ {N : Type 0} where
  abbrev verdict_word : StepRecord N → String
  verdict_word step =
      if step.ok then "ok" else if step.decision == "deny" then "negado" else "falhou"

  unfoldable pub step_lines : List (StepRecord N) → List String
  step_lines [] = []
  step_lines (step ∷ steps) =
      concat ("- " ∷ step.id ∷ " " ∷ step.tool ∷ ": " ∷ verdict_word step ∷ []) ∷ step_lines steps

  -- `_synthesize`
  unfoldable pub synthesize : Task N → String
  synthesize task =
      let result = result_of task in
      join_lines (
        concat ("Objetivo: " ∷ task.objective ∷ [])
          ∷ ""
          ∷ "Passos executados:"
          ∷ step_lines result.steps
        ++ (if is_empty result.artifacts
            then []
            else "" ∷ concat ("Artefatos: " ∷ decimal (length result.artifacts) ∷ []) ∷ []))

  -- How `_finish` reads the records of the steps: the status, and the error it leaves.
  unfoldable pub verdict : Option String → List (StepRecord N) → TaskStatus × Option String
  verdict error steps =
      let failures = keep (λ r. not r.ok) steps in
      let successes = keep (λ r. r.ok) steps in
      if not (is_empty successes) && not (is_empty failures)
      then (
        TaskStatus.completed,
        some (concat (decimal (length failures) ∷ " step(s) failed" ∷ [])),
      )
      else elim failures [
        | [] ↦ (TaskStatus.completed, error)
        | r ∷ rest ↦ (
          TaskStatus.failed,
          some (elim r.error [
            | none ↦ "all steps failed"
            | some e ↦ if e == "" then "all steps failed" else e
          ]),
        )
      ]

  unfoldable pub finished_task : Plan N → Task N → Task N
  finished_task plan task =
      let result = result_of task in
      let answer = if plan.final_answer == "" then synthesize task else plan.final_answer in
      let (status, error) = verdict task.error result.steps in
      record task {
        status = status;
        error = error;
        result = some (record result { answer = answer });
      }

  -- `_finish`: without a namespace to write to, it returns before the last event.
  unfoldable pub finish : AgentSpec → Plan N → Session N → Session N
  finish agent plan s =
      let ended = store (finished_task plan s.task) s in
      elim (scoped_namespace agent) [
        | err e ↦ refuse_namespace agent ended
        | ok namespace ↦
            log (ended_event ended.task.status) agent ""
              (remember MemoryKind.episodic agent namespace ended)
      ]

  -- `_fail`
  unfoldable pub fail : AgentSpec → String → EventType → Session N → Session N
  fail agent why event_type s =
      let failed = record s.task {
        result = some (result_of s.task);
        status = TaskStatus.failed;
        error = some why;
      } in
      log EventType.task_failed agent why (log event_type agent why (store failed s))

  abbrev pub to_next : Task N → Task N
  to_next task = record task { cursor = suc task.cursor }

  abbrev pub clear_pending : Task N → Task N
  clear_pending task = record task { pending_approval = none; pending_step = none }
