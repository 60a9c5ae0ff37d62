-- ===== src/Agent/Outcomes.antt =====
-- How `AgentEngine.run` of src/egr/runtime/agent_engine.py ends, for a task that has its plan and for
-- one that has to be planned.
use mathlib.Core.Path.{subst}
use enterprise_agi_runtime.Prelude.{
  ◌+◌, String, ◌≡◌, refl, sym, ap, ◌∙◌, ◌⊎◌, inl, inr, true, false, Option, none, some, List, [],
  ◌∷◌, ◌++◌, length, lookup, insert, lookup-insert_self, arith,
}
use enterprise_agi_runtime.Prelude.Exec.{ok, err, Result-cases}
use enterprise_agi_runtime.Domain.{TaskStatus}
use enterprise_agi_runtime.Policy.{AgentSpec, Decision}
use enterprise_agi_runtime.Agent.{
  PlanStep, Plan, StepRecord, Task, World, Site, EventType, record_event, save,
}
use enterprise_agi_runtime.Agent.Engine.{
  Session, log, store, result_of, executor, remember, refuse_namespace, scoped_namespace, effective,
  step_decision,
}
use enterprise_agi_runtime.Agent.Ending.{finish, finished_task, verdict}
use enterprise_agi_runtime.Agent.Loop.{from_index, started, ask}
use enterprise_agi_runtime.Agent.Run.{
  Progress, going, waiting, act, turn, work, adopted, plan_from, plan_of, closed, carry_out,
  run_with, outcome, run,
}
use enterprise_agi_runtime.Agent.Growth.{session_of, Progress-cases, decision_cases}
use enterprise_agi_runtime.Agent.Foreseen.{trace_of, foreseen, will_wait, Advanced, work-Foreseen}

-- The status that the records of the steps give a task that has ended.
abbrev pub ended_status : {N : Type 0} → Task N → TaskStatus
ended_status task = (verdict none (result_of task).steps).0

module _ {N : Type 0} where
  verdict_status :
      (error : Option String) (steps : List (StepRecord N))
      → (verdict error steps).0 ≡ (verdict none steps).0
  unfolding verdict
  verdict_status error steps = ground arith

  module _ (agent : AgentSpec) (plan : Plan N) (s : Session N) where
    finish-task : (finish agent plan s).task ≡ finished_task plan s.task
    unfolding finish store log remember refuse_namespace
    finish-task = elim (Result-cases (scoped_namespace agent)) [
      | inl (namespace, e) ↦ rw (finish, e) refl
      | inr (why, e) ↦ rw (finish, e) refl
    ]

    finish-tasks :
        (finish agent plan s).world.tasks
        ≡ insert (finished_task plan s.task).id (finished_task plan s.task) s.world.tasks
    unfolding finish store log remember refuse_namespace record_event save
    finish-tasks = elim (Result-cases (scoped_namespace agent)) [
      | inl (namespace, e) ↦ rw (finish, e) refl
      | inr (why, e) ↦ rw (finish, e) refl
    ]

    finish-trace : trace_of (finish agent plan s).task ≡ trace_of s.task
    unfolding finished_task result_of
    finish-trace = ap trace_of finish-task

    finish-cursor : (finish agent plan s).task.cursor ≡ s.task.cursor
    unfolding finished_task
    finish-cursor = ap (λ t. t.cursor) finish-task

    finish-status : (finish agent plan s).task.status ≡ ended_status (finish agent plan s).task
    unfolding finished_task result_of
    finish-status =
        ap (λ t. t.status) finish-task
        ∙ verdict_status s.task.error (result_of s.task).steps
        ∙ sym (ap ended_status finish-task)

    finish-stored :
        lookup (finish agent plan s).task.id (finish agent plan s).world.tasks
        ≡ some (finish agent plan s).task
    finish-stored = rw (finish-tasks, finish-task) (lookup-insert_self _ _ s.world.tasks)

module _ {N : Type 0} (site : Site N) (agent : AgentSpec) where
  -- A task that waits has just asked for an approval.
  abbrev Asked : Session N → Type 0
  Asked s' = (step : PlanStep N) × (d : Decision) × (s : Session N) × (s' ≡ ask site agent step d s)

  turn-Asked :
      (step : PlanStep N) (s s' : Session N) → turn site agent step s ≡ waiting s' → Asked s'
  unfolding turn act
  turn-Asked step s s' h =
      let d = effective site s.task (step_decision site agent s.task step) in
      let proposed = log EventType.action_proposed agent step.id s in
      elim (decision_cases d.decision) [
        | inl e ↦ let k = rw (turn, act, e) at h in absurd (cc)
        | inr (inl e) ↦ let k = rw (turn, act, e) at h in absurd (cc)
        | inr (inr e) ↦ (step, d, proposed, sym (ap session_of (rw (turn, act, e) at h)))
      ]

  work-Asked :
      (steps : List (PlanStep N)) (s s' : Session N)
      → work site agent steps s ≡ waiting s'
      → Asked s'
  unfolding work
  work-Asked [] s s' h = absurd (cc)
  work-Asked (step ∷ steps) s s' h = elim (Progress-cases (turn site agent step s)) [
    | inl (t, e) ↦ work-Asked steps t s' (rw (work, e) at h)
    | inr (t, e) ↦ turn-Asked step s s' (e ∙ (rw (work, e) at h))
  ]

  ask-stored :
      (step : PlanStep N) (d : Decision) (s : Session N)
      → lookup (ask site agent step d s).task.id (ask site agent step d s).world.tasks
        ≡ some (ask site agent step d s).task
  unfolding ask log store record_event save
  ask-stored step d s = lookup-insert_self _ _ _

  ask-status :
      (step : PlanStep N) (d : Decision) (s : Session N)
      → (ask site agent step d s).task.status ≡ TaskStatus.requires_approval
  unfolding ask log store
  ask-status step d s = refl

  -- How the loop and the end of `run` leave the task `s.task` with the remaining steps `steps`.
  pub record Outcome (task : Task N) (steps : List (PlanStep N)) (s : Session N) : Type 0 where
    pub trace :
        trace_of s.task ≡ trace_of task ++ foreseen site agent task.id task.environment steps
    pub cursor :
        s.task.cursor ≡ task.cursor + length (foreseen site agent task.id task.environment steps)
    pub ending :
        ((will_wait site agent task.id task.environment steps ≡ true)
          × (s.task.status ≡ TaskStatus.requires_approval))
        ⊎ ((will_wait site agent task.id task.environment steps ≡ false)
            × (s.task.status ≡ ended_status s.task))
    pub stored : lookup s.task.id s.world.tasks ≡ some s.task

  closed-Outcome :
      (plan : Plan N) (task : Task N) (steps : List (PlanStep N)) (p : Progress N)
      → Advanced task
          (foreseen site agent task.id task.environment steps)
          (will_wait site agent task.id task.environment steps)
          p
      → ((s : Session N) → p ≡ waiting s → Asked s)
      → Outcome task steps (closed site agent plan p)
  closed-Outcome plan task steps (going s) a asked = record {
    trace = finish-trace agent plan s ∙ a.trace;
    cursor = finish-cursor agent plan s ∙ a.cursor;
    ending = inr (sym a.stops, finish-status agent plan s);
    stored = finish-stored agent plan s;
  }
  closed-Outcome plan task steps (waiting s) a asked =
      let (step, d, s', e) = asked s refl in
      record {
        trace = a.trace;
        cursor = a.cursor;
        ending = inl (sym a.stops, ap (λ x. x.task.status) e ∙ ask-status step d s');
        stored =
            subst (λ x. lookup x.task.id x.world.tasks ≡ some x.task) (sym e)
              (ask-stored step d s');
      }

  pub carry_out-Outcome :
      (plan : Plan N) (s : Session N)
      → Outcome s.task (from_index s.task.cursor plan.steps) (carry_out site agent (adopted plan s))
  unfolding carry_out
  carry_out-Outcome plan s =
      let steps = from_index s.task.cursor plan.steps in
      closed-Outcome plan s.task steps (work site agent steps s) (work-Foreseen site agent steps s)
        (λ s'. work-Asked steps s s')

module _ {N : Type 0} (site : Site N) where
  -- Running a task that has its plan always returns. It records, in order, what the policies and the
  -- configuration say of the steps from the cursor on, up to the first that waits for a human,
  -- whatever the tools return, and moves the cursor as far. If a step waits, so does the task;
  -- otherwise it has the status that its records give it. The task is stored as it is returned.
  pub run-Outcome :
      (task : Task N) (plan : Plan N) (w : World N)
      → task.plan ≡ some plan
      → (t : Task N) × (v : World N) × (run site task w ≡ (ok t, v))
        × Outcome site
            (executor site task w).0
            task
            (from_index task.cursor plan.steps)
            (record { task = t; world = v })
  unfolding run run_with plan_of started result_of
  run-Outcome task plan w h =
      let (agent, found) = executor site task w in
      let s = started agent task found in
      let ended = carry_out site agent (adopted plan s) in
      let o = carry_out-Outcome site agent plan s in
      (
        ended.task,
        ended.world,
        ap
            (λ found_plan. outcome site s (elim (plan_from site agent s found_plan) [
              | err e ↦ err e
              | ok planning ↦ ok (carry_out site agent planning)
            ]))
            h,
        record { trace = o.trace; cursor = o.cursor; ending = o.ending; stored = o.stored },
      )
