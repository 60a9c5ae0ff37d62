-- ===== src/Agent/Planning.antt =====
-- What the model's answer can do to a run: the planning part of `AgentEngine.run` of
-- src/egr/runtime/agent_engine.py, with the limit on the steps of a plan.
use mathlib.Core.Path.{subst}
use enterprise_agi_runtime.Prelude.{
  ℕ, zero, suc, ◌+◌, ◌≤◌, String, ◌≡◌, refl, sym, ap, ◌∙◌, inl, inr, none, some, List, [], ◌∷◌,
  length, length-append, take, lookup, lookup-insert_self, arith, Option-cases, ◌⊎◌,
}
use enterprise_agi_runtime.Prelude.Exec.{ok, err, Error, Result, Result-cases, validation_error}
use enterprise_agi_runtime.Domain.{TaskStatus, Environment}
use enterprise_agi_runtime.Policy.{AgentSpec}
use enterprise_agi_runtime.Agent.{
  PlanStep, Plan, Task, World, Site, Answer, over_budget, unauthorized, broken, unreadable,
  malformed, planned, fallback_plan, record_event, save, aborted,
}
use enterprise_agi_runtime.Agent.Engine.{Session, log, store, result_of, executor}
use enterprise_agi_runtime.Agent.Ending.{fail}
use enterprise_agi_runtime.Agent.Loop.{from_index, started}
use enterprise_agi_runtime.Agent.Run.{
  Planning, adopted, refused, adopt, within_budget, on_answer, plan_from, plan_of, carry_out,
  run_with, outcome, run,
}
use enterprise_agi_runtime.Agent.Growth.{executor-executed}
use enterprise_agi_runtime.Agent.Foreseen.{trace_of, foreseen}
use enterprise_agi_runtime.Agent.Outcomes.{carry_out-Outcome, run-Outcome}

abbrev error_or : {A : Type 0} → Error → Result A → Error
error_or default (ok a) = default
error_or default (err e) = e

module _ {N : Type 0} (site : Site N) where
  length-foreseen-le :
      (agent : AgentSpec) (task_id : String) (environment : Environment) (steps : List (PlanStep N))
      → length (foreseen site agent task_id environment steps) ≤ length steps
  unfolding foreseen
  length-foreseen-le agent task_id environment [] = omega arith
  length-foreseen-le agent task_id environment (step ∷ steps) =
      ground (arith, length-foreseen-le agent task_id environment steps)

  length-from_index-le : {A : Type 0} (n : ℕ) (xs : List A) → length (from_index n xs) ≤ length xs
  unfolding from_index
  length-from_index-le zero xs = omega arith
  length-from_index-le (suc n) [] = omega arith
  length-from_index-le (suc n) (x ∷ xs) = omega (arith, length-from_index-le n xs)

  length-take-le : {A : Type 0} (n : ℕ) (xs : List A) → length (take n xs) ≤ n
  length-take-le zero xs = omega arith
  length-take-le (suc n) [] = omega arith
  length-take-le (suc n) (x ∷ xs) = omega (arith, length-take-le n xs)

  within_budget-le : (plan : Plan N) → length (within_budget site plan).steps ≤ site.max_steps
  unfolding within_budget
  within_budget-le plan = ground (arith, length-take-le site.max_steps plan.steps)

  -- A planning whose plan has at most `bound` steps, for the task of `s`.
  abbrev Bounded : ℕ → Session N → Result (Planning N) → Type 0
  Bounded bound s (err e) = Unit
  Bounded bound s (ok (refused s')) = trace_of s'.task ≡ trace_of s.task
  Bounded bound s (ok (adopted plan s')) =
      (trace_of s'.task ≡ trace_of s.task) × (length plan.steps ≤ bound)

  module _ (agent : AgentSpec) (bound : ℕ) (one : 1 ≤ bound) (limit : site.max_steps ≤ bound) where
    on_answer-Bounded :
        (s : Session N) (answer : Answer N) → Bounded bound s (on_answer site agent s answer)
    unfolding on_answer adopt fail fallback_plan log store result_of
    on_answer-Bounded s (over_budget why) = refl
    on_answer-Bounded s (unauthorized why) = refl
    on_answer-Bounded s (aborted e) = tt
    on_answer-Bounded s (broken why) = (refl, one)
    on_answer-Bounded s (unreadable why) = (refl, one)
    on_answer-Bounded s malformed = tt
    on_answer-Bounded s (planned plan) = (refl, omega (arith, within_budget-le plan))

    carried-le :
        (s : Session N) (r : Result (Planning N)) (planning : Planning N)
        → r ≡ ok planning
        → Bounded bound s r
        → length (trace_of (carry_out site agent planning).task) ≤ length (trace_of s.task) + bound
    unfolding carry_out
    carried-le s r (refused s') e b =
        let same : trace_of s'.task ≡ trace_of s.task = rw e at b in omega (arith, ap length same)
    carried-le s r (adopted plan s') e b =
        let c : (trace_of s'.task ≡ trace_of s.task) × (length plan.steps ≤ bound) = rw e at b in
        let steps = from_index s'.task.cursor plan.steps in
        let o = carry_out-Outcome site agent plan s' in
        omega (
          arith,
          ap length o.trace,
          ap length c.0,
          length-append (trace_of s'.task)
              (foreseen site agent s'.task.id s'.task.environment steps),
          length-foreseen-le agent s'.task.id s'.task.environment steps,
          length-from_index-le s'.task.cursor plan.steps,
        )

  module _ (task : Task N) (w : World N) where
    abbrev pub begun : Session N
    begun = started (executor site task w).0 task (executor site task w).1

    -- What comes of the request for a plan, as the run makes it.
    abbrev pub answer_to : Answer N
    answer_to = site.propose begun.world begun.task (executor site task w).0

    abbrev answered : Result (Planning N)
    answered = on_answer site (executor site task w).0 begun answer_to

    abbrev carried : Result (Planning N) → Result (Session N)
    carried r = elim r [
      | err e ↦ err e
      | ok planning ↦ ok (carry_out site (executor site task w).0 planning)
    ]

    run-unplanned : task.plan ≡ none → run site task w ≡ outcome site begun (carried answered)
    unfolding run run_with plan_of started
    run-unplanned h =
        ap
          (λ found.
            outcome site begun (carried (plan_from site (executor site task w).0 begun found)))
          h

  -- A run that makes its plan adds at most as many records of steps as the limit says, but never
  -- less than one: the plan for a failed model has one step whatever the limit.
  pub run_bounded :
      (task : Task N) (w : World N) (t : Task N) (v : World N) (bound : ℕ)
      → task.plan ≡ none
      → 1 ≤ bound
      → site.max_steps ≤ bound
      → run site task w ≡ (ok t, v)
      → length (trace_of t) ≤ length (trace_of task) + bound
  unfolding started result_of
  run_bounded task w t v bound unplanned one limit h =
      let agent = (executor site task w).0 in
      let k = sym (run-unplanned task w unplanned) ∙ h in
      elim (Result-cases (answered task w)) [
        | inr (why, e) ↦ let refusal = rw e at k in absurd (cc)
        | inl (planning, e) ↦
            let s = begun task w in
            let below =
              carried-le agent bound one limit s (answered task w) planning e
                (on_answer-Bounded agent bound one limit s (site.propose s.world s.task agent)) in
            subst (λ x. length (trace_of x) ≤ length (trace_of task) + bound)
              (returned (carry_out site agent planning) (rw e at k)) below
      ]
    where
      returned : (s : Session N) → outcome site (begun task w) (ok s) ≡ (ok t, v) → s.task ≡ t
      returned s e = cc

  on_answer-raises :
      (agent : AgentSpec) (s : Session N) (answer : Answer N) (e : Error)
      → on_answer site agent s answer ≡ err e
      → ((answer ≡ malformed) × (e ≡ validation_error)) ⊎ (answer ≡ aborted e)
  unfolding on_answer
  on_answer-raises agent s (over_budget why) e h = absurd (cc)
  on_answer-raises agent s (unauthorized why) e h = absurd (cc)
  on_answer-raises agent s (broken why) e h = absurd (cc)
  on_answer-raises agent s (unreadable why) e h = absurd (cc)
  on_answer-raises agent s (aborted why) e h = inr (cc)
  on_answer-raises agent s malformed e h = inl (refl, cc)
  on_answer-raises agent s (planned plan) e h = absurd (cc)

  -- `run` raises only where the task has no plan: when the model answers with a JSON object that is
  -- not a plan, which is a validation error, or with the error that recall, the catalog or the messages
  -- raise before the request. The task is then left running, stored without a plan, and no tool has
  -- been called.
  pub run_raises :
      (task : Task N) (w : World N) (e : Error) (v : World N)
      → run site task w ≡ (err e, v)
      → (((answer_to task w ≡ malformed) × (e ≡ validation_error)) ⊎ (answer_to task w ≡ aborted e))
        × (task.plan ≡ none)
        × (v.executed ≡ w.executed)
        × ((t : Task N) × (lookup task.id v.tasks ≡ some t)
            × (t.status ≡ TaskStatus.running)
            × (t.plan ≡ none))
  unfolding started record_event save
  run_raises task w e v h = elim (Option-cases task.plan) [
    | inr (plan, p) ↦ let (t, u, returns, o) = run-Outcome site task plan w p in absurd (cc)
    | inl unplanned ↦
        let agent = (executor site task w).0 in
        let s = begun task w in
        let k = sym (run-unplanned task w unplanned) ∙ h in
        elim (Result-cases (answered task w)) [
          | inl (planning, a) ↦ let returns = rw a at k in absurd (cc)
          | inr (why, a) ↦
              let raised : (err why, s.world) ≡ (err e, v) = rw a at k in
              let same : s.world ≡ v = ap (λ x. x.1) raised in
              let why_e : why ≡ e = ap (λ r. error_or why r.0) raised in
              (
                subst
                    (λ x.
                      ((answer_to task w ≡ malformed) × (x ≡ validation_error))
                      ⊎ (answer_to task w ≡ aborted x))
                    why_e (on_answer-raises agent s (answer_to task w) why a),
                unplanned,
                sym (ap (λ x. x.executed) same) ∙ executor-executed site task w,
                (
                  s.task,
                  sym (ap (λ x. lookup task.id x.tasks) same) ∙ lookup-insert_self task.id s.task _,
                  refl,
                  unplanned,
                ),
              )
        ]
  ]
