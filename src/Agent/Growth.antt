-- ===== src/Agent/Growth.antt =====
-- Every call of a tool that running a task makes is sanctioned: `AgentEngine.run` of
-- src/egr/runtime/agent_engine.py.
use enterprise_agi_runtime.Prelude.{
  ◌≡◌, refl, ◌⊎◌, inl, inr, Option, none, some, List, [], ◌∷◌, Option-cases, Dict, lookup,
}
use enterprise_agi_runtime.Prelude.Exec.{ok, err, Result, Result-cases}
use enterprise_agi_runtime.Domain.{allow, deny, require_approval, DecisionType}
use enterprise_agi_runtime.Policy.{AgentSpec, Decision}
use enterprise_agi_runtime.Agent.{
  PlanStep, Plan, Task, Execution, World, Site, Answer, over_budget, unauthorized, broken,
  unreadable, malformed, planned, record_event, save, aborted,
}
use enterprise_agi_runtime.Agent.Engine.{
  Session, log, store, executor, default_agent, register_agent, effective, execution_of,
  step_decision,
}
use enterprise_agi_runtime.Agent.Ending.{fail}
use enterprise_agi_runtime.Agent.Loop.{from_index, started, refuse}
use enterprise_agi_runtime.Agent.Run.{
  Progress, going, waiting, Planning, adopted, refused, act, turn, work, adopt, on_answer, plan_of,
  outcome, closed, carry_out, run_with, run, plan_from,
}
use enterprise_agi_runtime.Agent.Sanction.{
  Grown, Grown-refl, Grown-trans, Sanctioned, effective-Sanctioned, perform-executed, ask-executed,
  finish-executed,
}

pub decision_cases : (d : DecisionType) → (d ≡ deny) ⊎ ((d ≡ allow) ⊎ (d ≡ require_approval))
decision_cases deny = inl refl
decision_cases allow = inr (inl refl)
decision_cases require_approval = inr (inr refl)

abbrev pub calls_of : {N : Type 0} → Session N → List (Execution N)
calls_of s = s.world.executed

abbrev pub session_of : {N : Type 0} → Progress N → Session N
session_of (going s) = s
session_of (waiting s) = s

abbrev pub planning_session : {N : Type 0} → Planning N → Session N
planning_session (adopted plan s) = s
planning_session (refused s) = s

abbrev calls_after : {N : Type 0} → Session N → Result (Planning N) → List (Execution N)
calls_after s (ok planning) = calls_of (planning_session planning)
calls_after s (err e) = calls_of s

module _ {N : Type 0} where
  pub Progress-cases :
      (p : Progress N) → ((s : Session N) × (p ≡ going s)) ⊎ ((s : Session N) × (p ≡ waiting s))
  Progress-cases (going s) = inl (s, refl)
  Progress-cases (waiting s) = inr (s, refl)

module _ {N : Type 0} (site : Site N) where
  abbrev pub GrownBy : List (Execution N) → List (Execution N) → Type 0
  GrownBy old now = Grown (Sanctioned site) old now

  act-Grown :
      (agent : AgentSpec) (task : Task N) (step : PlanStep N) (d : Decision) (s : Session N)
      → (d.decision ≡ allow → Sanctioned site (execution_of agent s.task step))
      → GrownBy (calls_of s) (calls_of (session_of (act site agent step d s)))
  unfolding act refuse log store save record_event
  act-Grown agent task step d s justified = elim (decision_cases d.decision) [
    | inl e ↦ rw (act, e) (Grown-refl refl)
    | inr (inl e) ↦
        rw (act, e)
          (record {
            added = execution_of agent s.task step ∷ [];
            grows = perform-executed site agent step d s;
            each = (justified e, tt);
          })
    | inr (inr e) ↦ rw (act, e) (Grown-refl (ask-executed site agent step d s))
  ]

  turn-Grown :
      (agent : AgentSpec) (step : PlanStep N) (s : Session N)
      → GrownBy (calls_of s) (calls_of (session_of (turn site agent step s)))
  unfolding turn log record_event
  turn-Grown agent step s =
      act-Grown agent s.task step (effective site s.task (step_decision site agent s.task step))
        (log _ agent step.id s) (λ e. effective-Sanctioned site agent s.task step e)

  pub work-Grown :
      (agent : AgentSpec) (steps : List (PlanStep N)) (s : Session N)
      → GrownBy (calls_of s) (calls_of (session_of (work site agent steps s)))
  unfolding work
  work-Grown agent [] s = Grown-refl refl
  work-Grown agent (step ∷ steps) s =
      let here = turn-Grown agent step s in
      elim (Progress-cases (turn site agent step s)) [
        | inl (s', e) ↦ rw (work, e) (Grown-trans (rw e at here) (work-Grown agent steps s'))
        | inr (s', e) ↦ rw (work, e) (rw e at here)
      ]

  on_answer-executed :
      (agent : AgentSpec) (s : Session N) (answer : Answer N)
      → calls_after s (on_answer site agent s answer) ≡ calls_of s
  unfolding on_answer adopt fail log store record_event save
  on_answer-executed agent s (over_budget why) = refl
  on_answer-executed agent s (unauthorized why) = refl
  on_answer-executed agent s (aborted e) = refl
  on_answer-executed agent s (broken why) = refl
  on_answer-executed agent s (unreadable why) = refl
  on_answer-executed agent s malformed = refl
  on_answer-executed agent s (planned plan) = refl

  plan_from-executed :
      (agent : AgentSpec) (s : Session N) (found : Option (Plan N))
      → calls_after s (plan_from site agent s found) ≡ calls_of s
  plan_from-executed agent s (some plan) = refl
  plan_from-executed agent s none = on_answer-executed agent s (site.propose s.world s.task agent)

  closed-Grown :
      (agent : AgentSpec) (plan : Plan N) (p : Progress N)
      → GrownBy (calls_of (session_of p)) (calls_of (closed site agent plan p))
  closed-Grown agent plan (going s) = Grown-refl (finish-executed site agent plan s)
  closed-Grown agent plan (waiting s) = Grown-refl refl

  carry_out-Grown :
      (agent : AgentSpec) (planning : Planning N)
      → GrownBy (calls_of (planning_session planning)) (calls_of (carry_out site agent planning))
  unfolding carry_out
  carry_out-Grown agent (refused s) = Grown-refl refl
  carry_out-Grown agent (adopted plan s) =
      let steps = from_index s.task.cursor plan.steps in
      Grown-trans (work-Grown agent steps s) (closed-Grown agent plan (work site agent steps s))

  run_with-Grown :
      (agent : AgentSpec) (s : Session N)
      → GrownBy (calls_of s) (outcome site s (run_with site agent s)).1.executed
  unfolding run_with plan_of
  run_with-Grown agent s =
      let same = plan_from-executed agent s s.task.plan in
      elim (Result-cases (plan_of site agent s)) [
        | inl (planning, e) ↦
            rw (run_with, e)
              (Grown-trans (Grown-refl (rw e at same)) (carry_out-Grown agent planning))
        | inr (why, e) ↦ rw (run_with, e) (Grown-refl refl)
      ]

  pub executor-executed :
      (task : Task N) (w : World N) → (executor site task w).1.executed ≡ w.executed
  unfolding executor default_agent register_agent record_event
  executor-executed task w = elim (Option-cases (lookup task.agent_id w.agents)) [
    | inr (agent, e) ↦ rw (executor, e) refl
    | inl e ↦ elim (Option-cases (lookup "runtime-agent" w.agents)) [
      | inr (agent, e') ↦ rw (executor, e, default_agent, e') refl
      | inl e' ↦ rw (executor, e, default_agent, e') (by_agents w.agents)
    ]
  ]
    where
      by_agents :
          (agents : Dict AgentSpec)
          → (elim agents as (λ _. AgentSpec × World N) [
            | (key, agent) ∷ rest ↦ (agent, w)
            | [] ↦ (site.first_default_agent, register_agent site.first_default_agent w)
          ]).1.executed
            ≡ w.executed
      by_agents [] = refl
      by_agents ((key, agent) ∷ rest) = refl

  -- Running a task only adds to the calls of tools, and each added one is permitted by the policies,
  -- for its tool, its arguments and the action that its step names, or waits for a human by them and
  -- is approved by the configuration, in development.
  pub run-Sanctioned :
      (task : Task N) (w : World N) → GrownBy w.executed (run site task w).1.executed
  unfolding run started record_event save
  run-Sanctioned task w =
      let (agent, found) = executor site task w in
      Grown-trans (Grown-refl (executor-executed task w))
        (run_with-Grown agent (started agent task found))
