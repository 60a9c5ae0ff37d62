-- ===== src/Agent/Sanction.antt =====
-- What a call of a tool rests on: `AgentEngine.run` of src/egr/runtime/agent_engine.py with the
-- policy engine.
use mathlib.Core.List.{append_assoc}
use enterprise_agi_runtime.Prelude.{
  ◌≡◌, refl, sym, ap, ◌∙◌, ◌⊎◌, inl, inr, true, some, List, [], ◌∷◌, ◌++◌, All, arith, find,
  Option-cases,
}
use enterprise_agi_runtime.Prelude.Exec.{Result-cases}
use enterprise_agi_runtime.Domain.{development, eq_environment, allow, require_approval}
use enterprise_agi_runtime.Policy.{AgentSpec, Decision, ToolRequest, PolicyContext}
use enterprise_agi_runtime.Policy.Soundness.{Justified, evaluate-allow-Justified}
use enterprise_agi_runtime.Agent.{PlanStep, Plan, Task, Execution, Site, record_event, save}
use enterprise_agi_runtime.Agent.Engine.{
  Session, log, store, policy_context, authorize, remember, refuse_namespace, scoped_namespace,
  auto_approve, effective, request_of, execution_of, step_decision, execute_tool,
}
use enterprise_agi_runtime.Agent.Ending.{finish}
use enterprise_agi_runtime.Agent.Loop.{
  eq_optional, pending_for_task, request_approval, approval_for, ask, perform, perform_tool,
}
use enterprise_agi_runtime.Agent.Frame.{after_success-Aside}

-- A log with its last entry first has grown, and `P` holds of each new entry.
pub record Grown {N : Type 0} (P : Execution N → Type 0) (old now : List (Execution N))
    : Type 0 where
  pub added : List (Execution N)
  pub grows : now ≡ added ++ old
  pub each : All P added

module _ {N : Type 0} where
  All-append :
      (P : Execution N → Type 0) (xs ys : List (Execution N))
      → All P xs
      → All P ys
      → All P (xs ++ ys)
  All-append P [] ys h k = k
  All-append P (x ∷ xs) ys h k = (h.0, All-append P xs ys h.1 k)

module _ {N : Type 0} {P : Execution N → Type 0} where
  pub Grown-refl : {old now : List (Execution N)} → now ≡ old → Grown P old now
  Grown-refl e = record { added = []; grows = e; each = tt }

  pub Grown-trans : {a b c : List (Execution N)} → Grown P a b → Grown P b c → Grown P a c
  Grown-trans {a} g h = record {
    added = h.added ++ g.added;
    grows = h.grows ∙ ap (λ l. h.added ++ l) g.grows ∙ sym (append_assoc h.added g.added a);
    each = All-append P h.added g.added h.each g.each;
  }

  pub Grown-all : {old now : List (Execution N)} → Grown P old now → All P old → All P now
  Grown-all {old} g h = rw g.grows (All-append P g.added old g.each h)

module _ {N : Type 0} (site : Site N) where
  -- The request whose answer a call of a tool acts on: for its own tool, arguments and action.
  abbrev pub request_for : Execution N → ToolRequest N
  request_for call = record {
    tool = call.tool;
    args = call.args;
    action = call.action;
    task_id = some call.task_id;
  }

  abbrev pub context_for : Execution N → PolicyContext N
  context_for call = policy_context site call.environment (some call.agent) (request_for call)

  -- A call of a tool that a policy permits as it is made, with its action, or that waits for a human by the policy and is approved
  -- by the configuration, in development.
  pub record Sanctioned (call : Execution N) : Type 0 where
    pub ground :
        Justified site.condition (request_for call) (context_for call) site.policies
        ⊎ (((authorize site (request_for call) call.environment (some call.agent)).decision
              ≡ require_approval)
            × (site.auto_approve_in_development ≡ true)
            × (eq_environment call.environment development ≡ true))

  effective-allow :
      (task : Task N) (d : Decision)
      → (effective site task d).decision ≡ allow
      → (d.decision ≡ allow) ⊎ ((d.decision ≡ require_approval) × (auto_approve site task ≡ true))
  unfolding effective
  effective-allow task d h = ground arith

  pub effective-Sanctioned :
      (agent : AgentSpec) (task : Task N) (step : PlanStep N)
      → (effective site task (step_decision site agent task step)).decision ≡ allow
      → Sanctioned (execution_of agent task step)
  unfolding authorize request_of auto_approve
  effective-Sanctioned agent task step h = record {
    ground = elim (effective-allow task (step_decision site agent task step) h) [
      | inl allowed ↦
          let call = execution_of agent task step in
          inl (
            evaluate-allow-Justified site.condition (request_for call) (context_for call)
              site.policies allowed)
      | inr (waits, auto) ↦ inr (waits, ground arith, ground arith)
    ];
  }

  pub perform-executed :
      (agent : AgentSpec) (step : PlanStep N) (d : Decision) (s : Session N)
      → (perform site agent step d s).world.executed
        ≡ execution_of agent s.task step ∷ s.world.executed
  unfolding perform perform_tool execute_tool log store record_event save
  perform-executed agent step d s =
      let (result, recorded) = perform_tool site agent step d s in
      (after_success-Aside site agent result recorded).executed

  approval_for-executed :
      (agent : AgentSpec) (step : PlanStep N) (d : Decision) (s : Session N)
      → (approval_for site agent step d s).1.executed ≡ s.world.executed
  unfolding approval_for request_approval record_event
  approval_for-executed agent step d s =
      elim (Option-cases
        (find (λ a. eq_optional a.step_id (some step.id)) (pending_for_task s.task.id s.world))) [
          | inl e ↦ rw (approval_for, e) refl
          | inr (a, e) ↦ rw (approval_for, e) refl
        ]

  pub ask-executed :
      (agent : AgentSpec) (step : PlanStep N) (d : Decision) (s : Session N)
      → (ask site agent step d s).world.executed ≡ s.world.executed
  unfolding ask log store record_event save
  ask-executed agent step d s = approval_for-executed agent step d s

  pub finish-executed :
      (agent : AgentSpec) (plan : Plan N) (s : Session N)
      → (finish agent plan s).world.executed ≡ s.world.executed
  unfolding finish log store record_event save remember refuse_namespace
  finish-executed agent plan s = elim (Result-cases (scoped_namespace agent)) [
    | inl (namespace, e) ↦ rw (finish, e) refl
    | inr (why, e) ↦ rw (finish, e) refl
  ]
