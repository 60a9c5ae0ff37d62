-- ===== src/Agent/Frame.antt =====
-- What the work beside a step leaves as it is: the trail, the artifacts and the memory of
-- src/egr/runtime/agent_engine.py.
use enterprise_agi_runtime.Prelude.{◌≡◌, refl, ◌∙◌, inl, inr, Bool-cases, List, [], ◌∷◌}
use enterprise_agi_runtime.Prelude.Exec.{ok, err}
use enterprise_agi_runtime.Policy.{AgentSpec}
use enterprise_agi_runtime.Agent.{ProducedFile, ToolResult, MemoryKind, World, Site, record_event}
use enterprise_agi_runtime.Agent.Engine.{
  Session, log, result_of, remember, refuse_namespace, remember_step, scoped_namespace,
  add_artifact, capture_artifact, capture_artifacts,
}
use enterprise_agi_runtime.Agent.Loop.{after_success}
use enterprise_agi_runtime.Agent.Run.{captured}

-- The task differs at most in its artifacts, and the runtime neither in the calls of tools nor in the
-- approvals.
pub record Aside {N : Type 0} (s s' : Session N) : Type 0 where
  pub executed : s'.world.executed ≡ s.world.executed
  pub approvals : s'.world.approvals ≡ s.world.approvals
  pub id : s'.task.id ≡ s.task.id
  pub environment : s'.task.environment ≡ s.task.environment
  pub agent_id : s'.task.agent_id ≡ s.task.agent_id
  pub plan : s'.task.plan ≡ s.task.plan
  pub cursor : s'.task.cursor ≡ s.task.cursor
  pub steps : (result_of s'.task).steps ≡ (result_of s.task).steps

module _ {N : Type 0} where
  Aside-world :
      (s : Session N) (w : World N)
      → w.executed ≡ s.world.executed
      → w.approvals ≡ s.world.approvals
      → Aside s (record { task = s.task; world = w })
  Aside-world s w e a = record {
    executed = e;
    approvals = a;
    id = refl;
    environment = refl;
    agent_id = refl;
    plan = refl;
    cursor = refl;
    steps = refl;
  }

  Aside-refl : (s : Session N) → Aside s s
  Aside-refl s = Aside-world s s.world refl refl

  Aside-trans : {s t u : Session N} → Aside s t → Aside t u → Aside s u
  Aside-trans a b = record {
    executed = b.executed ∙ a.executed;
    approvals = b.approvals ∙ a.approvals;
    id = b.id ∙ a.id;
    environment = b.environment ∙ a.environment;
    agent_id = b.agent_id ∙ a.agent_id;
    plan = b.plan ∙ a.plan;
    cursor = b.cursor ∙ a.cursor;
    steps = b.steps ∙ a.steps;
  }

  remember_step-Aside : (agent : AgentSpec) (s : Session N) → Aside s (remember_step agent s)
  unfolding remember_step remember refuse_namespace record_event
  remember_step-Aside agent s =
      elim (scoped_namespace agent)
        as (λ r. Aside s (elim r [
          | err e ↦ refuse_namespace agent s
          | ok namespace ↦ remember MemoryKind.operational agent namespace s
        ])) [
          | err e ↦ Aside-world s (refuse_namespace agent s).world refl refl
          | ok namespace ↦
              Aside-world s (remember MemoryKind.operational agent namespace s).world refl refl
        ]

module _ {N : Type 0} (site : Site N) where
  capture_artifact-Aside :
      (agent : AgentSpec) (item : ProducedFile) (s : Session N)
      → Aside s (capture_artifact site agent item s)
  unfolding capture_artifact add_artifact log record_event result_of
  capture_artifact-Aside agent item s = record {
    executed = refl;
    approvals = refl;
    id = refl;
    environment = refl;
    agent_id = refl;
    plan = refl;
    cursor = refl;
    steps = refl;
  }

  pub capture_artifacts-Aside :
      (agent : AgentSpec) (items : List ProducedFile) (s : Session N)
      → Aside s (capture_artifacts site agent items s)
  unfolding capture_artifacts
  capture_artifacts-Aside agent [] s = Aside-refl s
  capture_artifacts-Aside agent (item ∷ items) s =
      Aside-trans (capture_artifact-Aside agent item s)
        (capture_artifacts-Aside agent items (capture_artifact site agent item s))

  pub after_success-Aside :
      (agent : AgentSpec) (result : ToolResult) (s : Session N)
      → Aside s (after_success site agent result s)
  unfolding after_success
  after_success-Aside agent result s = elim (Bool-cases result.ok) [
    | inl e ↦ rw e (
        Aside-trans (capture_artifacts-Aside agent result.artifacts s)
          (remember_step-Aside agent (capture_artifacts site agent result.artifacts s)))
    | inr e ↦ rw e (Aside-refl s)
  ]

  pub captured-Aside :
      (agent : AgentSpec) (result : ToolResult) (s : Session N)
      → Aside s (captured site agent result s)
  unfolding captured
  captured-Aside agent result s = elim (Bool-cases result.ok) [
    | inl e ↦ rw e (capture_artifacts-Aside agent result.artifacts s)
    | inr e ↦ rw e (Aside-refl s)
  ]
