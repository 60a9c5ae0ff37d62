-- ===== src/Agent/Approvals.antt =====
-- What deciding an approval executes: `Runtime.approve` and `Runtime.deny` of src/egr/runtime/runtime.py
-- with `AgentEngine.resume_after_approval`.
use enterprise_agi_runtime.Prelude.{
  String, ◌≡◌, refl, ◌⊎◌, inl, inr, Bool-cases, Option, some, List, [], ◌∷◌, All, arith,
  Option-cases, lookup,
}
use enterprise_agi_runtime.Prelude.Exec.{Exec, ok, err, Result, continue, ◌>>=◌, pure}
use enterprise_agi_runtime.Domain.{allow, require_approval}
use enterprise_agi_runtime.Policy.{AgentSpec}
use enterprise_agi_runtime.Policy.Soundness.{evaluate-allow-Justified}
use enterprise_agi_runtime.Security.Rbac.{Principal}
use enterprise_agi_runtime.Agent.{
  PlanStep, Task, Approval, Execution, World, Site, record_event, save,
}
use enterprise_agi_runtime.Agent.Engine.{
  Session, log, store, executor, authorize, request_of, execution_of, step_decision, execute_tool,
}
use enterprise_agi_runtime.Agent.Run.{
  run, resume_after_approval, resume_step, awaited_step, refuse_resumed, perform_approved,
  approve_tool,
}
use enterprise_agi_runtime.Agent.Desk.{
  get_approval, authorize_decision, authorize_known, authorize_unknown, qualified, or_denied,
  decide, approved_by, denied_by, after_approval, after_denial, approve, deny_approval, answered,
  task_of, is_review, skip_pending, principal_of, conclude_approval, conclude_denial,
}
use enterprise_agi_runtime.Agent.Frame.{captured-Aside}
use enterprise_agi_runtime.Agent.Sanction.{
  Grown, Grown-refl, Grown-trans, Sanctioned, request_for, context_for,
}
use enterprise_agi_runtime.Agent.Growth.{run-Sanctioned, executor-executed, decision_cases}

module _ {N : Type 0} {P : Execution N → Type 0} {A B : Type 0} where
  continue-Grown :
      (q : Result A) (f : A → Exec (World N) B) (w : World N)
      → ((a : A) (v : World N) → Grown P v.executed (f a v).1.executed)
      → Grown P w.executed (continue q f w).1.executed
  continue-Grown (ok a) f w h = h a w
  continue-Grown (err e) f w h = Grown-refl refl

  -- Methods one after the other.
  bind-Grown :
      (m : Exec (World N) A) (f : A → Exec (World N) B) (w : World N)
      → (m w).1.executed ≡ w.executed
      → ((a : A) (v : World N) → Grown P v.executed (f a v).1.executed)
      → Grown P w.executed ((m >>= f) w).1.executed
  bind-Grown m f w same h = Grown-trans (Grown-refl same) (continue-Grown (m w).0 f (m w).1 h)

module _ {N : Type 0} (site : Site N) where
  -- A call whose step waits for a human by the policies.
  pub record Awaiting (call : Execution N) : Type 0 where
    pub waits :
        (authorize site (request_for site call) call.environment (some call.agent)).decision
        ≡ require_approval

  abbrev Decided : Execution N → Type 0
  Decided call = Sanctioned site call ⊎ Awaiting call

  abbrev pub DecidedGrowth : World N → World N → Type 0
  DecidedGrowth v w = Grown Decided v.executed w.executed

  All-Decided : (calls : List (Execution N)) → All (Sanctioned site) calls → All Decided calls
  All-Decided [] h = tt
  All-Decided (call ∷ calls) h = (inl h.0, All-Decided calls h.1)

  run-Decided : (task : Task N) (w : World N) → DecidedGrowth w (run site task w).1
  run-Decided task w =
      let g = run-Sanctioned site task w in
      record { added = g.added; grows = g.grows; each = All-Decided g.added g.each }

  step-Decided :
      (agent : AgentSpec) (task : Task N) (step : PlanStep N)
      → ((step_decision site agent task step).decision ≡ allow)
        ⊎ ((step_decision site agent task step).decision ≡ require_approval)
      → Decided (execution_of agent task step)
  unfolding authorize request_of
  step-Decided agent task step (inl allowed) =
      let call = execution_of agent task step in
      inl (record {
        ground = inl (
            evaluate-allow-Justified site.condition (request_for site call) (context_for site call)
              site.policies allowed);
      })
  step-Decided agent task step (inr waits) = inr (record { waits = waits })

  pub perform_approved-executed :
      (agent : AgentSpec) (step : PlanStep N) (approval : Approval N) (s : Session N)
      → (perform_approved site agent step approval s).world.executed
        ≡ execution_of agent s.task step ∷ s.world.executed
  unfolding perform_approved approve_tool execute_tool log store record_event save
  perform_approved-executed agent step approval s =
      let (result, recorded) = approve_tool site agent step approval s in
      (captured-Aside site agent result recorded).executed

  resume_step-Decided :
      (agent : AgentSpec) (step : PlanStep N) (approval : Approval N) (s : Session N)
      → DecidedGrowth s.world (resume_step site agent step approval s).world
  unfolding refuse_resumed store save resume_step
  resume_step-Decided agent step approval s =
      elim (decision_cases (step_decision site agent s.task step).decision) [
        | inl e ↦ rw (resume_step, e) (Grown-refl refl)
        | inr e ↦ executes e
      ]
    where
      grown :
          ((step_decision site agent s.task step).decision ≡ allow)
            ⊎ ((step_decision site agent s.task step).decision ≡ require_approval)
          → DecidedGrowth s.world (perform_approved site agent step approval s).world
      grown e = record {
        added = execution_of agent s.task step ∷ [];
        grows = perform_approved-executed agent step approval s;
        each = (step-Decided agent s.task step e, tt);
      }

      executes :
          ((step_decision site agent s.task step).decision ≡ allow)
            ⊎ ((step_decision site agent s.task step).decision ≡ require_approval)
          → DecidedGrowth s.world (resume_step site agent step approval s).world
      executes (inl e) = rw (resume_step, e) (grown (inl e))
      executes (inr e) = rw (resume_step, e) (grown (inr e))

  resume_after_approval-Decided :
      (task : Task N) (approval : Approval N) (w : World N)
      → DecidedGrowth w (resume_after_approval site task approval w).1
  unfolding resume_after_approval
  resume_after_approval-Decided task approval w =
      let (agent, found) = executor site task w in
      let same : DecidedGrowth w found = Grown-refl (executor-executed site task w) in
      elim (Option-cases (awaited_step task)) [
        | inl e ↦ rw (resume_after_approval, e) (Grown-trans same (run-Decided task found))
        | inr (step, e) ↦
            let s = resume_step site agent step approval (record { task = task; world = found }) in
            rw (resume_after_approval, e)
              (Grown-trans same (
                Grown-trans
                  (resume_step-Decided agent step approval (record { task = task; world = found }))
                  (run-Decided s.task s.world)))
      ]

  authorize_known-executed :
      (approval : Approval N) (actor : String) (principal : Principal) (w : World N)
      → (authorize_known site approval actor principal w).1.executed ≡ w.executed
  unfolding authorize_known qualified or_denied record_event
  authorize_known-executed approval actor principal w = ground arith

  authorize-executed :
      (approval : Approval N) (actor : String) (token : Option String) (w : World N)
      → (authorize_decision site approval actor token w).1.executed ≡ w.executed
  unfolding authorize_decision authorize_unknown record_event
  authorize-executed approval actor token w = elim (Option-cases (principal_of site actor token)) [
    | inl e ↦ rw (authorize_decision, e) (ground arith)
    | inr (principal, e) ↦
        rw (authorize_decision, e) (authorize_known-executed approval actor principal w)
  ]

  pub answered-world : (m : Exec (World N) (Task N)) (w : World N) → (answered m w).1 ≡ (m w).1
  answered-world m w = same (m w).0 (m w).1
    where
      same : (q : Result (Task N)) (v : World N) → (continue q (λ task. pure (some task)) v).1 ≡ v
      same (ok task) v = refl
      same (err e) v = refl

  after_approval-Decided :
      (approval : Approval N) (w : World N) → DecidedGrowth w (after_approval site approval w).1
  unfolding after_approval
  after_approval-Decided approval w = elim (Option-cases (task_of approval.task_id w)) [
    | inl e ↦ rw (after_approval, e) (Grown-refl refl)
    | inr (task, e) ↦
        rw (after_approval, e)
          (elim (Bool-cases (is_review approval)) [
            | inl e' ↦ rw e' (Grown-refl refl)
            | inr e' ↦ rw e' (
                rw (answered-world (resume_after_approval site task approval) w)
                  (resume_after_approval-Decided task approval w))
          ])
  ]

  after_denial-Grown :
      (approval : Approval N) (remark : Option String) (w : World N)
      → Grown (Sanctioned site) w.executed (after_denial site approval remark w).1.executed
  unfolding after_denial save
  after_denial-Grown approval remark w = elim (Option-cases (task_of approval.task_id w)) [
    | inl e ↦ rw (after_denial, e) (Grown-refl refl)
    | inr (task, e) ↦
        rw (after_denial, e)
          (elim (Bool-cases (is_review approval)) [
            | inl e' ↦ rw e' (Grown-refl refl)
            | inr e' ↦
                let skipped = skip_pending approval remark task in
                rw e' (
                  rw (answered-world (run site skipped) (save skipped w))
                    (run-Sanctioned site skipped (save skipped w)))
          ])
  ]

  get_approval-executed :
      (approval_id : String) (w : World N)
      → (get_approval site approval_id w).1.executed ≡ w.executed
  unfolding get_approval
  get_approval-executed approval_id w = elim (Option-cases (lookup approval_id w.approvals)) [
    | inl e ↦ rw (get_approval, e) refl
    | inr (approval, e) ↦ rw (get_approval, e) refl
  ]

  -- Approving, whether it returns or raises, only adds to the calls of tools, and each added one is
  -- sanctioned by the policies, or waits for a human by them.
  approve-Decided :
      (approval_id decided_by : String) (remark token : Option String) (w : World N)
      → DecidedGrowth w (approve site approval_id decided_by remark token w).1
  unfolding approve conclude_approval decide record_event
  approve-Decided approval_id decided_by remark token w =
      bind-Grown (get_approval site approval_id)
        (λ approval.
          authorize_decision site approval decided_by token
          >>= conclude_approval site approval remark)
        w (get_approval-executed approval_id w)
        (λ approval v.
          bind-Grown (authorize_decision site approval decided_by token)
            (conclude_approval site approval remark) v
            (authorize-executed approval decided_by token v)
            (λ decisor u. after_approval-Decided (approved_by decisor remark approval) _))

  -- Denying an approval, whether it returns or raises, only adds to the calls of tools, and each
  -- added one is permitted by the policies, for its tool, its arguments and the action that its step
  -- names, or waits for a human by them and is approved by the configuration, in development.
  pub deny_approval-Sanctioned :
      (approval_id decided_by : String) (remark token : Option String) (w : World N)
      → Grown
          (Sanctioned site)
          w.executed
          (deny_approval site approval_id decided_by remark token w).1.executed
  unfolding deny_approval conclude_denial decide record_event
  deny_approval-Sanctioned approval_id decided_by remark token w =
      bind-Grown (get_approval site approval_id)
        (λ approval.
          authorize_decision site approval decided_by token
          >>= conclude_denial site approval remark)
        w (get_approval-executed approval_id w)
        (λ approval v.
          bind-Grown (authorize_decision site approval decided_by token)
            (conclude_denial site approval remark) v
            (authorize-executed approval decided_by token v)
            (λ decisor u. after_denial-Grown (denied_by decisor remark approval) remark _))
