-- ===== src/Agent/Foreseen.antt =====
-- The loop of `AgentEngine.run` of src/egr/runtime/agent_engine.py, against the decisions of the
-- policy engine alone.
use mathlib.Core.List.{append_assoc, append-nil}
use mathlib.Core.Path.{subst}
use enterprise_agi_runtime.Prelude.{
  ◌+◌, String, Bool, ◌≡◌, refl, sym, ap, ◌∙◌, ◌⊎◌, inl, inr, true, false, ◌&&◌, some, List, [], ◌∷◌,
  ◌++◌, map, length, arith, if◌then◌else◌,
}
use enterprise_agi_runtime.Domain.{
  Environment, eq_environment, development, allow, deny, require_approval, DecisionType,
}
use enterprise_agi_runtime.Policy.{AgentSpec, Decision, ToolRequest}
use enterprise_agi_runtime.Agent.{PlanStep, Task, Site, EventType}
use enterprise_agi_runtime.Agent.Engine.{
  Session, log, store, result_of, add_record, request_of, authorize, auto_approve, effective,
  step_decision, execute_tool,
}
use enterprise_agi_runtime.Agent.Loop.{ask, refuse, perform, perform_tool}
use enterprise_agi_runtime.Agent.Run.{Progress, going, waiting, act, turn, work}
use enterprise_agi_runtime.Agent.Frame.{after_success-Aside}
use enterprise_agi_runtime.Agent.Growth.{session_of, decision_cases}

-- The decisions of the steps so far.
abbrev pub trace_of : {N : Type 0} → Task N → List (String × String)
trace_of task = map (λ r. (r.id, r.decision)) (result_of task).steps

map_snoc :
    {A B : Type 0} (f : A → B) (xs : List A) (x : A) → map f (xs ++ x ∷ []) ≡ map f xs ++ f x ∷ []
map_snoc f [] x = refl
map_snoc f (y ∷ xs) x = ap (λ l. f y ∷ l) (map_snoc f xs x)

module _ {N : Type 0} (site : Site N) (agent : AgentSpec) (task_id : String)
    (environment : Environment) where
  -- What the policies and the configuration say of a step: no result of a tool enters.
  unfoldable pub verdict_on : PlanStep N → DecisionType
  verdict_on step =
      let request : ToolRequest N = record {
        tool = step.tool;
        args = step.args;
        action = step.action;
        task_id = some task_id;
      } in
      elim (authorize site request environment (some agent)).decision [
        | require_approval ↦
            if site.auto_approve_in_development && eq_environment environment development
            then allow
            else require_approval
        | d ↦ d
      ]

  -- The decisions that the loop records: up to the first step that waits for a human.
  unfoldable pub foreseen : List (PlanStep N) → List (String × String)
  foreseen [] = []
  foreseen (step ∷ steps) =
      let rest = foreseen steps in
      elim (verdict_on step) [
        | require_approval ↦ []
        | deny ↦ (step.id, "deny") ∷ rest
        | allow ↦ (step.id, "allow") ∷ rest
      ]

  -- Whether one of the steps waits.
  unfoldable pub will_wait : List (PlanStep N) → Bool
  will_wait [] = false
  will_wait (step ∷ steps) =
      let rest = will_wait steps in elim (verdict_on step) [ require_approval ↦ true | _ ↦ rest ]

abbrev pub waits : {N : Type 0} → Progress N → Bool
waits (going s) = false
waits (waiting s) = true

-- Rounds have led from the task `t` to `p`, with the records `new`.
pub record Advanced {N : Type 0} (t : Task N) (new : List (String × String)) (stopped : Bool)
    (p : Progress N) : Type 0 where
  pub trace : trace_of (session_of p).task ≡ trace_of t ++ new
  pub cursor : (session_of p).task.cursor ≡ t.cursor + length new
  pub id : (session_of p).task.id ≡ t.id
  pub environment : (session_of p).task.environment ≡ t.environment
  pub stops : waits p ≡ stopped

module _ {N : Type 0} (site : Site N) (agent : AgentSpec) where
  refuse-Advanced :
      (step : PlanStep N) (d : Decision) (s : Session N)
      → Advanced s.task ((step.id, "deny") ∷ []) false (going (refuse site agent step d s))
  unfolding refuse log store add_record result_of
  refuse-Advanced step d s = record {
    trace = map_snoc (λ r. (r.id, r.decision)) (result_of s.task).steps _;
    cursor = omega arith;
    id = refl;
    environment = refl;
    stops = refl;
  }

  perform-Advanced :
      (step : PlanStep N) (d : Decision) (s : Session N)
      → Advanced s.task ((step.id, "allow") ∷ []) false (going (perform site agent step d s))
  unfolding perform perform_tool execute_tool log store add_record result_of
  perform-Advanced step d s =
      let (result, recorded) = perform_tool site agent step d s in
      let aside = after_success-Aside site agent result recorded in
      record {
        trace =
            ap (λ l. map (λ r. (r.id, r.decision)) l) aside.steps
            ∙ map_snoc (λ r. (r.id, r.decision)) (result_of s.task).steps _;
        cursor = omega (arith, aside.cursor);
        id = aside.id;
        environment = aside.environment;
        stops = refl;
      }

  ask-Advanced :
      (step : PlanStep N) (d : Decision) (s : Session N)
      → Advanced s.task [] true (waiting (ask site agent step d s))
  unfolding ask log store result_of
  ask-Advanced step d s = record {
    trace = sym (append-nil _);
    cursor = omega arith;
    id = refl;
    environment = refl;
    stops = refl;
  }

  verdict-effective :
      (task : Task N) (step : PlanStep N)
      → (effective site task (step_decision site agent task step)).decision
        ≡ verdict_on site agent task.id task.environment step
  unfolding effective verdict_on auto_approve request_of
  verdict-effective task step = ground arith

  -- One round, by what is foreseen of its step.
  turn-Advanced :
      (step : PlanStep N) (s : Session N)
      → ((verdict_on site agent s.task.id s.task.environment step ≡ deny)
          × Advanced s.task ((step.id, "deny") ∷ []) false (turn site agent step s))
        ⊎ (((verdict_on site agent s.task.id s.task.environment step ≡ allow)
              × Advanced s.task ((step.id, "allow") ∷ []) false (turn site agent step s))
            ⊎ ((verdict_on site agent s.task.id s.task.environment step ≡ require_approval)
                × Advanced s.task [] true (turn site agent step s)))
  unfolding turn act log
  turn-Advanced step s =
      let d = effective site s.task (step_decision site agent s.task step) in
      let v = verdict-effective s.task step in
      let proposed = log EventType.action_proposed agent step.id s in
      elim (decision_cases d.decision) [
        | inl e ↦ inl (sym v ∙ e, rw (turn, act, e) (refuse-Advanced step d proposed))
        | inr (inl e) ↦ inr (inl (sym v ∙ e, rw (turn, act, e) (perform-Advanced step d proposed)))
        | inr (inr e) ↦ inr (inr (sym v ∙ e, rw (turn, act, e) (ask-Advanced step d proposed)))
      ]

  Advanced-trans :
      {t : Task N} {x : String × String} {new : List (String × String)} {b : Bool} {s : Session N}
      {p : Progress N}
      → Advanced t (x ∷ []) false (going s)
      → Advanced s.task new b p
      → Advanced t (x ∷ new) b p
  Advanced-trans {t} {x} {new} a b = record {
    trace = b.trace ∙ ap (λ l. l ++ new) a.trace ∙ append_assoc (trace_of t) (x ∷ []) new;
    cursor = omega (arith, a.cursor, b.cursor);
    id = b.id ∙ a.id;
    environment = b.environment ∙ a.environment;
    stops = b.stops;
  }

  going_on :
      {t : Task N} {new : List (String × String)} (p : Progress N)
      → Advanced t new false p
      → (s : Session N) × (p ≡ going s)
  going_on (going s) a = (s, refl)
  going_on (waiting s) a = absurd (ground (arith, a.stops))

  stopped :
      {t : Task N} {new : List (String × String)} (p : Progress N)
      → Advanced t new true p
      → (s : Session N) × (p ≡ waiting s)
  stopped (waiting s) a = (s, refl)
  stopped (going s) a = absurd (ground (arith, a.stops))

  abbrev Foreseen : List (PlanStep N) → Session N → Progress N → Type 0
  Foreseen steps s p =
      Advanced s.task (foreseen site agent s.task.id s.task.environment steps)
        (will_wait site agent s.task.id s.task.environment steps) p

  -- After a round that goes on, the rest is foreseen for the same task.
  continued :
      {t : Task N} {x : String × String} (steps : List (PlanStep N)) (s : Session N)
      → Advanced t (x ∷ []) false (going s)
      → Foreseen steps s (work site agent steps s)
      → Advanced t
          (x ∷ foreseen site agent t.id t.environment steps)
          (will_wait site agent t.id t.environment steps)
          (work site agent steps s)
  continued {t} steps s a b =
      let same_id =
        subst
          (λ i.
            Advanced s.task (foreseen site agent i s.task.environment steps)
              (will_wait site agent i s.task.environment steps) (work site agent steps s))
          a.id b in
      Advanced-trans a (
        subst
          (λ e.
            Advanced s.task (foreseen site agent t.id e steps) (will_wait site agent t.id e steps)
              (work site agent steps s))
          a.environment same_id)

  pub work-Foreseen :
      (steps : List (PlanStep N)) (s : Session N) → Foreseen steps s (work site agent steps s)
  unfolding work foreseen will_wait
  work-Foreseen [] s = record {
    trace = sym (append-nil _);
    cursor = omega arith;
    id = refl;
    environment = refl;
    stops = refl;
  }
  work-Foreseen (step ∷ steps) s = elim (turn-Advanced step s) [
    | inl (e, a) ↦
        let (s', g) = going_on (turn site agent step s) a in
        rw (work, foreseen, will_wait, e, g)
          (continued steps s' (rw g at a) (work-Foreseen steps s'))
    | inr (inl (e, a)) ↦
        let (s', g) = going_on (turn site agent step s) a in
        rw (work, foreseen, will_wait, e, g)
          (continued steps s' (rw g at a) (work-Foreseen steps s'))
    | inr (inr (e, a)) ↦
        let (s', g) = stopped (turn site agent step s) a in
        rw (work, foreseen, will_wait, e, g) (rw g at a)
  ]
