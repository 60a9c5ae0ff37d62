-- ===== src/Workflow/Acyclic.antt =====
-- No workflow whose dependencies are known and without a cycle is refused:
-- `WorkflowEngine.levels` of src/egr/runtime/workflow_engine.py.
use enterprise_agi_runtime.Prelude.{
  ℕ, zero, suc, ◌+◌, ◌<◌, ◌≤◌, String, ◌≡◌, refl, inl, inr, Bool, true, false, ◌||◌, some, List, [],
  ◌∷◌, ◌++◌, arith, ◌==◌, eq_iff, any, all, contains, keep, length, is_empty, Dict, Bool-cases, All,
  ltb, ltb→lt, contains-append,
}
use enterprise_agi_runtime.Prelude.Exec.{ok}
use enterprise_agi_runtime.Prelude.Sort.{length-sorted}
use enterprise_agi_runtime.Workflow.{WorkflowStep, Workflow}
use enterprise_agi_runtime.Workflow.Levels.{
  by_id, is_ready, step_before, ready_steps, blocked_steps, keys, levels_loop, levels,
}
use enterprise_agi_runtime.Workflow.Order.{ready_any, ready_split, positive}

contains-keys :
    (d : String) (xs : Dict WorkflowStep) → contains d (keys xs) ≡ any (λ e. e.0 == d) xs
contains-keys d [] = refl
contains-keys d (e ∷ xs) = ground (arith, contains-keys d xs)

all_of_contains :
    (f : String → Bool) (xs : List String)
    → ((d : String) → contains d xs ≡ true → f d ≡ true)
    → all f xs ≡ true
all_of_contains f [] h = refl
all_of_contains f (x ∷ xs) h =
    ground (arith, h x, eq_iff x x, all_of_contains f xs (λ d m. h d (ground arith)))

module _ (resolved : List String) where
  blocked_All {ℓ} :
      (P : String × WorkflowStep → Type ℓ) (xs : Dict WorkflowStep)
      → All P xs
      → All P (blocked_steps resolved xs)
  unfolding blocked_steps
  blocked_All P [] h = tt
  blocked_All P (e ∷ xs) h = elim (Bool-cases (is_ready resolved e.1)) [
    | inl r ↦ rw r (blocked_All P xs h.1)
    | inr r ↦ rw r (h.0, blocked_All P xs h.1)
  ]

  none_kept :
      (xs : Dict WorkflowStep)
      → length (keep (λ e. is_ready resolved e.1) xs) ≡ 0
      → All (λ e. is_ready resolved e.1 ≡ false) xs
  none_kept [] h = tt
  none_kept (e ∷ xs) h = (ground arith, none_kept xs (ground arith))

  none_ready :
      (xs : Dict WorkflowStep)
      → is_empty (ready_steps resolved xs) ≡ true
      → All (λ e. is_ready resolved e.1 ≡ false) xs
  unfolding ready_steps
  none_ready xs h =
      none_kept xs
        (ground (arith, length-sorted step_before (keep (λ e. is_ready resolved e.1) xs)))

-- The dependencies of a step are steps of `every`, of a lower rank.
abbrev pub Ranked : (String → ℕ) → Dict WorkflowStep → String × WorkflowStep → Type 0
Ranked rank every e =
    (d : String)
    → contains d e.1.depends_on ≡ true
    → (contains d (keys every) ≡ true) × (rank d < rank e.0)

module _ (rank : String → ℕ) where
  keys_bound :
      (n : ℕ) (d : String) (xs : Dict WorkflowStep)
      → All (λ e. n ≤ rank e.0) xs
      → contains d (keys xs) ≡ true
      → n ≤ rank d
  keys_bound n d [] h m = absurd (cc)
  keys_bound n d (e ∷ xs) h m = elim (Bool-cases (e.0 == d)) [
    | inl p ↦ rw (← (eq_iff e.0 d).0 p) h.0
    | inr p ↦ keys_bound n d xs h.1 (ground arith)
  ]

  module _ (every : Dict WorkflowStep) where
    -- Every step is resolved or remains.
    abbrev Known : List String → Dict WorkflowStep → Type 0
    Known resolved remaining =
        (d : String)
        → contains d (keys every) ≡ true
        → (contains d resolved || contains d (keys remaining)) ≡ true

    -- A blocked step has a rank above the least rank that remains.
    rank_above :
        (n : ℕ) (resolved : List String) (remaining : Dict WorkflowStep) (e : String × WorkflowStep)
        → Known resolved remaining
        → All (λ e. n ≤ rank e.0) remaining
        → Ranked rank every e
        → is_ready resolved e.1 ≡ false
        → n ≤ rank e.0
        → suc n ≤ rank e.0
    unfolding is_ready
    rank_above n resolved remaining e known least ranked blocked h =
        elim (Bool-cases (ltb n (rank e.0))) [
          | inl above ↦ ltb→lt n (rank e.0) above
          | inr equal ↦
              let earlier : (d : String)
                  → contains d e.1.depends_on ≡ true
                  → contains d resolved ≡ true =
                λ d m. elim (Bool-cases (contains d (keys remaining))) [
                  | inl still ↦
                      absurd (ground (arith, keys_bound n d remaining least still, ranked d m))
                  | inr gone ↦ ground (arith, known d (ranked d m).0)
                ] in
              let ready = all_of_contains (λ d. contains d resolved) e.1.depends_on earlier in
              absurd (cc)
        ]

    raise :
        (n : ℕ) (resolved : List String) (remaining xs : Dict WorkflowStep)
        → Known resolved remaining
        → All (λ e. n ≤ rank e.0) remaining
        → All (Ranked rank every) xs
        → All (λ e. is_ready resolved e.1 ≡ false) xs
        → All (λ e. n ≤ rank e.0) xs
        → All (λ e. suc n ≤ rank e.0) xs
    raise n resolved remaining [] known least ranked blocked h = tt
    raise n resolved remaining (e ∷ xs) known least ranked blocked h = (
      rank_above n resolved remaining e known least ranked.0 blocked.0 h.0,
      raise n resolved remaining xs known least ranked.1 blocked.1 h.1,
    )

    any_rank : (xs : Dict WorkflowStep) → All (λ e. 0 ≤ rank e.0) xs
    any_rank [] = tt
    any_rank (e ∷ xs) = (omega arith, any_rank xs)

    -- If no step is ready, the ranks of those that remain have no bound.
    unbounded :
        (n : ℕ) (resolved : List String) (remaining : Dict WorkflowStep)
        → Known resolved remaining
        → All (Ranked rank every) remaining
        → All (λ e. is_ready resolved e.1 ≡ false) remaining
        → All (λ e. n ≤ rank e.0) remaining
    unbounded zero resolved remaining known ranked blocked = any_rank remaining
    unbounded (suc n) resolved remaining known ranked blocked =
        let least = unbounded n resolved remaining known ranked blocked in
        raise n resolved remaining remaining known least ranked blocked least

    some_ready :
        (resolved : List String) (e : String × WorkflowStep) (remaining : Dict WorkflowStep)
        → Known resolved (e ∷ remaining)
        → All (Ranked rank every) (e ∷ remaining)
        → is_empty (ready_steps resolved (e ∷ remaining)) ≡ false
    some_ready resolved e remaining known ranked =
        elim (Bool-cases (is_empty (ready_steps resolved (e ∷ remaining)))) [
          | inl empty ↦
              let least =
                unbounded (suc (rank e.0)) resolved (e ∷ remaining) known ranked
                  (none_ready resolved (e ∷ remaining) empty) in
              absurd (omega (arith, least.0))
          | inr found ↦ found
        ]

    Known-next :
        (resolved : List String) (remaining : Dict WorkflowStep)
        → Known resolved remaining
        → Known
            (keys (ready_steps resolved remaining) ++ resolved)
            (blocked_steps resolved remaining)
    Known-next resolved remaining known d h = ground (
      arith,
      known d h,
      contains-append d (keys (ready_steps resolved remaining)) resolved,
      contains-keys d (ready_steps resolved remaining),
      contains-keys d (blocked_steps resolved remaining),
      contains-keys d remaining,
      ready_any resolved remaining (λ e. e.0 == d),
    )

    levels_loop-ok :
        (fuel : ℕ) (resolved : List String) (remaining : Dict WorkflowStep)
        → length remaining < fuel
        → Known resolved remaining
        → All (Ranked rank every) remaining
        → (ls : List (Dict WorkflowStep)) × (levels_loop fuel remaining resolved ≡ some (ok ls))
    unfolding levels_loop
    levels_loop-ok zero resolved remaining h known ranked = absurd (omega arith)
    levels_loop-ok (suc fuel) resolved [] h known ranked = ([], refl)
    levels_loop-ok (suc fuel) resolved (e ∷ remaining) h known ranked =
        let found = some_ready resolved e remaining known ranked in
        let ready = ready_steps resolved (e ∷ remaining) in
        let (ls, done) =
          levels_loop-ok fuel (keys ready ++ resolved) (blocked_steps resolved (e ∷ remaining))
            (omega (arith, positive ready found, ready_split resolved (e ∷ remaining)))
            (Known-next resolved (e ∷ remaining) known)
            (blocked_All resolved (Ranked rank every) (e ∷ remaining) ranked) in
        (ready ∷ ls, rw (found, done))

-- A workflow is given its levels, and never refused for a cycle, if its dependencies are its own
-- steps and a rank of the steps falls along them, which is to say that they have no cycle.
pub levels-acyclic :
    (w : Workflow) (rank : String → ℕ)
    → All (Ranked rank (by_id w.steps [])) (by_id w.steps [])
    → (ls : List (Dict WorkflowStep)) × (levels w ≡ some (ok ls))
unfolding levels
levels-acyclic w rank ranked =
    levels_loop-ok rank (by_id w.steps []) (length (by_id w.steps []) + 1) [] (by_id w.steps [])
      (omega arith) (λ d h. h) ranked
