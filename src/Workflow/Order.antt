-- ===== src/Workflow/Order.antt =====
-- The levels of a workflow are a topological order: `WorkflowEngine.levels`.
use mathlib.Core.Path.{subst}
use enterprise_agi_runtime.Prelude.{
  &&-left, &&-right, contains, all, ℕ, zero, suc, ◌+◌, ◌<◌, ◌≤◌, String, ◌≡◌, refl, ap, ◌∙◌, inl,
  inr, ◌⊎◌, Bool, true, false, not, ◌||◌, Option, none, some, List, [], ◌∷◌, ◌++◌, arith, any, keep,
  length, is_empty, Dict, Bool-cases, All,
}
use enterprise_agi_runtime.Prelude.Exec.{Result, ok, err, config_error, cycle}
use enterprise_agi_runtime.Prelude.Sort.{any-sorted, All-sorted, length-sorted}
use enterprise_agi_runtime.Workflow.{WorkflowStep, Workflow}
use enterprise_agi_runtime.Workflow.Levels.{
  by_id, is_ready, step_before, ready_steps, blocked_steps, keys, add_level, levels_loop, levels,
}

-- Every step of a level has all its dependencies in the levels before.
abbrev pub Layered : List String → List (Dict WorkflowStep) → Type 0
Layered resolved [] = Unit
Layered resolved (level ∷ rest) =
    All (λ e. All (λ d. contains d resolved ≡ true) e.1.depends_on) level
    × Layered (keys level ++ resolved) rest

-- The steps of all levels.
abbrev pub placed : List (Dict WorkflowStep) → ℕ
placed [] = 0
placed (level ∷ rest) = length level + placed rest

abbrev pub in_levels : (String × WorkflowStep → Bool) → List (Dict WorkflowStep) → Bool
in_levels p [] = false
in_levels p (level ∷ rest) = any p level || in_levels p rest

module _ {A : Type 0} (q : A → Bool) where
  All-keep : (xs : List A) → All (λ x. q x ≡ true) (keep q xs)
  All-keep [] = tt
  All-keep (x ∷ xs) = elim (Bool-cases (q x)) [
    | inl e ↦ rw e (e, All-keep xs)
    | inr e ↦ rw e (All-keep xs)
  ]

  length-keep-split :
      (xs : List A) → length (keep q xs) + length (keep (λ x. not (q x)) xs) ≡ length xs
  length-keep-split [] = refl
  length-keep-split (x ∷ xs) = ground (arith, length-keep-split xs)

  any-keep-split :
      (p : A → Bool) (xs : List A)
      → (any p (keep q xs) || any p (keep (λ x. not (q x)) xs)) ≡ any p xs
  any-keep-split p [] = refl
  any-keep-split p (x ∷ xs) = ground (arith, any-keep-split p xs)

pub ready_split :
    (resolved : List String) (remaining : Dict WorkflowStep)
    → length (ready_steps resolved remaining) + length (blocked_steps resolved remaining)
      ≡ length remaining
unfolding ready_steps blocked_steps
ready_split resolved remaining = omega (
  arith,
  length-sorted step_before (keep (λ e. is_ready resolved e.1) remaining),
  length-keep-split (λ (e : String × WorkflowStep). is_ready resolved e.1) remaining,
)

pub ready_any :
    (resolved : List String) (remaining : Dict WorkflowStep) (p : String × WorkflowStep → Bool)
    → (any p (ready_steps resolved remaining) || any p (blocked_steps resolved remaining))
      ≡ any p remaining
unfolding ready_steps blocked_steps
ready_any resolved remaining p =
    rw (any-sorted step_before p (keep (λ e. is_ready resolved e.1) remaining))
      (any-keep-split (λ (e : String × WorkflowStep). is_ready resolved e.1) p remaining)

ready_All :
    (resolved : List String) (remaining : Dict WorkflowStep)
    → All (λ e. is_ready resolved e.1 ≡ true) (ready_steps resolved remaining)
unfolding ready_steps
ready_All resolved remaining =
    All-sorted step_before (λ e. is_ready resolved e.1 ≡ true)
      (keep (λ e. is_ready resolved e.1) remaining)
      (All-keep (λ e. is_ready resolved e.1) remaining)

pub positive : {A : Type 0} (xs : List A) → is_empty xs ≡ false → 1 ≤ length xs
positive [] h = absurd (cc)
positive (x ∷ xs) h = omega arith

-- Levels, or the error for a cycle.
abbrev IsOrdered : Option (Result (List (Dict WorkflowStep))) → Type 0
IsOrdered o =
    ((ls : List (Dict WorkflowStep)) × (o ≡ some (ok ls))) ⊎ (o ≡ some (err (config_error cycle)))

add_level-IsOrdered :
    (level : Dict WorkflowStep) (o : Option (Result (List (Dict WorkflowStep))))
    → IsOrdered o
    → IsOrdered (add_level level o)
add_level-IsOrdered level o (inl (ls, e)) = inl (level ∷ ls, ap (add_level level) e)
add_level-IsOrdered level o (inr e) = inr (ap (add_level level) e)

add_level-eq-ok :
    (level : Dict WorkflowStep) (o : Option (Result (List (Dict WorkflowStep))))
    (ls : List (Dict WorkflowStep))
    → add_level level o ≡ some (ok ls)
    → (rest : List (Dict WorkflowStep)) × (o ≡ some (ok rest)) × (level ∷ rest ≡ ls)
add_level-eq-ok level none ls h = absurd (cc)
add_level-eq-ok level (some (err e)) ls h = absurd (cc)
add_level-eq-ok level (some (ok rest)) ls h = (rest, refl, cc)

levels_loop-IsOrdered :
    (fuel : ℕ) (remaining : Dict WorkflowStep) (resolved : List String)
    → length remaining < fuel
    → IsOrdered (levels_loop fuel remaining resolved)
unfolding levels_loop
levels_loop-IsOrdered zero remaining resolved h = absurd (omega arith)
levels_loop-IsOrdered (suc fuel) [] resolved h = inl ([], refl)
levels_loop-IsOrdered (suc fuel) (e ∷ remaining) resolved h =
    let ready = ready_steps resolved (e ∷ remaining) in
    let blocked = blocked_steps resolved (e ∷ remaining) in
    elim (Bool-cases (is_empty ready)) [
      | inl none_ready ↦ rw none_ready (inr refl)
      | inr some_ready ↦ rw some_ready (
          add_level-IsOrdered ready (levels_loop fuel blocked (keys ready ++ resolved)) (
            levels_loop-IsOrdered fuel blocked (keys ready ++ resolved)
              (omega (arith, positive ready some_ready, ready_split resolved (e ∷ remaining)))))
    ]

All-all : (q : String → Bool) (xs : List String) → all q xs ≡ true → All (λ x. q x ≡ true) xs
All-all q [] h = tt
All-all q (x ∷ xs) h = (&&-left (q x) (all q xs) h, All-all q xs (&&-right (q x) (all q xs) h))

deps_resolved :
    (resolved : List String) (level : Dict WorkflowStep)
    → All (λ e. is_ready resolved e.1 ≡ true) level
    → All (λ e. All (λ d. contains d resolved ≡ true) e.1.depends_on) level
unfolding is_ready
deps_resolved resolved [] h = tt
deps_resolved resolved (e ∷ level) h =
    (All-all (λ d. contains d resolved) e.1.depends_on h.0, deps_resolved resolved level h.1)

-- Layered levels that hold exactly the given steps, each once.
record Sorted (resolved : List String) (remaining : Dict WorkflowStep)
    (ls : List (Dict WorkflowStep)) : Type 0 where
  layered : Layered resolved ls
  count : placed ls ≡ length remaining
  members : (p : String × WorkflowStep → Bool) → in_levels p ls ≡ any p remaining

levels_loop-Sorted :
    (fuel : ℕ) (remaining : Dict WorkflowStep) (resolved : List String)
    (ls : List (Dict WorkflowStep))
    → levels_loop fuel remaining resolved ≡ some (ok ls)
    → Sorted resolved remaining ls
unfolding levels_loop
levels_loop-Sorted zero remaining resolved ls h = absurd (cc)
levels_loop-Sorted (suc fuel) [] resolved ls h =
    let e : [] ≡ ls = ground arith in
    subst (Sorted resolved []) e (record { layered = tt; count = refl; members = λ p. refl })
levels_loop-Sorted (suc fuel) (e ∷ remaining) resolved ls h =
    let ready = ready_steps resolved (e ∷ remaining) in
    elim (Bool-cases (is_empty ready)) [
      | inl none_ready ↦ absurd (ground arith)
      | inr some_ready ↦
          let blocked = blocked_steps resolved (e ∷ remaining) in
          let (rest, o, whole) =
            add_level-eq-ok ready (levels_loop fuel blocked (keys ready ++ resolved)) ls
              (ground arith) in
          let w = levels_loop-Sorted fuel blocked (keys ready ++ resolved) rest o in
          subst (Sorted resolved (e ∷ remaining)) whole (record {
            layered =
                (deps_resolved resolved ready (ready_All resolved (e ∷ remaining)), w.layered);
            count = omega (arith, w.count, ready_split resolved (e ∷ remaining));
            members = λ p.
                ap (λ b. any p ready || b) (w.members p) ∙ ready_any resolved (e ∷ remaining) p;
          })
    ]

-- Ordering a workflow always ends: with levels, or with the error for a cycle.
pub levels_total :
    (w : Workflow)
    → ((ls : List (Dict WorkflowStep)) × (levels w ≡ some (ok ls)))
      ⊎ (levels w ≡ some (err (config_error cycle)))
unfolding levels
levels_total w =
    levels_loop-IsOrdered (length (by_id w.steps []) + 1) (by_id w.steps []) [] (omega arith)

-- The levels of a workflow are a topological order of its steps: every dependency of a step is
-- placed in an earlier level, the levels hold as many steps as the workflow has ids, and a step
-- is in the levels exactly if it is the workflow's step of its id.
pub levels-Layered :
    (w : Workflow) (ls : List (Dict WorkflowStep))
    → levels w ≡ some (ok ls)
    → Layered [] ls
      × (placed ls ≡ length (by_id w.steps []))
      × ((p : String × WorkflowStep → Bool) → in_levels p ls ≡ any p (by_id w.steps []))
unfolding levels
levels-Layered w ls h =
    let s = levels_loop-Sorted (length (by_id w.steps []) + 1) (by_id w.steps []) [] ls h in
    (s.layered, s.count, s.members)
