-- ===== src/Security/Rbac/Closure.antt =====
-- The loop of `expand_roles` in src/egr/security/rbac.py ends, and what it collects.
use enterprise_agi_runtime.Prelude.{
  ℕ, zero, suc, ◌+◌, ◌≤◌, ◌<◌, String, ◌≡◌, refl, sym, ap, ◌∙◌, Bool, true, false, ◌||◌, not, some,
  List, [], ◌∷◌, ◌++◌, arith, ◌==◌, eq_iff, any, contains, keep, length, Bool-cases, inl, inr,
  length-append, length-keep-le, length-reverse, any-reverse, All-contains, contains-append,
  contains-reverse, contains-keep, any_witness, any_of_contains, any-append, if◌then◌else◌,
}
use mathlib.Core.List.{reverse}
use mathlib.Core.Path.{subst}
use enterprise_agi_runtime.Security.Rbac.{role_inherits, expand, expand_fuel, expand_roles}

-- The roles that a new role may still push.
abbrev weight : List String → ℕ
weight e =
    (if contains "admin" e then 0 else 5)
    + (if contains "security_admin" e then 0 else 2)
    + (if contains "approver" e then 0 else 2)
    + (if contains "auditor" e then 0 else 1)
    + (if contains "operator" e then 0 else 1)

weight_falls :
    (r : String) (e : List String)
    → contains r e ≡ false
    → weight (r ∷ e) + length (role_inherits r) ≤ weight e
unfolding role_inherits
weight_falls r e h = ground (
  arith,
  eq_iff r "admin",
  eq_iff r "security_admin",
  eq_iff r "approver",
  eq_iff r "auditor",
  eq_iff r "operator",
)

-- With more fuel than pending roles and roles that they may push, the loop ends.
expand_total :
    (fuel : ℕ) (pending expanded : List String)
    → length pending + weight expanded < fuel
    → (result : List String) × (expand fuel pending expanded ≡ some result)
unfolding expand
expand_total zero pending expanded h = absurd (omega arith)
expand_total (suc fuel) [] expanded h = (expanded, refl)
expand_total (suc fuel) (role ∷ pending) expanded h = elim (Bool-cases (contains role expanded)) [
  | inl old ↦ rw old (expand_total fuel pending expanded (omega arith))
  | inr new ↦
      let fresh = keep (λ r. not (contains r (role ∷ expanded))) (role_inherits role) in
      rw new (
        expand_total fuel (reverse fresh ++ pending) (role ∷ expanded) (
          omega (
            arith,
            weight_falls role expanded new,
            length-append (reverse fresh) pending,
            length-reverse fresh,
            length-keep-le (λ r. not (contains r (role ∷ expanded))) (role_inherits role),
          )))
]

-- The roles that a role stands for: itself, and those that it inherits. The table of inherited
-- roles is transitively closed.
abbrev pub stands_for : String → String → Bool
stands_for x r = (r == x) || contains x (role_inherits r)

-- A statement of every role: of the five that inherit something, and of the others.
pub role_cases :
    (P : String → Type 0)
    → P "admin"
    → P "security_admin"
    → P "approver"
    → P "auditor"
    → P "operator"
    → ((r : String) → role_inherits r ≡ [] → P r)
    → (r : String) → P r
unfolding role_inherits
role_cases P a s p u o other r = elim (Bool-cases (r == "admin")) [
  | inl e ↦ subst P (sym ((eq_iff r "admin").0 e)) a
  | inr na ↦ elim (Bool-cases (r == "security_admin")) [
    | inl e ↦ subst P (sym ((eq_iff r "security_admin").0 e)) s
    | inr ns ↦ elim (Bool-cases (r == "approver")) [
      | inl e ↦ subst P (sym ((eq_iff r "approver").0 e)) p
      | inr np ↦ elim (Bool-cases (r == "auditor")) [
        | inl e ↦ subst P (sym ((eq_iff r "auditor").0 e)) u
        | inr nu ↦ elim (Bool-cases (r == "operator")) [
          | inl e ↦ subst P (sym ((eq_iff r "operator").0 e)) o
          | inr no_role ↦ other r (rw (na, ns, np, nu, no_role))
        ]
      ]
    ]
  ]
]

no_member : (r y : String) → role_inherits r ≡ [] → contains y (role_inherits r) ≡ true → ⊥
no_member r y e h = let k : contains y [] ≡ true = subst (λ xs. contains y xs ≡ true) e h in cc

-- What `y` inherits, `r` inherits.
abbrev Inherits : String → String → Type 0
Inherits r y =
    (x : String) → contains x (role_inherits y) ≡ true → contains x (role_inherits r) ≡ true

Inherits-trans : (r y : String) → contains y (role_inherits r) ≡ true → Inherits r y
unfolding role_inherits
Inherits-trans =
    role_cases (λ r. (y : String) → contains y (role_inherits r) ≡ true → Inherits r y)
      (λ y. All-contains (Inherits "admin") y (role_inherits "admin") (
        λ x h. ground arith,
        (
          λ x h. ground arith,
          (λ x h. ground arith, (λ x h. ground arith, (λ x h. ground arith, tt))),
        ),
      ))
      (λ y.
        All-contains (Inherits "security_admin") y (role_inherits "security_admin")
          (λ x h. ground arith, (λ x h. ground arith, tt)))
      (λ y.
        All-contains (Inherits "approver") y (role_inherits "approver")
          (λ x h. ground arith, (λ x h. ground arith, tt)))
      (λ y. All-contains (Inherits "auditor") y (role_inherits "auditor") (λ x h. ground arith, tt))
      (λ y.
        All-contains (Inherits "operator") y (role_inherits "operator") (λ x h. ground arith, tt))
      (λ r e y h. absurd (no_member r y e h))

stands_for_trans :
    (r y x : String)
    → contains y (role_inherits r) ≡ true
    → stands_for x y ≡ true
    → contains x (role_inherits r) ≡ true
stands_for_trans r y x h k = elim (Bool-cases (y == x)) [
  | inl e ↦ rw (← (eq_iff y x).0 e) h
  | inr e ↦ Inherits-trans r y h x (ground arith)
]

-- Every collected role's inherited roles are collected or pending.
abbrev Closed : List String → List String → Type 0
Closed pending expanded =
    (r x : String)
    → contains r expanded ≡ true
    → contains x (role_inherits r) ≡ true
    → (contains x expanded || contains x pending) ≡ true

Closed-skip :
    (role : String) (pending expanded : List String)
    → contains role expanded ≡ true
    → Closed (role ∷ pending) expanded
    → Closed pending expanded
Closed-skip role pending expanded old c r x h k = ground (arith, c r x h k, eq_iff role x)

-- What the round of a new role pushes.
abbrev fresh : String → List String → List String
fresh role expanded = keep (λ r. not (contains r (role ∷ expanded))) (role_inherits role)

Closed-visit :
    (role : String) (pending expanded : List String)
    → Closed (role ∷ pending) expanded
    → Closed (reverse (fresh role expanded) ++ pending) (role ∷ expanded)
Closed-visit role pending expanded c r x h k = elim (Bool-cases (role == r)) [
  | inl e ↦
      let k' : contains x (role_inherits role) ≡ true =
        subst (λ y. contains x (role_inherits y) ≡ true) (sym ((eq_iff role r).0 e)) k in
      ground (
        arith,
        contains-append x (reverse (fresh role expanded)) pending,
        contains-reverse x (fresh role expanded),
        contains-keep (λ y. not (contains y (role ∷ expanded))) x (role_inherits role),
      )
  | inr e ↦
      let m : (contains x expanded || contains x (role ∷ pending)) ≡ true =
        c r x (ground arith) k in
      ground (arith, contains-append x (reverse (fresh role expanded)) pending)
]

-- What stands for `x` while `pending` is still to be expanded.
abbrev covers : String → List String → List String → Bool
covers x pending expanded = contains x expanded || any (stands_for x) pending

covers-skip :
    (x role : String) (pending expanded : List String)
    → contains role expanded ≡ true
    → Closed (role ∷ pending) expanded
    → covers x (role ∷ pending) expanded ≡ covers x pending expanded
covers-skip x role pending expanded old c =
    ground
      (arith, c role x old, eq_iff role x, eq_iff x x, any_of_contains (stands_for x) x pending)

fresh_only :
    (x role : String) (expanded : List String)
    → any (stands_for x) (fresh role expanded) ≡ true
    → contains x (role_inherits role) ≡ true
fresh_only x role expanded h =
    let (y, m, k) = any_witness (stands_for x) (fresh role expanded) h in
    stands_for_trans role y x
      (ground
        (arith, contains-keep (λ r. not (contains r (role ∷ expanded))) y (role_inherits role)))
      k

fresh_all :
    (x role : String) (expanded : List String)
    → contains x (role_inherits role) ≡ true
    → contains x (role ∷ expanded) ≡ false
    → any (stands_for x) (fresh role expanded) ≡ true
fresh_all x role expanded h new =
    any_of_contains (stands_for x) x (fresh role expanded)
      (ground
        (arith, contains-keep (λ r. not (contains r (role ∷ expanded))) x (role_inherits role)))
      (ground (arith, eq_iff x x))

covers-visit :
    (x role : String) (pending expanded : List String)
    → covers x (role ∷ pending) expanded
      ≡ covers x (reverse (fresh role expanded) ++ pending) (role ∷ expanded)
covers-visit x role pending expanded = ground (
  arith,
  fresh_only x role expanded,
  fresh_all x role expanded,
  any-append (stands_for x) (reverse (fresh role expanded)) pending,
  any-reverse (stands_for x) (fresh role expanded),
)

covers-expand :
    (x : String) (fuel : ℕ) (pending expanded result : List String)
    → Closed pending expanded
    → expand fuel pending expanded ≡ some result
    → covers x pending expanded ≡ contains x result
unfolding expand
covers-expand x zero pending expanded result c h = absurd (cc)
covers-expand x (suc fuel) [] expanded result c h = ground arith
covers-expand x (suc fuel) (role ∷ pending) expanded result c h =
    elim (Bool-cases (contains role expanded)) [
      | inl old ↦
          covers-skip x role pending expanded old c
          ∙ covers-expand x fuel pending expanded result (Closed-skip role pending expanded old c)
              (ground arith)
      | inr new ↦
          covers-visit x role pending expanded
          ∙ covers-expand x fuel (reverse (fresh role expanded) ++ pending) (role ∷ expanded) result
              (Closed-visit role pending expanded c) (ground arith)
    ]

collected :
    (roles result : List String)
    → expand (expand_fuel roles) (reverse roles) [] ≡ some result
    → expand_roles roles ≡ result
unfolding expand_roles
collected roles result h = ground arith

-- Role expansion always ends within its fuel, and collects exactly the given roles and those that
-- they inherit by the table.
pub contains-expand_roles :
    (x : String) (roles : List String) → contains x (expand_roles roles) ≡ any (stands_for x) roles
contains-expand_roles x roles =
    let (result, total) =
      expand_total (expand_fuel roles) (reverse roles) [] (omega (arith, length-reverse roles)) in
    ap (contains x) (collected roles result total)
    ∙ sym (
        covers-expand x (expand_fuel roles) (reverse roles) [] result (λ r y h k. absurd (cc))
          total)
    ∙ any-reverse (stands_for x) roles
