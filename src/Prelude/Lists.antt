-- ===== src/Prelude/Lists.antt =====
-- Lists measured by native numbers, searched by Boolean tests and by texts.
use Prim.Native.Nat.{ℕ, zero, suc, ◌+◌, ◌≤◌}
use Prim.Native.String.{String}
use mathlib.Core.Path.{◌≡◌, refl, subst}
use mathlib.Core.Logic.{inl, inr}
use mathlib.Core.Bool.{Bool, true, false, ◌&&◌, ◌||◌}
use mathlib.Core.Option.{Option, none, some}
use mathlib.Core.List.{List, [], ◌∷◌, ◌++◌, reverse, reverse-cons}
use native.Mathlib.Omega.{arith}
use text.Mathlib.Text.{◌==◌}
use text.Mathlib.TextEquality.{eq_iff}
use enterprise_agi_runtime.Prelude.Tests.{if◌then◌else◌, Bool-cases}

module _ {ℓ} {A : Type ℓ} where
  abbrev pub length : List A → ℕ
  length [] = 0
  length (x ∷ xs) = suc (length xs)

  abbrev pub any : (A → Bool) → List A → Bool
  any p [] = false
  any p (x ∷ xs) = p x || any p xs

  abbrev pub all : (A → Bool) → List A → Bool
  all p [] = true
  all p (x ∷ xs) = p x && all p xs

  -- A comprehension with a test: `[x for x in xs if p(x)]`.
  abbrev pub keep : (A → Bool) → List A → List A
  keep p [] = []
  keep p (x ∷ xs) = if p x then x ∷ keep p xs else keep p xs

  -- `next((x for x in xs if p(x)), None)`.
  abbrev pub find : (A → Bool) → List A → Option A
  find p [] = none
  find p (x ∷ xs) = if p x then some x else find p xs

  abbrev pub take : ℕ → List A → List A
  take zero xs = []
  take (suc n) [] = []
  take (suc n) (x ∷ xs) = x ∷ take n xs

  abbrev pub replicate : ℕ → A → List A
  replicate zero a = []
  replicate (suc n) a = a ∷ replicate n a

  abbrev pub is_empty : List A → Bool
  is_empty [] = true
  is_empty (x ∷ xs) = false

  -- A predicate of every element, as a tuple.
  abbrev pub All {κ} : (A → Type κ) → List A → Type κ
  All P [] = Unit
  All P (x ∷ xs) = P x × All P xs

module _ {ℓ} {A : Type ℓ} where
  pub length-append : (xs ys : List A) → length (xs ++ ys) ≡ length xs + length ys
  length-append [] ys = omega arith
  length-append (x ∷ xs) ys = omega (arith, length-append xs ys)

  pub any-append : (p : A → Bool) (xs ys : List A) → any p (xs ++ ys) ≡ (any p xs || any p ys)
  any-append p [] ys = refl
  any-append p (x ∷ xs) ys = ground (arith, any-append p xs ys)

  pub all-append : (p : A → Bool) (xs ys : List A) → all p (xs ++ ys) ≡ (all p xs && all p ys)
  all-append p [] ys = refl
  all-append p (x ∷ xs) ys = ground (arith, all-append p xs ys)

  pub length-keep-le : (p : A → Bool) (xs : List A) → length (keep p xs) ≤ length xs
  length-keep-le p [] = omega arith
  length-keep-le p (x ∷ xs) = ground (arith, length-keep-le p xs)

module _ {ℓ} {A : Type ℓ} where
  pub length-reverse : (xs : List A) → length (reverse xs) ≡ length xs
  length-reverse [] = refl
  length-reverse (x ∷ xs) =
      rw (reverse-cons x xs) (omega (arith, length-append (reverse xs) (x ∷ []), length-reverse xs))

  pub any-reverse : (p : A → Bool) (xs : List A) → any p (reverse xs) ≡ any p xs
  any-reverse p [] = refl
  any-reverse p (x ∷ xs) =
      rw (reverse-cons x xs) (ground (arith, any-append p (reverse xs) (x ∷ []), any-reverse p xs))

-- `a in xs`, over texts.
abbrev pub contains : String → List String → Bool
contains a xs = any (λ x. x == a) xs

pub contains_head : (a : String) (xs : List String) → contains a (a ∷ xs) ≡ true
contains_head a xs = ground (arith, eq_iff a a)

-- Two lists share an element: `set(xs) & set(ys)`.
abbrev pub intersects : List String → List String → Bool
intersects xs ys = any (λ x. contains x ys) xs

-- A test that holds somewhere holds at an element, which is found.
pub any_witness :
    (p : String → Bool) (xs : List String)
    → any p xs ≡ true
    → (y : String) × (contains y xs ≡ true) × (p y ≡ true)
any_witness p [] h = absurd (cc)
any_witness p (x ∷ xs) h = elim (Bool-cases (p x)) [
  | inl e ↦ (x, contains_head x xs, e)
  | inr e ↦ let (y, m, q) = any_witness p xs (ground arith) in (y, ground arith, q)
]

pub any_of_contains :
    (p : String → Bool) (y : String) (xs : List String)
    → contains y xs ≡ true
    → p y ≡ true
    → any p xs ≡ true
any_of_contains p y [] m h = m
any_of_contains p y (x ∷ xs) m h = ground (arith, eq_iff x y, any_of_contains p y xs)

pub contains-append :
    (x : String) (xs ys : List String) → contains x (xs ++ ys) ≡ (contains x xs || contains x ys)
contains-append x xs ys = any-append (λ y. y == x) xs ys

pub contains-reverse : (x : String) (xs : List String) → contains x (reverse xs) ≡ contains x xs
contains-reverse x xs = any-reverse (λ y. y == x) xs

pub contains-keep :
    (q : String → Bool) (x : String) (xs : List String)
    → contains x (keep q xs) ≡ (contains x xs && q x)
contains-keep q x [] = refl
contains-keep q x (y ∷ xs) = ground (arith, eq_iff y x, contains-keep q x xs)

-- What holds of every element holds of one that the list contains.
pub All-contains {κ} :
    (P : String → Type κ) (y : String) (xs : List String) → All P xs → contains y xs ≡ true → P y
All-contains P y [] h m = absurd (cc)
All-contains P y (x ∷ xs) h m = elim (Bool-cases (x == y)) [
  | inl e ↦ subst P ((eq_iff x y).0 e) h.0
  | inr e ↦ All-contains P y xs h.1 (ground arith)
]
