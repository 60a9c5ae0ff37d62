-- ===== src/Prelude/Sort.antt =====
-- Python's `sorted`: a stable sort by a key, as an insertion sort over a strict test `before`.
use Prim.Native.String.{String, compare}
use Prim.Native.Nat.{Ordering, ◌+◌}
use mathlib.Core.Path.{◌≡◌, refl}
use mathlib.Core.Logic.{inl, inr}
use mathlib.Core.Bool.{Bool, true, false, ◌||◌}
use mathlib.Core.List.{List, [], ◌∷◌, Memᴰ}
use native.Mathlib.Omega.{arith}
use enterprise_agi_runtime.Prelude.Tests.{if◌then◌else◌, Bool-cases}
use enterprise_agi_runtime.Prelude.Lists.{All, any, length}

-- Texts are compared by their code points.
abbrev pub text_lt : String → String → Bool
text_lt a b = elim (compare a b) [ Ordering.lt ↦ true | _ ↦ false ]

module _ {ℓ} {A : Type ℓ} (before : A → A → Bool) where
  unfoldable pub insert_sorted : A → List A → List A
  insert_sorted x [] = x ∷ []
  insert_sorted x (y ∷ ys) =
      let rest = insert_sorted x ys in if before y x then y ∷ rest else x ∷ y ∷ ys

  -- Elements that the key does not tell apart keep their order.
  unfoldable pub sorted : List A → List A
  sorted [] = []
  sorted (x ∷ xs) = insert_sorted x (sorted xs)

  pub any-insert_sorted :
      (p : A → Bool) (x : A) (ys : List A) → any p (insert_sorted x ys) ≡ (p x || any p ys)
  unfolding insert_sorted
  any-insert_sorted p x [] = refl
  any-insert_sorted p x (y ∷ ys) = ground (arith, any-insert_sorted p x ys)

  -- Sorting changes nothing that a test of some element can see.
  pub any-sorted : (p : A → Bool) (xs : List A) → any p (sorted xs) ≡ any p xs
  unfolding sorted
  any-sorted p [] = refl
  any-sorted p (x ∷ xs) = ground (arith, any-insert_sorted p x (sorted xs), any-sorted p xs)

  Memᴰ-insert_sorted : {a : A} (x : A) (ys : List A) → Memᴰ a (insert_sorted x ys) → Memᴰ a (x ∷ ys)
  unfolding insert_sorted
  Memᴰ-insert_sorted x [] m = m
  Memᴰ-insert_sorted {a} x (y ∷ ys) m = elim (Bool-cases (before y x)) [
    | inl e ↦ later (rw e at m) (Memᴰ-insert_sorted x ys)
    | inr e ↦ rw e at m
  ]
    where
      earlier : Memᴰ a (x ∷ ys) → Memᴰ a (x ∷ y ∷ ys)
      earlier (Memᴰ.head e) = Memᴰ.head e
      earlier (Memᴰ.tail t) = Memᴰ.tail (Memᴰ.tail t)

      later :
          Memᴰ a (y ∷ insert_sorted x ys)
          → (Memᴰ a (insert_sorted x ys) → Memᴰ a (x ∷ ys))
          → Memᴰ a (x ∷ y ∷ ys)
      later (Memᴰ.head e) back = Memᴰ.tail (Memᴰ.head e)
      later (Memᴰ.tail t) back = earlier (back t)

  -- Sorting adds no element.
  pub Memᴰ-sorted : {a : A} (xs : List A) → Memᴰ a (sorted xs) → Memᴰ a xs
  unfolding sorted
  Memᴰ-sorted [] m = elim m [ ]
  Memᴰ-sorted (x ∷ xs) m = step (Memᴰ-insert_sorted x (sorted xs) m) (Memᴰ-sorted xs)
    where
      step : {a : A} → Memᴰ a (x ∷ sorted xs) → (Memᴰ a (sorted xs) → Memᴰ a xs) → Memᴰ a (x ∷ xs)
      step (Memᴰ.head e) back = Memᴰ.head e
      step (Memᴰ.tail t) back = Memᴰ.tail (back t)

module _ {ℓ κ} {A : Type ℓ} (before : A → A → Bool) (P : A → Type κ) where
  All_of-insert_sorted : (x : A) (ys : List A) → All P (insert_sorted before x ys) → All P (x ∷ ys)
  unfolding insert_sorted
  All_of-insert_sorted x [] h = h
  All_of-insert_sorted x (y ∷ ys) h = elim (Bool-cases (before y x)) [
    | inl e ↦
        let k : All P (y ∷ insert_sorted before x ys) = rw e at h in
        let below = All_of-insert_sorted x ys k.1 in (below.0, (k.0, below.1))
    | inr e ↦ rw e at h
  ]

  -- What holds of all elements of the sorted list holds of all elements of the list.
  pub All_of-sorted : (xs : List A) → All P (sorted before xs) → All P xs
  unfolding sorted
  All_of-sorted [] h = tt
  All_of-sorted (x ∷ xs) h =
      let k = All_of-insert_sorted x (sorted before xs) h in (k.0, All_of-sorted xs k.1)

module _ {ℓ} {A : Type ℓ} (before : A → A → Bool) where
  length-insert_sorted : (x : A) (ys : List A) → length (insert_sorted before x ys) ≡ length ys + 1
  unfolding insert_sorted
  length-insert_sorted x [] = refl
  length-insert_sorted x (y ∷ ys) = ground (arith, length-insert_sorted x ys)

  pub length-sorted : (xs : List A) → length (sorted before xs) ≡ length xs
  unfolding sorted
  length-sorted [] = refl
  length-sorted (x ∷ xs) =
      omega (arith, length-insert_sorted x (sorted before xs), length-sorted xs)

module _ {ℓ κ} {A : Type ℓ} (before : A → A → Bool) (P : A → Type κ) where
  All-insert_sorted_of : (x : A) (ys : List A) → P x → All P ys → All P (insert_sorted before x ys)
  unfolding insert_sorted
  All-insert_sorted_of x [] h k = (h, tt)
  All-insert_sorted_of x (y ∷ ys) h k = elim (Bool-cases (before y x)) [
    | inl e ↦ rw e (k.0, All-insert_sorted_of x ys h k.1)
    | inr e ↦ rw e (h, k)
  ]

  pub All-sorted : (xs : List A) → All P xs → All P (sorted before xs)
  unfolding sorted
  All-sorted [] h = tt
  All-sorted (x ∷ xs) h = All-insert_sorted_of x (sorted before xs) h.0 (All-sorted xs h.1)

-- Each element is related to every later one.
abbrev pub Ordered {ℓ κ} : {A : Type ℓ} → (A → A → Type κ) → List A → Type κ
Ordered R [] = Unit
Ordered R (x ∷ xs) = All (R x) xs × Ordered R xs

module _ {ℓ κ} {A : Type ℓ} (before : A → A → Bool) (R : A → A → Type κ)
    (of_before : (x y : A) → before y x ≡ true → R y x)
    (of_after : (x y : A) → before y x ≡ false → R x y)
    (trans : (x y z : A) → R x y → R y z → R x z) where
  All-trans : (x y : A) (zs : List A) → R x y → All (R y) zs → All (R x) zs
  All-trans x y [] r h = tt
  All-trans x y (z ∷ zs) r h = (trans x y z r h.0, All-trans x y zs r h.1)

  All-insert_sorted :
      (a x : A) (ys : List A) → R a x → All (R a) ys → All (R a) (insert_sorted before x ys)
  unfolding insert_sorted
  All-insert_sorted a x [] r h = (r, tt)
  All-insert_sorted a x (y ∷ ys) r h = elim (Bool-cases (before y x)) [
    | inl e ↦ rw e (h.0, All-insert_sorted a x ys r h.1)
    | inr e ↦ rw e (r, (h.0, h.1))
  ]

  Ordered-insert_sorted :
      (x : A) (ys : List A) → Ordered R ys → Ordered R (insert_sorted before x ys)
  unfolding insert_sorted
  Ordered-insert_sorted x [] h = (tt, tt)
  Ordered-insert_sorted x (y ∷ ys) h = elim (Bool-cases (before y x)) [
    | inl e ↦ rw e (All-insert_sorted y x ys (of_before x y e) h.0, Ordered-insert_sorted x ys h.1)
    | inr e ↦ let r = of_after x y e in rw e ((r, All-trans x y ys r h.0), h)
  ]

  -- The result of a sort is in order.
  pub Ordered-sorted : (xs : List A) → Ordered R (sorted before xs)
  unfolding sorted
  Ordered-sorted [] = tt
  Ordered-sorted (x ∷ xs) = Ordered-insert_sorted x (sorted before xs) (Ordered-sorted xs)
