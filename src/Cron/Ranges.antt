-- ===== src/Cron/Ranges.antt =====
-- The ranges of a cron expression's fields, and what parsing yields: `_parse_field` of
-- src/egr/orchestration/cron.py.
use enterprise_agi_runtime.Prelude.{
  ℕ, zero, suc, ◌+◌, ◌-◌, ◌≤◌, ◌<◌, ◌≡◌, inl, inr, arith, ◌||◌, List, [], ◌∷◌, ◌++◌, ltb,
  Bool-cases, length, All, ltb→lt,
}
use mathlib.Core.Path.{subst}
use enterprise_agi_runtime.Cron.{Parsed, parsed, cron_error, value_error, range_from, range, within}

-- The values of a field: at least one, and all in its range.
unfoldable pub IsField : ℕ → ℕ → List ℕ → Type 0
IsField minimum maximum field =
    All (λ value. (minimum ≤ value) × (value ≤ maximum)) field × (1 ≤ length field)

-- Fields that fit their ranges one by one.
unfoldable pub AreFields : List (ℕ × ℕ) → List (List ℕ) → Type 0
AreFields [] [] = Unit
AreFields [] (field ∷ fields) = ⊥
AreFields (bounds ∷ ranges) [] = ⊥
AreFields (bounds ∷ ranges) (field ∷ fields) =
    IsField bounds.0 bounds.1 field × AreFields ranges fields

-- What is parsed, if anything is, has the property.
module _ {A : Type 0} (P : A → Type 0) where
  abbrev pub Yields : Parsed A → Type 0
  Yields (parsed a) = P a
  Yields cron_error = Unit
  Yields value_error = Unit

  pub Yields-parsed : (r : Parsed A) (a : A) → Yields r → r ≡ parsed a → P a
  Yields-parsed r a h e = subst Yields e h

module _ (P : ℕ → Type 0) where
  pub All-append : (xs ys : List ℕ) → All P xs → All P ys → All P (xs ++ ys)
  All-append [] ys h k = k
  All-append (x ∷ xs) ys h k = (h.0, All-append xs ys h.1 k)

range_from-bounds :
    (fuel start stop step minimum maximum : ℕ)
    → minimum ≤ start
    → stop ≤ suc maximum
    → All (λ value. (minimum ≤ value) × (value ≤ maximum)) (range_from fuel start stop step)
unfolding range_from
range_from-bounds zero start stop step minimum maximum low high = tt
range_from-bounds (suc fuel) start stop step minimum maximum low high =
    let rest = range_from-bounds fuel (start + step) stop step minimum maximum (omega arith) high in
    elim (Bool-cases (ltb start stop)) [
      | inl e ↦ rw e ((low, omega (arith, ltb→lt start stop e)), rest)
      | inr e ↦ rw e tt
    ]

range_from-length :
    (fuel start stop step : ℕ)
    → start < stop
    → 1 ≤ fuel
    → 1 ≤ length (range_from fuel start stop step)
unfolding range_from
range_from-length zero start stop step h k = absurd (omega arith)
range_from-length (suc fuel) start stop step h k = ground arith

pub within-IsField :
    (minimum maximum step start end : ℕ)
    → Yields (IsField minimum maximum) (within minimum maximum step start end)
unfolding within IsField range
within-IsField minimum maximum step start end =
    elim (Bool-cases ((ltb start minimum || ltb maximum end) || ltb end start)) [
      | inl e ↦ rw e tt
      | inr e ↦ rw e (
        range_from-bounds (end + 1 - start) start (end + 1) step minimum maximum (ground arith)
            (ground arith),
        range_from-length (end + 1 - start) start (end + 1) step (ground arith) (ground arith),
      )
    ]
