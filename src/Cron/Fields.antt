-- ===== src/Cron/Fields.antt =====
-- The fields of a cron expression: `_parse_field` of src/egr/orchestration/cron.py.
use enterprise_agi_runtime.Prelude.{
  ℕ, zero, suc, String, ◌≤◌, ◌≡◌, inl, inr, arith, ◌&&◌, List, [], ◌∷◌, ◌==◌, if◌then◌else◌,
  Bool-cases, Option-cases, length, All, length-append, eqb,
}
use Prim.Native.String
use enterprise_agi_runtime.Prelude.Text.{strip}
use enterprise_agi_runtime.Cron.{
  Parsed, parsed, cron_error, value_error, Digits, split_on, partition, words, within, int, both,
  parse_span, with_step, parse_chunk, join, parse_chunks, parse_field, cons, parse_fields,
  field_ranges, parse,
}
use enterprise_agi_runtime.Cron.Ranges.{
  IsField, AreFields, Yields, Yields-parsed, All-append, within-IsField,
}

length-split_on : (sep : ℕ) (piece s : String) → 1 ≤ length (split_on sep piece s)
unfolding split_on
length-split_on sep piece String.[] = omega arith
length-split_on sep piece (String.◌∷◌ c s) =
    ground (arith, length-split_on sep (String.◌++◌ piece (String.◌∷◌ c "")) s)

module _ (digits : Digits) where
  both-Yields :
      (P : List ℕ → Type 0) (a b : Parsed ℕ) (f : ℕ → ℕ → Parsed (List ℕ))
      → ((x y : ℕ) → Yields P (f x y))
      → Yields P (both digits a b f)
  unfolding both
  both-Yields P (parsed a) (parsed b) f h = h a b
  both-Yields P (parsed a) cron_error f h = tt
  both-Yields P (parsed a) value_error f h = tt
  both-Yields P cron_error b f h = tt
  both-Yields P value_error b f h = tt

  parse_span-IsField :
      (minimum maximum step : ℕ) (chunk : String)
      → Yields (IsField minimum maximum) (parse_span digits minimum maximum step chunk)
  unfolding parse_span
  parse_span-IsField minimum maximum step chunk =
      let inside = within-IsField minimum maximum step in
      elim (Bool-cases (chunk == "*")) [
        | inl e ↦ rw e (inside minimum maximum)
        | inr e ↦ elim (Option-cases (partition b'-' "" chunk)) [
          | inl one ↦ elim (Bool-cases (digits.is_digit chunk)) [
            | inl d ↦ rw e (
                rw one (
                  rw d (
                    both-Yields (IsField minimum maximum) (int digits chunk) (int digits chunk)
                      (within minimum maximum step) inside)))
            | inr d ↦ rw e (rw one (rw d tt))
          ]
          | inr (ends, two) ↦ elim (Bool-cases (digits.is_digit ends.0 && digits.is_digit ends.1)) [
            | inl d ↦ rw e (
                rw two (
                  rw d (
                    both-Yields (IsField minimum maximum) (int digits ends.0) (int digits ends.1)
                      (within minimum maximum step) inside)))
            | inr d ↦ rw e (rw two (rw d tt))
          ]
        ]
      ]

  with_step-IsField :
      (minimum maximum : ℕ) (chunk : String) (step : Parsed ℕ)
      → Yields (IsField minimum maximum) (with_step digits minimum maximum chunk step)
  unfolding with_step
  with_step-IsField minimum maximum chunk cron_error = tt
  with_step-IsField minimum maximum chunk value_error = tt
  with_step-IsField minimum maximum chunk (parsed zero) = tt
  with_step-IsField minimum maximum chunk (parsed (suc step)) =
      parse_span-IsField minimum maximum (suc step) (if strip chunk == "" then "*" else strip chunk)

  join-IsField :
      (minimum maximum : ℕ) (xs ys : Parsed (List ℕ))
      → Yields (IsField minimum maximum) xs
      → Yields (All (λ value. (minimum ≤ value) × (value ≤ maximum))) ys
      → Yields (IsField minimum maximum) (join digits xs ys)
  unfolding join IsField
  join-IsField minimum maximum (parsed xs) (parsed ys) h k = (
    All-append (λ value. (minimum ≤ value) × (value ≤ maximum)) xs ys h.0 k,
    omega (arith, h.1, length-append xs ys),
  )
  join-IsField minimum maximum (parsed xs) cron_error h k = tt
  join-IsField minimum maximum (parsed xs) value_error h k = tt
  join-IsField minimum maximum cron_error ys h k = tt
  join-IsField minimum maximum value_error ys h k = tt

  parse_chunk-IsField :
      (minimum maximum : ℕ) (chunk : String)
      → Yields (IsField minimum maximum) (parse_chunk digits minimum maximum chunk)
  unfolding parse_chunk
  parse_chunk-IsField minimum maximum chunk = elim (Bool-cases (chunk == "")) [
    | inl e ↦ rw e tt
    | inr e ↦ elim (Option-cases (partition b'/' "" chunk)) [
      | inl one ↦ rw e (rw one (parse_span-IsField minimum maximum 1 chunk))
      | inr (parts, two) ↦ elim (Bool-cases (digits.is_digit parts.1)) [
        | inl d ↦
            rw e (rw two (rw d (with_step-IsField minimum maximum parts.0 (int digits parts.1))))
        | inr d ↦ rw e (rw two (rw d tt))
      ]
    ]
  ]

  values_of_field :
      (minimum maximum : ℕ) (r : Parsed (List ℕ))
      → Yields (IsField minimum maximum) r
      → Yields (All (λ value. (minimum ≤ value) × (value ≤ maximum))) r
  unfolding IsField
  values_of_field minimum maximum (parsed xs) h = h.0
  values_of_field minimum maximum cron_error h = tt
  values_of_field minimum maximum value_error h = tt

  parse_chunks-All :
      (minimum maximum : ℕ) (chunks : List String)
      → Yields
          (All (λ value. (minimum ≤ value) × (value ≤ maximum)))
          (parse_chunks digits minimum maximum chunks)
  unfolding parse_chunks
  parse_chunks-All minimum maximum [] = tt
  parse_chunks-All minimum maximum (chunk ∷ chunks) =
      values_of_field minimum maximum (parse_chunks digits minimum maximum (chunk ∷ chunks)) (
        join-IsField minimum maximum (parse_chunk digits minimum maximum (strip chunk))
          (parse_chunks digits minimum maximum chunks)
          (parse_chunk-IsField minimum maximum (strip chunk))
          (parse_chunks-All minimum maximum chunks))

  parse_chunks-IsField :
      (minimum maximum : ℕ) (chunks : List String)
      → 1 ≤ length chunks
      → Yields (IsField minimum maximum) (parse_chunks digits minimum maximum chunks)
  unfolding parse_chunks
  parse_chunks-IsField minimum maximum [] h = absurd (omega arith)
  parse_chunks-IsField minimum maximum (chunk ∷ chunks) h =
      join-IsField minimum maximum (parse_chunk digits minimum maximum (strip chunk))
        (parse_chunks digits minimum maximum chunks)
        (parse_chunk-IsField minimum maximum (strip chunk))
        (parse_chunks-All minimum maximum chunks)

  parse_field-IsField :
      (minimum maximum : ℕ) (value : String)
      → Yields (IsField minimum maximum) (parse_field digits minimum maximum value)
  unfolding parse_field
  parse_field-IsField minimum maximum value = elim (Bool-cases (strip value == "")) [
    | inl e ↦ rw e tt
    | inr e ↦ rw e (
        parse_chunks-IsField minimum maximum (split_on b',' "" (strip value))
          (length-split_on b',' "" (strip value)))
  ]

  cons-AreFields :
      (minimum maximum : ℕ) (ranges : List (ℕ × ℕ)) (r : Parsed (List ℕ))
      (rest : Parsed (List (List ℕ)))
      → Yields (IsField minimum maximum) r
      → Yields (AreFields ranges) rest
      → Yields (AreFields ((minimum, maximum) ∷ ranges)) (cons digits r rest)
  unfolding cons AreFields
  cons-AreFields minimum maximum ranges (parsed xs) (parsed ys) h k = (h, k)
  cons-AreFields minimum maximum ranges (parsed xs) cron_error h k = tt
  cons-AreFields minimum maximum ranges (parsed xs) value_error h k = tt
  cons-AreFields minimum maximum ranges cron_error ys h k = tt
  cons-AreFields minimum maximum ranges value_error ys h k = tt

  parse_fields-AreFields :
      (ranges : List (ℕ × ℕ)) (texts : List String)
      → Yields (AreFields ranges) (parse_fields digits ranges texts)
  unfolding parse_fields AreFields
  parse_fields-AreFields [] [] = tt
  parse_fields-AreFields [] (text ∷ texts) = tt
  parse_fields-AreFields (bounds ∷ ranges) [] = tt
  parse_fields-AreFields ((low, high) ∷ ranges) (text ∷ texts) =
      cons-AreFields low high ranges (parse_field digits low high text)
        (parse_fields digits ranges texts) (parse_field-IsField low high text)
        (parse_fields-AreFields ranges texts)

  -- A cron expression that is parsed has five fields, each of which allows at least one value, and
  -- only values in its range: 0 to 59, 0 to 23, 1 to 31, 1 to 12 and 0 to 6.
  pub parse-AreFields :
      (expression : String) (fields : List (List ℕ))
      → parse digits expression ≡ parsed fields
      → AreFields field_ranges fields
  unfolding parse
  parse-AreFields expression fields h =
      let texts = words "" (strip expression) in
      elim (Bool-cases (eqb (length texts) 5)) [
        | inl e ↦
            Yields-parsed (AreFields field_ranges) (parse_fields digits field_ranges texts) fields
              (parse_fields-AreFields field_ranges texts) (ground arith)
        | inr e ↦ absurd (ground arith)
      ]
