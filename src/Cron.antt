-- ===== src/Cron.antt =====
-- The cron expressions of triggers: src/egr/orchestration/cron.py. Moments are those of Python's
-- `datetime`; `Clock` has what the code uses of them.
pub mod Next
pub mod Ranges
pub mod Fields
use enterprise_agi_runtime.Prelude.{
  ℕ, zero, suc, String, ◌+◌, ◌-◌, ◌*◌, Bool, true, false, ◌&&◌, ◌||◌, not, Option, none, some, List,
  [], ◌∷◌, ◌++◌, ◌==◌, any, if◌then◌else◌, ltb, leb, eqb, length, all, ◌%◌,
}
use enterprise_agi_runtime.Prelude.Text.{strip, is_space}
use Prim.Native.Char.{code}
use Prim.Native.String

-- What parsing gives: a value, the `CronError` of this module, or the plain `ValueError` of `int`.
pub data Parsed {ℓ} (A : Type ℓ) : Type ℓ where
  parsed : A → Parsed A
  cron_error value_error : Parsed A

-- `str.isdigit`, and `int` on such a text: it is refused for digits that are not decimal.
pub record Digits : Type 0 where
  pub is_digit : String → Bool
  pub to_int : String → Option ℕ

-- `s.split(sep)` for one character, with what is read of the current piece.
unfoldable pub split_on : ℕ → String → String → List String
split_on sep piece String.[] = piece ∷ []
split_on sep piece (String.◌∷◌ c s) =
    let cut = split_on sep "" s in
    let longer = split_on sep (String.◌++◌ piece (String.◌∷◌ c "")) s in
    if eqb (code c) sep then piece ∷ cut else longer

-- `s.split()`
unfoldable pub words : String → String → List String
words piece String.[] = if piece == "" then [] else piece ∷ []
words piece (String.◌∷◌ c s) =
    let cut = words "" s in
    let longer = words (String.◌++◌ piece (String.◌∷◌ c "")) s in
    if is_space (code c) then if piece == "" then cut else piece ∷ cut else longer

-- `s.partition(sep)`, or nothing when the character is not in the text.
unfoldable pub partition : ℕ → String → String → Option (String × String)
partition sep before String.[] = none
partition sep before (String.◌∷◌ c s) =
    let later = partition sep (String.◌++◌ before (String.◌∷◌ c "")) s in
    if eqb (code c) sep then some (before, s) else later

-- `range(start, stop, step)`, on fuel.
unfoldable pub range_from : ℕ → ℕ → ℕ → ℕ → List ℕ
range_from zero start stop step = []
range_from (suc fuel) start stop step =
    let rest = range_from fuel (start + step) stop step in
    if ltb start stop then start ∷ rest else []

unfoldable pub range : ℕ → ℕ → ℕ → List ℕ
range start stop step = range_from (stop - start) start stop step

-- The values of one range, which has to lie between the bounds of the field.
unfoldable pub within : ℕ → ℕ → ℕ → ℕ → ℕ → Parsed (List ℕ)
within minimum maximum step start end =
    if (ltb start minimum || ltb maximum end) || ltb end start
    then cron_error
    else parsed (range start (end + 1) step)

module _ (digits : Digits) where
  -- `int(text)`
  unfoldable pub int : String → Parsed ℕ
  int text = elim (digits.to_int text) [ none ↦ value_error | some n ↦ parsed n ]

  unfoldable pub both : Parsed ℕ → Parsed ℕ → (ℕ → ℕ → Parsed (List ℕ)) → Parsed (List ℕ)
  both (parsed a) (parsed b) f = f a b
  both (parsed a) cron_error f = cron_error
  both (parsed a) value_error f = value_error
  both cron_error b f = cron_error
  both value_error b f = value_error

  -- A chunk of a field without its step: `*`, `a-b` or `a`.
  unfoldable pub parse_span : ℕ → ℕ → ℕ → String → Parsed (List ℕ)
  parse_span minimum maximum step chunk =
      if chunk == "*"
      then within minimum maximum step minimum maximum
      else elim (partition b'-' "" chunk) [
        | some (start_text, end_text) ↦
            if digits.is_digit start_text && digits.is_digit end_text
            then both (int start_text) (int end_text) (within minimum maximum step)
            else cron_error
        | none ↦
            if digits.is_digit chunk
            then both (int chunk) (int chunk) (within minimum maximum step)
            else cron_error
      ]

  unfoldable pub with_step : ℕ → ℕ → String → Parsed ℕ → Parsed (List ℕ)
  with_step minimum maximum chunk cron_error = cron_error
  with_step minimum maximum chunk value_error = value_error
  with_step minimum maximum chunk (parsed zero) = cron_error
  with_step minimum maximum chunk (parsed (suc step)) =
      parse_span minimum maximum (suc step) (if strip chunk == "" then "*" else strip chunk)

  -- One chunk of the list of a field.
  unfoldable pub parse_chunk : ℕ → ℕ → String → Parsed (List ℕ)
  parse_chunk minimum maximum chunk =
      if chunk == "" then cron_error else elim (partition b'/' "" chunk) [
        | some (front, step_text) ↦
            if digits.is_digit step_text
            then with_step minimum maximum front (int step_text)
            else cron_error
        | none ↦ parse_span minimum maximum 1 chunk
      ]

  unfoldable pub join : Parsed (List ℕ) → Parsed (List ℕ) → Parsed (List ℕ)
  join (parsed xs) (parsed ys) = parsed (xs ++ ys)
  join (parsed xs) cron_error = cron_error
  join (parsed xs) value_error = value_error
  join cron_error ys = cron_error
  join value_error ys = value_error

  -- The chunks in order: the first error is raised.
  unfoldable pub parse_chunks : ℕ → ℕ → List String → Parsed (List ℕ)
  parse_chunks minimum maximum [] = parsed []
  parse_chunks minimum maximum (chunk ∷ chunks) =
      join (parse_chunk minimum maximum (strip chunk)) (parse_chunks minimum maximum chunks)

  -- `_parse_field`, with the set as the list of its members.
  unfoldable pub parse_field : ℕ → ℕ → String → Parsed (List ℕ)
  parse_field minimum maximum value =
      if strip value == ""
      then cron_error
      else parse_chunks minimum maximum (split_on b',' "" (strip value))

  unfoldable pub cons : Parsed (List ℕ) → Parsed (List (List ℕ)) → Parsed (List (List ℕ))
  cons (parsed xs) (parsed ys) = parsed (xs ∷ ys)
  cons (parsed xs) cron_error = cron_error
  cons (parsed xs) value_error = value_error
  cons cron_error ys = cron_error
  cons value_error ys = value_error

  -- The fields with their ranges: `zip` raises a `ValueError` when they are not equally many.
  unfoldable pub parse_fields : List (ℕ × ℕ) → List String → Parsed (List (List ℕ))
  parse_fields [] [] = parsed []
  parse_fields [] (text ∷ texts) = value_error
  parse_fields (bounds ∷ ranges) [] = value_error
  parse_fields (bounds ∷ ranges) (text ∷ texts) =
      cons (parse_field bounds.0 bounds.1 text) (parse_fields ranges texts)

abbrev pub field_ranges : List (ℕ × ℕ)
field_ranges = (0, 59) ∷ (0, 23) ∷ (1, 31) ∷ (1, 12) ∷ (0, 6) ∷ []

-- `CronExpression(expression)`: the allowed values of the five fields.
unfoldable pub parse : Digits → String → Parsed (List (List ℕ))
parse digits expression =
    let texts = words "" (strip expression) in
    if eqb (length texts) 5 then parse_fields digits field_ranges texts else cron_error

-- `is_valid`: none where it raises, for the error that is no `CronError`.
unfoldable pub is_valid : Digits → String → Option Bool
is_valid digits expression = elim (parse digits expression) [
  | parsed fields ↦ some true
  | cron_error ↦ some false
  | value_error ↦ none
]

-- What the code uses of `datetime`: its fields, `replace(second=0, microsecond=0)`, the addition of
-- minutes, and the order.
pub record Clock (Moment : Type 0) : Type 0 where
  pub minute : Moment → ℕ
  pub hour : Moment → ℕ
  pub day : Moment → ℕ
  pub month : Moment → ℕ
  pub weekday : Moment → ℕ
  pub start_of_minute : Moment → Moment
  pub add_minutes : ℕ → Moment → Moment
  pub is_before : Moment → Moment → Bool

abbrev pub member : ℕ → List ℕ → Bool
member value field = any (eqb value) field

-- `all(value in field for value, field in zip(...))`
unfoldable pub all_members : List ℕ → List (List ℕ) → Bool
all_members [] fields = true
all_members (value ∷ values) [] = true
all_members (value ∷ values) (field ∷ fields) = member value field && all_members values fields

module _ {Moment : Type 0} (clock : Clock Moment) where
  -- `matches`
  unfoldable pub matches : List (List ℕ) → Moment → Bool
  matches fields moment =
      all_members
        (clock.minute moment
          ∷ clock.hour moment
          ∷ clock.day moment
          ∷ clock.month moment
          ∷ (clock.weekday moment + 1) % 7
          ∷ [])
        fields

  -- The loop of `next_after`, on fuel: none when that is spent.
  unfoldable pub search : ℕ → List (List ℕ) → Moment → Moment → Option (Option Moment)
  search zero fields candidate limit = none
  search (suc fuel) fields candidate limit =
      let later = search fuel fields (clock.add_minutes 1 candidate) limit in
      if clock.is_before limit candidate
      then some none
      else if matches fields candidate
      then some (some candidate)
      else later

  abbrev pub first_candidate : Moment → Moment
  first_candidate moment = clock.add_minutes 1 (clock.start_of_minute moment)

  abbrev pub limit_of : ℕ → Moment → Moment
  limit_of horizon_days moment = clock.add_minutes (1440 * horizon_days) moment

  -- `next_after`: a day has 1440 minutes, and one round more ends the loop.
  unfoldable pub next_after : List (List ℕ) → ℕ → Moment → Option (Option Moment)
  next_after fields horizon_days moment =
      search (suc (1440 * horizon_days)) fields (first_candidate moment)
        (limit_of horizon_days moment)
