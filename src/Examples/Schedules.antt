-- ===== src/Examples/Schedules.antt =====
-- A clock that counts microseconds, and the expression of a trigger, at which the theorems on cron
-- expressions apply.
use enterprise_agi_runtime.Prelude.{
  ℕ, String, ◌+◌, ◌-◌, ◌*◌, ◌/◌, ◌%◌, ◌≡◌, refl, arith, Bool, true, false, ◌&&◌, Option, some, List,
  [], ◌∷◌, leb, ltb, if◌then◌else◌, ◌==◌,
}
use enterprise_agi_runtime.Prelude.Text.{strip, rstrip, lstrip, is_space}
use Prim.Native.Char.{code}
use enterprise_agi_runtime.Cron.{
  parsed, Digits, Clock, split_on, partition, words, range_from, range, within, int, both,
  parse_span, with_step, parse_chunk, join, parse_chunks, parse_field, cons, parse_fields,
  field_ranges, parse, next_after, limit_of,
}
use enterprise_agi_runtime.Cron.Next.{IsTimeline, IsNext, next_after-IsNext}
use enterprise_agi_runtime.Cron.Ranges.{AreFields}
use enterprise_agi_runtime.Cron.Fields.{parse-AreFields}

abbrev micro_clock : Clock ℕ
micro_clock = record {
  minute = λ m. m / 60000000 % 60;
  hour = λ m. m / 3600000000 % 24;
  day = λ m. m / 86400000000 % 31 + 1;
  month = λ m. m / 2678400000000 % 12 + 1;
  weekday = λ m. m / 86400000000 % 7;
  start_of_minute = λ m. m / 60000000 * 60000000;
  add_minutes = λ k m. m + 60000000 * k;
  is_before = ltb;
}

micro_clock-IsTimeline : IsTimeline micro_clock (λ m. m)
micro_clock-IsTimeline = record {
  ordered = λ m n. refl;
  added = λ k m. refl;
  started = λ m. omega arith;
  ending = λ m. omega arith;
}

abbrev ascii_digits_only : String → Bool
ascii_digits_only String.[] = true
ascii_digits_only (String.◌∷◌ c s) = (leb 48 (code c) && leb (code c) 57) && ascii_digits_only s

abbrev read_digits : ℕ → String → ℕ
read_digits n String.[] = n
read_digits n (String.◌∷◌ c s) = read_digits (10 * n + (code c - 48)) s

abbrev ascii_digits : Digits
ascii_digits = record {
  is_digit = λ s. if s == "" then false else ascii_digits_only s;
  to_int = λ s. some (read_digits 0 s);
}

abbrev office_hours : List (List ℕ)
office_hours =
    (0 ∷ 30 ∷ []) ∷ (9 ∷ 10 ∷ 11 ∷ []) ∷ (1 ∷ 11 ∷ 21 ∷ 31 ∷ []) ∷ (6 ∷ []) ∷ (1 ∷ 5 ∷ []) ∷ []

office_hours_lem : parse ascii_digits " */30 9-11 */10 6 1,5 " ≡ parsed office_hours
unfolding parse parse_fields cons parse_field parse_chunks join parse_chunk with_step parse_span
    both int within range range_from partition words split_on strip rstrip lstrip is_space
office_hours_lem = refl

parse-AreFields_example : AreFields field_ranges office_hours
parse-AreFields_example =
    parse-AreFields ascii_digits " */30 9-11 */10 6 1,5 " office_hours office_hours_lem

next_after-IsNext_example :
    (r : Option ℕ) × (next_after micro_clock office_hours 366 90000000 ≡ some r)
    × IsNext micro_clock (λ m. m) office_hours 90000000 (limit_of micro_clock 366 90000000) r
next_after-IsNext_example =
    next_after-IsNext micro_clock (λ m. m) micro_clock-IsTimeline office_hours 366 90000000
