-- ===== src/Cron/Next.antt =====
-- The next moment of a cron expression: `next_after` of src/egr/orchestration/cron.py.
use enterprise_agi_runtime.Prelude.{
  ℕ, zero, suc, ◌+◌, ◌*◌, ◌≤◌, ◌<◌, ◌≡◌, ◌⊎◌, inl, inr, refl, ap, ◌∙◌, arith, true, false, Option,
  none, some, List, ltb, Bool-cases, ltb→lt,
}
use enterprise_agi_runtime.Cron.{Clock, matches, search, next_after, first_candidate, limit_of}

-- A position of the moments in microseconds, by which they are ordered, in which a minute added is a
-- minute, and by which a moment lies in the minute that it is cut to.
pub record IsTimeline {Moment : Type 0} (clock : Clock Moment) (position : Moment → ℕ)
    : Type 0 where
  pub ordered : (m n : Moment) → clock.is_before m n ≡ ltb (position m) (position n)
  pub added : (k : ℕ) (m : Moment) → position (clock.add_minutes k m) ≡ position m + 60000000 * k
  pub started : (m : Moment) → position (clock.start_of_minute m) ≤ position m
  pub ending : (m : Moment) → position m < position (clock.start_of_minute m) + 60000000

earlier_or_last : (j i : ℕ) → j < suc i → (j < i) ⊎ (j ≡ i)
earlier_or_last j i h = elim (Bool-cases (ltb j i)) [
  | inl t ↦ inl (ltb→lt j i t)
  | inr f ↦ inr (ground arith)
]

module _ {Moment : Type 0} (clock : Clock Moment) (position : Moment → ℕ) where
  -- The full minute that is `k` minutes after the first one behind the moment.
  unfoldable pub full_minute : Moment → ℕ → Moment
  full_minute moment zero = first_candidate clock moment
  full_minute moment (suc k) = clock.add_minutes 1 (full_minute moment k)

  -- The first full minute behind the moment and up to the limit that matches; or none does.
  unfoldable pub IsNext : List (List ℕ) → Moment → Moment → Option Moment → Type 0
  IsNext fields moment limit none =
      (k : ℕ)
      → position (full_minute moment k) ≤ position limit
      → matches clock fields (full_minute moment k) ≡ false
  IsNext fields moment limit (some found) =
      (matches clock fields found ≡ true)
      × (position moment < position found)
      × (position found ≤ position limit)
      × (k : ℕ) × (found ≡ full_minute moment k)
      × ((j : ℕ) → j < k → matches clock fields (full_minute moment j) ≡ false)

  module _ (timeline : IsTimeline clock position) where
    position-full_minute :
        (moment : Moment) (k : ℕ)
        → position (full_minute moment k)
          ≡ position (clock.start_of_minute moment) + 60000000 * suc k
    unfolding full_minute
    position-full_minute moment zero = timeline.added 1 (clock.start_of_minute moment)
    position-full_minute moment (suc k) =
        omega (arith, timeline.added 1 (full_minute moment k), position-full_minute moment k)

    unmatched_suc :
        (fields : List (List ℕ)) (moment : Moment) (i : ℕ)
        → ((j : ℕ) → j < i → matches clock fields (full_minute moment j) ≡ false)
        → matches clock fields (full_minute moment i) ≡ false
        → (j : ℕ) → j < suc i
        → matches clock fields (full_minute moment j) ≡ false
    unmatched_suc fields moment i before here j h = elim (earlier_or_last j i h) [
      | inl lt ↦ before j lt
      | inr e ↦ ap (λ k. matches clock fields (full_minute moment k)) e ∙ here
    ]

    beyond :
        (fields : List (List ℕ)) (moment limit : Moment) (i : ℕ)
        → ((j : ℕ) → j < i → matches clock fields (full_minute moment j) ≡ false)
        → position limit < position (full_minute moment i)
        → IsNext fields moment limit none
    unfolding IsNext
    beyond fields moment limit i before h k at =
        before k (omega (arith, position-full_minute moment i, position-full_minute moment k))

    found :
        (fields : List (List ℕ)) (moment limit : Moment) (i : ℕ)
        → ((j : ℕ) → j < i → matches clock fields (full_minute moment j) ≡ false)
        → position (full_minute moment i) ≤ position limit
        → matches clock fields (full_minute moment i) ≡ true
        → IsNext fields moment limit (some (full_minute moment i))
    unfolding IsNext
    found fields moment limit i before at here = (
      here,
      omega (arith, position-full_minute moment i, timeline.ending moment),
      at,
      i,
      refl,
      before,
    )

    -- From a full minute on, with the ones before it unmatched, the loop ends with the next moment.
    search-IsNext :
        (fields : List (List ℕ)) (moment limit : Moment) (fuel i : ℕ)
        → ((j : ℕ) → j < i → matches clock fields (full_minute moment j) ≡ false)
        → position limit < position (full_minute moment i) + 60000000 * fuel
        → (r : Option Moment) × (search clock (suc fuel) fields (full_minute moment i) limit
            ≡ some r)
          × IsNext fields moment limit r
    unfolding search full_minute
    search-IsNext fields moment limit zero i before h =
        let here = full_minute moment i in
        elim (Bool-cases (ltb (position limit) (position here))) [
          | inl over ↦ (
            none,
            ground (arith, timeline.ordered limit here),
            beyond fields moment limit i before (ltb→lt (position limit) (position here) over),
          )
          | inr under ↦ absurd (ground (arith, timeline.ordered limit here))
        ]
    search-IsNext fields moment limit (suc fuel) i before h =
        let here = full_minute moment i in
        elim (Bool-cases (ltb (position limit) (position here))) [
          | inl over ↦ (
            none,
            ground (arith, timeline.ordered limit here),
            beyond fields moment limit i before (ltb→lt (position limit) (position here) over),
          )
          | inr under ↦ elim (Bool-cases (matches clock fields here)) [
            | inl hit ↦ (
              some here,
              ground (arith, timeline.ordered limit here),
              found fields moment limit i before (ground (arith, timeline.ordered limit here)) hit,
            )
            | inr miss ↦
                let (r, same, next) =
                  search-IsNext fields moment limit fuel (suc i)
                    (unmatched_suc fields moment i before miss)
                    (omega (arith, timeline.added 1 here)) in
                (r, ground (arith, timeline.ordered limit here), next)
          ]
        ]

    -- The search of `next_after` always ends. The moment that it gives matches, lies behind the given
    -- one and not behind the limit, and no full minute between them matches; if it gives none, no full
    -- minute up to the limit matches.
    pub next_after-IsNext :
        (fields : List (List ℕ)) (horizon_days : ℕ) (moment : Moment)
        → (r : Option Moment) × (next_after clock fields horizon_days moment ≡ some r)
          × IsNext fields moment (limit_of clock horizon_days moment) r
    unfolding next_after full_minute
    next_after-IsNext fields horizon_days moment =
        let start = clock.start_of_minute moment in
        search-IsNext fields moment (limit_of clock horizon_days moment) (1440 * horizon_days) 0
          (λ j h. absurd (omega arith))
          (omega (
            arith,
            timeline.added (1440 * horizon_days) moment,
            timeline.added 1 start,
            timeline.ending moment,
          ))
