-- ===== src/Integration/Backoff.antt =====
-- The waits between the tries of a job: `IntegrationJob.wait_seconds` of
-- src/egr/domain/integration.py.
use enterprise_agi_runtime.Prelude.{ℕ, zero, suc, ◌+◌, ◌-◌, ◌*◌, ◌≤◌, ◌≡◌, arith, ap, ◌∙◌, sym}
use enterprise_agi_runtime.Integration.Queue.{wait_seconds, power_two, min}

power_two_pos : (n : ℕ) → 1 ≤ power_two n
unfolding power_two
power_two_pos zero = omega arith
power_two_pos (suc n) = omega (arith, power_two_pos n)

power_two_mono : (a b : ℕ) → a ≤ b → power_two a ≤ power_two b
unfolding power_two
power_two_mono zero b h = power_two_pos b
power_two_mono (suc a) zero h = absurd (omega arith)
power_two_mono (suc a) (suc b) h = omega (arith, power_two_mono a b (omega arith))

mul_le : (b x y : ℕ) → x ≤ y → b * x ≤ b * y
mul_le zero x y h = omega arith
mul_le (suc b) x y h = omega (arith, mul_le b x y h)

min_le : (x y ceiling : ℕ) → x ≤ y → min x ceiling ≤ min y ceiling
min_le x y ceiling h = ground arith

min-double : (x ceiling : ℕ) → min (2 * x) ceiling ≡ min (2 * min x ceiling) ceiling
min-double x ceiling = ground arith

doubled : (b x : ℕ) → b * (2 * x) ≡ 2 * (b * x)
doubled b x = omega arith

wait_seconds-suc :
    (base ceiling n : ℕ) → wait_seconds base ceiling (suc n) ≡ min (base * power_two n) ceiling
unfolding wait_seconds
wait_seconds-suc base ceiling n =
    let less : suc n - 1 ≡ n = omega arith in ap (λ k. min (base * power_two k) ceiling) less

-- A job never waits longer than the cap, a later try is waited for at least as long as an earlier one,
-- and with each failure the wait doubles, up to the cap.
pub wait_seconds-bounds :
    (base ceiling attempts more : ℕ)
    → (wait_seconds base ceiling attempts ≤ ceiling)
      × (wait_seconds base ceiling attempts ≤ wait_seconds base ceiling (more + attempts))
      × (wait_seconds base ceiling (suc (suc attempts))
          ≡ min (2 * wait_seconds base ceiling (suc attempts)) ceiling)
unfolding wait_seconds power_two
wait_seconds-bounds base ceiling attempts more = (
  ground arith,
  min_le (base * power_two (attempts - 1)) (base * power_two (more + attempts - 1)) ceiling (
      mul_le base (power_two (attempts - 1)) (power_two (more + attempts - 1))
        (power_two_mono (attempts - 1) (more + attempts - 1) (omega arith))),
  wait_seconds-suc base ceiling (suc attempts)
      ∙ ap (λ x. min x ceiling) (doubled base (power_two attempts))
      ∙ min-double (base * power_two attempts) ceiling
      ∙ sym (ap (λ x. min (2 * x) ceiling) (wait_seconds-suc base ceiling attempts)),
)
