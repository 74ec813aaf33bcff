-- ===== src/Repository/Retry/Closed.antt =====
-- The backoff loop against its closed form.
use tmdb_mteam_hub.Common.{
  ℕ, zero, suc, ◌+◌, ◌-◌, ◌*◌, ◌^◌, ◌≤◌, min, ◌≡◌, refl, sym, ◌∙◌, ap, true, false, Bool-cases, inl,
  inr, ◌==◌, ok, arith,
}
use tmdb_mteam_hub.Repository.Retry.{
  u64_max, PollRetryPolicy, policy_try_new, double_delay, delay_secs, next_poll_at,
}

power_positive : (n : ℕ) → 1 ≤ 2 ^ n
power_positive zero = omega arith
power_positive (suc n) = omega (arith, power_positive n)

times_power : (n d : ℕ) → d * 2 ^ suc n ≡ d * 2 * 2 ^ n
times_power n d = grind arith

scaled : (n d : ℕ) → d ≤ d * 2 ^ n
scaled n d = grind (arith, power_positive n)

-- One round: the doubled delay, capped, and saturated where that changes nothing.
capped : (max d : ℕ) → max ≤ u64_max → min (min (d * 2) u64_max) max ≡ min (d * 2) max
capped max d k = ground arith

full_delay : (max d : ℕ) → (min (d * 2) max == max) ≡ true → max ≤ d * 2
full_delay max d h = ground arith

short_delay : (max d : ℕ) → (min (d * 2) max == max) ≡ false → min (d * 2) max ≡ d * 2
short_delay max d h = ground arith

below : (max d : ℕ) → (min (d * 2) max == max) ≡ false → d * 2 ≤ max
below max d h = ground arith

double_delay-min :
    (max n d : ℕ) → d ≤ max → max ≤ u64_max → double_delay max n d ≡ min (d * 2 ^ n) max
unfolding double_delay
double_delay-min max zero d h k = ground arith
double_delay-min max (suc n) d h k =
    let same_next = capped max d k in
    elim (Bool-cases (min (d * 2) max == max)) [
      | inl full ↦
          rw (same_next, full)
            (omega (arith, times_power n d, scaled n (d * 2), full_delay max d full))
      | inr more ↦
          rw (same_next, more, short_delay max d more)
            (double_delay-min max n (d * 2) (below max d more) k
              ∙ ap (λ x. min x max) (sym (times_power n d)))
    ]

valid_policy :
    (initial max : ℕ) (p : PollRetryPolicy)
    → policy_try_new initial max ≡ ok p
    → (p.initial_delay_secs ≡ initial) × (p.max_delay_secs ≡ max) × (initial ≤ max) × (1 ≤ initial)
unfolding policy_try_new
valid_policy initial max p h = (ground arith, ground arith, ground arith, ground arith)

-- The delay of a valid policy with bounds that fit a `u64`, after some number of failures, is the
-- initial delay doubled for each failure past the first, capped at the maximum; it is at least the
-- initial delay. The next poll comes that much later, or at the end of `u64`, and not in the past.
pub delay_secs-closed :
    (initial max failures terminal_at : ℕ) (p : PollRetryPolicy)
    → policy_try_new initial max ≡ ok p
    → max ≤ u64_max
    → terminal_at ≤ u64_max
    → (delay_secs p failures ≡ min (initial * 2 ^ (failures - 1)) max)
      × (initial ≤ delay_secs p failures)
      × (delay_secs p failures ≤ max)
      × (next_poll_at p terminal_at failures ≡ min (terminal_at + delay_secs p failures) u64_max)
      × (terminal_at ≤ next_poll_at p terminal_at failures)
unfolding delay_secs next_poll_at
delay_secs-closed initial max failures terminal_at p valid k t =
    let (same_initial, same_max, le, positive) = valid_policy initial max p valid in
    let delay : double_delay p.max_delay_secs (failures - 1) p.initial_delay_secs
        ≡ min (initial * 2 ^ (failures - 1)) max =
      rw (same_initial, same_max) (double_delay-min max (failures - 1) initial le k) in
    (
      delay,
      omega (arith, delay, scaled (failures - 1) initial, le),
      omega (arith, delay),
      refl,
      omega (arith, t),
    )
