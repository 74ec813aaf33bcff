-- ===== src/Repository/Retry.antt =====
-- `PollRetryPolicy`: the bounded exponential backoff (src/subscription/repository.rs).
pub mod Closed
use tmdb_mteam_hub.Common.{
  ℕ, zero, suc, ◌+◌, ◌-◌, ◌*◌, ◌^◌, min, ◌==◌, ltb, if◌then◌else◌, Result, ok, err,
}
use tmdb_mteam_hub.Repository.Errors.{RepositoryResult, invalid_input}

-- `u64::MAX`
abbrev pub u64_max : ℕ
u64_max = 2 ^ 64 - 1

abbrev pub saturating_mul : ℕ → ℕ → ℕ
saturating_mul a b = min (a * b) u64_max

abbrev pub saturating_add : ℕ → ℕ → ℕ
saturating_add a b = min (a + b) u64_max

pub record PollRetryPolicy : Type 0 where
  pub initial_delay_secs : ℕ
  pub max_delay_secs : ℕ

-- `PollRetryPolicy::try_new`
unfoldable pub policy_try_new : ℕ → ℕ → RepositoryResult PollRetryPolicy
policy_try_new initial max =
    if initial == 0
    then err (invalid_input "initial_delay_secs")
    else if ltb max initial
    then err (invalid_input "max_delay_secs")
    else ok (record { initial_delay_secs = initial; max_delay_secs = max })

-- The loop of `delay_secs`, with the rounds that are left.
unfoldable pub double_delay : ℕ → ℕ → ℕ → ℕ
double_delay max zero delay = delay
double_delay max (suc rounds) delay =
    let next = min (saturating_mul delay 2) max in
    let rest = double_delay max rounds next in if next == max then next else rest

-- `1..failure_count` has one round less than the count, and none for zero.
unfoldable pub delay_secs : PollRetryPolicy → ℕ → ℕ
unfolding double_delay
delay_secs p failure_count = double_delay p.max_delay_secs (failure_count - 1) p.initial_delay_secs

-- `PollRetryPolicy::next_poll_at`
unfoldable pub next_poll_at : PollRetryPolicy → ℕ → ℕ → ℕ
unfolding delay_secs
next_poll_at p terminal_at failure_count = saturating_add terminal_at (delay_secs p failure_count)
