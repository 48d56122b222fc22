-- ===== src/Timeout/Retry/Tests.antt =====
-- pkg/timeout/timeout.go, WithTimeout, WithDeadline and WithRetry, at concrete inputs.
use pin_go.Base.{
  ℕ, ◌≤◌, ◌==◌, ◌≡◌, refl, [], ◌∷◌, none, some, pos, pos_part, ◌*ℤ◌, Duration, if◌then◌else◌,
}
use pin_go.Errors.{Error, proxy_error, timeout_error, new, default_status, http_status_code}
use pin_go.Timeout.Deadline.{with_timeout, deadline_exceeded}
use pin_go.Timeout.Retry.{RetryConfig, Attempt, default_retry_config, with_retry}
use pin_go.Timeout.Retry.Attempts.{Ends, Capped, with_retry-Ends}

program : Unit {0}
unfolding with_retry default_retry_config ◌*ℤ◌ new with_timeout http_status_code default_status
program = tt

abbrev broken : Error
broken = new proxy_error "no answer"

-- The third attempt succeeds.
abbrev env : ℕ → Attempt
env i = record { cut_short = none; outcome = if i == 3 then none else some broken; over = none }

abbrev double : Duration → Duration
double d = d *ℤ pos 2

abbrev config : RetryConfig
config = record { max_attempts = pos 4; initial_delay = pos 10; max_delay = pos 15 }

third_time :
    with_retry double env (some config)
    ≡ record { result = none; calls = 3; waits = pos 10 ∷ pos 15 ∷ [] }
unfolding program
third_time = refl

-- Without attempts nothing is called, and the result is that of a success.
no_attempts :
    with_retry double env (some (record config { max_attempts = pos 0 }))
    ≡ record { result = none; calls = 0; waits = [] }
unfolding program
no_attempts = refl

times_out : with_timeout deadline_exceeded ≡ some (new timeout_error "operation timed out")
unfolding program
times_out = refl

with_retry-Ends_example :
    let r = with_retry double env (some config) in
    Ends env (pos_part config.max_attempts) 1 none r
    × (r.calls ≤ pos_part config.max_attempts)
    × Capped config r.waits
with_retry-Ends_example = with_retry-Ends double env config
