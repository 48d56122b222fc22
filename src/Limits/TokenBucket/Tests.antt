-- ===== src/Limits/TokenBucket/Tests.antt =====
-- pkg/limits/limiter.go, type TokenBucket, at concrete inputs.
use pin_go.Base.{
  ℕ, ◌+◌, ◌*◌, ◌≤◌, ◌≡◌, refl, List, [], ◌∷◌, none, some, pos, ◌+ℤ◌, ◌-ℤ◌, ◌*ℤ◌, Time, quot, int64,
  sub_time, elapsed, arith,
}
use pin_go.Errors.{new, internal_error, Error}
use pin_go.Limits.TokenBucket.{
  TokenBucket, Round, granted, new_token_bucket, tokens_to_add, refill, allow_n,
  calculate_wait_time, wait_n,
}
use pin_go.Limits.TokenBucket.Bounds.{IsValid}
use pin_go.Limits.TokenBucket.Rate.{admitted, admitted-le}
use pin_go.Limits.TokenBucket.Waiting.{Outcome, wait_n-Outcome}

program : Unit {0}
unfolding new_token_bucket tokens_to_add refill allow_n calculate_wait_time wait_n int64 quot ◌+ℤ◌
    ◌-ℤ◌ ◌*ℤ◌ sub_time new
program = tt

-- Three tokens of five are left, the rate is two a second.
abbrev bucket : TokenBucket
bucket = record {
  capacity = pos 5;
  tokens = pos 3;
  refill_rate = pos 2;
  last_refill = pos 1_000_000_000;
}

abbrev later : Time
later = pos 2_500_000_000

abbrev requests : List (ℕ × Time)
requests = (3, pos 1_000_000_000) ∷ (4, pos 1_500_000_000) ∷ (2, pos 4_000_000_000) ∷ []

runs_dry : admitted (new_token_bucket (pos 5) (pos 2) (pos 0)) requests ≡ 5
unfolding program admitted
runs_dry = refl

refills_whole_seconds : refill bucket later ≡ record bucket { tokens = pos 5; last_refill = later }
unfolding program
refills_whole_seconds = refl

-- A wait that is cut short by the context.
abbrev cancelled_round : Round
cancelled_round = record {
  at = pos 1_000_000_000;
  recheck = pos 1_000_000_000;
  cancelled = some ended;
}
  where
    ended : Error
    ended = new internal_error "context canceled"

waits_then_granted :
    (wait_n bucket (pos 5) (
      record { at = pos 1_000_000_000; recheck = pos 1_000_000_000; cancelled = none }
      ∷ record { at = later; recheck = later; cancelled = none }
      ∷ [])).1
    ≡ granted
unfolding program
waits_then_granted = refl

divides_by_zero :
    (calculate_wait_time (record bucket { refill_rate = pos 0 }) (pos 4) later).1 ≡ none
unfolding program
divides_by_zero = refl

admitted-le_example :
    admitted (new_token_bucket (pos 5) (pos 2) (pos 0)) requests * 1_000_000_000
    ≤ 5 * 1_000_000_000 + 2 * elapsed (pos 9_000_000_000) (pos 0)
admitted-le_example =
    admitted-le 5 2 (pos 0) (pos 9_000_000_000) requests (omega arith) (omega arith)

bucket-IsValid : IsValid bucket
bucket-IsValid = omega arith

wait_n-Outcome_example :
    Outcome bucket
      (pos 9)
      (wait_n bucket (pos 9) (cancelled_round ∷ [])).0
      (wait_n bucket (pos 9) (cancelled_round ∷ [])).1
wait_n-Outcome_example = wait_n-Outcome bucket (pos 9) (cancelled_round ∷ [])
