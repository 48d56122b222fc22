-- ===== src/Timeout/Retry.antt =====
-- pkg/timeout/timeout.go, WithRetry. What happens around each attempt is an argument, a function of
-- its number; the product of a duration and the multiplier, which the source takes in float64, is a
-- parameter.
mod Attempts
mod Tests
use pin_go.Base.{
  ℕ, zero, suc, List, [], ◌∷◌, Option, none, some, ℤ, pos, pos_part, ltb_ℤ, Duration, second,
  millisecond, ◌*ℤ◌, if◌then◌else◌,
}
use pin_go.Errors.{Error, Cause, timeout_error, new_with_cause}

-- `Multiplier` is the function `scale` of the section below.
pub record RetryConfig : Type 0 where
  pub max_attempts : ℤ
  pub initial_delay : Duration
  pub max_delay : Duration

unfoldable pub default_retry_config : RetryConfig
default_retry_config = record {
  max_attempts = pos 3;
  initial_delay = pos 100 *ℤ millisecond;
  max_delay = pos 5 *ℤ second;
}

-- The context ends during the wait before the attempt, or is over after it; `outcome` is what the
-- function returns.
pub record Attempt : Type 0 where
  pub cut_short : Option Cause
  pub outcome : Option Error
  pub over : Option Cause

-- The result, the number of calls of the function and the delays that were waited for.
pub record Ran : Type 0 where
  pub result : Option Error
  pub calls : ℕ
  pub waits : List Duration

abbrev pub cancel_error : Cause → Error
cancel_error cause = new_with_cause timeout_error "retry cancelled" cause

-- One more call, or one more wait, before the rest of the loop.
abbrev pub called : Ran → Ran
called r = record r { calls = suc r.calls }

abbrev pub waited : Duration → Ran → Ran
waited d r = record r { waits = d ∷ r.waits }

abbrev pub ends_with : Option Error → Ran
ends_with e = record { result = e; calls = 0; waits = [] }

-- The end of a round, with what the rest of the loop gives for the error of this attempt.
pub after_call : Attempt → (Option Error → Ran) → Ran
after_call a rest = elim a.outcome [
  | none ↦ called (ends_with none)
  | some e ↦ elim a.over [
    | some cause ↦ called (ends_with (some (cancel_error cause)))
    | none ↦ called (rest (some e))
  ]
]

module _ (scale : Duration → Duration) (env : ℕ → Attempt) where
  -- The new value of `delay`.
  abbrev pub next_delay : RetryConfig → Duration → Duration
  next_delay c delay = let d = scale delay in if ltb_ℤ c.max_delay d then c.max_delay else d

  -- The loop from an attempt on that is not the first, with `n` attempts left.
  pub retry : RetryConfig → ℕ → ℕ → Duration → Option Error → Ran
  unfolding after_call
  retry c zero attempt delay last = ends_with last
  retry c (suc n) attempt delay last =
      let rest = retry c n (suc attempt) (next_delay c delay) in
      elim (env attempt).cut_short [
        | some cause ↦ waited delay (ends_with (some (cancel_error cause)))
        | none ↦ waited delay (after_call (env attempt) rest)
      ]

  -- The loop from the first attempt on, which waits for nothing.
  pub first_try : RetryConfig → ℕ → Ran
  unfolding retry after_call
  first_try c zero = ends_with none
  first_try c (suc n) = after_call (env 1) (retry c n 2 c.initial_delay)

  unfoldable pub with_retry : Option RetryConfig → Ran
  unfolding default_retry_config first_try
  with_retry none = first_try default_retry_config (pos_part default_retry_config.max_attempts)
  with_retry (some c) = first_try c (pos_part c.max_attempts)
