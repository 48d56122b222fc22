-- ===== src/Limits/TokenBucket.antt =====
-- pkg/limits/limiter.go, type TokenBucket. A method takes the time that its call of time.Now reads
-- and returns the new bucket beside its result; the mutex makes each method one step.
mod Bounds
mod Rate
mod Waiting
mod Tests
use pin_go.Base.{
  Bool, true, false, List, [], ◌∷◌, Option, none, some, ℤ, pos, ◌+ℤ◌, ◌-ℤ◌, ◌*ℤ◌, ltb_ℤ, leb_ℤ,
  eqb_ℤ, quot, int64, Time, Duration, second, sub_time, whole_seconds, if◌then◌else◌,
}
use pin_go.Errors.{Error, Cause, timeout_error, new_with_cause}

pub record TokenBucket : Type 0 where
  pub capacity : ℤ
  pub tokens : ℤ
  pub refill_rate : ℤ
  pub last_refill : Time

unfoldable pub new_token_bucket : ℤ → ℤ → Time → TokenBucket
new_token_bucket capacity refill_rate now = record {
  capacity = capacity;
  tokens = capacity;
  refill_rate = refill_rate;
  last_refill = now;
}

-- The local `tokensToAdd` of `refill`.
unfoldable pub tokens_to_add : TokenBucket → Time → ℤ
tokens_to_add tb now = int64 (whole_seconds (sub_time now tb.last_refill) *ℤ tb.refill_rate)

-- `tb.tokens += tokensToAdd`, cut to the capacity.
top_up : TokenBucket → ℤ → Time → TokenBucket
top_up tb add now =
    let total = int64 (tb.tokens +ℤ add) in
    record tb { tokens = if ltb_ℤ tb.capacity total then tb.capacity else total; last_refill = now }

unfoldable pub refill : TokenBucket → Time → TokenBucket
unfolding top_up
refill tb now =
    let add = tokens_to_add tb now in if ltb_ℤ (pos 0) add then top_up tb add now else tb

-- `if tb.tokens >= n { tb.tokens -= n; return true }`.
take_tokens : TokenBucket → ℤ → TokenBucket × Bool
take_tokens tb n =
    if leb_ℤ n tb.tokens then (record tb { tokens = int64 (tb.tokens -ℤ n) }, true) else (tb, false)

unfoldable pub allow_n : TokenBucket → ℤ → Time → TokenBucket × Bool
unfolding take_tokens
allow_n tb n now = take_tokens (refill tb now) n

unfoldable pub allow : TokenBucket → Time → TokenBucket × Bool
allow tb now = allow_n tb (pos 1) now

unfoldable pub get_tokens : TokenBucket → Time → TokenBucket × ℤ
get_tokens tb now = let tb' = refill tb now in (tb', tb'.tokens)

-- The time to sleep for a deficit; `none` is the panic of a division by zero.
wait_for : ℤ → ℤ → Option Duration
wait_for deficit rate =
    if leb_ℤ deficit (pos 0)
    then some (pos 0)
    else if eqb_ℤ rate (pos 0)
    then none
    else some (int64 (int64 (quot deficit rate) *ℤ second))

unfoldable pub calculate_wait_time : TokenBucket → ℤ → Time → TokenBucket × Option Duration
unfolding wait_for
calculate_wait_time tb needed now =
    let tb' = refill tb now in (tb', wait_for (int64 (needed -ℤ tb'.tokens)) tb'.refill_rate)

-- A round of the loop of `WaitN`: the times that `AllowN` and `calculateWaitTime` read, and
-- whether the context ends before the timer fires, with the text of its error.
pub record Round : Type 0 where
  pub at : Time
  pub recheck : Time
  pub cancelled : Option Error

pub data Waited : Type 0 where
  granted : Waited
  failed : Error → Waited
  panicked : Waited
  waiting : Waited

abbrev pub cancel_error : Error → Error
cancel_error e = new_with_cause timeout_error "rate limit wait cancelled" (Cause.wrapped e)

-- The rest of a round after a refusal, where `rest` goes on with the loop.
after_refusal :
    Round
    → TokenBucket × Option Duration
    → (TokenBucket → TokenBucket × Waited)
    → TokenBucket × Waited
after_refusal r (tb, none) rest = (tb, panicked)
after_refusal r (tb, some d) rest = elim r.cancelled [
  | none ↦ rest tb
  | some e ↦ (tb, failed (cancel_error e))
]

-- `waiting`: the rounds given are over and the loop goes on.
unfoldable pub wait_n : TokenBucket → ℤ → List Round → TokenBucket × Waited
unfolding after_refusal
wait_n tb n [] = (tb, waiting)
wait_n tb n (r ∷ rs) =
    let (tb', done) = allow_n tb n r.at in
    if done
    then (tb', granted)
    else after_refusal r (calculate_wait_time tb' n r.recheck) (λ tb''. wait_n tb'' n rs)

unfoldable pub wait : TokenBucket → List Round → TokenBucket × Waited
wait tb rs = wait_n tb (pos 1) rs
