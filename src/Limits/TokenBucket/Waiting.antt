-- ===== src/Limits/TokenBucket/Waiting.antt =====
-- pkg/limits/limiter.go, type TokenBucket: the sleep of WaitN and the outcomes of its loop.
use pin_go.Base.{
  ℕ, suc, ◌*◌, ◌/◌, ◌^◌, ◌<◌, ◌≡◌, refl, true, false, List, [], ◌∷◌, none, some, Option, Duration,
  ℤ, pos, ◌-ℤ◌, ◌≤ℤ◌, int64, int64_id, arith, Time, quot, Bool-cases, Option-cases, inl, inr,
  times_pos,
}
use pin_go.Errors.{Error}
use pin_go.Limits.TokenBucket.{
  TokenBucket, Round, Waited, granted, failed, panicked, waiting, cancel_error, refill, allow_n,
  wait_for, calculate_wait_time, after_refusal, wait_n,
}

-- A bucket that lacks `d` tokens at a rate of `r` a second sleeps for the whole seconds of `d / r`,
-- rounded down, if that many nanoseconds are in the range of a Duration.
pub calculate_wait_time_lem :
    (tb : TokenBucket) (needed : ℤ) (now : Time) (d r : ℕ)
    → tb.refill_rate ≡ pos r
    → 0 < r
    → needed -ℤ (refill tb now).tokens ≡ pos (suc d)
    → suc d < 2 ^ 63
    → suc d / r * 1_000_000_000 < 2 ^ 63
    → calculate_wait_time tb needed now ≡ (refill tb now, some (pos (suc d / r * 1_000_000_000)))
unfolding calculate_wait_time quot
calculate_wait_time_lem tb needed now d r e h k b c =
    let same : (refill tb now).refill_rate ≡ pos r = unfold refill in ground arith in
    rw (k, same, int64_id (pos (suc d)) (omega arith))
      (rw (int64_id (pos (suc d / r)) (omega arith)) (
        rw (times_pos (suc d / r) 1_000_000_000)
          (rw (int64_id (pos (suc d / r * 1_000_000_000)) (omega arith)) (ground arith))))

-- The buckets that refills alone lead to.
pub data Refills (a : TokenBucket) : TokenBucket → Type 0 where
  same : Refills a a
  next : {b c : TokenBucket} (now : Time) → Refills a b → c ≡ refill b now → Refills a c

-- What an outcome of `wait_n` says of the bucket before and after.
abbrev pub Outcome : TokenBucket → ℤ → TokenBucket → Waited → Type 0
Outcome tb n tb' granted =
    (b : TokenBucket) × Refills tb b
    × (n ≤ℤ b.tokens)
    × (tb' ≡ record b { tokens = int64 (b.tokens -ℤ n) })
Outcome tb n tb' (failed e) = Refills tb tb' × ((c : Error) × (e ≡ cancel_error c))
Outcome tb n tb' panicked = Refills tb tb' × (tb'.refill_rate ≡ pos 0)
Outcome tb n tb' waiting = Refills tb tb'

Refills-trans : (a b c : TokenBucket) → Refills a b → Refills b c → Refills a c
Refills-trans a b c p same = p
Refills-trans a b c p (next {b = d} now q e) = next now (Refills-trans a b d p q) e

Outcome-after :
    (a b : TokenBucket) (n : ℤ) (tb' : TokenBucket) (w : Waited)
    → Refills a b
    → Outcome b n tb' w
    → Outcome a n tb' w
Outcome-after a b n tb' granted p (d, q, h, e) = (d, Refills-trans a b d p q, h, e)
Outcome-after a b n tb' (failed x) p (q, c) = (Refills-trans a b tb' p q, c)
Outcome-after a b n tb' panicked p (q, c) = (Refills-trans a b tb' p q, c)
Outcome-after a b n tb' waiting p q = Refills-trans a b tb' p q

wait_for-none : (d r : ℤ) → wait_for d r ≡ none → r ≡ pos 0
unfolding wait_for
wait_for-none d r h = ground arith

refused :
    (tb : TokenBucket) (n : ℤ) (now : Time)
    → (allow_n tb n now).1 ≡ false
    → (allow_n tb n now).0 ≡ refill tb now
unfolding allow_n
refused tb n now h = ground arith

passed :
    (tb : TokenBucket) (n : ℤ) (now : Time)
    → (allow_n tb n now).1 ≡ true
    → (n ≤ℤ (refill tb now).tokens)
      × ((allow_n tb n now).0
          ≡ record (refill tb now) { tokens = int64 ((refill tb now).tokens -ℤ n) })
unfolding allow_n
passed tb n now h = ground arith

refill_once : (tb : TokenBucket) (now : Time) → Refills tb (refill tb now)
refill_once tb now = next now same refl

after_refusal-Outcome :
    (a b : TokenBucket) (n : ℤ) (r : Round) (w : Option Duration)
    (rest : TokenBucket → TokenBucket × Waited)
    → Refills a b
    → (w ≡ none → b.refill_rate ≡ pos 0)
    → Outcome a n (rest b).0 (rest b).1
    → Outcome a n (after_refusal r (b, w) rest).0 (after_refusal r (b, w) rest).1
unfolding after_refusal
after_refusal-Outcome a b n r none rest p zero_rate q = (p, zero_rate refl)
after_refusal-Outcome a b n r (some d) rest p zero_rate q = elim (Option-cases r.cancelled) [
  | inl e ↦ rw (e, after_refusal) q
  | inr (x, e) ↦ rw (e, after_refusal) (p, (x, refl))
]

-- Whatever the rounds bring, WaitN takes the tokens only when it returns nil, and then from a stock
-- that covers them. It fails only with the timeout error that wraps the error of the context, and
-- panics only when the rate is 0. Otherwise it has changed nothing but by refills.
pub wait_n-Outcome :
    (tb : TokenBucket) (n : ℤ) (rs : List Round)
    → Outcome tb n (wait_n tb n rs).0 (wait_n tb n rs).1
unfolding wait_n calculate_wait_time
wait_n-Outcome tb n [] = same
wait_n-Outcome tb n (r ∷ rs) = elim (Bool-cases (allow_n tb n r.at).1) [
  | inl done ↦
      let (h, e) = passed tb n r.at done in rw done (refill tb r.at, refill_once tb r.at, h, e)
  | inr more ↦
      rw (more, refused tb n r.at more)
        (let b = refill tb r.at in
          let b' = refill b r.recheck in
          let there = Refills-trans tb b b' (refill_once tb r.at) (refill_once b r.recheck) in
          after_refusal-Outcome tb b' n r (wait_for (int64 (n -ℤ b'.tokens)) b'.refill_rate)
            (λ c. wait_n c n rs) there (wait_for-none (int64 (n -ℤ b'.tokens)) b'.refill_rate)
            (Outcome-after tb b' n _ (wait_n b' n rs).1 there
              (wait_n-Outcome (refill (refill tb r.at) r.recheck) n rs)))
]
