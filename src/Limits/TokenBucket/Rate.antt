-- ===== src/Limits/TokenBucket/Rate.antt =====
-- pkg/limits/limiter.go, type TokenBucket: how many tokens a run of requests can be granted.
use pin_go.Base.{
  times_pos, ℕ, ◌+◌, ◌*◌, ◌/◌, ◌≤◌, ◌≡◌, refl, ap, List, [], ◌∷◌, ℤ, pos, pos_part, ◌+ℤ◌, ◌-ℤ◌,
  ◌≤ℤ◌, IsInt64, int64, int64_id, int64-IsInt64, -ℤ_parts, arith, Time, quot, sub_time-le, elapsed,
  if◌then◌else◌,
}
use pin_go.Limits.TokenBucket.{
  TokenBucket, new_token_bucket, tokens_to_add, refill, take_tokens, allow_n,
}

-- The tokens that a run of requests is granted, each a number of tokens and the time it is made.
unfoldable pub admitted : TokenBucket → List (ℕ × Time) → ℕ
admitted tb [] = 0
admitted tb ((n, now) ∷ rs) =
    let (tb', granted) = allow_n tb (pos n) now in (if granted then n else 0) + admitted tb' rs

-- The times of the requests do not fall, and the last is not after `end`.
abbrev pub Ascending : Time → List (ℕ × Time) → Time → Type 0
Ascending start [] end = start ≤ℤ end
Ascending start ((n, now) ∷ rs) end = (start ≤ℤ now) × Ascending now rs end

int64-pos-le : (n : ℕ) → pos_part (int64 (pos n)) ≤ n
unfolding int64
int64-pos-le n = ground arith

int64_sum-le :
    (t a : ℤ) → IsInt64 t → pos 0 ≤ℤ a → pos_part (int64 (t +ℤ a)) ≤ pos_part t + pos_part a
unfolding int64 ◌+ℤ◌
int64_sum-le t a h k = ground arith

mul_mono : (r a b : ℕ) → a ≤ b → a * r ≤ b * r
mul_mono r a b h = grind arith

-- A refill adds at most the rate for each second since the last one.
tokens_to_add-le :
    (tb : TokenBucket) (now : Time) (r : ℕ)
    → tb.refill_rate ≡ pos r
    → tb.last_refill ≤ℤ now
    → pos_part (tokens_to_add tb now) * 1_000_000_000 ≤ r * elapsed now tb.last_refill
unfolding tokens_to_add quot
tokens_to_add-le tb now r e h =
    let (m, d, b, _) = sub_time-le now tb.last_refill h in
    let k = m / 1_000_000_000 in
    rw (d, e, times_pos k r)
      (let low = int64-pos-le (k * r) in
        let exact : k * 1_000_000_000 ≤ elapsed now tb.last_refill = omega arith in
        omega (arith, mul_mono r (k * 1_000_000_000) (elapsed now tb.last_refill) exact))

-- What the bound on a run needs of the bucket.
record Runs (r : ℕ) (tb : TokenBucket) : Type 0 where
  rate : tb.refill_rate ≡ pos r
  ranged : IsInt64 tb.tokens
  capped : IsInt64 tb.capacity

-- What a step of the bucket gives out, `n`, is paid for by its stock and the time that passes.
record Pays (r n : ℕ) (tb : TokenBucket) (tb' : TokenBucket) (now : Time) : Type 0 where
  runs : Runs r tb'
  later : tb.last_refill ≤ℤ tb'.last_refill
  before : tb'.last_refill ≤ℤ now
  paid :
      (n + pos_part tb'.tokens) * 1_000_000_000
      ≤ pos_part tb.tokens * 1_000_000_000 + r * elapsed tb'.last_refill tb.last_refill

refill-Pays :
    (r : ℕ) (tb : TokenBucket) (now : Time)
    → Runs r tb
    → tb.last_refill ≤ℤ now
    → Pays r 0 tb (refill tb now) now
unfolding refill
refill-Pays r tb now p h =
    let add = tokens_to_add tb now in
    ground (
      arith,
      tokens_to_add-le tb now r p.rate h,
      int64_sum-le tb.tokens (tokens_to_add tb now) p.ranged,
      int64-IsInt64 (tb.tokens +ℤ tokens_to_add tb now),
    )

take_tokens-Pays :
    (r n : ℕ) (tb : TokenBucket) (now : Time)
    → Runs r tb
    → tb.last_refill ≤ℤ now
    → let (tb', granted) = take_tokens tb (pos n) in Pays r (if granted then n else 0) tb tb' now
unfolding take_tokens
take_tokens-Pays r n tb now p h =
    ground (arith, -ℤ_parts tb.tokens (pos n), int64_id (tb.tokens -ℤ pos n))

Pays-trans :
    (r n : ℕ) (a b c : TokenBucket) (now : Time)
    → Pays r 0 a b now
    → Pays r n b c now
    → Pays r n a c now
Pays-trans r n a b c now p q = record {
  runs = q.runs;
  later = omega (arith, p.later, q.later);
  before = q.before;
  paid =
      let span : elapsed c.last_refill a.last_refill
          ≡ elapsed b.last_refill a.last_refill + elapsed c.last_refill b.last_refill =
        omega (arith, p.later, q.later) in
      omega (arith, ap (λ (t : ℕ). r * t) span, p.paid, q.paid);
}

allow_n-Pays :
    (r n : ℕ) (tb : TokenBucket) (now : Time)
    → Runs r tb
    → tb.last_refill ≤ℤ now
    → let (tb', granted) = allow_n tb (pos n) now in Pays r (if granted then n else 0) tb tb' now
unfolding allow_n
allow_n-Pays r n tb now p h =
    let first = refill-Pays r tb now p h in
    Pays-trans r _ tb (refill tb now) _ now first
      (take_tokens-Pays r n (refill tb now) now first.runs first.before)

Ascending-weaken :
    (a b end : Time) (rs : List (ℕ × Time)) → a ≤ℤ b → Ascending b rs end → Ascending a rs end
Ascending-weaken a b end [] h k = omega arith
Ascending-weaken a b end ((n, now) ∷ rs) h k = (omega arith, k.1)

Ascending-start : (a end : Time) (rs : List (ℕ × Time)) → Ascending a rs end → a ≤ℤ end
Ascending-start a end [] h = h
Ascending-start a end ((n, now) ∷ rs) h = omega (arith, Ascending-start now end rs h.1)

admitted-run :
    (r : ℕ) (tb : TokenBucket) (rs : List (ℕ × Time)) (end : Time)
    → Runs r tb
    → Ascending tb.last_refill rs end
    → admitted tb rs * 1_000_000_000
      ≤ pos_part tb.tokens * 1_000_000_000 + r * elapsed end tb.last_refill
unfolding admitted
admitted-run r tb [] end p h = omega arith
admitted-run r tb ((n, now) ∷ rs) end p h =
    let (tb', granted) = allow_n tb (pos n) now in
    let q = allow_n-Pays r n tb now p h.0 in
    let h' = Ascending-weaken tb'.last_refill now end rs q.before h.1 in
    let rest = admitted-run r tb' rs end q.runs h' in
    let span : elapsed end tb.last_refill
        ≡ elapsed tb'.last_refill tb.last_refill + elapsed end tb'.last_refill =
      omega (arith, q.later, Ascending-start tb'.last_refill end rs h') in
    omega (arith, ap (λ (t : ℕ). r * t) span, q.paid, rest)

-- From a new bucket, whose capacity and rate are not negative, any run of requests, none for fewer
-- than 0 tokens, at times that do not fall is granted at most the capacity and the rate for each
-- second of the run: no burst, no order of requests and no overflow of an int64 gets more.
pub admitted-le :
    (capacity r : ℕ) (start end : Time) (rs : List (ℕ × Time))
    → IsInt64 (pos capacity)
    → Ascending start rs end
    → admitted (new_token_bucket (pos capacity) (pos r) start) rs * 1_000_000_000
      ≤ capacity * 1_000_000_000 + r * elapsed end start
unfolding new_token_bucket
admitted-le capacity r start end rs h k =
    admitted-run r (new_token_bucket (pos capacity) (pos r) start) rs end
      (record { rate = refl; ranged = h; capped = h }) k
