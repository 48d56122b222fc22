-- ===== src/Limits/TokenBucket/Bounds.antt =====
-- pkg/limits/limiter.go, type TokenBucket: the stock of tokens.
use pin_go.Base.{
  ◌-◌, ◌↔◌, if◌then◌else◌, ◌^◌, ◌≡◌, true, ℤ, pos, ◌+ℤ◌, ◌-ℤ◌, ◌≤ℤ◌, IsInt64, int64_id, +ℤ_parts,
  -ℤ_parts, arith, Time,
}
use pin_go.Limits.TokenBucket.{TokenBucket, new_token_bucket, tokens_to_add, refill, allow_n}

pub record IsValid (tb : TokenBucket) : Type 0 where
  pub stocked : pos 0 ≤ℤ tb.tokens
  pub capped : tb.tokens ≤ℤ tb.capacity
  pub ranged : IsInt64 tb.capacity

-- A refill at this time cannot leave the range of an int64.
abbrev pub Fits : TokenBucket → Time → Type 0
Fits tb now = tokens_to_add tb now +ℤ tb.capacity ≤ℤ pos (2 ^ 63 - 1)

pub refill-IsValid :
    (tb : TokenBucket) (now : Time) → IsValid tb → Fits tb now → IsValid (refill tb now)
unfolding refill
refill-IsValid tb now v f = ground (
  arith,
  +ℤ_parts tb.tokens (tokens_to_add tb now),
  +ℤ_parts (tokens_to_add tb now) tb.capacity,
  int64_id (tb.tokens +ℤ tokens_to_add tb now),
)

pub new_token_bucket-IsValid :
    (capacity refill_rate : ℤ) (now : Time)
    → pos 0 ≤ℤ capacity
    → IsInt64 capacity
    → IsValid (new_token_bucket capacity refill_rate now)
unfolding new_token_bucket
new_token_bucket-IsValid capacity refill_rate now h k = record {
  stocked = h;
  capped = omega arith;
  ranged = k;
}

-- A request for a number of tokens that is not negative leaves the stock between nothing and the
-- capacity, if adding the refill does not overflow an int64.
pub allow_n-IsValid :
    (tb : TokenBucket) (n : ℤ) (now : Time)
    → IsValid tb
    → Fits tb now
    → pos 0 ≤ℤ n
    → IsValid (allow_n tb n now).0
unfolding allow_n
allow_n-IsValid tb n now v f h = ground (
  arith,
  refill-IsValid tb now v f,
  -ℤ_parts (refill tb now).tokens n,
  int64_id ((refill tb now).tokens -ℤ n),
)

-- A request is granted exactly when the refilled stock covers it. It then takes that many tokens,
-- and nothing otherwise; the capacity and the rate never change.
pub allow_n_lem :
    (tb : TokenBucket) (n : ℤ) (now : Time)
    → IsValid tb
    → Fits tb now
    → pos 0 ≤ℤ n
    → (((allow_n tb n now).1 ≡ true) ↔ (n ≤ℤ (refill tb now).tokens))
      × ((allow_n tb n now).0.tokens
          ≡ (if (allow_n tb n now).1 then (refill tb now).tokens -ℤ n else (refill tb now).tokens))
      × ((allow_n tb n now).0.capacity ≡ tb.capacity)
      × ((allow_n tb n now).0.refill_rate ≡ tb.refill_rate)
unfolding allow_n
allow_n_lem tb n now v f h =
    let r = refill-IsValid tb now v f in
    (
      ground arith,
      ground (arith, -ℤ_parts (refill tb now).tokens n, int64_id ((refill tb now).tokens -ℤ n)),
      unfold refill in ground arith,
      unfold refill in ground arith,
    )
