-- ===== src/Limits/Multi/Tests.antt =====
-- pkg/limits/limiter.go, type MultiLimiter, over token buckets at one time.
use pin_go.Base.{
  ◌≡◌, refl, ◌⊎◌, true, false, List, [], ◌∷◌, map, none, ℤ, pos, ◌+ℤ◌, ◌-ℤ◌, ◌*ℤ◌, int64, quot,
  sub_time, All,
}
use pin_go.Limits.TokenBucket
use pin_go.Limits.TokenBucket.{TokenBucket}
use pin_go.Limits.Multi.{RateLimiter, allow_n}
use pin_go.Limits.Multi.Prefix.{asked, Grants, Refusal, allow_n-Refusal}

-- Buckets at the time 0, whose WaitN is cancelled at once where it would wait.
abbrev buckets : RateLimiter
buckets = record {
  Limiter = TokenBucket;
  allow_n = λ tb n. TokenBucket.allow_n tb n (pos 0);
  wait_n = λ tb n. (tb, none);
}

abbrev bucket : ℤ → TokenBucket
bucket tokens = record {
  capacity = pos 5;
  tokens = tokens;
  refill_rate = pos 1;
  last_refill = pos 0;
}

-- The first bucket is charged though the second refuses.
charged :
    allow_n buckets (bucket (pos 4) ∷ bucket (pos 1) ∷ bucket (pos 5) ∷ []) (pos 2)
    ≡ (bucket (pos 2) ∷ bucket (pos 1) ∷ bucket (pos 5) ∷ [], false)
unfolding allow_n TokenBucket.allow_n TokenBucket.refill TokenBucket.tokens_to_add int64 quot
    sub_time ◌+ℤ◌ ◌-ℤ◌ ◌*ℤ◌
charged = refl

abbrev some_buckets : List TokenBucket
some_buckets = bucket (pos 4) ∷ bucket (pos 1) ∷ []

allow_n-Refusal_example :
    ((allow_n buckets some_buckets (pos 2)).1 ≡ true)
      × All (Grants buckets (pos 2)) some_buckets
      × ((allow_n buckets some_buckets (pos 2)).0 ≡ map (asked buckets (pos 2)) some_buckets)
    ⊎ ((allow_n buckets some_buckets (pos 2)).1 ≡ false)
      × Refusal buckets (pos 2) some_buckets (allow_n buckets some_buckets (pos 2)).0
allow_n-Refusal_example = allow_n-Refusal buckets (pos 2) some_buckets
