-- ===== src/Timeout/Retry/Attempts.antt =====
-- pkg/timeout/timeout.go, WithRetry: the calls that it makes, what it returns and how long it waits.
use pin_go.Base.{
  ℕ, zero, suc, ◌≤◌, ◌<◌, ◌≡◌, refl, ◌⊎◌, inl, inr, List, [], ◌∷◌, Option, none, some, pos_part,
  ◌≤ℤ◌, Duration, All, Option-cases, arith,
}
use pin_go.Errors.{Error, Cause}
use pin_go.Timeout.Retry.{
  RetryConfig, Attempt, Ran, cancel_error, waited, after_call, next_delay, retry, first_try,
  with_retry,
}

-- An attempt that leaves the loop going.
abbrev pub Fails : Attempt → Error → Type 0
Fails a e = (a.outcome ≡ some e) × (a.over ≡ none)

-- How a loop of `n` attempts from the attempt `i` on ends, where `last` is the error before it: an
-- attempt succeeds, all fail, or the context cuts a wait short or is over after an attempt.
pub data Ends (env : ℕ → Attempt) : ℕ → ℕ → Option Error → Ran → Type 0 where
  exhausted :
      {i : ℕ} {last : Option Error} {r : Ran}
      → r.result ≡ last
      → r.calls ≡ 0
      → Ends env zero i last r
  succeeds :
      {n i : ℕ} {last : Option Error} {r : Ran}
      → (env i).outcome ≡ none
      → r.result ≡ none
      → r.calls ≡ 1
      → Ends env (suc n) i last r
  over :
      {n i : ℕ} {last : Option Error} {r : Ran} {e : Error} {cause : Cause}
      → (env i).outcome ≡ some e
      → (env i).over ≡ some cause
      → r.result ≡ some (cancel_error cause)
      → r.calls ≡ 1
      → Ends env (suc n) i last r
  cut :
      {n i : ℕ} {last : Option Error} {r : Ran} {cause : Cause}
      → 1 < i
      → (env i).cut_short ≡ some cause
      → r.result ≡ some (cancel_error cause)
      → r.calls ≡ 0
      → Ends env (suc n) i last r
  again :
      {n i : ℕ} {last : Option Error} {r s : Ran} {e : Error}
      → Fails (env i) e
      → Ends env n (suc i) (some e) s
      → r.result ≡ s.result
      → r.calls ≡ suc s.calls
      → Ends env (suc n) i last r

-- The first wait is the initial delay, and no later one is longer than the maximum.
abbrev pub Capped : RetryConfig → List Duration → Type 0
Capped c [] = Unit {0}
Capped c (d ∷ ds) = (d ≡ c.initial_delay) × All (λ x. x ≤ℤ c.max_delay) ds

module _ (scale : Duration → Duration) (env : ℕ → Attempt) where
  after_call-Ends :
      (n i : ℕ) (last : Option Error) (rest : Option Error → Ran)
      → ((e : Error) → Ends env n (suc i) (some e) (rest (some e)))
      → Ends env (suc n) i last (after_call (env i) rest)
  unfolding after_call
  after_call-Ends n i last rest ih = elim (Option-cases (env i).outcome) [
    | inl e ↦ rw (e, after_call) (succeeds e refl refl)
    | inr (x, e) ↦ elim (Option-cases (env i).over) [
      | inl f ↦ rw (e, f, after_call) (again (e, f) (ih x) refl refl)
      | inr (cause, f) ↦ rw (e, f, after_call) (over e f refl refl)
    ]
  ]

  waited-Ends :
      (n i : ℕ) (last : Option Error) (d : Duration) (r : Ran)
      → Ends env n i last r
      → Ends env n i last (waited d r)
  waited-Ends n i last d r (exhausted e c) = exhausted e c
  waited-Ends n i last d r (succeeds o e c) = succeeds o e c
  waited-Ends n i last d r (over o x e c) = over o x e c
  waited-Ends n i last d r (cut l x e c) = cut l x e c
  waited-Ends n i last d r (again f s e c) = again f s e c

  retry-Ends :
      (c : RetryConfig) (n i : ℕ) (delay : Duration) (last : Option Error)
      → 1 < i
      → Ends env n i last (retry scale env c n i delay last)
  unfolding retry
  retry-Ends c zero i delay last l = exhausted refl refl
  retry-Ends c (suc n) i delay last l =
      let rest = retry scale env c n (suc i) (next_delay scale env c delay) in
      elim (Option-cases (env i).cut_short) [
        | inl e ↦
            rw (e, retry)
              (waited-Ends (suc n) i last delay (after_call (env i) rest) (
                after_call-Ends n i last rest λ x.
                  retry-Ends c n (suc i) (next_delay scale env c delay) (some x) (omega arith)))
        | inr (cause, e) ↦ rw (e, retry) (cut l e refl refl)
      ]

  first_try-Ends : (c : RetryConfig) (n : ℕ) → Ends env n 1 none (first_try scale env c n)
  unfolding first_try
  first_try-Ends c zero = exhausted refl refl
  first_try-Ends c (suc n) =
      after_call-Ends n 1 none (retry scale env c n 2 c.initial_delay)
        λ x. retry-Ends c n 2 c.initial_delay (some x) (omega arith)

  after_call-waits :
      (a : Attempt) (rest : Option Error → Ran) (P : List Duration → Type 0)
      → P []
      → ((e : Error) → P (rest (some e)).waits)
      → P (after_call a rest).waits
  unfolding after_call
  after_call-waits a rest P p q = elim (Option-cases a.outcome) [
    | inl e ↦ rw (e, after_call) p
    | inr (x, e) ↦ elim (Option-cases a.over) [
      | inl f ↦ rw (e, f, after_call) (q x)
      | inr (cause, f) ↦ rw (e, f, after_call) p
    ]
  ]

  next_delay-le : (c : RetryConfig) (d : Duration) → next_delay scale env c d ≤ℤ c.max_delay
  next_delay-le c d = ground arith

  retry-waits :
      (c : RetryConfig) (n i : ℕ) (delay : Duration) (last : Option Error)
      → let ds = (retry scale env c n i delay last).waits in
        (ds ≡ [])
        ⊎ ((rest : List Duration) × (ds ≡ delay ∷ rest) × All (λ x. x ≤ℤ c.max_delay) rest)
  unfolding retry
  retry-waits c zero i delay last = inl refl
  retry-waits c (suc n) i delay last =
      let d = next_delay scale env c delay in
      let rest = retry scale env c n (suc i) d in
      let small : (e : Error) → All (λ x. x ≤ℤ c.max_delay) (rest (some e)).waits = λ e.
        elim (retry-waits c n (suc i) d (some e)) [
          | inl none_left ↦ rw none_left tt
          | inr (ds, f, a) ↦ rw f (next_delay-le c delay, a)
        ] in
      elim (Option-cases (env i).cut_short) [
        | inl e ↦ inr (
          (after_call (env i) rest).waits,
          rw (e, retry) refl,
          after_call-waits (env i) rest (All (λ x. x ≤ℤ c.max_delay)) tt small,
        )
        | inr (cause, e) ↦ inr ([], rw (e, retry) refl, tt)
      ]

  first_try-Capped : (c : RetryConfig) (n : ℕ) → Capped c (first_try scale env c n).waits
  unfolding first_try
  first_try-Capped c zero = tt
  first_try-Capped c (suc n) =
      after_call-waits (env 1) (retry scale env c n 2 c.initial_delay) (Capped c) tt λ e.
        elim (retry-waits c n 2 c.initial_delay (some e)) [
          | inl none_left ↦ rw none_left tt
          | inr (ds, f, a) ↦ rw f (refl, a)
        ]

  Ends-few : (n i : ℕ) (last : Option Error) (r : Ran) → Ends env n i last r → r.calls ≤ n
  Ends-few n i last r (exhausted e c) = omega (arith, c)
  Ends-few n i last r (succeeds o e c) = omega (arith, c)
  Ends-few n i last r (over o x e c) = omega (arith, c)
  Ends-few n i last r (cut l x e c) = omega (arith, c)
  Ends-few n i last r (again {n = m} {s = s} {e = x} f t e c) =
      omega (arith, c, Ends-few m (suc i) (some x) s t)

  -- WithRetry ends by its first success, by the last failure of as many attempts as are allowed, or
  -- by the context, as `Ends` says. It calls the function at most as often as is allowed. Its first
  -- wait is the initial delay, and no later one is longer than the maximum.
  pub with_retry-Ends :
      (c : RetryConfig)
      → let r = with_retry scale env (some c) in
        Ends env (pos_part c.max_attempts) 1 none r
        × (r.calls ≤ pos_part c.max_attempts)
        × Capped c r.waits
  unfolding with_retry
  with_retry-Ends c =
      let n = pos_part c.max_attempts in
      let e = first_try-Ends c n in
      (e, Ends-few n 1 none (first_try scale env c n) e, first_try-Capped c n)
