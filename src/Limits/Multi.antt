-- ===== src/Limits/Multi.antt =====
-- pkg/limits/limiter.go, interface RateLimiter and type MultiLimiter. A limiter is any object with
-- the methods of the interface; the clock that its methods read is part of them.
mod Prefix
mod Tests
use pin_go.Base.{Bool, true, false, List, [], ◌∷◌, Option, none, some, ℤ, pos, if◌then◌else◌}
use pin_go.Errors.{Error}

-- `AllowN` and `WaitN` of the interface, over the states of the limiters. `WaitN` returns here.
pub record RateLimiter : Type 1 where
  pub Limiter : Type 0
  pub allow_n : Limiter → ℤ → Limiter × Bool
  pub wait_n : Limiter → ℤ → Limiter × Option Error

-- `MultiLimiter` is the list of its limiters.
abbrev pub new_multi_limiter : {A : Type 0} → List A → List A
new_multi_limiter limiters = limiters

module _ (api : RateLimiter) where
  open api use {Limiter}

  -- The loop of `AllowN` stops at the first refusal.
  unfoldable pub allow_n : List Limiter → ℤ → List Limiter × Bool
  allow_n [] n = ([], true)
  allow_n (l ∷ ls) n =
      let (l', done) = api.allow_n l n in
      let (ls', all) = allow_n ls n in if done then (l' ∷ ls', all) else (l' ∷ ls, false)

  unfoldable pub allow : List Limiter → List Limiter × Bool
  allow ls = allow_n ls (pos 1)

  -- The loop of `WaitN` stops at the first error.
  unfoldable pub wait_n : List Limiter → ℤ → List Limiter × Option Error
  wait_n [] n = ([], none)
  wait_n (l ∷ ls) n =
      let (l', error) = api.wait_n l n in
      let (ls', rest) = wait_n ls n in
      elim error [ none ↦ (l' ∷ ls', rest) | some e ↦ (l' ∷ ls, some e) ]

  abbrev pub wait : List Limiter → List Limiter × Option Error
  wait ls = wait_n ls (pos 1)
