-- ===== src/Limits/Concurrency/Waiting.antt =====
-- pkg/limits/limiter.go, method ConcurrencyLimiter.Acquire: what its two goroutines do to the mutex.
use mathlib.Core.Path.{subst}
use pin_go.Base.{
  ◌≡◌, refl, ap, ◌∙◌, Bool, true, false, List, [], ◌∷◌, Option, none, some, ◌≤ℤ◌, leb_ℤ, inl, inr,
  Bool-cases, Option-cases, arith,
}
use pin_go.Limits.Concurrency.{
  Concurrency, Caller, testing, unlocking, selecting, acquired, cancelled, Waiter, absent, starting,
  sleeping, woken, finished, System, Actor, caller_moves, waiter_moves, context_ends, signal_comes,
  unlock, wake_caller, caller_step, waiter_step, context_step, signal, step, run_steps, entered,
}

-- The second of the two Unlock calls ends the program.
run_steps-entered :
    (cl : Concurrency)
    → cl.limit ≤ℤ cl.current
    → (run_steps (caller_moves ∷ caller_moves ∷ waiter_moves ∷ []) (entered cl) ≡ none)
      × (run_steps (caller_moves ∷ waiter_moves ∷ caller_moves ∷ []) (entered cl) ≡ none)
unfolding run_steps step entered
run_steps-entered cl h = (ground arith, ground arith)

abbrev pub is_acquired : Caller → Bool
is_acquired acquired = true
is_acquired _ = false

-- A run that has ended the program, or in which Acquire has no permit and the limiter is as before.
abbrev pub Refused : Concurrency → Option System → Type 0
Refused cl none = Unit {0}
Refused cl (some s) = (s.limiter ≡ cl) × (is_acquired s.caller ≡ false)

module _ (cl : Concurrency) (full : cl.limit ≤ℤ cl.current) where
  unlock-Refused : (s : System) → Refused cl (some s) → Refused cl (unlock s)
  unfolding unlock
  unlock-Refused s h = elim (Bool-cases s.locked) [ inl t ↦ rw t h | inr t ↦ rw t tt ]

  wake_caller-Refused :
      (w : Waiter) (s : System) → Refused cl (some s) → Refused cl (some (wake_caller w s))
  unfolding wake_caller
  wake_caller-Refused finished s h = elim (Bool-cases s.locked) [
    | inl t ↦ rw t h
    | inr t ↦ rw t (h.0, refl)
  ]
  wake_caller-Refused absent s h = h
  wake_caller-Refused starting s h = h
  wake_caller-Refused sleeping s h = h
  wake_caller-Refused woken s h = h

  caller_step-Refused :
      (c : Caller) (s : System)
      → is_acquired c ≡ false
      → Refused cl (some s)
      → Refused cl (caller_step c s)
  unfolding caller_step
  caller_step-Refused testing s a h =
      let out : leb_ℤ s.limiter.limit s.limiter.current ≡ true =
        ap (λ l. leb_ℤ l.limit l.current) h.0 ∙ ground arith in
      rw out (h.0, refl)
  caller_step-Refused unlocking s a h = unlock-Refused _ (h.0, refl)
  caller_step-Refused selecting s a h = wake_caller-Refused s.waiter s h
  caller_step-Refused acquired s a h = cc a
  caller_step-Refused cancelled s a h = h

  waiter_step-Refused :
      (w : Waiter) (s : System) → Refused cl (some s) → Refused cl (waiter_step w s)
  unfolding waiter_step
  waiter_step-Refused starting s h = unlock-Refused _ h
  waiter_step-Refused woken s h = elim (Bool-cases s.locked) [ inl t ↦ rw t h | inr t ↦ rw t h ]
  waiter_step-Refused absent s h = h
  waiter_step-Refused sleeping s h = h
  waiter_step-Refused finished s h = h

  context_step-Refused :
      (c : Caller) (s : System) → Refused cl (some s) → Refused cl (context_step c s)
  unfolding context_step
  context_step-Refused selecting s h = elim (Bool-cases s.locked) [
    | inl t ↦ rw t h
    | inr t ↦ rw t (h.0, refl)
  ]
  context_step-Refused testing s h = h
  context_step-Refused unlocking s h = h
  context_step-Refused acquired s h = h
  context_step-Refused cancelled s h = h

  signal-Refused : (w : Waiter) (s : System) → Refused cl (some s) → Refused cl (some (signal w s))
  unfolding signal
  signal-Refused sleeping s h = h
  signal-Refused absent s h = h
  signal-Refused starting s h = h
  signal-Refused woken s h = h
  signal-Refused finished s h = h

  step-Refused : (a : Actor) (s : System) → Refused cl (some s) → Refused cl (step a s)
  unfolding step
  step-Refused caller_moves s h = caller_step-Refused s.caller s h.1 h
  step-Refused waiter_moves s h = waiter_step-Refused s.waiter s h
  step-Refused context_ends s h = context_step-Refused s.caller s h
  step-Refused signal_comes s h = signal-Refused s.waiter s h

  run_steps-Refused :
      (acts : List Actor) (s : System) → Refused cl (some s) → Refused cl (run_steps acts s)
  unfolding run_steps
  run_steps-Refused [] s h = h
  run_steps-Refused (a ∷ rest) s h = elim (Option-cases (step a s)) [
    | inl e ↦ rw (e, run_steps) tt
    | inr (t, e) ↦
        rw (e, run_steps) (run_steps-Refused rest t (subst (Refused cl) e (step-Refused a s h)))
  ]

-- Where all permits are out and no other goroutine locks the mutex in between, no order of the steps
-- of the two goroutines, of signals and of the end of the context gives Acquire a permit or changes
-- the limiter. If the two Unlock calls come first, the explicit one and that of cond.Wait, the second
-- of them ends the program, in both orders.
pub run_steps-entered-Refused :
    (cl : Concurrency)
    → cl.limit ≤ℤ cl.current
    → ((acts : List Actor) → Refused cl (run_steps acts (entered cl)))
      × (run_steps (caller_moves ∷ caller_moves ∷ waiter_moves ∷ []) (entered cl) ≡ none)
      × (run_steps (caller_moves ∷ waiter_moves ∷ caller_moves ∷ []) (entered cl) ≡ none)
run_steps-entered-Refused cl h =
    let (first, second) = run_steps-entered cl h in
    (
      λ acts. run_steps-Refused cl h acts (entered cl) (unfold entered in (refl, refl)),
      first,
      second,
    )
