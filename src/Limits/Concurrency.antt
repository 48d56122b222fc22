-- ===== src/Limits/Concurrency.antt =====
-- pkg/limits/limiter.go, type ConcurrencyLimiter. The mutex makes TryAcquire, Release and the
-- readers one step each. Acquire gives the mutex up while it waits, so it is a machine of steps
-- for its two goroutines.
mod Permits
mod Waiting
mod Tests
use pin_go.Base.{
  Bool, true, false, List, [], ◌∷◌, Option, none, some, ℤ, pos, ◌+ℤ◌, ◌-ℤ◌, ltb_ℤ, leb_ℤ, int64,
  if◌then◌else◌,
}

pub record Concurrency : Type 0 where
  pub limit : ℤ
  pub current : ℤ

unfoldable pub new_concurrency : ℤ → Concurrency
new_concurrency limit = record { limit = limit; current = pos 0 }

unfoldable pub try_acquire : Concurrency → Concurrency × Bool
try_acquire cl =
    if ltb_ℤ cl.current cl.limit
    then (record cl { current = int64 (cl.current +ℤ pos 1) }, true)
    else (cl, false)

unfoldable pub release : Concurrency → Concurrency
release cl =
    if ltb_ℤ (pos 0) cl.current then record cl { current = int64 (cl.current -ℤ pos 1) } else cl

abbrev pub get_current : Concurrency → ℤ
get_current cl = cl.current

abbrev pub get_limit : Concurrency → ℤ
get_limit cl = cl.limit

-- Where the goroutine that calls `Acquire` stands: at the test of the loop, before the explicit
-- `Unlock`, in the `select`, or returned.
pub data Caller : Type 0 where
  testing unlocking selecting acquired cancelled : Caller

-- Where the goroutine that it starts stands: not started, before the `Unlock` that `cond.Wait`
-- makes of the same mutex, asleep on the condition, before the `Lock` that ends `cond.Wait`, or
-- past its `close(done)`.
pub data Waiter : Type 0 where
  absent starting sleeping woken finished : Waiter

pub record System : Type 0 where
  pub limiter : Concurrency
  pub locked : Bool
  pub caller : Caller
  pub waiter : Waiter

-- Who takes the next step: one of the two goroutines, the end of the context, or the `Signal` of a
-- `Release` elsewhere.
pub data Actor : Type 0 where
  caller_moves waiter_moves context_ends signal_comes : Actor

-- `Unlock` of a mutex that is not locked is a fatal error of the whole program, here `none`.
unlock : System → Option System
unlock s = if s.locked then some (record s { locked = false }) else none

-- The branch `<-done` of the `select`, which locks the mutex and tests again.
wake_caller : Waiter → System → System
wake_caller finished s =
    if s.locked then s else record s { locked = true; caller = testing; waiter = absent }
wake_caller _ s = s

caller_step : Caller → System → Option System
unfolding unlock wake_caller
caller_step testing s =
    if leb_ℤ s.limiter.limit s.limiter.current
    then some (record s { caller = unlocking; waiter = starting })
    else unlock (record s {
      limiter = record { limit = s.limiter.limit; current = int64 (s.limiter.current +ℤ pos 1) };
      caller = acquired;
    })
caller_step unlocking s = unlock (record s { caller = selecting })
caller_step selecting s = some (wake_caller s.waiter s)
caller_step acquired s = some s
caller_step cancelled s = some s

waiter_step : Waiter → System → Option System
unfolding unlock
waiter_step starting s = unlock (record s { waiter = sleeping })
waiter_step woken s = some (if s.locked then s else record s { locked = true; waiter = finished })
waiter_step _ s = some s

signal : Waiter → System → System
signal sleeping s = record s { waiter = woken }
signal _ s = s

-- The branch `<-ctx.Done()` locks the mutex, returns the error and unlocks by the `defer`.
context_step : Caller → System → Option System
context_step selecting s = if s.locked then some s else some (record s { caller = cancelled })
context_step _ s = some s

unfoldable pub step : Actor → System → Option System
unfolding caller_step waiter_step context_step signal
step caller_moves s = caller_step s.caller s
step waiter_moves s = waiter_step s.waiter s
step context_ends s = context_step s.caller s
step signal_comes s = some (signal s.waiter s)

unfoldable pub run_steps : List Actor → System → Option System
run_steps [] s = some s
run_steps (a ∷ rest) s = elim (step a s) [ none ↦ none | some t ↦ run_steps rest t ]

-- `Acquire` after its first `Lock`.
unfoldable pub entered : Concurrency → System
entered cl = record { limiter = cl; locked = true; caller = testing; waiter = absent }
