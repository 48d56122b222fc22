-- ===== src/Timeout/Circuit.antt =====
-- pkg/timeout/timeout.go, type Circuit: the circuit breaker. A method takes the time that its call
-- of time.Now or time.Since reads; the mutex makes each method one step, and Call is the two steps
-- around the protected function.
mod Transitions
mod Trips
mod Tests
use Prim.Native.String.{String}
use pin_go.Base.{
  Bool, true, false, List, [], ◌∷◌, Option, none, some, ℤ, pos, ◌+ℤ◌, ltb_ℤ, leb_ℤ, int64, Time,
  Duration, zero_time, sub_time, if◌then◌else◌,
}
use pin_go.Errors.{Error, timeout_error, new}

pub data CircuitState : Type 0 where
  closed open_circuit half_open : CircuitState

-- `CircuitState.String`; the default of its switch stands for no value of the three.
unfoldable pub state_text : CircuitState → String
state_text closed = "Closed"
state_text open_circuit = "Open"
state_text half_open = "HalfOpen"

pub record Circuit : Type 0 where
  pub max_failures : ℤ
  pub reset_timeout : Duration
  pub failures : ℤ
  pub last_fail_time : Time
  pub state : CircuitState

unfoldable pub new_circuit_breaker : ℤ → Duration → Circuit
new_circuit_breaker max_failures reset_timeout = record {
  max_failures = max_failures;
  reset_timeout = reset_timeout;
  failures = pos 0;
  last_fail_time = zero_time;
  state = closed;
}

-- The `switch` of `allowRequest`.
allow_in : CircuitState → Circuit → Time → Circuit × Bool
allow_in closed c now = (c, true)
allow_in open_circuit c now =
    if ltb_ℤ c.reset_timeout (sub_time now c.last_fail_time)
    then (record c { state = half_open }, true)
    else (c, false)
allow_in half_open c now = (c, true)

unfoldable pub allow_request : Circuit → Time → Circuit × Bool
unfolding allow_in
allow_request c now = allow_in c.state c now

record_failure : Circuit → Time → Circuit
record_failure c now =
    let failures = int64 (c.failures +ℤ pos 1) in
    record c {
      failures = failures;
      last_fail_time = now;
      state = if leb_ℤ c.max_failures failures then open_circuit else c.state;
    }

unfoldable pub record_result : Circuit → Bool → Time → Circuit
unfolding record_failure
record_result c true now = record c { failures = pos 0; state = closed }
record_result c false now = record_failure c now

unfoldable pub reset : Circuit → Circuit
reset c = record c { failures = pos 0; state = closed; last_fail_time = zero_time }

abbrev pub get_state : Circuit → CircuitState
get_state c = c.state

abbrev pub get_failures : Circuit → ℤ
get_failures c = c.failures

abbrev pub open_error : Error
unfolding new
open_error = new timeout_error "circuit breaker is open"

abbrev is_nil : Option Error → Bool
is_nil none = true
is_nil (some e) = false

-- `Call`, for a function that ends with `outcome`. Other goroutines may step between the two steps
-- of a call: a run of the breaker is a list of such steps.
unfoldable pub call : Circuit → Time → Option Error → Time → Circuit × Option Error
unfolding allow_request record_result
call c asked outcome ended =
    let (c', allowed) = allow_request c asked in
    if allowed then (record_result c' (is_nil outcome) ended, outcome) else (c', some open_error)

pub data Event : Type 0 where
  asks : Time → Event
  ends : Bool → Time → Event
  resets : Event

unfoldable pub step : Circuit → Event → Circuit
unfolding allow_request record_result reset
step c (asks now) = (allow_request c now).0
step c (ends success now) = record_result c success now
step c resets = reset c

unfoldable pub run : Circuit → List Event → Circuit
run c [] = c
run c (e ∷ es) = run (step c e) es
