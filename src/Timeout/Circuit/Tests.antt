-- ===== src/Timeout/Circuit/Tests.antt =====
-- pkg/timeout/timeout.go, type Circuit, at concrete inputs.
use pin_go.Base.{◌<◌, ◌≡◌, ◌↔◌, refl, false, List, [], ◌∷◌, pos, ◌+ℤ◌, ◌-ℤ◌, int64, sub_time, arith}
use pin_go.Timeout.Circuit.{
  Circuit, closed, open_circuit, half_open, Event, asks, ends, new_circuit_breaker, step, run,
}
use pin_go.Timeout.Circuit.Transitions.{Move, step-Move}
use pin_go.Timeout.Circuit.Trips.{failures_in_row, state-run}

abbrev events : List Event
events = asks (pos 1) ∷ ends false (pos 2) ∷ ends false (pos 3) ∷ asks (pos 50) ∷ []

-- Two failures open the breaker; more than 10 later a request makes it half-open.
probes : (run (new_circuit_breaker (pos 2) (pos 10)) events).state ≡ half_open
unfolding run step new_circuit_breaker sub_time int64 ◌+ℤ◌ ◌-ℤ◌
probes = refl

state-run_example :
    let c = run (new_circuit_breaker (pos 2) (pos 10)) events in
    (c.failures ≡ pos (failures_in_row 0 events))
    × ((c.state ≡ closed) ↔ (failures_in_row 0 events < 2))
state-run_example = state-run 2 (omega arith) (omega arith) (pos 10) events (omega arith)

abbrev tripped : Circuit
tripped = record {
  max_failures = pos 2;
  reset_timeout = pos 10;
  failures = pos 2;
  last_fail_time = pos 3;
  state = open_circuit;
}

step-Move_example : Move tripped (asks (pos 50)) (step tripped (asks (pos 50))).state
step-Move_example = step-Move tripped (asks (pos 50))
