-- ===== src/Timeout/Circuit/Transitions.antt =====
-- pkg/timeout/timeout.go, type Circuit: its state machine as a relation, and what refuses a request.
use pin_go.Base.{
  ◌≡◌, ◌≢◌, Bool-cases, ltb_ℤ, leb_ℤ, refl, inl, inr, ◌⊎◌, true, false, Option, none, some, ◌≤ℤ◌,
  ◌<ℤ◌, Time, sub_time, arith,
}
use pin_go.Errors.{Error}
use pin_go.Timeout.Circuit.{
  Circuit, CircuitState, closed, open_circuit, half_open, Event, asks, ends, resets, allow_in,
  allow_request, record_result, call, open_error, step,
}

-- The moves of the state: what makes each, and no other.
pub data Move (c : Circuit) : Event → CircuitState → Type 0 where
  stay : (e : Event) → Move c e c.state
  probe :
      (now : Time)
      → c.state ≡ open_circuit
      → c.reset_timeout <ℤ sub_time now c.last_fail_time
      → Move c (asks now) half_open
  trip :
      (now : Time) (s : CircuitState)
      → c.max_failures ≤ℤ (record_result c false now).failures
      → s ≡ open_circuit
      → Move c (ends false now) s
  recover : (now : Time) → Move c (ends true now) closed
  clear : Move c resets closed

ask-Move :
    (c : Circuit) (s : CircuitState) (now : Time)
    → c.state ≡ s
    → Move c (asks now) (allow_request c now).0.state
unfolding allow_request
ask-Move c closed now e = rw (e, allow_in) (stay (asks now))
ask-Move c half_open now e = rw (e, allow_in) (stay (asks now))
ask-Move c open_circuit now e =
    elim (Bool-cases (ltb_ℤ c.reset_timeout (sub_time now c.last_fail_time))) [
      | inl t ↦ rw (e, allow_in) (rw t (probe now refl (ground arith)))
      | inr t ↦ rw (e, allow_in) (rw t (stay (asks now)))
    ]

fail-Move : (c : Circuit) (now : Time) → Move c (ends false now) (record_result c false now).state
unfolding record_result
fail-Move c now = elim (Bool-cases (leb_ℤ c.max_failures (record_result c false now).failures)) [
  | inl t ↦ rw t (trip now open_circuit (ground arith) refl)
  | inr t ↦ rw t (stay (ends false now))
]

-- Every event moves the state as the relation says: open to half-open only by a request more than
-- the reset timeout after the last failure, to open only by a failure that reaches the maximum, and
-- to closed only by a success or a reset.
pub step-Move : (c : Circuit) (e : Event) → Move c e (step c e).state
unfolding step
step-Move c (asks now) = ask-Move c c.state now refl
step-Move c (ends true now) = recover now
step-Move c (ends false now) = fail-Move c now
step-Move c resets = clear

-- A call runs its function exactly when the breaker is not open or its reset timeout is over since
-- the last failure, and then returns the outcome of the function. Otherwise it returns the error of
-- the open breaker and changes nothing.
pub call_lem :
    (c : Circuit) (asked : Time) (outcome : Option Error) (ended : Time)
    → ((c.state ≡ open_circuit)
        × (sub_time asked c.last_fail_time ≤ℤ c.reset_timeout)
        × (call c asked outcome ended ≡ (c, some open_error)))
      ⊎ (((c.state ≢ open_circuit) ⊎ (c.reset_timeout <ℤ sub_time asked c.last_fail_time))
          × ((call c asked outcome ended).1 ≡ outcome)
          × ((call c asked outcome ended).0.last_fail_time
              ≡ elim outcome [ none ↦ c.last_fail_time | some e ↦ ended ]))
unfolding call
call_lem c asked none ended = ground arith
call_lem c asked (some e) ended = ground arith
