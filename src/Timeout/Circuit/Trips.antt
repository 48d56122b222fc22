-- ===== src/Timeout/Circuit/Trips.antt =====
-- pkg/timeout/timeout.go, type Circuit: when the breaker is closed, over a whole history of events.
use pin_go.Base.{
  ℕ, suc, ◌+◌, ◌^◌, ◌<◌, ◌≤◌, ◌≡◌, ◌↔◌, ◌≢◌, Time, refl, true, false, List, [], ◌∷◌, pos, ◌+ℤ◌,
  +ℤ_parts, int64_id, Duration, arith, length,
}
use pin_go.Timeout.Circuit.{
  Circuit, closed, Event, asks, ends, resets, new_circuit_breaker, allow_request, record_result,
  reset, step, run,
}

-- The failures since the last success or reset, after `n` before the history.
unfoldable pub failures_in_row : ℕ → List Event → ℕ
failures_in_row n [] = n
failures_in_row n (asks now ∷ es) = failures_in_row n es
failures_in_row n (ends true now ∷ es) = failures_in_row 0 es
failures_in_row n (ends false now ∷ es) = failures_in_row (suc n) es
failures_in_row n (resets ∷ es) = failures_in_row 0 es

record Tallies (max n : ℕ) (c : Circuit) : Type 0 where
  maximum : c.max_failures ≡ pos max
  tally : c.failures ≡ pos n
  tripped : c.state ≢ closed → max ≤ n
  untripped : c.state ≡ closed → n < max

module _ (max : ℕ) (positive : 0 < max) (ranged : max < 2 ^ 63) where
  asks-Tallies :
      (n : ℕ) (c : Circuit) (now : Time) → Tallies max n c → Tallies max n (step c (asks now))
  unfolding step
  asks-Tallies n c now t = ground (arith, t.maximum, t.tally, t.tripped, t.untripped)

  fails-Tallies :
      (n : ℕ) (c : Circuit) (now : Time)
      → suc n < 2 ^ 63
      → Tallies max n c
      → Tallies max (suc n) (step c (ends false now))
  unfolding step
  fails-Tallies n c now b t = ground (
    arith,
    t.maximum,
    t.tally,
    t.tripped,
    t.untripped,
    +ℤ_parts c.failures (pos 1),
    int64_id (c.failures +ℤ pos 1),
  )

  run-Tallies :
      (n : ℕ) (c : Circuit) (es : List Event)
      → n + length es < 2 ^ 63
      → Tallies max n c
      → Tallies max (failures_in_row n es) (run c es)
  unfolding run failures_in_row step
  run-Tallies n c [] b t = t
  run-Tallies n c (asks now ∷ es) b t =
      run-Tallies n (allow_request c now).0 es (omega arith) (asks-Tallies n c now t)
  run-Tallies n c (ends true now ∷ es) b t =
      run-Tallies 0 (record_result c true now) es (omega arith) (record {
        maximum = t.maximum;
        tally = refl;
        tripped = λ h. absurd (h refl);
        untripped = λ h. positive;
      })
  run-Tallies n c (ends false now ∷ es) b t =
      run-Tallies (suc n) (record_result c false now) es (omega arith)
        (fails-Tallies n c now (omega arith) t)
  run-Tallies n c (resets ∷ es) b t = run-Tallies 0 (reset c) es (omega arith) (record {
    maximum = t.maximum;
    tally = refl;
    tripped = λ h. absurd (h refl);
    untripped = λ h. positive;
  })

  -- After any history of requests, results and resets on a new breaker, shorter than 2 ^ 63, the
  -- count of failures is the number of them in a row since the last success or reset, and the
  -- breaker is closed exactly while that number is below the maximum.
  pub state-run :
      (timeout : Duration) (es : List Event)
      → length es < 2 ^ 63
      → let c = run (new_circuit_breaker (pos max) timeout) es in
        (c.failures ≡ pos (failures_in_row 0 es))
        × ((c.state ≡ closed) ↔ (failures_in_row 0 es < max))
  unfolding new_circuit_breaker
  state-run timeout es b =
      let c = new_circuit_breaker (pos max) timeout in
      let t = run-Tallies 0 c es (omega arith) (record {
        maximum = refl;
        tally = refl;
        tripped = λ h. absurd (h refl);
        untripped = λ h. positive;
      }) in
      (t.tally, (t.untripped, λ h. ground (arith, t.tripped)))
