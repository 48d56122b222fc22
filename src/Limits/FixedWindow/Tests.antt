-- ===== src/Limits/FixedWindow/Tests.antt =====
-- pkg/limits/limiter.go, type FixedWindowLimiter, at concrete inputs.
use pin_go.Base.{
  ℕ, ◌+◌, ◌*◌, ◌^◌, ◌-◌, ◌≤◌, ◌≡◌, ◌↔◌, refl, true, List, [], ◌∷◌, pos, ◌+ℤ◌, ◌-ℤ◌, ◌≤ℤ◌, int64,
  Time, sub_time, elapsed, arith,
}
use pin_go.Limits.FixedWindow.{new_fixed_window, allow_n, get_current_count, get_time_to_reset}
use pin_go.Limits.FixedWindow.Rate.{
  after_run, admitted, admitted-le_windows, allow_n-get_current_count,
}

abbrev requests : List (ℕ × Time)
requests = (2, pos 90) ∷ (2, pos 95) ∷ (3, pos 100) ∷ (1, pos 150) ∷ []

-- Two before the end of the window and three right after it: more than the limit in 10 units.
burst : admitted (new_fixed_window (pos 3) (pos 100) (pos 0)) requests ≡ 5
unfolding admitted new_fixed_window allow_n int64 sub_time ◌+ℤ◌ ◌-ℤ◌
burst = refl

admitted-le_windows_example :
    admitted (new_fixed_window (pos 3) (pos 100) (pos 0)) requests * 100
    ≤ 3 * 100 + 3 * elapsed (pos 150) (pos 0)
admitted-le_windows_example =
    admitted-le_windows 3 100 (omega arith) (omega arith) (pos 0) (pos 150) requests (omega arith)
      (omega arith)

-- The sum of the count and a request for 2 ^ 63 - 1 wraps, so the request is granted.
overflow :
    (allow_n
      (record { limit = pos 3; window = pos 100; count = pos 1; window_start = pos 0 })
      (pos (2 ^ 63 - 1))
      (pos 5)).1
    ≡ true
unfolding allow_n int64 sub_time ◌+ℤ◌ ◌-ℤ◌
overflow = refl

allow_n-get_current_count_example :
    let fw = after_run (new_fixed_window (pos 3) (pos 100) (pos 0)) requests in
    (((allow_n fw (pos 1) (pos 150)).1 ≡ true) ↔ (get_current_count fw (pos 150) +ℤ pos 1 ≤ℤ pos 3))
    × ((get_time_to_reset fw (pos 150) ≡ pos 0) ↔ (pos 100 ≤ℤ sub_time (pos 150) fw.window_start))
    × (pos 0 ≤ℤ get_time_to_reset fw (pos 150))
    × (get_time_to_reset fw (pos 150) ≤ℤ pos 100)
allow_n-get_current_count_example =
    allow_n-get_current_count 3 100 (omega arith) (omega arith) (pos 0) (pos 150) requests 1
      (omega arith) (omega arith) (omega arith)
