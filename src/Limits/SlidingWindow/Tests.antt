-- ===== src/Limits/SlidingWindow/Tests.antt =====
-- pkg/limits/limiter.go, type SlidingWindowLimiter, at concrete inputs.
use pin_go.Base.{ℕ, ◌≤◌, ◌≡◌, refl, List, [], ◌∷◌, pos, ◌+ℤ◌, ◌-ℤ◌, int64, Time, length, arith}
use pin_go.Limits.SlidingWindow.{new_sliding_window, allow_n}
use pin_go.Limits.SlidingWindow.Window.{run, in_window, last_time, in_window-run}

abbrev requests : List (ℕ × Time)
requests = (2, pos 10) ∷ (2, pos 20) ∷ (1, pos 40) ∷ (3, pos 115) ∷ []

-- The second request is refused; at 115 the first two are out of the window of 100.
history : (run (new_sliding_window (pos 3) (pos 100)) [] requests).1 ≡ pos 10 ∷ pos 10 ∷ pos 40 ∷ []
unfolding run new_sliding_window allow_n int64 ◌+ℤ◌ ◌-ℤ◌
history = refl

in_window-run_example :
    let (sw, history) = run (new_sliding_window (pos 3) (pos 100)) [] requests in
    let now = last_time (pos 0) requests in
    (length (in_window (pos 100) now history) ≤ 3)
    × (in_window (pos 100) now sw.requests ≡ in_window (pos 100) now history)
in_window-run_example =
    in_window-run 3 100 (omega arith) (omega arith) (pos 0) requests (omega arith) (omega arith)
