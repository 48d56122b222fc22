-- ===== src/Limits/SlidingWindow.antt =====
-- pkg/limits/limiter.go, type SlidingWindowLimiter. A method takes the time that its call of
-- time.Now reads; the mutex makes each method one step.
mod Window
mod Tests
use pin_go.Base.{
  ℕ, ◌+◌, Bool, true, false, List, [], ◌∷◌, ◌++◌, Option, none, some, ℤ, pos, pos_part, ◌+ℤ◌, ◌-ℤ◌,
  leb_ℤ, int64, Time, Duration, add_time, after, filter, length, replicate, if◌then◌else◌,
}
use pin_go.Errors.{Error, Cause, timeout_error, new_with_cause}

pub record SlidingWindow : Type 0 where
  pub limit : ℤ
  pub window : Duration
  pub requests : List Time

unfoldable pub new_sliding_window : ℤ → Duration → SlidingWindow
new_sliding_window limit window = record { limit = limit; window = window; requests = [] }

-- The local `cutoff` of `cleanup`.
abbrev pub cutoff : Duration → Time → Time
cutoff window now = add_time now (int64 (pos 0 -ℤ window))

unfoldable pub cleanup : SlidingWindow → Time → SlidingWindow
cleanup sw now = record sw {
  requests = filter (λ req. after req (cutoff sw.window now)) sw.requests;
}

-- The `if` of `AllowN` on the cleaned list; the loop appends nothing for a negative `n`.
admit : SlidingWindow → ℤ → Time → SlidingWindow × Bool
admit sw n now =
    if leb_ℤ (int64 (pos (length sw.requests) +ℤ n)) sw.limit
    then (record sw { requests = sw.requests ++ replicate (pos_part n) now }, true)
    else (sw, false)

unfoldable pub allow_n : SlidingWindow → ℤ → Time → SlidingWindow × Bool
unfolding admit cleanup
allow_n sw n now = admit (cleanup sw now) n now

unfoldable pub allow : SlidingWindow → Time → SlidingWindow × Bool
allow sw now = allow_n sw (pos 1) now

unfoldable pub get_current_count : SlidingWindow → Time → SlidingWindow × ℤ
get_current_count sw now = let sw' = cleanup sw now in (sw', pos (length sw'.requests))

-- A round of the loop of `WaitN`: the time that `AllowN` reads, and whether the context ends
-- during the 100 milliseconds of sleep.
pub record Round : Type 0 where
  pub at : Time
  pub cancelled : Option Error

pub data Waited : Type 0 where
  granted : Waited
  failed : Error → Waited
  waiting : Waited

abbrev pub cancel_error : Error → Error
cancel_error e = new_with_cause timeout_error "rate limit wait cancelled" (Cause.wrapped e)

unfoldable pub wait_n : SlidingWindow → ℤ → List Round → SlidingWindow × Waited
wait_n sw n [] = (sw, waiting)
wait_n sw n (r ∷ rs) =
    let (sw', done) = allow_n sw n r.at in
    let rest = wait_n sw' n rs in
    if done
    then (sw', granted)
    else elim r.cancelled [ none ↦ rest | some e ↦ (sw', failed (cancel_error e)) ]

abbrev pub wait : SlidingWindow → List Round → SlidingWindow × Waited
wait sw rs = wait_n sw (pos 1) rs
