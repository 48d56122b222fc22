-- ===== src/Limits/FixedWindow.antt =====
-- pkg/limits/limiter.go, type FixedWindowLimiter. A method takes the time that its call of time.Now
-- reads; the mutex makes each method one step.
mod Rate
mod Tests
use pin_go.Base.{
  Bool, true, false, List, [], ◌∷◌, Option, none, some, ℤ, pos, ◌+ℤ◌, ◌-ℤ◌, ◌*ℤ◌, leb_ℤ, ltb_ℤ,
  int64, Time, Duration, millisecond, sub_time, if◌then◌else◌,
}
use pin_go.Errors.{Error, Cause, timeout_error, new_with_cause}

pub record FixedWindow : Type 0 where
  pub limit : ℤ
  pub window : Duration
  pub count : ℤ
  pub window_start : Time

unfoldable pub new_fixed_window : ℤ → Duration → Time → FixedWindow
new_fixed_window limit window now = record {
  limit = limit;
  window = window;
  count = pos 0;
  window_start = now;
}

-- The first `if` of `AllowN`: a new window starts at the time of the request that finds the old one
-- over.
unfoldable pub roll : FixedWindow → Time → FixedWindow
roll fw now =
    if leb_ℤ fw.window (sub_time now fw.window_start)
    then record fw { count = pos 0; window_start = now }
    else fw

-- The second `if` of `AllowN`.
admit : FixedWindow → ℤ → FixedWindow × Bool
admit fw n =
    let total = int64 (fw.count +ℤ n) in
    if leb_ℤ total fw.limit then (record fw { count = total }, true) else (fw, false)

unfoldable pub allow_n : FixedWindow → ℤ → Time → FixedWindow × Bool
unfolding roll admit
allow_n fw n now = admit (roll fw now) n

unfoldable pub allow : FixedWindow → Time → FixedWindow × Bool
allow fw now = allow_n fw (pos 1) now

unfoldable pub get_current_count : FixedWindow → Time → ℤ
get_current_count fw now =
    if leb_ℤ fw.window (sub_time now fw.window_start) then pos 0 else fw.count

unfoldable pub get_time_to_reset : FixedWindow → Time → Duration
get_time_to_reset fw now =
    let remaining = int64 (fw.window -ℤ sub_time now fw.window_start) in
    if ltb_ℤ remaining (pos 0) then pos 0 else remaining

-- The time that a round of `WaitN` sleeps.
unfoldable pub sleep_time : FixedWindow → Time → Duration
sleep_time fw now =
    let wait_time = int64 (fw.window -ℤ sub_time now fw.window_start) in
    if leb_ℤ wait_time (pos 0) then pos 100 *ℤ millisecond else wait_time

-- A round of the loop of `WaitN`: the time that `AllowN` reads, and whether the context ends
-- before the timer fires.
pub record Round : Type 0 where
  pub at : Time
  pub cancelled : Option Error

pub data Waited : Type 0 where
  granted : Waited
  failed : Error → Waited
  waiting : Waited

abbrev pub cancel_error : Error → Error
cancel_error e = new_with_cause timeout_error "rate limit wait cancelled" (Cause.wrapped e)

unfoldable pub wait_n : FixedWindow → ℤ → List Round → FixedWindow × Waited
wait_n fw n [] = (fw, waiting)
wait_n fw n (r ∷ rs) =
    let (fw', done) = allow_n fw n r.at in
    let rest = wait_n fw' n rs in
    if done
    then (fw', granted)
    else elim r.cancelled [ none ↦ rest | some e ↦ (fw', failed (cancel_error e)) ]

abbrev pub wait : FixedWindow → List Round → FixedWindow × Waited
wait fw rs = wait_n fw (pos 1) rs
