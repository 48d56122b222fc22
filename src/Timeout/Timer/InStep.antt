-- ===== src/Timeout/Timer/InStep.antt =====
-- pkg/timeout/timeout.go, type Timer: the flag `active` and the alarm that it stands for.
use pin_go.Base.{
  ℕ, ◌==◌, ◌≡◌, refl, sym, ap, ◌∙◌, Bool, true, false, none, some, Duration, arith, if◌then◌else◌,
}
use mathlib.Core.Path.{subst}
use pin_go.Timeout.Timer.{
  fire_alarm, enter_alarm, Alarm, pending, running, spent, Timer, new_timer, is_pending, start,
  stop, stop_at, stop_alarm, reset, rearm, fire, enter, expire,
}

-- Only the alarm that the timer points to can be armed, and it is while the timer is active; no
-- goroutine of an alarm is on the way.
abbrev pub expected : Timer → ℕ → Bool
expected t i = elim t.timer [ none ↦ false | some j ↦ if j == i then t.active else false ]

abbrev pub idle : Alarm → Bool
idle (pending d) = true
idle running = false
idle spent = true

abbrev pub unpointed : Timer → Bool
unpointed t = elim t.timer [ none ↦ t.active | some i ↦ false ]

pub record InStep (t : Timer) : Type 0 where
  pub armed : (i : ℕ) → is_pending (t.alarms i) ≡ expected t i
  pub pointed : unpointed t ≡ false
  pub none_running : (i : ℕ) → idle (t.alarms i) ≡ true

pub new_timer-InStep : (d : Duration) (b : Bool) → InStep (new_timer d b)
unfolding new_timer
new_timer-InStep d b = record { armed = λ i. refl; pointed = refl; none_running = λ i. refl }

pub start-InStep : (t : Timer) → InStep t → InStep (start t)
unfolding start
start-InStep t s = record {
  armed = λ i. ground (arith, s.armed i);
  pointed = ground (arith, s.pointed);
  none_running = λ i. ground (arith, s.none_running i);
}

pub stop-InStep : (t : Timer) → InStep t → InStep (stop t).0
unfolding stop stop_at stop_alarm
stop-InStep t s = record {
  armed = λ i. ground (arith, s.armed i);
  pointed = ground (arith, s.pointed);
  none_running = λ i. ground (arith, s.none_running i);
}

pub reset-InStep : (t : Timer) (d : Duration) → InStep t → InStep (reset t d)
unfolding reset rearm
reset-InStep t d s = record {
  armed = λ i. ground (arith, s.armed i);
  pointed = ground (arith, s.pointed);
  none_running = λ i. ground (arith, s.none_running i);
}

pub expire-InStep : (i : ℕ) (t : Timer) → InStep t → InStep (expire i t)
unfolding expire fire enter fire_alarm enter_alarm
expire-InStep i t s = after (t.alarms i) refl
  where
    after : (a : Alarm) → t.alarms i ≡ a → InStep (enter i (fire_alarm i t a))
    after (pending d) e =
        let same : (i == i) ≡ true = ground arith in
        rw same (record {
          armed = λ j. ground (arith, s.armed i, s.armed j, ap is_pending e);
          pointed = ground (arith, s.pointed);
          none_running = λ j. ground (arith, s.none_running j);
        })
    after running e = cc (sym (s.none_running i) ∙ ap idle e)
    after spent e = subst (λ a. InStep (enter_alarm i t a)) (sym e) s

-- A timer that no goroutine of an alarm is behind: Stop tells whether it was active, and leaves no
-- alarm armed.
pub stop_lem :
    (t : Timer)
    → InStep t
    → ((stop t).1 ≡ t.active) × ((i : ℕ) → is_pending ((stop t).0.alarms i) ≡ false)
unfolding stop stop_at stop_alarm
stop_lem t s = (
  ground (arith, s.pointed, s.armed (elim t.timer [ none ↦ 0 | some i ↦ i ])),
  λ i. ground (arith, s.armed i),
)
