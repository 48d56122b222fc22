-- ===== src/Timeout/Timer/Tests.antt =====
-- pkg/timeout/timeout.go, type Timer, at concrete inputs.
use pin_go.Base.{◌≡◌, refl, true, false, pos}
use pin_go.Timeout.Timer.{Timer, pending, new_timer, start, stop, reset, fire, enter, expire}

program : Unit {0}
unfolding new_timer start stop reset fire enter expire
program = tt

abbrev timer : Timer
unfolding new_timer
timer = new_timer (pos 5) true

calls_back_once : (expire 0 (expire 0 (start timer))).calls ≡ 1
unfolding program timer
calls_back_once = refl

stopped_in_time : (expire 0 (stop (start timer)).0).calls ≡ 0
unfolding program timer
stopped_in_time = refl

rearmed : (reset (start timer) (pos 9)).alarms 0 ≡ pending (pos 9)
unfolding program timer
rearmed = refl

-- The goroutine of the first alarm is overtaken by Stop and Start: it clears the flag of the second.
abbrev overtaken : Timer
unfolding program timer
overtaken = enter 0 (start (stop (fire 0 (start timer))).0)

looks_inactive : overtaken.active ≡ false
unfolding program timer overtaken
looks_inactive = refl

cannot_be_stopped : ((stop overtaken).1 ≡ false) × ((stop overtaken).0.alarms 1 ≡ pending (pos 5))
unfolding program timer overtaken
cannot_be_stopped = (refl, refl)
