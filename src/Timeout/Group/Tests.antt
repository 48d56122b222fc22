-- ===== src/Timeout/Group/Tests.antt =====
-- pkg/timeout/timeout.go, type TimeoutGroup, at concrete inputs.
use pin_go.Base.{◌≡◌, refl, true, false, List, [], ◌∷◌, pos, All}
use pin_go.Base.Dict.{lookup, insert, delete, Every}
use pin_go.Timeout.Timer.{new_timer, start, stop, reset, expire}
use pin_go.Timeout.Timer.InStep.{InStep}
use pin_go.Timeout.Group.{
  Event, adds, expires, new_timeout_group, add_timer, remove_timer, count, step, run,
}
use pin_go.Timeout.Group.Dropped.{Quiet, run-new_timeout_group}

program : Unit {0}
unfolding new_timeout_group add_timer remove_timer step run lookup insert delete new_timer start
    stop reset expire
program = tt

abbrev events : List Event
events = adds "a" (pos 5) true ∷ adds "b" (pos 7) true ∷ adds "a" (pos 9) true ∷ expires "b" 0 ∷ []

counts_the_expired : count (run new_timeout_group events) ≡ pos 2
unfolding program
counts_the_expired = refl

removes_the_expired : (remove_timer (run new_timeout_group events) "b").1 ≡ false
unfolding program
removes_the_expired = refl

run-new_timeout_group_example :
    let g = run new_timeout_group events in All Quiet g.dropped × Every InStep g.timers
run-new_timeout_group_example = run-new_timeout_group events
