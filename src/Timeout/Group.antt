-- ===== src/Timeout/Group.antt =====
-- pkg/timeout/timeout.go, type TimeoutGroup. Each method is one step. The timers that the group has
-- let go are kept in a list beside it, since their alarms may outlive them.
mod Dropped
mod Tests
use pin_go.Base.{
  ℕ, String, Bool, true, false, List, [], ◌∷◌, ◌++◌, map, Option, none, some, ℤ, pos, Duration,
  length,
}
use pin_go.Base.Dict.{lookup, insert, delete}
use pin_go.Timeout.Timer.{Timer, new_timer, start, stop, reset, expire}

pub record TimeoutGroup : Type 0 where
  pub timers : List (String × Timer)
  pub dropped : List Timer

unfoldable pub new_timeout_group : TimeoutGroup
new_timeout_group = record { timers = []; dropped = [] }

-- `existing.Stop()`, for the timer of the name if there is one.
drop_existing : Option Timer → List Timer → List Timer
drop_existing none dropped = dropped
drop_existing (some t) dropped = (stop t).0 ∷ dropped

unfoldable pub add_timer : TimeoutGroup → String → Duration → Bool → TimeoutGroup
unfolding drop_existing
add_timer g name duration has_callback = record {
  timers = insert name (start (new_timer duration has_callback)) g.timers;
  dropped = drop_existing (lookup name g.timers) g.dropped;
}

remove_found : TimeoutGroup → String → Option Timer → TimeoutGroup × Bool
remove_found g name none = (g, false)
remove_found g name (some t) =
    let (t', stopped) = stop t in
    (record { timers = delete name g.timers; dropped = t' ∷ g.dropped }, stopped)

unfoldable pub remove_timer : TimeoutGroup → String → TimeoutGroup × Bool
unfolding remove_found
remove_timer g name = remove_found g name (lookup name g.timers)

reset_found : TimeoutGroup → String → Duration → Option Timer → TimeoutGroup × Bool
reset_found g name duration none = (g, false)
reset_found g name duration (some t) =
    (record g { timers = insert name (reset t duration) g.timers }, true)

unfoldable pub reset_timer : TimeoutGroup → String → Duration → TimeoutGroup × Bool
unfolding reset_found
reset_timer g name duration = reset_found g name duration (lookup name g.timers)

unfoldable pub stop_all : TimeoutGroup → TimeoutGroup
stop_all g = record { timers = []; dropped = map (λ p. (stop p.1).0) g.timers ++ g.dropped }

abbrev pub count : TimeoutGroup → ℤ
count g = pos (length g.timers)

-- The expiry of an alarm of the timer of this name.
expire_found : TimeoutGroup → String → ℕ → Option Timer → TimeoutGroup
expire_found g name i none = g
expire_found g name i (some t) = record g { timers = insert name (expire i t) g.timers }

unfoldable pub expire_timer : TimeoutGroup → String → ℕ → TimeoutGroup
unfolding expire_found
expire_timer g name i = expire_found g name i (lookup name g.timers)

pub data Event : Type 0 where
  adds : String → Duration → Bool → Event
  removes : String → Event
  resets : String → Duration → Event
  stops_all : Event
  expires : String → ℕ → Event

unfoldable pub step : TimeoutGroup → Event → TimeoutGroup
unfolding add_timer remove_timer reset_timer stop_all expire_timer
step g (adds name duration has_callback) = add_timer g name duration has_callback
step g (removes name) = (remove_timer g name).0
step g (resets name duration) = (reset_timer g name duration).0
step g stops_all = stop_all g
step g (expires name i) = expire_timer g name i

unfoldable pub run : TimeoutGroup → List Event → TimeoutGroup
run g [] = g
run g (e ∷ es) = run (step g e) es
