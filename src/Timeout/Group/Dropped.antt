-- ===== src/Timeout/Group/Dropped.antt =====
-- pkg/timeout/timeout.go, type TimeoutGroup: the alarms of the timers that a group has let go.
use pin_go.Base.{
  ℕ, String, ◌≡◌, refl, Bool, true, false, List, [], ◌∷◌, ◌++◌, map, Option, none, some, Duration,
  All,
}
use pin_go.Base.Dict.{lookup, Every, Every-lookup, Every-insert, Every-delete}
use pin_go.Timeout.Timer.{Timer, new_timer, is_pending, start, stop, reset, expire}
use pin_go.Timeout.Timer.InStep.{
  InStep, idle, new_timer-InStep, start-InStep, stop-InStep, reset-InStep, expire-InStep, stop_lem,
}
use pin_go.Timeout.Group.{
  TimeoutGroup, new_timeout_group, add_timer, drop_existing, remove_timer, remove_found,
  reset_timer, reset_found, stop_all, expire_timer, expire_found, Event, adds, removes, resets,
  stops_all, expires, step, run,
}

-- No alarm of the timer is armed or has its goroutine on the way, so its callback is not called.
pub record Quiet (t : Timer) : Type 0 where
  pub disarmed : (i : ℕ) → is_pending (t.alarms i) ≡ false
  pub at_rest : (i : ℕ) → idle (t.alarms i) ≡ true

pub record Kept (g : TimeoutGroup) : Type 0 where
  pub held : Every InStep g.timers
  pub let_go : All Quiet g.dropped

stop-Quiet : (t : Timer) → InStep t → Quiet (stop t).0
stop-Quiet t s = record { disarmed = (stop_lem t s).1; at_rest = (stop-InStep t s).none_running }

started : (d : Duration) (b : Bool) → InStep (start (new_timer d b))
started d b = start-InStep (new_timer d b) (new_timer-InStep d b)

drop_existing-Quiet :
    (o : Option Timer) (m : List (String × Timer)) (name : String) (ts : List Timer)
    → Every InStep m
    → lookup name m ≡ o
    → All Quiet ts
    → All Quiet (drop_existing o ts)
unfolding drop_existing
drop_existing-Quiet none m name ts a e q = q
drop_existing-Quiet (some t) m name ts a e q = (stop-Quiet t (Every-lookup InStep name m a e), q)

remove_found-Kept :
    (g : TimeoutGroup) (name : String) (o : Option Timer)
    → Kept g
    → lookup name g.timers ≡ o
    → Kept (remove_found g name o).0
unfolding remove_found
remove_found-Kept g name none k e = k
remove_found-Kept g name (some t) k e = record {
  held = Every-delete InStep name g.timers k.held;
  let_go = (stop-Quiet t (Every-lookup InStep name g.timers k.held e), k.let_go);
}

reset_found-Kept :
    (g : TimeoutGroup) (name : String) (d : Duration) (o : Option Timer)
    → Kept g
    → lookup name g.timers ≡ o
    → Kept (reset_found g name d o).0
unfolding reset_found
reset_found-Kept g name d none k e = k
reset_found-Kept g name d (some t) k e = record {
  held =
      Every-insert InStep name (reset t d) g.timers
        (reset-InStep t d (Every-lookup InStep name g.timers k.held e)) k.held;
  let_go = k.let_go;
}

expire_found-Kept :
    (g : TimeoutGroup) (name : String) (i : ℕ) (o : Option Timer)
    → Kept g
    → lookup name g.timers ≡ o
    → Kept (expire_found g name i o)
unfolding expire_found
expire_found-Kept g name i none k e = k
expire_found-Kept g name i (some t) k e = record {
  held =
      Every-insert InStep name (expire i t) g.timers
        (expire-InStep i t (Every-lookup InStep name g.timers k.held e)) k.held;
  let_go = k.let_go;
}

stopped-Quiet :
    (m : List (String × Timer)) (ts : List Timer)
    → Every InStep m
    → All Quiet ts
    → All Quiet (map (λ p. (stop p.1).0) m ++ ts)
stopped-Quiet [] ts a q = q
stopped-Quiet ((k, t) ∷ m) ts a q = (stop-Quiet t a.0, stopped-Quiet m ts a.1 q)

step-Kept : (g : TimeoutGroup) (e : Event) → Kept g → Kept (step g e)
unfolding step add_timer remove_timer reset_timer stop_all expire_timer
step-Kept g (adds name d b) k = record {
  held = Every-insert InStep name (start (new_timer d b)) g.timers (started d b) k.held;
  let_go = drop_existing-Quiet (lookup name g.timers) g.timers name g.dropped k.held refl k.let_go;
}
step-Kept g (removes name) k = remove_found-Kept g name (lookup name g.timers) k refl
step-Kept g (resets name d) k = reset_found-Kept g name d (lookup name g.timers) k refl
step-Kept g stops_all k = record {
  held = tt;
  let_go = stopped-Quiet g.timers g.dropped k.held k.let_go;
}
step-Kept g (expires name i) k = expire_found-Kept g name i (lookup name g.timers) k refl

run-Kept : (g : TimeoutGroup) (es : List Event) → Kept g → Kept (run g es)
unfolding run
run-Kept g [] k = k
run-Kept g (e ∷ es) k = run-Kept (step g e) es (step-Kept g e k)

-- After any history of a new group, where no method overtakes the goroutine of an expiry: each timer
-- that was replaced, removed or stopped has no alarm left that could call its callback, and in each
-- timer that the group holds at most the alarm that it points to is armed, exactly while it is
-- active.
pub run-new_timeout_group :
    (es : List Event)
    → let g = run new_timeout_group es in All Quiet g.dropped × Every InStep g.timers
unfolding new_timeout_group
run-new_timeout_group es =
    let k = run-Kept new_timeout_group es (record { held = tt; let_go = tt }) in (k.let_go, k.held)
