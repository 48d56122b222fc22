-- ===== src/Timeout/Timer.antt =====
-- pkg/timeout/timeout.go, type Timer, with the alarms that time.AfterFunc has made for it. A method
-- is one step; so is the expiry of an alarm, which starts a goroutine, and what that goroutine does
-- under the mutex. An alarm is known by the number of alarms made before it.
pub mod InStep
mod Tests
use pin_go.Base.{
  ℕ, suc, ◌+◌, ◌==◌, Bool, true, false, not, ◌&&◌, ◌||◌, List, [], ◌∷◌, Option, none, some,
  Duration, if◌then◌else◌,
}

-- An alarm of the time package: armed, with its goroutine on the way, or neither.
pub data Alarm : Type 0 where
  pending : Duration → Alarm
  running : Alarm
  spent : Alarm

pub record Timer : Type 0 where
  pub duration : Duration
  pub has_callback : Bool
  pub timer : Option ℕ
  pub active : Bool
  pub made : ℕ
  pub alarms : ℕ → Alarm
  pub calls : ℕ

unfoldable pub new_timer : Duration → Bool → Timer
new_timer duration has_callback = record {
  duration = duration;
  has_callback = has_callback;
  timer = none;
  active = false;
  made = 0;
  alarms = λ i. spent;
  calls = 0;
}

abbrev pub is_pending : Alarm → Bool
is_pending (pending d) = true
is_pending running = false
is_pending spent = false

abbrev pub set_alarm : ℕ → Alarm → (ℕ → Alarm) → ℕ → Alarm
set_alarm i a alarms j = if i == j then a else alarms j

unfoldable pub start : Timer → Timer
start t = if t.active then t else record t {
  timer = some t.made;
  active = true;
  made = suc t.made;
  alarms = set_alarm t.made (pending t.duration) t.alarms;
}

-- `t.timer.Stop()`, which tells whether it has stopped the alarm before its expiry.
stop_alarm : Alarm → Alarm
stop_alarm (pending d) = spent
stop_alarm running = running
stop_alarm spent = spent

stop_at : Timer → Option ℕ → Timer × Bool
stop_at t none = (t, false)
stop_at t (some i) = (
  record t { active = false; alarms = set_alarm i (stop_alarm (t.alarms i)) t.alarms },
  is_pending (t.alarms i),
)

unfoldable pub stop : Timer → Timer × Bool
unfolding stop_at stop_alarm
stop t = if t.active then stop_at t t.timer else (t, false)

-- `t.timer.Reset(duration)`, which arms the alarm anew.
rearm : Timer → Option ℕ → Duration → Timer
rearm t none d = t
rearm t (some i) d = record t { alarms = set_alarm i (pending d) t.alarms }

unfoldable pub reset : Timer → Duration → Timer
unfolding rearm
reset t d = let t' = record t { duration = d } in if t.active then rearm t' t.timer d else t'

abbrev pub is_active : Timer → Bool
is_active t = t.active

pub fire_alarm : ℕ → Timer → Alarm → Timer
fire_alarm i t (pending d) = record t { alarms = set_alarm i running t.alarms }
fire_alarm i t running = t
fire_alarm i t spent = t

-- The expiry of an alarm.
unfoldable pub fire : ℕ → Timer → Timer
unfolding fire_alarm
fire i t = fire_alarm i t (t.alarms i)

pub enter_alarm : ℕ → Timer → Alarm → Timer
enter_alarm i t (pending d) = t
enter_alarm i t running = record t {
  alarms = set_alarm i spent t.alarms;
  active = false;
  calls = if t.has_callback then suc t.calls else t.calls;
}
enter_alarm i t spent = t

-- The function given to time.AfterFunc, in the goroutine of the alarm.
unfoldable pub enter : ℕ → Timer → Timer
unfolding enter_alarm
enter i t = enter_alarm i t (t.alarms i)

-- An expiry whose goroutine is not overtaken by a method.
unfoldable pub expire : ℕ → Timer → Timer
unfolding fire enter
expire i t = enter i (fire i t)
