-- ===== src/Timer.antt =====
-- util/IntervalTimer.h and util/synchronize.h: the timer thread and the calls that steer it, and the
-- latch that the parts of the program wait at.
pub mod Invariant
pub mod Ending
use pi_scan.Base.{ℕ, suc, ◌+◌, Bool, true, false, ◌&&◌, not, List, [], ◌∷◌, if◌then◌else◌}

-- Where the timer thread stands: at `while(_execute)`, at the test of the inner loop, in `_cv.wait`,
-- in the function, in the sleep behind it, or behind its end.
pub data ThreadAt : Type 0 where
  checking gate parked calling sleeping exited : ThreadAt

pub record IntervalTimer : Type 0 where
  pub run_timer : Bool
  pub execute : Bool
  pub state_changed : Bool
  pub thread : ThreadAt
  pub calls : ℕ  -- of the function, begun so far

-- `create`, behind the start of the thread.
abbrev pub create : IntervalTimer
create = record {
  run_timer = false;
  execute = true;
  state_changed = false;
  thread = checking;
  calls = 0;
}

-- `_cv.notify_all`: a thread that waits tests again.
abbrev pub notified : ThreadAt → ThreadAt
notified parked = gate
notified x = x

unfoldable pub start_timer : IntervalTimer → IntervalTimer
start_timer t = record t { run_timer = true; state_changed = false; thread = notified t.thread }

-- `stop`: a thread that sleeps looks at `_stateChanged`, which is left to its next step.
unfoldable pub stop_timer : IntervalTimer → IntervalTimer
stop_timer t = record t { run_timer = false; state_changed = true }

-- `destroy`, up to the join of the thread.
unfoldable pub destroy : IntervalTimer → IntervalTimer
unfolding stop_timer
destroy t =
    if t.run_timer
    then stop_timer (record t { execute = false })
    else record t { execute = false; thread = notified t.thread }

abbrev begin_call : IntervalTimer → IntervalTimer
begin_call t = record t { thread = calling; calls = t.calls + 1 }

-- Behind the inner loop, whose lock is released.
abbrev pass_gate : IntervalTimer → IntervalTimer
pass_gate t =
    if not t.run_timer && t.execute
    then record t { thread = parked }
    else if not t.execute
    then record t { thread = exited }
    else begin_call t

-- One step of the thread. `woken` says of a wait that it ended by itself, and of a sleep that its
-- time is over; a step without it leaves a thread that waits or sleeps where it is, but for a
-- change of the state that a sleep sees.
unfoldable pub thread_step : Bool → IntervalTimer → IntervalTimer
thread_step woken t = elim t.thread [
  | checking ↦ if t.execute then record t { thread = gate } else record t { thread = exited }
  | gate ↦ pass_gate t
  | parked ↦ if woken then record t { thread = gate } else t
  | calling ↦ record t { thread = sleeping }
  | sleeping ↦
      if t.state_changed
      then record t { state_changed = false; thread = checking }
      else if woken
      then record t { thread = checking }
      else t
  | exited ↦ t
]

-- What happens to a timer; each call takes effect at once.
pub data TimerEvent : Type 0 where
  starts_timer stops_timer : TimerEvent
  thread_steps : Bool → TimerEvent

unfoldable pub timer_event : TimerEvent → IntervalTimer → IntervalTimer
unfolding start_timer stop_timer thread_step
timer_event starts_timer t = start_timer t
timer_event stops_timer t = stop_timer t
timer_event (thread_steps woken) t = thread_step woken t

unfoldable pub run_timer_events : List TimerEvent → IntervalTimer → IntervalTimer
unfolding timer_event
run_timer_events [] t = t
run_timer_events (e ∷ es) t = run_timer_events es (timer_event e t)

-- `Synchronizable`: whether `waitReady` and `waitDeinit` return at once.
pub record Synchronizable : Type 0 where
  pub ready : Bool
  pub stopped : Bool

unfoldable pub notify_ready_latch : Synchronizable → Synchronizable
notify_ready_latch s = record s { ready = true; stopped = false }

unfoldable pub notify_deinit_latch : Synchronizable → Synchronizable
notify_deinit_latch s = record s { ready = false; stopped = true }
