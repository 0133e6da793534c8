-- ===== src/Timer/Invariant.antt =====
-- What holds of a timer over every history of calls and steps of its thread.
use pi_scan.Base.{ℕ, ◌≡◌, refl, sym, ap, Bool, true, false, List, [], ◌∷◌}
use mathlib.Core.Path.{subst}
use mathlib.Core.Bool.{false≢true}
use pi_scan.Timer.{
  ThreadAt, notified, checking, gate, parked, calling, sleeping, exited, IntervalTimer, create,
  start_timer, stop_timer, thread_step, TimerEvent, starts_timer, stops_timer, thread_steps,
  timer_event, run_timer_events,
}

-- The thread is in its function or in the sleep behind it.
abbrev pub is_busy : ThreadAt → Bool
is_busy calling = true
is_busy sleeping = true
is_busy _ = false

abbrev pub is_parked : ThreadAt → Bool
is_parked parked = true
is_parked _ = false

-- A timer that was stopped in a call or a sleep will see it, one that runs does not wait to be
-- started, and the thread has not ended.
pub record IsSteered (t : IntervalTimer) : Type 0 where
  pub seen : t.run_timer ≡ false → is_busy t.thread ≡ true → t.state_changed ≡ true
  pub started : t.run_timer ≡ true → is_parked t.thread ≡ false
  pub alive : t.execute ≡ true

unparked : (x : ThreadAt) → is_parked (notified x) ≡ false
unparked checking = refl
unparked gate = refl
unparked parked = refl
unparked calling = refl
unparked sleeping = refl
unparked exited = refl

-- A timer whose thread has not ended, by its parts.
abbrev pub living : Bool → Bool → ThreadAt → ℕ → IntervalTimer
living run changed x n = record {
  run_timer = run;
  execute = true;
  state_changed = changed;
  thread = x;
  calls = n;
}

living_step-IsSteered :
    (woken run changed : Bool) (x : ThreadAt) (n : ℕ)
    → IsSteered (living run changed x n)
    → IsSteered (thread_step woken (living run changed x n))
unfolding thread_step
living_step-IsSteered _ run changed checking n h = record {
  seen = λ _ e. absurd (false≢true e);
  started = λ _. refl;
  alive = refl;
}
living_step-IsSteered _ true changed gate n h = record {
  seen = λ e. absurd (false≢true (sym e));
  started = λ _. refl;
  alive = refl;
}
living_step-IsSteered _ false changed gate n h = record {
  seen = λ _ e. absurd (false≢true e);
  started = λ e. absurd (false≢true e);
  alive = refl;
}
living_step-IsSteered true run changed parked n h = record {
  seen = λ _ e. absurd (false≢true e);
  started = λ _. refl;
  alive = refl;
}
living_step-IsSteered false run changed parked n h = h
living_step-IsSteered _ run changed calling n h = record {
  seen = λ e _. h.seen e refl;
  started = λ _. refl;
  alive = refl;
}
living_step-IsSteered _ run true sleeping n h = record {
  seen = λ _ e. absurd (false≢true e);
  started = λ _. refl;
  alive = refl;
}
living_step-IsSteered true run false sleeping n h = record {
  seen = λ _ e. absurd (false≢true e);
  started = λ _. refl;
  alive = refl;
}
living_step-IsSteered false run false sleeping n h = h
living_step-IsSteered _ run changed exited n h = h

pub lives :
    (t : IntervalTimer) → t.execute ≡ true → t ≡ living t.run_timer t.state_changed t.thread t.calls
lives t h = ap (λ b. record t { execute = b }) h

thread_step-IsSteered :
    (woken : Bool) (t : IntervalTimer) → IsSteered t → IsSteered (thread_step woken t)
thread_step-IsSteered woken t h =
    subst (λ u. IsSteered u → IsSteered (thread_step woken u)) (sym (lives t h.alive))
      (living_step-IsSteered woken t.run_timer t.state_changed t.thread t.calls) h

timer_event-IsSteered :
    (e : TimerEvent) (t : IntervalTimer) → IsSteered t → IsSteered (timer_event e t)
unfolding timer_event start_timer stop_timer
timer_event-IsSteered starts_timer t h = record {
  seen = λ e. absurd (false≢true (sym e));
  started = λ _. unparked t.thread;
  alive = h.alive;
}
timer_event-IsSteered stops_timer t h = record {
  seen = λ _ _. refl;
  started = λ e. absurd (false≢true e);
  alive = h.alive;
}
timer_event-IsSteered (thread_steps woken) t h = thread_step-IsSteered woken t h

pub run_timer_events-IsSteered :
    (es : List TimerEvent) (t : IntervalTimer) → IsSteered t → IsSteered (run_timer_events es t)
unfolding run_timer_events
run_timer_events-IsSteered [] t h = h
run_timer_events-IsSteered (e ∷ es) t h =
    run_timer_events-IsSteered es (timer_event e t) (timer_event-IsSteered e t h)

pub create-IsSteered : IsSteered create
create-IsSteered = record { seen = λ _ e. absurd (false≢true e); started = λ _. refl; alive = refl }
