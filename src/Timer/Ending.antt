-- ===== src/Timer/Ending.antt =====
-- How `destroy` ends the thread of a timer that was used in any way.
use pi_scan.Base.{ℕ, ◌≡◌, refl, sym, Bool, true, false, List, [], ◌∷◌}
use mathlib.Core.Path.{subst}
use mathlib.Core.Bool.{false≢true}
use pi_scan.Timer.{
  ThreadAt, checking, gate, parked, calling, sleeping, exited, IntervalTimer, create, stop_timer,
  destroy, thread_step, timer_event, TimerEvent, thread_steps, run_timer_events,
}
use pi_scan.Timer.Invariant.{IsSteered, living, lives, run_timer_events-IsSteered, create-IsSteered}

-- Behind three steps of the thread of a destroyed timer it has ended, with no call begun.
abbrev pub HasEnded : Bool → Bool → Bool → IntervalTimer → Type 0
HasEnded x y z t =
    let ended =
      run_timer_events (thread_steps x ∷ thread_steps y ∷ thread_steps z ∷ []) (destroy t) in
    (ended.thread ≡ exited) × (ended.calls ≡ t.calls)

living_ends :
    (x y z run changed : Bool) (at_ : ThreadAt) (n : ℕ)
    → IsSteered (living run changed at_ n)
    → HasEnded x y z (living run changed at_ n)
unfolding destroy stop_timer run_timer_events timer_event thread_step
living_ends x y z true changed checking n h = (refl, refl)
living_ends x y z false changed checking n h = (refl, refl)
living_ends x y z true changed gate n h = (refl, refl)
living_ends x y z false changed gate n h = (refl, refl)
living_ends x y z true changed parked n h = absurd (false≢true (sym (h.started refl)))
living_ends x y z false changed parked n h = (refl, refl)
living_ends x y z true changed calling n h = (refl, refl)
living_ends x y z false true calling n h = (refl, refl)
living_ends x y z false false calling n h = absurd (false≢true (h.seen refl refl))
living_ends x y z true changed sleeping n h = (refl, refl)
living_ends x y z false true sleeping n h = (refl, refl)
living_ends x y z false false sleeping n h = absurd (false≢true (h.seen refl refl))
living_ends x y z true changed exited n h = (refl, refl)
living_ends x y z false changed exited n h = (refl, refl)

-- Whatever calls and steps a created timer has seen, once it is destroyed three steps of its thread
-- end it, with no further call of the function and whether or not a wait or a sleep is over.
pub destroy_ends :
    (es : List TimerEvent) (x y z : Bool) → HasEnded x y z (run_timer_events es create)
destroy_ends es x y z =
    let steered = run_timer_events-IsSteered es create create-IsSteered in
    subst (λ u. IsSteered u → HasEnded x y z u)
      (sym (lives (run_timer_events es create) steered.alive)) (living_ends x y z _ _ _ _) steered
