-- ===== src/Machine.antt =====
-- StateMachine.h and StateMachine.cpp: the event mechanism of the state machines, over the states
-- `S` and the event data `D` of the machine that inherits it. The state functions and the loop of
-- `StateEngine` over them are in Scanner/Engine.
use pi_scan.Base.{Bool, true, false, Option, none, some, if◌then◌else◌}

pub record Machine {ℓ κ} (S : Type ℓ) (D : Type κ) : Type (ℓ ⊔ κ) where
  pub current_state : S
  pub last_state : S
  pub evt_src_external : Bool
  pub event_generated : Bool
  pub event_data : Option D
  pub run : Bool

module _ {ℓ κ} {S : Type ℓ} {D : Type κ} where
  -- The constructor; `load` is the state 0.
  unfoldable pub new_machine : S → Machine S D
  new_machine load = record {
    current_state = load;
    last_state = load;
    evt_src_external = false;
    event_generated = false;
    event_data = none;
    run = false;
  }

  unfoldable pub internal_event : S → Option D → Machine S D → Machine S D
  internal_event new_state data_ m = record m {
    event_data = data_;
    event_generated = true;
    last_state = m.current_state;
    current_state = new_state;
  }

  -- `none` is EVENT_IGNORED.
  unfoldable pub external_event : Option S → Option D → Machine S D → Machine S D
  unfolding internal_event
  external_event none data_ m = m
  external_event (some new_state) data_ m = record (internal_event new_state data_ m) {
    evt_src_external = true;
  }

  unfoldable pub start : S → Machine S D → Machine S D
  unfolding internal_event
  start load m = internal_event load none (record m { run = true })

  -- `stop(false)`.
  unfoldable pub stop : Machine S D → Machine S D
  stop m = record m { run = false }

  -- The engine's marks before and after a state function.
  unfoldable pub take_event : Machine S D → Machine S D
  take_event m = record m { event_data = none; event_generated = false }

  unfoldable pub end_round : Machine S D → Machine S D
  end_round m = record m { evt_src_external = false }

  -- `currentState != lastState`, as the states are told apart by `same`.
  unfoldable pub state_changed : (S → S → Bool) → Machine S D → Bool
  state_changed same m = if same m.current_state m.last_state then false else true
