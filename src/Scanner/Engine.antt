-- ===== src/Scanner/Engine.antt =====
-- The transition maps of ScannerSM.cpp, and the engine of StateMachine.cpp over its state functions.
use pi_scan.Base.{
  String, ℤ, true, List, [], ◌∷◌, Option, none, some, ok, Outcome, ◌>>=◌, if◌then◌else◌,
}
use pi_scan.Machine.{external_event, take_event, end_round}
use pi_scan.Scanner.{
  State, load, scan, hold, receive, manual, save_all, stopped, EventData, manual_entry_data,
  Scanner, Env,
}
use pi_scan.Scanner.States.{
  st_load, st_scan, st_hold, st_receive, st_manual, st_save_all, st_stopped,
}

-- `none` is EVENT_IGNORED.
unfoldable pub start_scan_map : State → Option State
start_scan_map load = some scan
start_scan_map scan = none
start_scan_map hold = some scan
start_scan_map receive = some scan
start_scan_map manual = some scan
start_scan_map save_all = none
start_scan_map stopped = none

unfoldable pub hold_scan_map : State → Option State
hold_scan_map load = some hold
hold_scan_map scan = some hold
hold_scan_map hold = none
hold_scan_map receive = none
hold_scan_map manual = none
hold_scan_map save_all = none
hold_scan_map stopped = none

unfoldable pub stop_scanner_map : State → Option State
stop_scanner_map stopped = none
stop_scanner_map _ = some save_all

unfoldable pub manual_entry_map : State → Option State
manual_entry_map save_all = none
manual_entry_map stopped = none
manual_entry_map _ = some manual

-- The external events. Each reads the state before it takes the lock, here at once.
abbrev external : Option State → Option EventData → Scanner → Scanner
external new_state data_ s = record s { machine = external_event new_state data_ s.machine }

unfoldable pub start_scan : Scanner → Scanner
unfolding external_event start_scan_map
start_scan s = external (start_scan_map s.machine.current_state) none s

unfoldable pub hold_scan : List ℤ → Scanner → Scanner
unfolding external_event hold_scan_map
hold_scan index s =
    external (hold_scan_map s.machine.current_state) none
      (record s { external_hold = true; hold_index = index })

-- The two parts of `holdScan`: what it stores before the lock, and the event, by the state that was
-- read. Between them another round of the thread may run.
unfoldable pub hold_store : List ℤ → Scanner → Scanner
hold_store index s = record s { external_hold = true; hold_index = index }

unfoldable pub hold_event : State → Scanner → Scanner
unfolding external_event hold_scan_map
hold_event read s = external (hold_scan_map read) none s

unfoldable pub stop_scanner : Scanner → Scanner
unfolding external_event stop_scanner_map
stop_scanner s = external (stop_scanner_map s.machine.current_state) none s

unfoldable pub manual_entry : ℤ → String → Scanner → Scanner
unfolding external_event manual_entry_map
manual_entry freq mode s =
    external (manual_entry_map s.machine.current_state) (some (manual_entry_data freq mode)) s

-- The entry of the state map, called with the event's data.
abbrev pub dispatch : Env → State → Option EventData → Scanner → Outcome Scanner
dispatch env load d s = st_load env s
dispatch env scan d s = st_scan env s
dispatch env hold d s = st_hold env s
dispatch env receive d s = st_receive env s
dispatch env manual d s = st_manual d s
dispatch env save_all d s = st_save_all env s
dispatch env stopped d s = st_stopped s

-- `StateEngine`, past its wait. Without an event the thread goes on waiting and nothing changes.
unfoldable pub state_engine : Env → Scanner → Outcome Scanner
unfolding take_event end_round
state_engine env s =
    let ran = (do
      t ←
          dispatch env s.machine.current_state s.machine.event_data
            (record s { machine = take_event s.machine })
      ok (record t { machine = end_round t.machine })) in
    if s.machine.event_generated then ran else ok s

-- What happens to the scanner: a round of its thread, or a call from another one.
pub data Action : Type 0 where
  round : Env → Action
  starts_scan stops_scanner : Action
  holds_scan : List ℤ → Action
  enters_manual : ℤ → String → Action

-- The loop of the thread runs the engine only while `_run` is set.
unfoldable pub step : Action → Scanner → Outcome Scanner
step (round env) s = let ran = state_engine env s in if s.machine.run then ran else ok s
step starts_scan s = ok (start_scan s)
step stops_scanner s = ok (stop_scanner s)
step (holds_scan index) s = ok (hold_scan index s)
step (enters_manual freq mode) s = ok (manual_entry freq mode s)

unfoldable pub run_actions : List Action → Scanner → Outcome Scanner
run_actions [] s = ok s
run_actions (a ∷ as_) s = do t ← step a s; run_actions as_ t
