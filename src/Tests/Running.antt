-- ===== src/Tests/Running.antt =====
-- Tests of the scanner: Scanner and its child modules.
use pi_scan.Base.{
  ◌≡◌, ◌≢◌, refl, ◌+◌, pos, leb, true, false, List, [], ◌∷◌, map, Option, some, ok, undefined,
  arith, if◌then◌else◌,
}
use pi_scan.Machine.{take_event}
use pi_scan.Scan.Entry.{Entry, Kind, LockoutType, has_signal, is_locked_out}
use pi_scan.Scanner.{
  holding, new_context, broadcast_context_update, entry_context, State, load, scan, hold, receive,
  stopped, write_to_file, notify_deinit, Scanner, new_scanner,
}
use pi_scan.Scanner.States.{squelch_trigger_hits, st_scan, st_receive, cleared_state}
use pi_scan.Scanner.Engine.{
  round, starts_scan, stops_scanner, Action, start_scan, stop_scanner, state_engine, step,
  run_actions, start_scan_map,
}
use pi_scan.Scanner.Startup.{start_scanner}
use pi_scan.Scanner.Frames.{audio_open}
use pi_scan.Scanner.Rounds.{is_receiving, Edge, Moved}
use pi_scan.Scanner.Squelch.{signal_received}
use pi_scan.Scanner.Stopping.{saved_at, stop_scanner_stops}
use pi_scan.Scanner.Resume.{Resumes, start_scanner-Resumes}
use pi_scan.Scanner.Graph.{state_engine-Edge}
use pi_scan.Scanner.Audio.{run_actions-audio}
use pi_scan.Scanner.Faults.{start_scan_empty, st_receive_next}
use pi_scan.Tests.{weather, tower, repeater, sorted_list, busy, quiet, scanner_in, result_of}

abbrev checking : Scanner
checking = record (scanner_in scan) { squelch_hits = 23 }

signal_received_example :
    (t : Scanner) × (run_actions (map round (busy ∷ busy ∷ [])) checking ≡ ok t)
    × (t.current_entry ≡ some weather)
    × (t.machine.current_state ≡ (if leb squelch_trigger_hits (23 + 2) then receive else scan))
signal_received_example =
    signal_received (busy ∷ busy ∷ []) weather 22 checking
      record {
        running = refl;
        here = refl;
        settled = refl;
        pending = refl;
        entry = refl;
        counted = refl;
        database = omega arith;
      }
      (omega arith) (omega arith) (unfold has_signal in (refl, (refl, tt)))

scan-not_stopped : scan ≢ stopped
scan-not_stopped h = absurd (cc)

stop_scanner_stops_example :
    (t : Scanner) × (run_actions (stops_scanner ∷ round busy ∷ round quiet ∷ []) (scanner_in scan)
      ≡ (if busy.writes then ok t else undefined))
    × (t.machine.run ≡ false)
    × (t.saved ≡ saved_at (scanner_in scan) weather)
    × (t.effects ≡ notify_deinit ∷ write_to_file ∷ [])
stop_scanner_stops_example =
    stop_scanner_stops busy quiet (scanner_in scan) weather refl scan-not_stopped refl

abbrev held : Scanner
held = record (scanner_in hold) { external_hold = true; current_entry = some tower }

-- What ST_Manual makes of a frequency, which stands in no list.
abbrev by_hand : Entry
by_hand = record {
  kind = Kind.am;
  frequency = pos 121_500_000;
  tag = "";
  lockout_type = LockoutType.none;
  delay_ms = pos 0;
  sys_index = 0;
  entry_index = 0;
}

abbrev tuned_by_hand : Scanner
tuned_by_hand = record (scanner_in hold) {
  external_hold = true;
  manual_mode = true;
  current_entry = some by_hand;
}

abbrev restarted : Scanner
restarted = record (new_scanner sorted_list cleared_state) {
  saved = saved_at tuned_by_hand by_hand;
}

start_scanner-Resumes_example :
    (u : Scanner) × (start_scanner 0 restarted ≡ ok u) × Resumes true true by_hand u
start_scanner-Resumes_example =
    start_scanner-Resumes 0 tuned_by_hand restarted by_hand
      record {
        tag = "county";
        lockout = false;
        sys_index = 0;
        entries = weather ∷ tower ∷ [];
        num_entries = 2;
      }
      refl (unfold new_scanner in refl) (λ listed held_. absurd (cc))

abbrev found_one : Scanner
found_one = record checking { squelch_hits = 24 }

abbrev received_one : Scanner
received_one = result_of (state_engine busy found_one)

state_engine-Edge_example :
    (next : Option State) × Edge scan next
    × Moved (take_event found_one.machine) next received_one.machine
    × (received_one.machine.evt_src_external ≡ false)
unfolding st_scan
state_engine-Edge_example =
    state_engine-Edge busy found_one received_one refl (unfold state_engine has_signal in refl)

-- A new scanner over the sorted list that starts its scan, passes over one quiet channel and stops.
abbrev history : List Action
history = starts_scan ∷ round quiet ∷ round quiet ∷ stops_scanner ∷ []

abbrev behind_history : Scanner
behind_history = result_of (run_actions history (new_scanner sorted_list cleared_state))

run_actions-audio_example :
    audio_open behind_history.effects ≡ is_receiving behind_history.context.state
unfolding run_actions step state_engine st_scan has_signal new_scanner start_scan stop_scanner
run_actions-audio_example = run_actions-audio sorted_list cleared_state history behind_history refl

abbrev no_systems : Scanner
no_systems = record (scanner_in load) {
  systems = record { systems = []; bins = []; bin_num = 0; entry_num = 0; retune = true };
}

start_scan_empty_example :
    run_actions (starts_scan ∷ round busy ∷ round quiet ∷ []) no_systems ≡ undefined
start_scan_empty_example =
    start_scan_empty busy quiet no_systems refl (unfold start_scan_map in refl) refl

abbrev at_locked : Scanner
at_locked = record (scanner_in receive) { current_entry = some repeater }

abbrev behind_locked : Scanner
behind_locked = result_of (st_receive busy at_locked)

st_receive_next_example :
    behind_locked.machine.current_state ≡ (if has_signal busy.demod repeater then receive else hold)
unfolding st_receive is_locked_out broadcast_context_update entry_context
st_receive_next_example = st_receive_next busy at_locked behind_locked repeater refl refl

abbrev holding_tower : Scanner
holding_tower = record held { context = record new_context { state = holding } }
