-- ===== src/Tests.antt =====
-- Sample data for the tests: a database of two systems, scanners over it and what surrounds them.
mod ScanList
mod Clients
mod Rounds
mod Running
mod Trees
mod Files
mod Converter
mod Radio
mod Consoles
mod Timers
mod Streams
mod Listeners
mod Tuning
mod Launches
use pi_scan.Base.{pos, true, false, List, [], ◌∷◌, some, none, ok, Outcome}
use pi_scan.Machine.{Machine}
use pi_scan.Scan.Entry.{Entry, Kind, LockoutType}
use pi_scan.Scan.System.{System}
use pi_scan.Scan.Bins.{EntryBin, SystemList}
use pi_scan.Scanner.{State, scan, EventData, Env, Scanner, new_context}
use pi_scan.Scanner.States.{cleared_state}

abbrev pub weather : Entry
weather = record {
  kind = Kind.fm;
  frequency = pos 162_400_000;
  tag = "weather";
  lockout_type = LockoutType.none;
  delay_ms = pos 2000;
  sys_index = 0;
  entry_index = 0;
}

abbrev pub tower : Entry
tower = record {
  kind = Kind.am;
  frequency = pos 118_300_000;
  tag = "tower";
  lockout_type = LockoutType.none;
  delay_ms = pos 0;
  sys_index = 0;
  entry_index = 1;
}

abbrev pub repeater : Entry
repeater = record {
  kind = Kind.pl "100.0";
  frequency = pos 162_550_000;
  tag = "repeater";
  lockout_type = LockoutType.persist;
  delay_ms = pos 0;
  sys_index = 1;
  entry_index = 0;
}

abbrev pub two_systems : List System
two_systems =
    record {
      tag = "county";
      lockout = false;
      sys_index = 0;
      entries = weather ∷ tower ∷ [];
      num_entries = 2;
    }
    ∷ record {
      tag = "amateur";
      lockout = false;
      sys_index = 1;
      entries = repeater ∷ [];
      num_entries = 1;
    }
    ∷ []

abbrev pub unsorted : SystemList
unsorted = record { systems = two_systems; bins = []; bin_num = 0; entry_num = 0; retune = true }

abbrev pub tower_bin : EntryBin
tower_bin = record { entries = tower ∷ []; locked_entries = 0 }

abbrev pub high_bin : EntryBin
high_bin = record { entries = weather ∷ repeater ∷ []; locked_entries = 1 }

abbrev pub sorted_list : SystemList
sorted_list = record unsorted { bins = tower_bin ∷ high_bin ∷ [] }

-- The squelch is open, or it is closed.
abbrev pub busy : Env
busy = record {
  demod = record { sets_frequency = λ f. true; threshold_met = true };
  now = pos 5000;
  sample_rate = pos 2_048_000;
  populate = λ l. some l;
  writes = true;
  fuel = 8;
}

abbrev pub quiet : Env
quiet = record busy { demod = record { sets_frequency = λ f. true; threshold_met = false } }

-- A running scanner in a state, with the event for it pending.
abbrev pub machine_in : State → Machine State EventData
machine_in x = record {
  current_state = x;
  last_state = x;
  evt_src_external = false;
  event_generated = true;
  event_data = none;
  run = true;
}

abbrev pub scanner_in : State → Scanner
scanner_in x = record {
  machine = machine_in x;
  systems = sorted_list;
  current_entry = some weather;
  context = new_context;
  external_hold = false;
  manual_mode = false;
  hold_index = [];
  timeout_start = pos 0;
  squelch_hits = 0;
  saved = cleared_state;
  effects = [];
}

-- The scanner that a run comes to.
abbrev pub result_of : Outcome Scanner → Scanner
result_of (ok s) = s
result_of _ = scanner_in scan
