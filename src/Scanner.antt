-- ===== src/Scanner.antt =====
-- ScannerSM.h, the context of server/messages/context.h and context.cpp, and the scanner's part of
-- common/Configuration.h: the state of the scanner and the helpers of its state functions.
pub mod States
pub mod Engine
pub mod Startup
pub mod Frames
pub mod Rounds
pub mod Audio
pub mod Graph
pub mod Faults
pub mod Stopping
pub mod Squelch
pub mod Sweep
pub mod Resume
pub mod Races
pub mod Scanning
use Prim.Native.String.{◌++◌}
use pi_scan.Base.{
  ℕ, String, ℤ, pos, Bool, true, false, List, [], ◌∷◌, Option, none, some, ok, undefined, Outcome,
  ◌>>=◌, if◌then◌else◌, get_elem?,
}
use pi_scan.Machine.{Machine, new_machine, internal_event, state_changed}
use pi_scan.Scan.Text.{to_string}
use pi_scan.Scan.Entry.{Entry, Demod, DemodCall, is_locked_out, modulation}
use pi_scan.Scan.System.{System}
use pi_scan.Scan.Bins.{SystemList}
use pi_scan.Scan.Rotation.{or_undefined}

pub data State : Type 0 where
  load scan hold receive manual save_all stopped : State

abbrev pub same_state : State → State → Bool
same_state load load = true
same_state scan scan = true
same_state hold hold = true
same_state receive receive = true
same_state manual manual = true
same_state save_all save_all = true
same_state stopped stopped = true
same_state _ _ = false

-- What the `void*` of an event points to: an `app::ManualEntryData`, or a bare `uint32_t`.
pub data EventData : Type 0 where
  manual_entry_data : ℤ → String → EventData
  frequency_data : ℕ → EventData

pub data ContextState : Type 0 where
  other_state scanning holding receiving : ContextState

pub record ScannerContext : Type 0 where
  pub state : ContextState
  pub system_tag : String
  pub entry_tag : String
  pub frequency : ℤ
  pub modulation_text : String
  pub entry_index : String
  pub delay_ms : ℤ
  pub lockout : Bool

abbrev pub new_context : ScannerContext
new_context = record {
  state = other_state;
  system_tag = "";
  entry_tag = "";
  frequency = pos 0;
  modulation_text = "";
  entry_index = "";
  delay_ms = pos 0;
  lockout = false;
}

-- The copy constructor, which leaves the last two fields at their defaults.
unfoldable pub copy_context : ScannerContext → ScannerContext
copy_context c = record c { delay_ms = pos 0; lockout = false }

unfoldable pub clear_fields : ScannerContext → ScannerContext
clear_fields c = record c {
  system_tag = "";
  entry_tag = "";
  frequency = pos 0;
  modulation_text = "";
  entry_index = "";
}

-- `SCAN_STATE_SCAN`, `SCAN_STATE_HOLD` and `SCAN_STATE_MANUAL`; any other number in the file.
pub data ScanState : Type 0 where
  scan_state hold_state manual_state : ScanState
  other_number : ℤ → ScanState

-- `config::ScannerState`.
pub record SavedState : Type 0 where
  pub scan_state_saved : ScanState
  pub manual_freq : ℤ
  pub manual_modulation : String
  pub hold_index_saved : List ℤ
  pub hold_key : String

-- The calls that the scanner makes of the rest of the program.
pub data Effect : Type 0 where
  demod_calls : List DemodCall → Effect
  squelch_break : Bool → Effect
  context_update : ScannerContext → Effect
  write_to_file notify_ready notify_deinit : Effect

-- The members of `ScannerSM`, the saved state that it writes, and its calls, latest first.
pub record Scanner : Type 0 where
  pub machine : Machine State EventData
  pub systems : SystemList
  pub current_entry : Option Entry
  pub context : ScannerContext
  pub external_hold : Bool
  pub manual_mode : Bool
  pub hold_index : List ℤ
  pub timeout_start : ℤ
  pub squelch_hits : ℕ
  pub saved : SavedState
  pub effects : List Effect

unfoldable pub new_scanner : SystemList → SavedState → Scanner
unfolding new_machine
new_scanner systems saved = record {
  machine = new_machine load;
  systems = systems;
  current_entry = none;
  context = new_context;
  external_hold = false;
  manual_mode = false;
  hold_index = [];
  timeout_start = pos 0;
  squelch_hits = 0;
  saved = saved;
  effects = [];
}

-- What the surroundings answer while one state function runs. `populate` is `populateFromFile` on
-- the file at hand; `fuel` bounds the loops that look for the next entry.
pub record Env : Type 0 where
  pub demod : Demod
  pub now : ℤ
  pub sample_rate : ℤ
  pub populate : List System → Option (List System)
  pub writes : Bool
  pub fuel : ℕ

abbrev pub emit : Effect → Scanner → Scanner
emit x s = record s { effects = x ∷ s.effects }

abbrev pub enable_audio_out : Bool → Scanner → Scanner
enable_audio_out en s = emit (squelch_break en) s

abbrev pub set_context_state : ContextState → Scanner → Scanner
set_context_state c s = record s { context = record (s.context) { state = c } }

-- `InternalEvent` from within a state function.
unfoldable pub go : State → Option EventData → Scanner → Scanner
unfolding internal_event
go new_state data_ s = record s { machine = internal_event new_state data_ s.machine }

unfoldable pub changed : Scanner → Bool
unfolding state_changed
changed s = state_changed same_state s.machine

-- `_currentEntry`, which is null before the first entry.
abbrev pub the_entry : Scanner → Outcome Entry
the_entry s = or_undefined s.current_entry

-- The tag, the entry's tag and the index that the context shows.
abbrev pub entry_tags : Scanner → Entry → ScannerContext → Outcome ScannerContext
entry_tags s e c =
    if s.manual_mode
    then ok (record c { system_tag = "Manual"; entry_tag = "Manual entry"; entry_index = "MAN" })
    else (do
      system ← or_undefined (get_elem? s.systems.systems e.sys_index)
      ok (record c {
        system_tag = system.tag;
        entry_tag = e.tag;
        entry_index = to_string (pos e.sys_index) ++ ("-" ++ to_string (pos e.entry_index));
      }))

unfoldable pub entry_context : Scanner → ScannerContext → Outcome ScannerContext
entry_context s c = do
  e ← the_entry s
  c' ← entry_tags s e c
  ok (record c' {
    frequency = e.frequency;
    modulation_text = modulation e;
    delay_ms = e.delay_ms;
    lockout = is_locked_out e;
  })

abbrev pub is_scanning : ContextState → Bool
is_scanning scanning = true
is_scanning _ = false

-- The server is given a copy of a copy.
unfoldable pub broadcast_context_update : Scanner → Outcome Scanner
broadcast_context_update s = do
  c ← if is_scanning s.context.state then ok (clear_fields s.context) else entry_context s s.context
  ok (emit (context_update (copy_context (copy_context c))) (record s { context = c }))

unfoldable pub get_current_context : Scanner → ScannerContext
unfolding copy_context
get_current_context s = copy_context s.context
