-- ===== src/Scanner/States.antt =====
-- The state functions of ScannerSM.cpp.
use text.Mathlib.Text.{◌==◌ as str_eq}
use pi_scan.Base.{
  ◌&&◌, ◌||◌, ℕ, zero, suc, ◌+◌, ◌-◌, ◌%◌, String, ℤ, pos, negsuc, pos_part, neg_part, ltb, ◌-ℤ◌,
  ltb_ℤ, is_zero, Bool, true, false, [], ◌∷◌, Option, none, some, ok, undefined, out_of_fuel,
  Outcome, ◌>>=◌, if◌then◌else◌, leb, ◌==◌, length, not,
}
use pi_scan.Machine.{stop}
use pi_scan.Scan.Entry.{
  Entry, Kind, new_channel, has_signal, signal_calls, is_dummy, is_locked_out, modulation, key,
}
use pi_scan.Scan.Bins.{SystemList, sort_bins}
use pi_scan.Scan.Rotation.{or_undefined, get_next_entry, get_entry_by_index}
use pi_scan.Scanner.{
  State, scan, hold, receive, manual, stopped, EventData, manual_entry_data, frequency_data,
  scanning, holding, receiving, SavedState, scan_state, hold_state, manual_state, demod_calls,
  write_to_file, notify_ready, notify_deinit, Scanner, Env, emit, enable_audio_out,
  set_context_state, go, changed, the_entry, broadcast_context_update,
}

-- `#define SQUELCH_TRIGGER_HITS 25`
abbrev pub squelch_trigger_hits : ℕ
squelch_trigger_hits = 25

-- A call of `hasSignal`, with what it asks of the demodulator.
abbrev pub check_signal : Entry → Scanner → Scanner
check_signal e s = emit (demod_calls (signal_calls e)) s

abbrev pub with_systems : Scanner → SystemList → Scanner
with_systems s l = record s { systems = l }

-- An exception of `populateFromFile` leaves the thread's function, which ends the program.
unfoldable pub st_load : Env → Scanner → Outcome Scanner
st_load env s = do
  loaded ← or_undefined (env.populate s.systems.systems)
  l ← sort_bins env.sample_rate (record (s.systems) { systems = loaded })
  ok (emit notify_ready (with_systems s l))

abbrev pub broadcast_if : Bool → Scanner → Outcome Scanner
broadcast_if b s = let sent = broadcast_context_update s in if b then sent else ok s

-- The entry that is checked: the next one, unless the last check found a signal.
abbrev pub scan_entry : Env → Bool → Scanner → Outcome Scanner
scan_entry env moved s =
    let next = (do
      (e, l) ← get_next_entry env.fuel s.systems
      ok (record s { systems = l; current_entry = some e })) in
    if (s.squelch_hits == 0) || moved then next else ok s

-- The rest of the function, with the entry at hand.
abbrev pub scan_check : Env → Entry → Scanner → Scanner
scan_check env e s =
    let t = check_signal e s in
    if has_signal env.demod e
    then (let hits = s.squelch_hits + 1 in
        go (if leb squelch_trigger_hits hits then receive else scan) none
          (record t { squelch_hits = hits }))
    else go scan none (record t { squelch_hits = 0 })

unfoldable pub st_scan : Env → Scanner → Outcome Scanner
unfolding go changed
st_scan env s0 =
    let moved = changed s0 in
    let s = record s0 { squelch_hits = if moved then 0 else s0.squelch_hits } in
    let scans = (do
      s1 ← broadcast_if moved (
          set_context_state scanning
            (record (enable_audio_out false s) { manual_mode = false; external_hold = false }))
      s2 ← scan_entry env moved s1
      e ← the_entry s2
      ok (scan_check env e s2)) in
    if length s.systems.systems == 0
    then ok (go manual (some (frequency_data 100_000_000)) s)
    else scans

-- `while(_currentEntry->isDummy())`: a dummy is tuned to, and left.
unfoldable pub leave_dummies : ℕ → Env → Scanner → Outcome Scanner
leave_dummies zero env s = out_of_fuel
leave_dummies (suc fuel) env s = do
  e ← the_entry s
  let next = (do
    (e', l) ← get_next_entry env.fuel s.systems
    leave_dummies fuel env (record (check_signal e s) { systems = l; current_entry = some e' }))
  if is_dummy e then next else ok s

-- The entry that a hold by index asks for, and whether there was one.
abbrev pub index_hold : Env → Scanner → Outcome (Scanner × Bool)
index_hold env s =
    let found = (do
      (e, l) ← get_entry_by_index env.fuel s.systems s.hold_index
      ok (record s { systems = l; current_entry = some e; hold_index = [] }, true)) in
    if s.external_hold && not (length s.hold_index == 0) then found else ok (s, false)

-- The state that a hold without a signal goes on to; `none` if it generates no event.
-- A count of milliseconds as a 32-bit `int`.
unfoldable pub int_of : ℤ → ℤ
int_of n =
    let r =
      (pos_part n % 0x1_0000_0000 + (0x1_0000_0000 - neg_part n % 0x1_0000_0000)) % 0x1_0000_0000 in
    if ltb r 0x8000_0000 then pos r else negsuc (0x1_0000_0000 - r - 1)

abbrev pub hold_next : Env → Entry → Scanner → Option State
hold_next env e s =
    if s.external_hold
    then some hold
    else if is_locked_out e
    then some scan
    else if not (is_zero e.delay_ms)
    then (if ltb_ℤ (int_of (env.now -ℤ s.timeout_start)) e.delay_ms
        then some hold
        else if not s.machine.evt_src_external
        then some scan
        else none)
    else if not s.machine.evt_src_external
    then some scan
    else none

abbrev pub go_if : Option State → Scanner → Scanner
go_if none s = s
go_if (some next) s = go next none s

abbrev pub hold_check : Env → Entry → Scanner → Scanner
hold_check env e s =
    let t = check_signal e s in
    go_if (if has_signal env.demod e then some receive else hold_next env e s) t

unfoldable pub st_hold : Env → Scanner → Outcome Scanner
unfolding go changed
st_hold env s0 = do
  (s1, by_index) ← index_hold env s0
  s2 ← leave_dummies env.fuel env s1
  s3 ← broadcast_if (changed s0 || by_index) (set_context_state holding (enable_audio_out false s2))
  e ← the_entry s3
  ok (hold_check env e s3)

-- There is no `return` behind the event of the first test.
unfoldable pub st_receive : Env → Scanner → Outcome Scanner
unfolding go changed
st_receive env s0 = do
  e ← the_entry s0
  let s1 = if is_locked_out e then go scan none s0 else s0
  s2 ← broadcast_if (changed s1) (set_context_state receiving (enable_audio_out true s1))
  let t = check_signal e s2
  ok (
      if has_signal env.demod e
      then go receive none t
      else record (go hold none t) { timeout_start = env.now })

abbrev pub manual_kind : String → Kind
manual_kind mode =
    if str_eq mode "FM" || str_eq mode "NFM"
    then Kind.fm
    else if str_eq mode "AM"
    then Kind.am
    else Kind.fm

-- The data is read as an `app::ManualEntryData`, whatever it is.
unfoldable pub st_manual : Option EventData → Scanner → Outcome Scanner
unfolding go new_channel
st_manual none s = undefined
st_manual (some (frequency_data n)) s = undefined
st_manual (some (manual_entry_data freq mode)) s = ok (
    go hold none (record s {
      current_entry = some (new_channel (manual_kind mode) freq "" false (pos 0));
      external_hold = true;
      manual_mode = true;
    }))

abbrev pub cleared_state : SavedState
cleared_state = record {
  scan_state_saved = scan_state;
  manual_freq = pos 0;
  manual_modulation = "";
  hold_index_saved = [];
  hold_key = "";
}

-- The saved state; the entry is read in the first two cases only.
abbrev pub state_to_save : Scanner → Outcome SavedState
state_to_save s =
    if s.manual_mode
    then (do
      e ← the_entry s
      ok (record cleared_state {
        scan_state_saved = manual_state;
        manual_freq = e.frequency;
        manual_modulation = modulation e;
      }))
    else if s.external_hold
    then (do
      e ← the_entry s
      ok (record cleared_state {
        scan_state_saved = hold_state;
        hold_index_saved = pos e.sys_index ∷ pos e.entry_index ∷ [];
        hold_key = key e;
      }))
    else ok cleared_state

-- What `write_json` throws where the file of the systems cannot be written leaves the thread.
unfoldable pub st_save_all : Env → Scanner → Outcome Scanner
unfolding go
st_save_all env s = do
  saved ← state_to_save s
  let t = go stopped none (emit write_to_file (record s { saved = saved }))
  if env.writes then ok t else undefined

unfoldable pub st_stopped : Scanner → Outcome Scanner
unfolding stop
st_stopped s = ok (emit notify_deinit (record s { machine = stop s.machine }))
