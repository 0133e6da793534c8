-- ===== src/Scanner/Stopping.antt =====
-- Stopping the scanner, and starting it again from the state that it saved.
use pi_scan.Base.{
  ◌≡◌, refl, ◌≢◌, true, false, [], ◌∷◌, none, some, ok, undefined, arith, if◌then◌else◌, pos,
}
use pi_scan.Scan.Entry.{Entry, modulation, key}
use pi_scan.Scanner.{
  State, load, save_all, stopped, Scanner, Env, SavedState, hold_state, manual_state, write_to_file,
  notify_deinit,
}
use pi_scan.Scanner.States.{st_save_all, st_stopped, cleared_state}
use pi_scan.Scanner.Engine.{
  round, stops_scanner, state_engine, step, run_actions, stop_scanner, stop_scanner_map,
}

-- What is saved of a scanner that stands at an entry.
unfoldable pub saved_at : Scanner → Entry → SavedState
saved_at s e =
    if s.manual_mode
    then record cleared_state {
      scan_state_saved = manual_state;
      manual_freq = e.frequency;
      manual_modulation = modulation e;
    }
    else if s.external_hold
    then record cleared_state {
      scan_state_saved = hold_state;
      hold_index_saved = pos e.sys_index ∷ pos e.entry_index ∷ [];
      hold_key = key e;
    }
    else cleared_state

stop_scanner_map-some : (x : State) → x ≢ stopped → stop_scanner_map x ≡ some save_all
unfolding stop_scanner_map
stop_scanner_map-some stopped h = absurd (h refl)
stop_scanner_map-some load h = refl
stop_scanner_map-some _ h = refl

-- A call that stops a running scanner that has a current entry, in whatever state but the last it
-- stands, and two rounds: if the file of the systems can be written in the first one, the state is
-- saved, the database is written, the thread is done and says so; otherwise an exception leaves the
-- thread.
pub stop_scanner_stops :
    (env env' : Env) (s : Scanner) (e : Entry)
    → s.machine.run ≡ true
    → s.machine.current_state ≢ stopped
    → s.current_entry ≡ some e
    → (t : Scanner) × (run_actions (stops_scanner ∷ round env ∷ round env' ∷ []) s
        ≡ (if env.writes then ok t else undefined))
      × (t.machine.run ≡ false)
      × (t.saved ≡ saved_at s e)
      × (t.effects ≡ notify_deinit ∷ write_to_file ∷ s.effects)
unfolding run_actions step stop_scanner state_engine st_save_all st_stopped saved_at
stop_scanner_stops env env' s e running alive known = (
  record s {
    machine = record {
      current_state = stopped;
      last_state = save_all;
      evt_src_external = false;
      event_generated = false;
      event_data = none;
      run = false;
    };
    saved = saved_at s e;
    effects = notify_deinit ∷ write_to_file ∷ s.effects;
  },
  ground (arith, stop_scanner_map-some s.machine.current_state alive),
  refl,
  refl,
  refl,
)
