-- ===== src/Scanner/Squelch.antt =====
-- From the first check that finds a signal to the state that receives it.
use pi_scan.Base.{
  ◌≡◌, refl, ℕ, suc, ◌+◌, ◌≤◌, ◌<◌, leb, true, false, List, [], ◌∷◌, none, some, ok, arith, length,
  map, All, if◌then◌else◌,
}
use pi_scan.Scan.Entry.{Entry, has_signal, signal_calls}
use pi_scan.Scanner.{scan, receive, scanning, squelch_break, demod_calls, Scanner, Env}
use pi_scan.Scanner.States.{squelch_trigger_hits, st_scan}
use pi_scan.Scanner.Engine.{round, state_engine, step, run_actions}

-- The scanner checks entry `e` and has found a signal `hits` times in a row.
pub record IsChecking (e : Entry) (hits : ℕ) (s : Scanner) : Type 0 where
  pub running : s.machine.run ≡ true
  pub here : s.machine.current_state ≡ scan
  pub settled : s.machine.last_state ≡ scan
  pub pending : s.machine.event_generated ≡ true
  pub entry : s.current_entry ≡ some e
  pub counted : s.squelch_hits ≡ hits
  pub database : 0 < length s.systems.systems

-- The scanner behind one more check that finds the signal.
after_hit : Entry → Scanner → Scanner
after_hit e s = record s {
  machine = record {
    current_state = if leb squelch_trigger_hits (s.squelch_hits + 1) then receive else scan;
    last_state = scan;
    evt_src_external = false;
    event_generated = true;
    event_data = none;
    run = true;
  };
  context = record (s.context) { state = scanning };
  external_hold = false;
  manual_mode = false;
  squelch_hits = s.squelch_hits + 1;
  effects = demod_calls (signal_calls e) ∷ squelch_break false ∷ s.effects;
}

round-after_hit :
    (env : Env) (e : Entry) (hits : ℕ) (s : Scanner)
    → IsChecking e (suc hits) s
    → has_signal env.demod e ≡ true
    → step (round env) s ≡ ok (after_hit e s)
unfolding after_hit step state_engine st_scan
round-after_hit env e hits s c signal = ground arith

after_hit-IsChecking :
    (e : Entry) (hits : ℕ) (s : Scanner)
    → IsChecking e (suc hits) s
    → suc (suc hits) < squelch_trigger_hits
    → IsChecking e (suc (suc hits)) (after_hit e s)
unfolding after_hit
after_hit-IsChecking e hits s c few = record {
  running = refl;
  here = ground arith;
  settled = refl;
  pending = refl;
  entry = c.entry;
  counted = ground arith;
  database = c.database;
}

-- Where a running scanner has found a signal of its entry, less than 25 times in a row, and goes
-- on finding one, each further check up to the 25th keeps the entry as the current one, and the
-- scanner receives it at the 25th check and not before.
pub signal_received :
    (envs : List Env) (e : Entry) (hits : ℕ) (s : Scanner)
    → IsChecking e (suc hits) s
    → suc hits < squelch_trigger_hits
    → suc hits + length envs ≤ squelch_trigger_hits
    → All (λ env. has_signal env.demod e ≡ true) envs
    → (t : Scanner) × (run_actions (map round envs) s ≡ ok t)
      × (t.current_entry ≡ some e)
      × (t.machine.current_state
          ≡ (if leb squelch_trigger_hits (suc hits + length envs) then receive else scan))
unfolding run_actions
signal_received [] e hits s c few most signals = (s, refl, c.entry, ground (arith, c.here))
signal_received (env ∷ []) e hits s c few most signals = (
  after_hit e s,
  rw (round-after_hit env e hits s c signals.0),
  unfold after_hit in c.entry,
  unfold after_hit in ground (arith, c.counted),
)
signal_received (env ∷ env' ∷ envs) e hits s c few most signals =
    let (t, ran, entry, there) =
      signal_received (env' ∷ envs) e (suc hits) (after_hit e s)
        (after_hit-IsChecking e hits s c (omega arith)) (omega arith) (omega arith) signals.1 in
    (t, rw (round-after_hit env e hits s c signals.0) ran, entry, ground (arith, there))
