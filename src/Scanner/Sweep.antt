-- ===== src/Scanner/Sweep.antt =====
-- The scan state while the squelch is closed: every channel that is not locked out is checked.
use mathlib.Core.Path.{subst}
use pi_scan.Base.{
  ◌≡◌, refl, sym, ap, ◌∙◌, ◌<◌, ◌≤◌, ◌+◌, ◌*◌, ℕ, zero, suc, ℤ, true, false, List, [], ◌∷◌, none,
  some, ok, arith, length, get_elem?,
}
use pi_scan.Scan.Entry.{Entry, has_signal, signal_calls}
use pi_scan.Scan.Bins.{EntryBin, SystemList, blocked}
use pi_scan.Scan.Bins.Filling.{flat}
use pi_scan.Scan.Rotation.{get_next_entry}
use pi_scan.Scan.Rotation.Steps.{IsWalking}
use pi_scan.Scan.Rotation.Reaching.{Reaches, now, then_}
use pi_scan.Scan.Rotation.Fairness.{Stands, Stands-kept, walk_comes_by}
use pi_scan.Scan.Rotation.Calls.{get_next_entry-Called}
use pi_scan.Scanner.{scan, scanning, squelch_break, demod_calls, Scanner, Env, Effect}
use pi_scan.Scanner.States.{st_scan}
use pi_scan.Scanner.Engine.{round, state_engine, step, Action, run_actions}

-- The scanner scans, and its last check has found no signal.
pub record IsSweeping (s : Scanner) : Type 0 where
  pub running : s.machine.run ≡ true
  pub here : s.machine.current_state ≡ scan
  pub settled : s.machine.last_state ≡ scan
  pub pending : s.machine.event_generated ≡ true
  pub silent : s.squelch_hits ≡ 0
  pub database : 0 < length s.systems.systems

-- The scanner behind a check of the next entry that finds no signal.
after_miss : Entry → SystemList → Scanner → Scanner
after_miss e l s = record s {
  machine = record {
    current_state = scan;
    last_state = scan;
    evt_src_external = false;
    event_generated = true;
    event_data = none;
    run = true;
  };
  systems = l;
  current_entry = some e;
  context = record (s.context) { state = scanning };
  external_hold = false;
  manual_mode = false;
  squelch_hits = 0;
  effects = demod_calls (signal_calls e) ∷ squelch_break false ∷ s.effects;
}

round-after_miss :
    (env : Env) (e : Entry) (l : SystemList) (s : Scanner)
    → IsSweeping s
    → get_next_entry env.fuel s.systems ≡ ok (e, l)
    → has_signal env.demod e ≡ false
    → step (round env) s ≡ ok (after_miss e l s)
unfolding after_miss step state_engine st_scan
round-after_miss env e l s c ran no_signal = ground (arith, ran, no_signal)

-- A round's surroundings: fuel for the loop over the bins, and no signal on any channel.
pub record IsQuiet (bins : List EntryBin) (env : Env) : Type 0 where
  pub enough : 2 * length (flat bins) + 1 ≤ env.fuel
  pub silent : (x : Entry) → has_signal env.demod x ≡ false

-- Rounds of the thread, each with its own surroundings.
abbrev pub rounds : (ℕ → Env) → ℕ → List Action
rounds envs zero = []
rounds envs (suc n) = round (envs 0) ∷ rounds (λ m. envs (suc m)) n

after_miss-IsSweeping :
    (e : Entry) (l : SystemList) (s : Scanner)
    → IsSweeping s
    → l.systems ≡ s.systems.systems
    → IsSweeping (after_miss e l s)
unfolding after_miss
after_miss-IsSweeping e l s c same = record {
  running = refl;
  here = refl;
  settled = refl;
  pending = refl;
  silent = refl;
  database = subst (λ systems. 0 < length systems) (sym same) c.database;
}

-- One round over a call of `getNextEntry` whose result is known.
miss :
    (bandwidth : ℤ) (i k : ℕ) (e : Entry) (more : ℕ) (x : Entry) (l l' : SystemList) (s : Scanner)
    (env : Env)
    → s.systems ≡ l
    → IsSweeping s
    → IsWalking bandwidth l
    → Stands bandwidth e i k l
    → IsQuiet l.bins env
    → get_next_entry (more + env.fuel) l ≡ ok (x, l')
    → (step (round env) s ≡ ok (after_miss x l' s))
      × IsSweeping (after_miss x l' s)
      × IsWalking bandwidth l'
      × (l'.bins ≡ l.bins)
      × (l'.systems ≡ l.systems)
miss bandwidth i k e more x l l' s env same c w at_ q goes =
    let called = get_next_entry-Called bandwidth env.fuel more l i k e x l' w at_ q.enough goes in
    (
      round-after_miss env x l' s c (ap (get_next_entry env.fuel) same ∙ called.ran) (q.silent x),
      after_miss-IsSweeping x l' s c (called.same_systems ∙ ap (λ t. t.systems) (sym same)),
      called.walking,
      called.same_bins,
      called.same_systems,
    )

sweep-Reaches :
    (bandwidth : ℤ) (i k : ℕ) (e : Entry) (l : SystemList) (s : Scanner) (envs : ℕ → Env)
    → s.systems ≡ l
    → IsSweeping s
    → IsWalking bandwidth l
    → Stands bandwidth e i k l
    → ((m : ℕ) → IsQuiet l.bins (envs m))
    → Reaches e l
    → (n : ℕ) × (t : Scanner) × (before : List Effect) × (run_actions (rounds envs n) s ≡ ok t)
      × (t.current_entry ≡ some e)
      × (t.effects ≡ demod_calls (signal_calls e) ∷ before)
unfolding run_actions after_miss
sweep-Reaches bandwidth i k e l s envs same c w at_ q (now more l' goes) =
    let (ran, c', w', same_bins, same_systems) =
      miss bandwidth i k e more e l l' s (envs 0) same c w at_ (q 0) (goes (envs 0).fuel) in
    (1, after_miss e l' s, squelch_break false ∷ s.effects, rw (ran) refl, refl, refl)
sweep-Reaches bandwidth i k e l s envs same c w at_ q (then_ more x l' goes rest) =
    let (ran, c', w', same_bins, same_systems) =
      miss bandwidth i k e more x l l' s (envs 0) same c w at_ (q 0) (goes (envs 0).fuel) in
    let (n, t, before, runs, now_, checked) =
      sweep-Reaches bandwidth i k e l' (after_miss x l' s) (λ m. envs (suc m)) refl c' w'
        (Stands-kept bandwidth e i k l l' same_bins same_systems at_)
        (λ m. subst (λ bins. IsQuiet bins (envs (suc m))) (sym same_bins) (q (suc m))) rest in
    (suc n, t, before, rw (ran) runs, now_, checked)

-- A scanner scans, its last check has found no signal, its walk stands in bins as `sortBins` leaves
-- them, an entry of one of them is not locked out, and in each round to come the loop has fuel for
-- twice the number of entries, and one round more, and no channel has a signal: some number of
-- rounds return, and the last one makes that entry the current one and asks the demodulator what
-- the entry's `hasSignal` asks.
pub sweep_checks :
    (bandwidth : ℤ) (s : Scanner) (envs : ℕ → Env) (i k : ℕ) (b : EntryBin) (e : Entry)
    → IsSweeping s
    → IsWalking bandwidth s.systems
    → get_elem? s.systems.bins i ≡ some b
    → get_elem? b.entries k ≡ some e
    → blocked s.systems.systems e ≡ ok false
    → ((m : ℕ) → IsQuiet s.systems.bins (envs m))
    → (n : ℕ) × (t : Scanner) × (before : List Effect) × (run_actions (rounds envs n) s ≡ ok t)
      × (t.current_entry ≡ some e)
      × (t.effects ≡ demod_calls (signal_calls e) ∷ before)
sweep_checks bandwidth s envs i k b e c w found at_ free q =
    let st : Stands bandwidth e i k s.systems = record {
      bin = b;
      found = found;
      at = at_;
      free = free;
    } in
    sweep-Reaches bandwidth i k e s.systems s envs refl c w st q
      (walk_comes_by bandwidth e s.systems i k w st)
