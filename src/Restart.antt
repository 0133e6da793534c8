-- ===== src/Restart.antt =====
-- From one run of the program to the next: what ScannerSM.cpp saves at a stop, State.cpp writes and
-- reads, and startScanner takes up.
use pi_scan.Base.{
  ◌≡◌, ◌≢◌, ap, ◌∙◌, ℕ, pos, true, false, [], ◌∷◌, some, ok, undefined, arith, All, if-elim,
  if◌then◌else◌,
}
use pi_scan.Scan.Tree.{FitsInt}
use pi_scan.Scan.Entry.{Entry}
use pi_scan.Scan.System.{System}
use pi_scan.Scanner.{Scanner, SavedState, Env, load, stopped}
use pi_scan.Scanner.Engine.{round, stops_scanner, run_actions}
use pi_scan.Scanner.Startup.{start_scanner}
use pi_scan.Scanner.Stopping.{saved_at, stop_scanner_stops}
use pi_scan.Scanner.Resume.{IsIndexed, Resumes, start_scanner-Resumes}
use pi_scan.Config.Tree.{PathTree}
use pi_scan.Config.Saving.{DemodState, ConfigState, load_state, save_state}
use pi_scan.Config.StateFile.{IsNumbered, IsWhole, IsSaved, load_state-save}

-- The numbers of an entry that the file of the state holds.
pub record IsKeptEntry (e : Entry) : Type 0 where
  pub frequency_fits : FitsInt e.frequency
  pub system_fits : FitsInt (pos e.sys_index)
  pub entry_fits : FitsInt (pos e.entry_index)

record IsFitting (saved : SavedState) : Type 0 where
  pub numbered : IsNumbered saved.scan_state_saved
  pub frequency_fits : FitsInt saved.manual_freq
  pub index_fits : All FitsInt saved.hold_index_saved

zero_fits : FitsInt (pos 0)
zero_fits = record { above = omega arith; below = omega arith }

saved_at-IsFitting : (s : Scanner) (e : Entry) → IsKeptEntry e → IsFitting (saved_at s e)
unfolding saved_at
saved_at-IsFitting s e h =
    if-elim IsFitting s.manual_mode _ _
      (λ by_hand. record { numbered = tt; frequency_fits = h.frequency_fits; index_fits = tt })
      (λ listed.
        if-elim IsFitting s.external_hold _ _
          (λ held. record {
            numbered = tt;
            frequency_fits = zero_fits;
            index_fits = (h.system_fits, (h.entry_fits, tt));
          })
          (λ scans. record { numbered = tt; frequency_fits = zero_fits; index_fits = tt }))

module _ (P : PathTree) where
  -- The state that the next run loads of a file that was written over the tree `t`.
  abbrev pub reloaded : P.Tree → ConfigState P → DemodState P → SavedState → SavedState
  reloaded t fresh d saved =
      (load_state P (save_state P (record { demod_state = d; scanner_state = saved }) t)
        fresh).scanner_state

  -- A running scanner with a current entry that is stopped, saved to the file of the state and loaded
  -- by the next run takes up what it did: that run's scanner enters the same manual frequency, asks
  -- for a hold of the same entry, or scans. The numbers of the entry fit an `int`, the gain and the
  -- squelch are whole numbers of at most 2^24, the file of the systems can be written, the next run
  -- begins with an empty index, and where the old one held an entry, and not one that was entered by
  -- hand, the list of the next run holds it where its indices say.
  pub restart-Resumes :
      (t : P.Tree) (fresh : ConfigState P) (d : DemodState P) (env env' : Env) (s : Scanner)
      (e : Entry) (fuel : ℕ) (r : Scanner) (system : System)
      → s.machine.run ≡ true
      → s.machine.current_state ≢ stopped
      → s.current_entry ≡ some e
      → IsKeptEntry e
      → IsWhole P d.gain
      → IsWhole P d.squelch
      → fresh.scanner_state.hold_index_saved ≡ []
      → r.machine.current_state ≡ load
      → (s.manual_mode ≡ false → s.external_hold ≡ true → IsIndexed r.systems e system)
      → env.writes ≡ true
      → (old new : Scanner) × (run_actions (stops_scanner ∷ round env ∷ round env' ∷ []) s ≡ ok old)
        × (start_scanner fuel (record r { saved = reloaded t fresh d old.saved }) ≡ ok new)
        × Resumes s.manual_mode s.external_hold e new
  restart-Resumes t fresh d env env' s e fuel r system running alive known kept gain squelch empty
        begins at_ writes =
      let (old, stops, ended, saved, effects) =
        stop_scanner_stops env env' s e running alive known in
      let fit = saved_at-IsFitting s e kept in
      let stored : IsSaved P (record { demod_state = d; scanner_state = saved_at s e }) = record {
        numbered = fit.numbered;
        frequency_fits = fit.frequency_fits;
        index_fits = fit.index_fits;
        whole_gain = gain;
        whole_squelch = squelch;
      } in
      let same : reloaded t fresh d old.saved ≡ saved_at s e =
        ap (reloaded t fresh d) saved
        ∙ ap (λ x. x.scanner_state)
            (load_state-save P (record { demod_state = d; scanner_state = saved_at s e }) t fresh
              stored empty) in
      let (new, starts, resumed) =
        start_scanner-Resumes fuel s (record r { saved = reloaded t fresh d old.saved }) e system
          same begins at_ in
      (old, new, stops ∙ ap (λ b. if b then ok old else undefined) writes, starts, resumed)
