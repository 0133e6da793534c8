-- ===== src/Scanner/Resume.antt =====
-- The state that a stop saves, read back by `startScanner`.
use text.Mathlib.TextPositions.{eq_refl}
use pi_scan.Base.{◌≡◌, refl, ◌<◌, ℕ, pos, true, false, Bool, [], ◌∷◌, some, ok, arith, get_elem?}
use pi_scan.Scan.Entry.{Entry, modulation, key}
use pi_scan.Scan.System.{System}
use pi_scan.Scan.Bins.{SystemList}
use pi_scan.Scan.Rotation.Indexed.{get_entry_by_index-some}
use pi_scan.Scanner.{load, scan, hold, manual, manual_entry_data, Scanner}
use pi_scan.Scanner.Engine.{start_scan, hold_scan, manual_entry}
use pi_scan.Scanner.Startup.{start_scanner}
use pi_scan.Scanner.Stopping.{saved_at}

-- The entry stands in the list where its indices say.
pub record IsIndexed (l : SystemList) (e : Entry) (system : System) : Type 0 where
  pub found : get_elem? l.systems e.sys_index ≡ some system
  pub below : e.entry_index < system.num_entries
  pub entry : get_elem? system.entries e.entry_index ≡ some e

-- The new scanner `u` is about to do what the old one, `s` at entry `e`, did.
abbrev pub Resumes : Bool → Bool → Entry → Scanner → Type 0
Resumes true held e u =
    (u.machine.current_state ≡ manual)
    × (u.machine.event_data ≡ some (manual_entry_data e.frequency (modulation e)))
Resumes false true e u =
    (u.machine.current_state ≡ hold)
    × (u.external_hold ≡ true)
    × (u.hold_index ≡ pos e.sys_index ∷ pos e.entry_index ∷ [])
Resumes false false e u = u.machine.current_state ≡ scan

resumes :
    (manual_mode held : Bool) (fuel : ℕ) (s r : Scanner) (e : Entry) (system : System)
    → s.manual_mode ≡ manual_mode
    → s.external_hold ≡ held
    → r.saved ≡ saved_at s e
    → r.machine.current_state ≡ load
    → (manual_mode ≡ false → held ≡ true → IsIndexed r.systems e system)
    → (u : Scanner) × (start_scanner fuel r ≡ ok u) × Resumes manual_mode held e u
unfolding start_scanner saved_at start_scan hold_scan manual_entry
resumes true held fuel s r e system is_manual is_held same fresh at_ =
    (manual_entry e.frequency (modulation e) r, ground arith, (ground arith, ground arith))
resumes false true fuel s r e system is_manual is_held same fresh listed = (
  hold_scan (pos e.sys_index ∷ pos e.entry_index ∷ []) r,
  let at_ = listed refl refl in
      ground (
        arith,
        eq_refl (key e),
        get_entry_by_index-some fuel r.systems e.sys_index e.entry_index [] system e at_.found
            at_.below at_.entry,
      ),
  (ground arith, refl, refl),
)
resumes false false fuel s r e system is_manual is_held same fresh at_ =
    (start_scan r, ground arith, ground arith)

-- A scanner that starts with the state saved of another one takes up what that one did: it enters the
-- same manual frequency and modulation, asks for a hold of the same entry, or scans. Where the other
-- one held an entry, and not one that was entered by hand, the list holds the entry where its indices
-- say.
pub start_scanner-Resumes :
    (fuel : ℕ) (s r : Scanner) (e : Entry) (system : System)
    → r.saved ≡ saved_at s e
    → r.machine.current_state ≡ load
    → (s.manual_mode ≡ false → s.external_hold ≡ true → IsIndexed r.systems e system)
    → (u : Scanner) × (start_scanner fuel r ≡ ok u) × Resumes s.manual_mode s.external_hold e u
start_scanner-Resumes fuel s r e system =
    resumes s.manual_mode s.external_hold fuel s r e system refl refl
