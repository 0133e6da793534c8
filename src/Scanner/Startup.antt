-- ===== src/Scanner/Startup.antt =====
-- `startScanner` of ScannerSM.cpp.
use text.Mathlib.Text.{◌==◌ as str_eq}
use pi_scan.Base.{ℕ, ok, Outcome, ◌>>=◌, if◌then◌else◌}
use pi_scan.Scan.Entry.{key}
use pi_scan.Scan.Rotation.{get_entry_by_index}
use pi_scan.Scanner.{ScanState, scan_state, hold_state, manual_state, other_number, Scanner}
use pi_scan.Scanner.Engine.{start_scan, hold_scan, manual_entry}

abbrev resume : ℕ → ScanState → Scanner → Outcome Scanner
resume fuel hold_state s = do
  (entry, l) ← get_entry_by_index fuel s.systems s.saved.hold_index_saved
  let s' = record s { systems = l }
  ok (
      if str_eq (key entry) s.saved.hold_key
      then hold_scan s.saved.hold_index_saved s'
      else start_scan s')
resume fuel manual_state s = ok (manual_entry s.saved.manual_freq s.saved.manual_modulation s)
resume fuel scan_state s = ok (start_scan s)
resume fuel (other_number n) s = ok (start_scan s)

unfoldable pub start_scanner : ℕ → Scanner → Outcome Scanner
start_scanner fuel s = resume fuel s.saved.scan_state_saved s
