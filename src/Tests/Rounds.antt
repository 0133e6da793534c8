-- ===== src/Tests/Rounds.antt =====
-- Tests of Scanner/Scanning and Scanner/Sweep.
use pi_scan.Base.{ℕ, List, ◌≡◌, refl, pos, some, ok, ◌∷◌, inl, arith}
use pi_scan.Scan.Entry.{Entry, has_signal-quiet, signal_calls, is_locked_out}
use pi_scan.Scan.Bins.{blocked}
use pi_scan.Scan.Rotation.Steps.{IsWalking}
use pi_scan.Scanner.{Scanner, scan, demod_calls, Effect}
use pi_scan.Scanner.States.{st_scan}
use pi_scan.Scanner.Engine.{run_actions}
use pi_scan.Scanner.Sweep.{IsQuiet, rounds, sweep_checks}
use pi_scan.Scanner.Scanning.{st_scan_returns}
use pi_scan.Tests.{weather, high_bin, quiet, scanner_in, sorted_list}
use pi_scan.Tests.ScanList.{sorted_list-IsWalking}

st_scan_returns_example :
    (u : Scanner) × (e : Entry) × (st_scan quiet (scanner_in scan) ≡ ok u)
    × (u.current_entry ≡ some e)
    × IsWalking (pos 2_048_000) u.systems
st_scan_returns_example =
    st_scan_returns (pos 2_048_000) quiet (scanner_in scan) 1 0 high_bin weather
      sorted_list-IsWalking refl refl (unfold blocked is_locked_out in refl) (omega arith)
      (inl refl)

quiet-IsQuiet : IsQuiet sorted_list.bins quiet
quiet-IsQuiet = record { enough = omega arith; silent = λ x. has_signal-quiet quiet.demod x refl }

sweep_checks_example :
    (n : ℕ) × (t : Scanner) × (before : List Effect) × (run_actions
        (rounds (λ m. quiet) n)
        (scanner_in scan)
      ≡ ok t)
    × (t.current_entry ≡ some weather)
    × (t.effects ≡ demod_calls (signal_calls weather) ∷ before)
sweep_checks_example =
    sweep_checks (pos 2_048_000) (scanner_in scan) (λ m. quiet) 1 0 high_bin weather
      record {
        running = refl;
        here = refl;
        settled = refl;
        pending = refl;
        silent = refl;
        database = omega arith;
      }
      sorted_list-IsWalking refl refl (unfold blocked is_locked_out in refl) (λ m. quiet-IsQuiet)
