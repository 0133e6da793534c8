-- ===== src/Frontend/Manual.antt =====
-- A manual entry of a network client: SocketConnection.cpp through ScannerSM.cpp.
use mathlib.Core.Path.{subst}
use pi_scan.Base.{sym, Outcome, ◌≡◌, refl, ap, ℤ, pos, false, some, ok}
use pi_scan.Machine.{external_event}
use pi_scan.Scan.Entry.{Kind, new_channel}
use pi_scan.Scanner.{Scanner, Env, manual, manual_entry_data}
use pi_scan.Scanner.States.{st_manual}
use pi_scan.Scanner.Engine.{manual_entry, manual_entry_map, state_engine}
use pi_scan.Demodulator.Cubic.{Cubic}
use pi_scan.Frontend.{Program, scan_manual_entry}
use pi_scan.Frontend.Socket.{
  ScannerStateRequest, to_manual, scanner_state_request, handle_client_message,
  handle_scan_state_request,
}

-- A scanner that was entered a manual frequency, where it takes one.
abbrev entered : ℤ → Scanner → Scanner
entered freq s = record s {
  machine = external_event (some manual) (some (manual_entry_data freq "FM")) s.machine;
}

manual_entry-entered :
    (freq : ℤ) (s : Scanner)
    → manual_entry_map s.machine.current_state ≡ some manual
    → manual_entry freq "FM" s ≡ entered freq s
unfolding manual_entry
manual_entry-entered freq s takes =
    ap (λ o. record s { machine = external_event o (some (manual_entry_data freq "FM")) s.machine })
      takes

abbrev Receives : ℤ → Outcome Scanner → Type 0
Receives freq r =
    (s : Scanner) × (r ≡ ok s)
    × (s.current_entry ≡ some (new_channel Kind.fm freq "" false (pos 0)))

entered-Receives :
    (env : Env) (freq : ℤ) (s : Scanner) → Receives freq (state_engine env (entered freq s))
unfolding external_event state_engine st_manual
entered-Receives env freq s = (_, refl, refl)

-- A network client that enters a frequency gets an FM channel at the next round of the scanner,
-- whatever modulation and index it sends with it, where the scanner takes a manual entry.
pub handle_client_message-manual :
    (C : Cubic) (env : Env) (rq : ScannerStateRequest) (p : Program C.Float)
    → rq.state ≡ to_manual
    → manual_entry_map p.scanner.machine.current_state ≡ some manual
    → (s : Scanner) × (state_engine env
          (handle_client_message C (scanner_state_request rq) p).scanner
        ≡ ok s)
      × (s.current_entry ≡ some (new_channel Kind.fm rq.man_freq "" false (pos 0)))
unfolding handle_client_message handle_scan_state_request scan_manual_entry
handle_client_message-manual C env rq p asks takes =
    let sent : (handle_client_message C (scanner_state_request rq) p).scanner
        ≡ entered rq.man_freq p.scanner =
      rw (asks) (manual_entry-entered rq.man_freq p.scanner takes) in
    subst (λ s. Receives rq.man_freq (state_engine env s)) (sym sent)
      (entered-Receives env rq.man_freq p.scanner)
