-- ===== src/Frontend.antt =====
-- server/connection/Connection.cpp and the functions of namespace `app` in piscan_server.cpp, through
-- which a client's connection reaches the scanner, the demodulator and the server. The functions of
-- a connection return 0, which is left out.
pub mod Console
pub mod Socket
pub mod FirstLine
pub mod Lines
pub mod Agreement
pub mod Manual
use pi_scan.Base.{
  ℕ, ◌==◌, String, ℤ, pos, negsuc, Bool, ◌||◌, List, [], ◌∷◌, Option, none, some, Outcome, ok,
  ◌>>=◌, if◌then◌else◌,
}
use pi_scan.Scanner.{Scanner, ScannerContext, copy_context, get_current_context}
use pi_scan.Scanner.Engine.{start_scan, hold_scan, manual_entry}
use pi_scan.Server.{ServerManager, Connection, RequestType}
use pi_scan.Server.Requests.{issue_request}
use pi_scan.Demodulator.Cubic.{Cubic}
use pi_scan.Demodulator.Control.{
  Demodulator, set_squelch, set_tuner_gain, squelch_snr, squelch_pct, is_number,
}

pub record SystemInfo : Type 0 where
  pub version : String
  pub build_number : ℤ
  pub squelch_range : ℤ × ℤ
  pub supported_modulations : List String

-- What a connection is handed in answer to a call of its own.
pub data Answer (F : Type 0) : Type 0 where
  scanner_context : ScannerContext → Answer F
  demod_context : F → ℤ → Answer F
  system_info : SystemInfo → Answer F

-- The parts of the program, the type of its squelch, and what a connection was handed, latest first.
pub record Program (F : Type 0) : Type 0 where
  pub scanner : Scanner
  pub demod : Demodulator F
  pub server : ServerManager
  pub squelch_type : ℤ
  pub answers : List (Answer F)

-- `PISCAN_VERSION` of a build that does not define it.
abbrev version : String
version = "debug"

unfoldable pub get_system_info : ℤ → SystemInfo
get_system_info squelch_type = record {
  version = version;
  build_number = pos 0;
  squelch_range =
      if is_number squelch_pct squelch_type || is_number squelch_snr squelch_type
      then (pos 0, pos 100)
      else (negsuc 99, pos 0);
  supported_modulations = "FM" ∷ "AM" ∷ [];
}

module _ (C : Cubic) where
  open C use {Float, of_int, to_int}

  abbrev pub answer : Answer Float → Program Float → Program Float
  answer a p = record p { answers = a ∷ p.answers }

  unfoldable pub scan_start : Program Float → Program Float
  scan_start p = record p { scanner = start_scan p.scanner }

  unfoldable pub scan_hold : Program Float → Program Float
  scan_hold p = record p { scanner = hold_scan [] p.scanner }

  unfoldable pub scan_hold_entry : List ℤ → Program Float → Program Float
  scan_hold_entry index p = record p { scanner = hold_scan index p.scanner }

  unfoldable pub scan_manual_entry : ℤ → String → Program Float → Program Float
  scan_manual_entry freq mode p = record p { scanner = manual_entry freq mode p.scanner }

  unfoldable pub set_demod_squelch : ℤ → Program Float → Program Float
  set_demod_squelch level p = record p { demod = set_squelch C (of_int level) p.demod }

  unfoldable pub set_demod_gain : Float → Program Float → Program Float
  set_demod_gain level p = record p { demod = set_tuner_gain C level p.demod }

  unfoldable pub get_scanner_context : Program Float → Program Float
  get_scanner_context p = answer (scanner_context (copy_context (get_current_context p.scanner))) p

  unfoldable pub get_demod_context : Program Float → Program Float
  get_demod_context p = answer (demod_context p.demod.gain (to_int p.demod.squelch_level)) p

  unfoldable pub answer_system_info : Program Float → Program Float
  unfolding get_system_info
  answer_system_info p = answer (system_info (get_system_info p.squelch_type)) p

  -- `systemFunction(STOP)`: the request with `SYSTEM_STOP`. The lock of the server may be taken.
  unfoldable pub system_stop : Bool → Connection → Program Float → Outcome (Program Float)
  system_stop locked c p = do
    m ← issue_request locked c RequestType.system_function (pos 0) p.server
    ok (record p { server = m })
