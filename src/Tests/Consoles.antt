-- ===== src/Tests/Consoles.antt =====
-- Tests of the console and of the socket: Frontend.
use pi_scan.Base.{◌≡◌, refl, String, ℤ, pos, negsuc, true, [], Option, none, ok, arith}
use pi_scan.Scan.Tree.{FitsInt}
use pi_scan.Scanner.{hold}
use pi_scan.Server.{Connection, new_connection, full_control, new_server_manager}
use pi_scan.Frontend.{Program}
use pi_scan.Frontend.Console.{console_round}
use pi_scan.Frontend.FirstLine.{second_console}
use pi_scan.Frontend.Socket.{ScannerStateRequest, to_manual, handle_client_message}
use pi_scan.Frontend.Agreement.{squelches, line_of, message_of, console_round-message}
use pi_scan.Tests.{scanner_in}
use pi_scan.Tests.Radio.{radio, listening}

abbrev held_program : Program ℤ
held_program = record {
  scanner = scanner_in hold;
  demod = listening;
  server = new_server_manager;
  squelch_type = pos 0;
  answers = [];
}

abbrev keyboard : Connection
keyboard = new_connection "Debug Console" full_control

abbrev no_float : String → Option ℤ
no_float text_ = none

squelch_fits : FitsInt (negsuc 79)
squelch_fits = record { above = omega arith; below = omega arith }

console_round-message_example :
    console_round radio no_float true keyboard
      (line_of (squelches (negsuc 79)))
      second_console
      held_program
    ≡ ok (
      second_console,
      handle_client_message radio (message_of radio (squelches (negsuc 79))) held_program,
    )
console_round-message_example =
    console_round-message radio no_float true keyboard (squelches (negsuc 79)) second_console
      held_program refl (squelch_fits, refl)

abbrev am_request : ScannerStateRequest
am_request = record {
  state = to_manual;
  man_freq = pos 118_300_000;
  man_modulation = "AM";
  hold_index = "";
}
