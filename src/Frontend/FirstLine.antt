-- ===== src/Frontend/FirstLine.antt =====
-- The first lines of the console: DebugConsole.cpp begins with five empty tokens.
use pi_scan.Base.{String, ◌≡◌, refl, ℤ, Bool, [], ◌∷◌, Option, ok, undefined}
use pi_scan.Server.{Connection}
use pi_scan.Demodulator.Cubic.{Cubic}
use pi_scan.Frontend.{Program}
use pi_scan.Frontend.Console.{Console, new_console, invalid_command, console_round, command}

-- The console behind its first line.
abbrev pub second_console : Console
second_console = record new_console { tokens = []; said = invalid_command ∷ [] }

-- The first line that is entered is called invalid and does nothing, whatever it says, because the
-- line is read behind five empty tokens; and every later line that is empty reads a token that is
-- not there.
pub console_first_line :
    (C : Cubic) (stof : String → Option ℤ) (locked : Bool) (connection : Connection) (line : String)
    (p : Program C.Float) (c : Console)
    → c.tokens ≡ []
    → (console_round C stof locked connection line new_console p ≡ ok (second_console, p))
      × (console_round C stof locked connection "" c p ≡ undefined)
unfolding console_round command
console_first_line C stof locked connection line p c h = (refl, rw (h) refl)
