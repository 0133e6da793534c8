-- ===== src/Tests/Timers.antt =====
-- A timer that was started, stopped in its first sleep and then destroyed, and a process whose start
-- throws.
use pi_scan.Base.{◌≡◌, refl, false, [], ◌∷◌, List}
use pi_scan.Main.{
  MainCall, Reaction, returns, throws, starts, scanner_part, starts_scanner, start_calls,
  stop_calls, run_calls, finish_main, exit_process, main, terminated,
}
use pi_scan.Timer.{create, TimerEvent, starts_timer, stops_timer, thread_steps, run_timer_events}
use pi_scan.Timer.Ending.{destroy_ends, HasEnded}

abbrev history : List TimerEvent
history =
    starts_timer ∷ thread_steps false ∷ thread_steps false ∷ thread_steps false ∷ stops_timer ∷ []

destroy_ends_example : HasEnded false false false (run_timer_events history create)
destroy_ends_example = destroy_ends history false false false

-- The start of the scanner throws, so the wait for its end goes on for ever.
abbrev scanner_fails : MainCall → Reaction
scanner_fails (starts scanner_part) = throws
scanner_fails _ = returns

-- What startScanner throws ends the process behind the saving.
abbrev scan_fails : MainCall → Reaction
scan_fails starts_scanner = throws
scan_fails _ = returns

scan_fails_run : (main scan_fails).0 ≡ terminated
unfolding main start_calls stop_calls run_calls finish_main exit_process
scan_fails_run = refl
