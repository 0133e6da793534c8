-- ===== src/Main.antt =====
-- `main` of piscan_server.cpp and its `exit`: the calls of the program's parts in order, where an
-- exception leaves them, and how the process ends. The signals that end its loop
-- stand behind it.
pub mod Ending
pub mod Signals
use pi_scan.Base.{
  ℕ, ◌==◌, Bool, true, false, ◌||◌, List, [], ◌∷◌, if◌then◌else◌, not, Option, none, some,
}

pub data Part : Type 0 where
  scanner_part server_part demod_part : Part

-- The calls of `main`, of which each returns, throws, or blocks for ever.
pub data MainCall : Type 0 where
  starts waits_ready stops waits_deinit : Part → MainCall
  allows_connections starts_scanner starts_io : MainCall
  saves_state saves_config : MainCall

pub data Reaction : Type 0 where
  returns throws hangs : Reaction

-- How the process ends: `std::exit`, `std::terminate` for an exception that nothing catches, or not.
pub data Ended : Type 0 where
  exited terminated hung : Ended

abbrev pub is_start_io : MainCall → Bool
is_start_io starts_io = true
is_start_io _ = false

-- What a block comes to: the answer of the first call that does not return, and the calls that
-- returned so far, latest first.
abbrev pub Block : Type 0
Block = Reaction × List MainCall

abbrev pub proceed : Reaction → Block → List MainCall → Block
proceed returns rest log = rest
proceed throws rest log = (throws, log)
proceed hangs rest log = (hangs, log)

unfoldable pub run_calls : (MainCall → Reaction) → List MainCall → List MainCall → Block
run_calls answer [] log = (returns, log)
run_calls answer (c ∷ cs) log =
    let rest = run_calls answer cs (c ∷ log) in proceed (answer c) rest log

unfoldable pub start_calls : List MainCall
start_calls =
    starts scanner_part
    ∷ starts server_part
    ∷ starts demod_part
    ∷ waits_ready scanner_part
    ∷ waits_ready server_part
    ∷ waits_ready demod_part
    ∷ allows_connections
    ∷ starts_scanner
    ∷ starts_io
    ∷ []

unfoldable pub stop_calls : List MainCall
stop_calls =
    stops scanner_part
    ∷ stops server_part
    ∷ stops demod_part
    ∷ waits_deinit scanner_part
    ∷ waits_deinit server_part
    ∷ waits_deinit demod_part
    ∷ []

abbrev pub save_calls : List MainCall
save_calls = saves_state ∷ saves_config ∷ []

abbrev pub io_started : List MainCall → Bool
io_started [] = false
io_started (c ∷ log) = is_start_io c || io_started log

-- `exit`: the join of a thread that was never started throws.
unfoldable pub exit_process : List MainCall → Ended
exit_process log = if io_started log then exited else terminated

abbrev pub is_scanner_start : MainCall → Bool
is_scanner_start (starts scanner_part) = true
is_scanner_start _ = false

abbrev pub scanner_started : List MainCall → Bool
scanner_started [] = false
scanner_started (c ∷ log) = is_scanner_start c || scanner_started log

-- Nobody notifies who waits for the end of the scanner's thread, unless it was started.
abbrev pub known_waits : Bool → (MainCall → Reaction) → MainCall → Reaction
known_waits started answer (waits_deinit scanner_part) =
    if started then answer (waits_deinit scanner_part) else hangs
known_waits started answer c = answer c

-- The end of `main`. What the saving throws is not caught.
abbrev pub ends_saved : Reaction → List MainCall → Ended × List MainCall
ends_saved returns log = (exit_process log, log)
ends_saved throws log = (terminated, log)
ends_saved hangs log = (hung, log)

unfoldable pub finish_main :
    (MainCall → Reaction) → Reaction → List MainCall → Ended × List MainCall
unfolding run_calls exit_process
finish_main answer hangs log = (hung, log)
finish_main answer _ log = let saved = run_calls answer save_calls log in ends_saved saved.0 saved.1

abbrev pub stop_main : (MainCall → Reaction) → Reaction → List MainCall → Ended × List MainCall
stop_main answer hangs log = (hung, log)
stop_main answer _ log =
    let stopped = run_calls (known_waits (scanner_started log) answer) stop_calls log in
    finish_main answer stopped.0 stopped.1

-- `main` behind the loading of the files, where a signal ends its loop if it comes to it. What the
-- start throws leads to the stop, and what the stop throws to the end.
unfoldable pub main : (MainCall → Reaction) → Ended × List MainCall
unfolding run_calls start_calls stop_calls finish_main
main answer = let started = run_calls answer start_calls [] in stop_main answer started.0 started.1

pub data Signal : Type 0 where
  interrupt terminate : Signal

-- `sigIntHandler` and `sigTermHandler`: what `sysRun` is behind a signal, if the process goes on. Until
-- the start has set `sysRun`, and once the loop has ended, a signal terminates.
unfoldable pub handle_signal : Signal → Bool → Option Bool
handle_signal interrupt sys_run = if not sys_run then none else some false
handle_signal terminate sys_run = if sys_run then some false else none

-- The signals that come to a process, from the start's setting of `sysRun` on.
unfoldable pub handle_signals : List Signal → Bool → Option Bool
unfolding handle_signal
handle_signals [] sys_run = some sys_run
handle_signals (x ∷ xs) sys_run = elim (handle_signal x sys_run) [
  | none ↦ none
  | some left ↦ handle_signals xs left
]
