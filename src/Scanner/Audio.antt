-- ===== src/Scanner/Audio.antt =====
-- The audio over any history of the scanner.
use pi_scan.Base.{◌≡◌, refl, List, [], ◌∷◌, ok, Post, Post-ok, bind-Post, if-Post}
use pi_scan.Machine.{take_event}
use pi_scan.Scan.Bins.{SystemList}
use pi_scan.Scanner.{SavedState, Scanner, Env, new_scanner}
use pi_scan.Scanner.Engine.{
  Action, round, starts_scan, stops_scanner, holds_scan, enters_manual, state_engine, start_scan,
  hold_scan, stop_scanner, manual_entry, step, run_actions,
}
use pi_scan.Scanner.Frames.{audio_open}
use pi_scan.Scanner.Rounds.{After, AudioAgrees, is_receiving, dispatch-After}

state_engine-audio :
    (env : Env) (s : Scanner) → AudioAgrees s → Post AudioAgrees (state_engine env s)
unfolding state_engine
state_engine-audio env s agrees =
    if-Post AudioAgrees s.machine.event_generated _ _
      (λ _.
        bind-Post (After s.machine.current_state (record s { machine = take_event s.machine }))
          AudioAgrees _ _ (dispatch-After env s.machine.current_state s.machine.event_data _)
          (λ t a. a.audio agrees))
      (λ _. agrees)

step-audio : (a : Action) (s : Scanner) → AudioAgrees s → Post AudioAgrees (step a s)
unfolding step start_scan hold_scan stop_scanner manual_entry
step-audio (round env) s agrees =
    if-Post AudioAgrees s.machine.run _ _ (λ _. state_engine-audio env s agrees) (λ _. agrees)
step-audio starts_scan s agrees = agrees
step-audio stops_scanner s agrees = agrees
step-audio (holds_scan index) s agrees = agrees
step-audio (enters_manual freq mode) s agrees = agrees

run_actions-AudioAgrees :
    (history : List Action) (s : Scanner) → AudioAgrees s → Post AudioAgrees (run_actions history s)
unfolding run_actions
run_actions-AudioAgrees [] s agrees = agrees
run_actions-AudioAgrees (a ∷ history) s agrees =
    bind-Post AudioAgrees AudioAgrees (step a s) _ (step-audio a s agrees)
      (λ t h. run_actions-AudioAgrees history t h)

-- Over any history of a new scanner, of rounds and of calls in any order, the audio is open exactly
-- while the context shows that something is received.
pub run_actions-audio :
    (systems : SystemList) (saved : SavedState) (history : List Action) (t : Scanner)
    → run_actions history (new_scanner systems saved) ≡ ok t
    → audio_open t.effects ≡ is_receiving t.context.state
run_actions-audio systems saved history t ran =
    Post-ok AudioAgrees
      (run_actions-AudioAgrees history (new_scanner systems saved) (unfold new_scanner in refl)) ran
