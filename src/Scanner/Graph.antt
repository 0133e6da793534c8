-- ===== src/Scanner/Graph.antt =====
-- The diagram of the scanner's states.
use pi_scan.Base.{◌≡◌, refl, true, false, Option, none, some, ok, Post, Post-ok, bind-Post, if-Post}
use pi_scan.Machine.{take_event, end_round}
use pi_scan.Scanner.{State, Scanner, Env}
use pi_scan.Scanner.Engine.{state_engine}
use pi_scan.Scanner.Rounds.{After, Edge, Moved, dispatch-After}

-- A round that runs a state function takes an edge of the diagram from its state: the machine
-- stands in the next state with an event pending, or, at the end of an edge to nowhere, in the same
-- state with none, where it waits for a call from outside.
pub state_engine-Edge :
    (env : Env) (s t : Scanner)
    → s.machine.event_generated ≡ true
    → state_engine env s ≡ ok t
    → (next : Option State) × Edge s.machine.current_state next
      × Moved (take_event s.machine) next t.machine
      × (t.machine.evt_src_external ≡ false)
unfolding state_engine end_round
state_engine-Edge env s t pending ran = Post-ok Result facts ran
  where
    Result : Scanner → Type 0
    Result u =
        (next : Option State) × Edge s.machine.current_state next
        × Moved (take_event s.machine) next u.machine
        × (u.machine.evt_src_external ≡ false)

    moved_on :
        (next : Option State) (u : Scanner)
        → Moved (take_event s.machine) next u.machine
        → Moved (take_event s.machine) next (end_round u.machine)
    moved_on none u m = m
    moved_on (some y) u m = m

    facts : Post Result (state_engine env s)
    facts =
        if-Post Result s.machine.event_generated _ _
          (λ _.
            bind-Post (After s.machine.current_state (record s { machine = take_event s.machine }))
              Result _ _ (dispatch-After env s.machine.current_state s.machine.event_data _)
              (λ u a. (a.next, a.edge, moved_on a.next u a.moved, refl)))
          (λ idle. absurd (cc))
