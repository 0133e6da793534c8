-- ===== src/Listening/Accepts.antt =====
-- The accepts of the server, over every history.
use pi_scan.Base.{◌≡◌, refl, ◌∙◌, Bool, true, false, List, [], ◌∷◌, arith, if◌then◌else◌, if-elim}
use pi_scan.Server.{ServerManager, request_connection}
use pi_scan.Listening.{
  SocketServer, AcceptEvent, accepted, accept_failed, stops_listening, handle_accept, start_accept,
  stop_socket, listener_step, run_listener,
}

-- The manager, offered the clients that were accepted, in order.
abbrev pub offered : List AcceptEvent → ServerManager → ServerManager
offered [] m = m
offered (accepted locked client ∷ es) m = offered es (request_connection locked client m).1
offered (accept_failed ∷ es) m = offered es m
offered (stops_listening ∷ es) m = offered es m

-- Was the server stopped?
abbrev pub was_stopped : List AcceptEvent → Bool
was_stopped [] = false
was_stopped (stops_listening ∷ es) = true
was_stopped (e ∷ es) = was_stopped es

-- Over every history of a server with one accept under way: the manager is offered every client that was
-- accepted, in order and once; the acceptor is open as before until it is stopped; and one accept is
-- under way, behind a stop too.
pub run_listener-offers :
    (es : List AcceptEvent) (s : SocketServer) (m : ServerManager)
    → s.pending_accepts ≡ 1
    → ((run_listener es s m).1 ≡ offered es m)
      × ((run_listener es s m).0.pending_accepts ≡ 1)
      × ((run_listener es s m).0.acceptor_open
          ≡ (if was_stopped es then false else s.acceptor_open))
unfolding run_listener listener_step handle_accept start_accept stop_socket
run_listener-offers [] s m one = (refl, one, refl)
run_listener-offers (accepted locked client ∷ es) s m one =
    run_listener-offers es _ _ (omega (arith, one))
run_listener-offers (accept_failed ∷ es) s m one = run_listener-offers es _ _ (omega (arith, one))
run_listener-offers (stops_listening ∷ es) s m one =
    let (same, still, open_) = run_listener-offers es (record s { acceptor_open = false }) m one in
    (
      same,
      still,
      open_ ∙ if-elim (λ b. b ≡ false) (was_stopped es) false false (λ _. refl) (λ _. refl),
    )
