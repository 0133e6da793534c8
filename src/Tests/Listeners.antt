-- ===== src/Tests/Listeners.antt =====
-- A server that accepts a client, fails once and is stopped, and servers behind their start.
use pi_scan.Base.{
  ◌≡◌, refl, pos, true, false, ◌||◌, List, [], ◌∷◌, none, some, ok, undefined, if◌then◌else◌, ◌==◌,
}
use pi_scan.Config.{SocketServerConfig}
use pi_scan.Server.{Connection, ConnectionLevel, new_connection, new_server_manager}
use pi_scan.Audio.Streaming.{new_audio_server}
use pi_scan.Listening.{
  SocketServer, AcceptEvent, accepted, accept_failed, stops_listening, run_listener, Backends,
  new_socket_server, stop_backends,
}
use pi_scan.Listening.Accepts.{offered, was_stopped, run_listener-offers}
use pi_scan.Listening.Serving.{client_of, started, stop_backends-start}

abbrev phone : Connection
phone = new_connection "phone" ConnectionLevel.viewer

abbrev listening : SocketServer
listening = record new_socket_server { acceptor_open = true; pending_accepts = 1 }

abbrev evening : List AcceptEvent
evening = accepted true phone ∷ accept_failed ∷ stops_listening ∷ accept_failed ∷ []

run_listener-offers_example :
    ((run_listener evening listening new_server_manager).1 ≡ offered evening new_server_manager)
    × ((run_listener evening listening new_server_manager).0.pending_accepts ≡ 1)
    × ((run_listener evening listening new_server_manager).0.acceptor_open
        ≡ (if was_stopped evening then false else true))
run_listener-offers_example = run_listener-offers evening listening new_server_manager refl

abbrev with_gui : SocketServerConfig
with_gui = record {
  tcp_port = pos 1234;
  max_connections = pos 5;
  spawn_local_client = true;
  python_client = "./";
  python_binary = "python";
}

abbrev backends : Backends
backends = record {
  console = none;
  socket = new_socket_server;
  audio = new_audio_server false;
  manager = new_server_manager;
}

abbrev running : Backends
running = started (λ port. port == 8_000) true true true (some phone) true with_gui backends

stop_backends-start_example :
    (running.socket.local_clients ≡ (if true || true then client_of with_gui ∷ [] else []))
    × (running.socket.acceptor_open ≡ true)
    × (false ≡ true
        → ((after : Backends) × (stop_backends running ≡ ok after)
            × (after.socket.acceptor_open ≡ false)))
    × (false ≡ false → stop_backends running ≡ undefined)
stop_backends-start_example =
    stop_backends-start (λ port. port == 8_000) true true true (some phone) true with_gui backends
      refl refl
