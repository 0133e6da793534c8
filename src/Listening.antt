-- ===== src/Listening.antt =====
-- server/SocketServer.h and .cpp, server/DebugServer.cpp, and their part in ServerManager::start and
-- _queueThreadFunc of ServerManager.cpp: the servers that clients come by. Whether a port can be bound,
-- and what an asynchronous accept ends with, are parameters.
pub mod Accepts
pub mod Serving
use Prim.Native.Nat.{◌^◌}
use pi_scan.Base.{
  ℕ, zero, suc, ◌+◌, ◌-◌, ◌%◌, String, ℤ, pos, negsuc, Bool, true, false, not, List, [], ◌∷◌,
  Option, none, some, ok, Outcome, ◌>>=◌, if◌then◌else◌,
}
use pi_scan.Server.{Connection, ServerManager, request_connection, start_server}
use pi_scan.Config.{SocketServerConfig}
use pi_scan.Audio.Streaming.{AudioStreamServer, start_audio, stop_audio}

-- A process that is forked: its directory, program and arguments, behind which comes the port. Its text
-- is gone by the time the arguments are read, so it is left out.
pub record LocalClient : Type 0 where
  pub directory : String
  pub program : String
  pub arguments : List String

pub record SocketServer : Type 0 where
  pub listen_port : ℕ
  pub acceptor_open : Bool
  pub pending_accepts : ℕ  -- asynchronous accepts under way
  pub local_clients : List LocalClient

abbrev pub new_socket_server : SocketServer
new_socket_server = record {
  listen_port = 1234;
  acceptor_open = false;
  pending_accepts = 0;
  local_clients = [];
}

-- The conversion to `uint16_t`.
abbrev pub to_port : ℤ → ℕ
to_port (pos n) = n % 2 ^ 16
to_port (negsuc n) = 0xffff - n % 2 ^ 16

unfoldable pub start_accept : SocketServer → SocketServer
start_accept s = record s { pending_accepts = s.pending_accepts + 1 }

unfoldable pub stop_socket : SocketServer → SocketServer
stop_socket s = record s { acceptor_open = false }

-- `_spawnPythonClient`.
abbrev pub spawn_client : SocketServerConfig → SocketServer → SocketServer
spawn_client c s = record s {
  local_clients =
      record {
        directory = c.python_client;
        program = c.python_binary;
        arguments = "client.py" ∷ "-l" ∷ "-p" ∷ [];
      }
      ∷ s.local_clients;
}

-- `start`, given whether the acceptor opens, binds and listens.
unfoldable pub start_socket : Bool → SocketServerConfig → SocketServer → SocketServer
unfolding start_accept stop_socket
start_socket binds c s =
    let named = record s { listen_port = to_port c.tcp_port } in
    let listening =
      if binds then start_accept (record named { acceptor_open = true }) else stop_socket named in
    if c.spawn_local_client then spawn_client c listening else listening

unfoldable pub spawn_local : SocketServerConfig → SocketServer → SocketServer
spawn_local c s = if c.spawn_local_client then s else spawn_client c s

-- `handle_accept`: with a client that connected, or with an error.
unfoldable pub handle_accept :
    Bool → Option Connection → SocketServer → ServerManager → SocketServer × ServerManager
unfolding start_accept request_connection
handle_accept locked none s m = (start_accept s, m)
handle_accept locked (some client) s m = (start_accept s, (request_connection locked client m).1)

-- What happens to a server that listens: an accept ends, which is then no longer under way, or the
-- server is stopped, on which its accept ends with an error.
pub data AcceptEvent : Type 0 where
  accepted : Bool → Connection → AcceptEvent
  accept_failed stops_listening : AcceptEvent

abbrev ends_accept :
    Bool → Option Connection → SocketServer → ServerManager → SocketServer × ServerManager
ends_accept locked client s m =
    handle_accept locked client (record s { pending_accepts = s.pending_accepts - 1 }) m

unfoldable pub listener_step :
    AcceptEvent → SocketServer → ServerManager → SocketServer × ServerManager
unfolding handle_accept stop_socket
listener_step (accepted locked client) s m = ends_accept locked (some client) s m
listener_step accept_failed s m = ends_accept false none s m
listener_step stops_listening s m = (stop_socket s, m)

unfoldable pub run_listener :
    List AcceptEvent → SocketServer → ServerManager → SocketServer × ServerManager
unfolding listener_step
run_listener [] s m = (s, m)
run_listener (e ∷ es) s m = let (s', m') = listener_step e s m in run_listener es s' m'

-- The servers of the manager; `console` is whether the console runs, where there is one.
pub record Backends : Type 0 where
  pub console : Option Bool
  pub socket : SocketServer
  pub audio : AudioStreamServer
  pub manager : ServerManager

-- `DebugServer::start` offers its console to the manager.
unfoldable pub start_debug : Bool → Connection → ServerManager → ServerManager
unfolding request_connection
start_debug locked console m = (request_connection locked console m).1

-- `ServerManager::start`, with the console, where it is asked for, and whether a client is to be spawned.
unfoldable pub start_backends :
    (ℕ → Bool)
    → Bool
    → Bool
    → Bool
    → Option Connection
    → Bool
    → SocketServerConfig
    → Backends
    → Backends
unfolding start_debug start_socket spawn_local start_audio start_server
start_backends free tunneling binds locked console spawn c b =
    let m = start_server b.manager in
    let asked : ServerManager = elim console [
      | none ↦ m
      | some client ↦ start_debug locked client m
    ] in
    let socket = start_socket binds c b.socket in
    record b {
      console = elim console [ none ↦ none | some client ↦ some false ];
      manager = asked;
      socket = if spawn then spawn_local c socket else socket;
      audio = start_audio free tunneling b.audio;
    }

-- The stop of the servers, by the thread of the manager.
unfoldable pub stop_backends : Backends → Outcome Backends
unfolding stop_socket stop_audio
stop_backends b = do
  audio ← stop_audio b.audio
  ok (record b {
    console = elim b.console [ none ↦ none | some running ↦ some false ];
    socket = stop_socket b.socket;
    audio = audio;
  })
