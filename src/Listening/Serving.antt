-- ===== src/Listening/Serving.antt =====
-- The servers behind their start and their stop.
use pi_scan.Base.{
  ℕ, ◌≡◌, refl, Bool, true, false, ◌||◌, [], ◌∷◌, Option, none, some, ok, undefined, if◌then◌else◌,
  arith,
}
use pi_scan.Server.{Connection}
use pi_scan.Config.{SocketServerConfig}
use pi_scan.Audio.Streaming.{AudioStreamServer, start_audio, stop_audio}
use pi_scan.Listening.{
  SocketServer, LocalClient, Backends, start_backends, stop_backends, start_socket, spawn_local,
  start_accept, stop_socket, new_socket_server,
}

-- What a client is started as.
abbrev pub client_of : SocketServerConfig → LocalClient
client_of c = record {
  directory = c.python_client;
  program = c.python_binary;
  arguments = "client.py" ∷ "-l" ∷ "-p" ∷ [];
}

-- A local client is started at most once, whether the configuration or the command line asks for it.
spawns_once :
    (binds spawn : Bool) (c : SocketServerConfig) (s : SocketServer)
    → (if spawn
        then spawn_local c (start_socket binds c s)
        else start_socket binds c s).local_clients
      ≡ (if spawn || c.spawn_local_client then client_of c ∷ s.local_clients else s.local_clients)
unfolding start_socket spawn_local start_accept stop_socket
spawns_once true true c s = ground arith
spawns_once true false c s = ground arith
spawns_once false true c s = ground arith
spawns_once false false c s = ground arith

opens :
    (binds spawn : Bool) (c : SocketServerConfig)
    → (if spawn
        then spawn_local c (start_socket binds c new_socket_server)
        else start_socket binds c new_socket_server).acceptor_open
      ≡ binds
unfolding start_socket spawn_local start_accept stop_socket
opens true true c = ground arith
opens true false c = ground arith
opens false true c = ground arith
opens false false c = ground arith

stop_audio-made :
    (free : ℕ → Bool) (tunneling : Bool) (a : AudioStreamServer)
    → a.rtsp_server ≡ true
    → (a' : AudioStreamServer) × (stop_audio (start_audio free tunneling a) ≡ ok a')
unfolding stop_audio start_audio
stop_audio-made free tunneling a made = (
  record (start_audio free tunneling a) { event_loop_watch = true; server_thread = false },
  rw made refl,
)

stop_audio-none :
    (free : ℕ → Bool) (tunneling : Bool) (a : AudioStreamServer)
    → a.rtsp_server ≡ false
    → a.server_thread ≡ false
    → stop_audio (start_audio free tunneling a) ≡ undefined
unfolding stop_audio start_audio
stop_audio-none free tunneling a none_made quiet = rw (none_made, quiet) refl

stop_backends-ok :
    (x : Backends) (a : AudioStreamServer)
    → stop_audio x.audio ≡ ok a
    → (after : Backends) × (stop_backends x ≡ ok after) × (after.socket.acceptor_open ≡ false)
unfolding stop_backends stop_socket
stop_backends-ok x a stops = (
  record x {
    console = elim x.console [ none ↦ none | some running ↦ some false ];
    socket = stop_socket x.socket;
    audio = a;
  },
  rw stops refl,
  refl,
)

stop_backends-throws : (x : Backends) → stop_audio x.audio ≡ undefined → stop_backends x ≡ undefined
unfolding stop_backends
stop_backends-throws x throws = rw throws refl

module _ (free : ℕ → Bool) (tunneling binds locked : Bool) (console : Option Connection)
    (spawn : Bool) (c : SocketServerConfig) (b : Backends) where
  abbrev pub started : Backends
  started = start_backends free tunneling binds locked console spawn c b

  -- What the start of the servers and their stop come to: new servers start one local client if the
  -- configuration or the command line asks for one, and the acceptor is open if its port could be
  -- bound. The stop closes it, if the library made an RTSP server; if it did not, the stop throws.
  pub stop_backends-start :
      b.socket ≡ new_socket_server
      → b.audio.server_thread ≡ false
      → (started.socket.local_clients
          ≡ (if spawn || c.spawn_local_client then client_of c ∷ [] else []))
        × (started.socket.acceptor_open ≡ binds)
        × (b.audio.rtsp_server ≡ true
            → ((after : Backends) × (stop_backends started ≡ ok after)
                × (after.socket.acceptor_open ≡ false)))
        × (b.audio.rtsp_server ≡ false → stop_backends started ≡ undefined)
  unfolding start_backends
  stop_backends-start fresh quiet = (
    rw fresh (spawns_once binds spawn c new_socket_server),
    rw fresh (opens binds spawn c),
    λ made.
        let (a, stops) = stop_audio-made free tunneling b.audio made in
        stop_backends-ok started a stops,
    λ none_made.
        stop_backends-throws started (stop_audio-none free tunneling b.audio none_made quiet),
  )
