-- ===== src/Server/Requests.antt =====
-- `giveRequest` and the thread of ServerManager.cpp, and the requests of Connection.cpp.
use pi_scan.Base.{
  zero, suc, ℤ, pos, Bool, true, false, List, [], ◌∷◌, ◌++◌, Option, none, some, ok, undefined,
  Outcome, ◌>>=◌, if◌then◌else◌, ltb, get_elem?, set,
}
use pi_scan.Scan.Rotation.{or_undefined}
use pi_scan.Server.{
  ServerManager, RequestType, notify_disconnected, system_function, scanner_function,
  database_retrieve, database_modify, config_retrieve, config_modify, demod_configure, get_context,
  ClientRequest, GeneralMessage, error, Connection, Message, to_system, to_scanner, to_demod, rank,
  permission_map, give_message, request_connection, start_server, stop_server,
  allow_new_connections, handle_message, add_connection, sends_general, source_of,
}

-- What `giveRequest` returns: the handle of the request, which nothing ever sets, the number of
-- RQ_INSUFFICIENT_PERMISSION, or what stands where the handle of a deleted request stood.
pub data Reply : Type 0 where
  request_handle insufficient_permission deleted_handle : Reply

-- `_makeContextRequest`; another type of context makes no message.
unfoldable pub make_context_request : ClientRequest → ℤ → Option Message
make_context_request rq (pos zero) = some (to_scanner rq)
make_context_request rq (pos (suc zero)) = some (to_demod rq)
make_context_request rq _ = none

abbrev pub give_if : Bool → Option Message → ServerManager → Reply × ServerManager
give_if locked none m = (request_handle, m)
give_if locked (some message) m = (request_handle, give_message locked message m)

-- The switch over the types, behind the check of the level.
unfoldable pub serve_request :
    Bool → ClientRequest → RequestType → ServerManager → Reply × ServerManager
unfolding make_context_request
serve_request locked rq notify_disconnected m =
    (deleted_handle, record m { connections = set m.connections rq.source none })
serve_request locked rq system_function m = give_if locked (some (to_system rq)) m
serve_request locked rq scanner_function m = give_if locked (some (to_scanner rq)) m
serve_request locked rq database_retrieve m = (deleted_handle, m)
serve_request locked rq database_modify m = (deleted_handle, m)
serve_request locked rq config_retrieve m = (deleted_handle, m)
serve_request locked rq config_modify m = (deleted_handle, m)
serve_request locked rq demod_configure m = give_if locked (some (to_demod rq)) m
serve_request locked rq get_context m = give_if locked (make_context_request rq rq.sub_type) m

-- A source outside the array, or one whose slot is empty, is read through all the same.
unfoldable pub give_request : Bool → ClientRequest → ServerManager → Outcome (Reply × ServerManager)
unfolding serve_request permission_map
give_request locked rq m = do
  slot ← or_undefined (get_elem? m.connections rq.source)
  c ← or_undefined slot
  ok (
      if ltb (rank c.level) (rank (permission_map rq.type))
      then (insufficient_permission, m)
      else serve_request locked rq rq.type m)

abbrev pub refusal : GeneralMessage
refusal = record { type = error; content = "Request failed: insufficient permissions" }

-- `Connection::issueRequest`, which looks at what `giveRequest` returned.
unfoldable pub issue_request :
    Bool → Connection → RequestType → ℤ → ServerManager → Outcome ServerManager
unfolding give_request
issue_request locked c type sub_type m = do
  (reply, m') ←
      give_request locked (record { source = source_of c.handle; type = type; sub_type = sub_type })
        m
  elim reply [
    | request_handle ↦ ok m'
    | insufficient_permission ↦
        ok (record m' { calls = m'.calls ++ (source_of c.handle, sends_general refusal) ∷ [] })
    | deleted_handle ↦ undefined
  ]

-- The inner loops of the thread, over the messages and over the connections that wait.
unfoldable pub drain_messages : List Message → ServerManager → Outcome ServerManager
unfolding handle_message
drain_messages [] m = ok m
drain_messages (message ∷ queue) m = do
  m' ← handle_message message m
  drain_messages queue (record m' { msg_available = false })

unfoldable pub drain_connections :
    (Connection → Bool) → List Connection → ServerManager → ServerManager
unfolding add_connection
drain_connections connects [] m = m
drain_connections connects (client ∷ queue) m =
    drain_connections connects queue
      (record (add_connection connects client m) { msg_available = false })

-- Connections are taken up only while they are allowed.
abbrev take_up : (Connection → Bool) → ServerManager → ServerManager
take_up connects m =
    if m.allow_connections
    then drain_connections connects m.connection_queue (record m { connection_queue = [] })
    else m

-- One round of the loop of `_queueThreadFunc`. Without `msg_available` the thread waits on.
unfoldable pub queue_round : (Connection → Bool) → ServerManager → Outcome ServerManager
unfolding drain_messages drain_connections
queue_round connects m =
    let ran = (do
      m' ← drain_messages m.queue (record m { queue = [] })
      ok (take_up connects m')) in
    if m.msg_available then ran else ok m

abbrev pub finish_if_stopped : ServerManager → ServerManager
finish_if_stopped m = if m.run then m else record m { queue = []; done = true }

-- The thread goes on while `_run` is set, and then empties the queue and is done. A stop that did
-- not get the lock came in the middle of a round, which stands here behind it.
unfoldable pub queue_thread : (Connection → Bool) → ServerManager → Outcome ServerManager
unfolding queue_round
queue_thread connects m = do m' ← queue_round connects m; ok (finish_if_stopped m')

-- What happens to the manager: a round of its thread, or a call from another one.
pub data ServerAction : Type 0 where
  runs : (Connection → Bool) → ServerAction
  gives_message : Bool → Message → ServerAction
  requests_connection : Bool → Connection → ServerAction
  gives_request : Bool → ClientRequest → ServerAction
  starts allows : ServerAction
  stops : Bool → ServerAction

unfoldable pub server_step : ServerAction → ServerManager → Outcome ServerManager
server_step (runs connects) m = queue_thread connects m
server_step (gives_message locked message) m = ok (give_message locked message m)
server_step (requests_connection locked client) m = ok (request_connection locked client m).1
server_step (gives_request locked rq) m = do (reply, m') ← give_request locked rq m; ok m'
server_step starts m = ok (start_server m)
server_step allows m = ok (allow_new_connections m)
server_step (stops locked) m = ok (stop_server locked m)

unfoldable pub run_server : List ServerAction → ServerManager → Outcome ServerManager
unfolding server_step
run_server [] m = ok m
run_server (a ∷ as_) m = do m' ← server_step a m; run_server as_ m'
