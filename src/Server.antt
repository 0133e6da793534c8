-- ===== src/Server.antt =====
-- ServerManager.h, ServerManager.cpp and server/connection/connection.h: the slots of the connected
-- clients, their requests, and the thread that sends them what the program has to tell.
pub mod Requests
pub mod Slots
pub mod Levels
pub mod Delivery
use pi_scan.Base.{
  ℕ, zero, suc, ◌+◌, String, ℤ, pos, negsuc, Bool, true, false, List, [], ◌∷◌, ◌++◌, Option, none,
  some, ok, undefined, Outcome, ◌>>=◌, if◌then◌else◌, ltb, leb, length, get_elem?, set,
}
use pi_scan.Scanner.{ScannerContext, copy_context}
use pi_scan.Scan.Rotation.{or_undefined}

pub data ConnectionLevel : Type 0 where
  receive_only viewer full_control : ConnectionLevel

-- The enumeration's numbers, which are compared.
abbrev pub rank : ConnectionLevel → ℕ
rank receive_only = 0
rank viewer = 1
rank full_control = 2

pub data RequestType : Type 0 where
  notify_disconnected system_function scanner_function database_retrieve : RequestType
  database_modify config_retrieve config_modify demod_configure get_context : RequestType

unfoldable pub permission_map : RequestType → ConnectionLevel
permission_map notify_disconnected = receive_only
permission_map system_function = full_control
permission_map scanner_function = full_control
permission_map database_retrieve = viewer
permission_map database_modify = full_control
permission_map config_retrieve = viewer
permission_map config_modify = full_control
permission_map demod_configure = full_control
permission_map get_context = receive_only

-- `_handle` is -1 before the connection has a slot.
pub record Connection : Type 0 where
  pub identifier : String
  pub level : ConnectionLevel
  pub handle : ℤ

abbrev pub new_connection : String → ConnectionLevel → Connection
new_connection identifier level = record {
  identifier = identifier;
  level = level;
  handle = negsuc 0;
}

-- A `ClientRequest`; `source` is the slot that it names.
pub record ClientRequest : Type 0 where
  pub source : ℕ
  pub type : RequestType
  pub sub_type : ℤ

pub record DemodContext : Type 0 where
  pub gain : ℤ
  pub squelch : ℤ

pub data MessageType : Type 0 where
  info warning error : MessageType

pub record GeneralMessage : Type 0 where
  pub type : MessageType
  pub content : String

pub data Group : Type 0 where
  all_clients users viewers : Group

-- What waits in the queue: a `ServerMessage` by its type, and its source where that is looked at,
-- or a message whose `destination` is another part of the program.
pub data Message : Type 0 where
  scanner_update : ScannerContext → Message
  demod_update : DemodContext → Message
  other_update : Message
  notify : Group → GeneralMessage → Message
  stop_message : Message
  signal_level : ℤ → Message
  unknown_type : ℕ → Message
  to_system to_scanner to_demod : ClientRequest → Message

-- What the manager calls of a connection.
pub data Call : Type 0 where
  sends_scanner : ScannerContext → Call
  sends_demod : DemodContext → Call
  sends_general : GeneralMessage → Call
  sends_level : ℤ → Call
  disconnects : Call

pub record ServerManager : Type 0 where
  pub connections : List (Option Connection)
  pub active_connections : ℕ
  pub queue : List Message
  pub connection_queue : List Connection
  pub msg_available : Bool
  pub allow_connections : Bool
  pub run : Bool
  pub calls : List (ℕ × Call)  -- by slot, in order
  pub done : Bool  -- `notifyDeinit` was called

abbrev pub max_connections : ℕ
max_connections = 5

unfoldable pub new_server_manager : ServerManager
new_server_manager = record {
  connections = none ∷ none ∷ none ∷ none ∷ none ∷ [];
  active_connections = 0;
  queue = [];
  connection_queue = [];
  msg_available = false;
  allow_connections = false;
  run = false;
  calls = [];
  done = false;
}

-- The loops over the slots: the calls made of the connections that `reaches` picks, from slot `i`.
unfoldable pub call_each :
    (Connection → Bool) → Call → ℕ → List (Option Connection) → List (ℕ × Call)
call_each reaches call i [] = []
call_each reaches call i (none ∷ slots) = call_each reaches call (i + 1) slots
call_each reaches call i (some c ∷ slots) =
    let rest = call_each reaches call (i + 1) slots in if reaches c then (i, call) ∷ rest else rest

abbrev pub everyone : Connection → Bool
everyone c = true

unfoldable pub broadcast : (Connection → Bool) → Call → ServerManager → ServerManager
unfolding call_each
broadcast reaches call m = record m { calls = m.calls ++ call_each reaches call 0 m.connections }

abbrev pub group_level : Group → ConnectionLevel
group_level all_clients = receive_only
group_level users = full_control
group_level viewers = viewer

unfoldable pub broadcast_general_message : Group → GeneralMessage → ServerManager → ServerManager
unfolding broadcast
broadcast_general_message group message m =
    broadcast (λ c. leb (rank (group_level group)) (rank c.level)) (sends_general message) m

-- The handle as an `unsigned char`: a connection without a slot has 255.
abbrev pub source_of : ℤ → ℕ
source_of (pos n) = n
source_of (negsuc n) = 255

-- `disconnect` of what stands in slot `i`: the connection closes and gives the request that frees the
-- slot of its handle. What it then reads of the request, which is deleted, is taken to report nothing.
abbrev pub disconnect_slot : ℕ → Option (Option Connection) → ServerManager → ServerManager
disconnect_slot i (some (some c)) m = record m {
  calls = m.calls ++ (i, disconnects) ∷ [];
  connections = set m.connections (source_of c.handle) none;
}
disconnect_slot i _ m = m

-- The loop over `n` slots from slot `i` on.
unfoldable pub disconnect_slots : ℕ → ℕ → ServerManager → ServerManager
disconnect_slots zero i m = m
disconnect_slots (suc n) i m =
    disconnect_slots n (i + 1) (disconnect_slot i (get_elem? m.connections i) m)

unfoldable pub disconnect_clients : ServerManager → ServerManager
unfolding disconnect_slots
disconnect_clients m = disconnect_slots max_connections 0 (record m { allow_connections = false })

unfoldable pub allow_new_connections : ServerManager → ServerManager
allow_new_connections m = record m { allow_connections = true }

-- `start`, as far as the manager's own state goes.
unfoldable pub start_server : ServerManager → ServerManager
start_server m = record m { run = true }

-- Does `try_lock` get the lock? It does not while the manager's thread holds it.
abbrev wake : Bool → ServerManager → ServerManager
wake locked m = if locked then record m { msg_available = true } else m

unfoldable pub stop_server : Bool → ServerManager → ServerManager
unfolding disconnect_clients
stop_server locked m = wake locked (record (disconnect_clients m) { run = false })

unfoldable pub give_message : Bool → Message → ServerManager → ServerManager
give_message locked message m = wake locked (record m { queue = m.queue ++ message ∷ [] })

-- `true` is RQ_ACCEPTED, and `false` RQ_DENIED.
unfoldable pub request_connection : Bool → Connection → ServerManager → Bool × ServerManager
request_connection locked client m =
    if ltb m.active_connections max_connections
    then (true, wake locked (record m { connection_queue = m.connection_queue ++ client ∷ [] }))
    else (false, m)

-- `_handleMessage`; the assertion on the destination fails for the last three.
unfoldable pub handle_message : Message → ServerManager → Outcome ServerManager
unfolding broadcast broadcast_general_message disconnect_clients
handle_message (scanner_update c) m = ok (broadcast everyone (sends_scanner (copy_context c)) m)
handle_message (demod_update c) m = ok (broadcast everyone (sends_demod c) m)
handle_message other_update m = ok m
handle_message (notify group message) m = ok (broadcast_general_message group message m)
handle_message stop_message m = ok (record (disconnect_clients m) { run = false })
handle_message (signal_level level) m = ok (broadcast everyone (sends_level level) m)
handle_message (unknown_type n) m = ok m
handle_message (to_system rq) m = undefined
handle_message (to_scanner rq) m = undefined
handle_message (to_demod rq) m = undefined

-- The loop of `_addConnection`, from slot `i`: the client goes to the first free slot, if it
-- connects. `none` says that there is no free slot.
unfoldable pub free_slot : ℕ → List (Option Connection) → Option ℕ
free_slot i [] = none
free_slot i (none ∷ slots) = some i
free_slot i (some c ∷ slots) = free_slot (i + 1) slots

-- `connects` is what `connect` answers.
unfoldable pub add_connection : (Connection → Bool) → Connection → ServerManager → ServerManager
unfolding free_slot
add_connection connects client m = elim (free_slot 0 m.connections) [
  | none ↦ m
  | some i ↦
      let seated = record client { handle = pos i } in
      if connects seated then record m { connections = set m.connections i (some seated) } else m
]
