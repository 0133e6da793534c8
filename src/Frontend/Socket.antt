-- ===== src/Frontend/Socket.antt =====
-- server/connection/SocketConnection.h and .cpp: the messages of a network client and the answers to
-- them. The messages are those of the protocol, as the generated code hands them over.
use Prim.Native.Nat.{◌^◌}
use pi_scan.Base.{
  ℕ, ◌-◌, ◌%◌, String, ℤ, pos, negsuc, Bool, true, false, ok, Outcome, ◌>>=◌, if◌then◌else◌,
}
use pi_scan.Scanner.{ContextState, other_state, scanning, holding, receiving, ScannerContext}
use pi_scan.Server.{Connection, RequestType, MessageType, GeneralMessage}
use pi_scan.Server.Requests.{issue_request}
use pi_scan.Demodulator.Cubic.{Cubic}
use pi_scan.Frontend.{
  Program, SystemInfo, scan_start, scan_hold, scan_manual_entry, set_demod_squelch, set_demod_gain,
  get_scanner_context, get_demod_context, answer_system_info,
}

-- The last constructor of each enumeration is a number that it does not name.
pub data GeneralType : Type 0 where
  asks_scanner_context asks_demod_context asks_system_info general_other : GeneralType

pub data NewState : Type 0 where
  to_scan to_hold to_manual state_other : NewState

pub data DemodFunc : Type 0 where
  set_squelch_func set_gain_func func_other : DemodFunc

pub record ScannerStateRequest : Type 0 where
  pub state : NewState
  pub man_freq : ℤ
  pub man_modulation : String
  pub hold_index : String

pub record SocketDemodRequest (F : Type 0) : Type 0 where
  pub type : DemodFunc
  pub level : F

-- `ClientToServer`, by its type.
pub data ClientToServer (F : Type 0) : Type 0 where
  general_request : GeneralType → ClientToServer F
  scanner_state_request : ScannerStateRequest → ClientToServer F
  demod_request : SocketDemodRequest F → ClientToServer F
  unhandled_request : ClientToServer F

-- What an asynchronous read ends with.
pub data ReadResult (F : Type 0) : Type 0 where
  message : ClientToServer F → ReadResult F
  read_error : ReadResult F

-- `ServerToClient`, by its content.
pub data ProtoState : Type 0 where
  inval scan_proto hold_proto receive_proto : ProtoState

pub record EntryData : Type 0 where
  pub freq : ℕ  -- uint64
  pub system_tag : String
  pub entry_tag : String
  pub modulation : String
  pub entry_index : String

pub data ServerToClient (F : Type 0) : Type 0 where
  scanner_message : ProtoState → EntryData → ServerToClient F
  demod_message : F → ℤ → ServerToClient F
  general_message : MessageType → String → ServerToClient F
  info_message : SystemInfo → ServerToClient F
  level_message : ℤ → ServerToClient F

-- The conversion of a `long long`, whose values are within 64 bits.
abbrev pub to_uint64 : ℤ → ℕ
to_uint64 (pos n) = n % 2 ^ 64
to_uint64 (negsuc n) = 2 ^ 64 - 1 - n % 2 ^ 64

abbrev pub proto_state : ContextState → ProtoState
proto_state other_state = inval
proto_state scanning = scan_proto
proto_state holding = hold_proto
proto_state receiving = receive_proto

-- The functions that write a message to the socket.
module _ {F : Type 0} where
  unfoldable pub scanner_update : ScannerContext → ServerToClient F
  scanner_update c = scanner_message (proto_state c.state) record {
    freq = to_uint64 c.frequency;
    system_tag = c.system_tag;
    entry_tag = c.entry_tag;
    modulation = c.modulation_text;
    entry_index = c.entry_index;
  }

  unfoldable pub demod_update_message : F → ℤ → ServerToClient F
  demod_update_message gain squelch = demod_message gain squelch

  unfoldable pub system_message : GeneralMessage → ServerToClient F
  system_message m = general_message m.type m.content

module _ (C : Cubic) where
  open C use {Float, to_int}

  unfoldable pub handle_general_request : GeneralType → Program Float → Program Float
  unfolding get_scanner_context get_demod_context answer_system_info
  handle_general_request asks_scanner_context p = get_scanner_context C p
  handle_general_request asks_demod_context p = get_demod_context C p
  handle_general_request asks_system_info p = answer_system_info C p
  handle_general_request general_other p = p

  -- Of a manual entry only the frequency is used: the modulation is the default, `FM`.
  unfoldable pub handle_scan_state_request : ScannerStateRequest → Program Float → Program Float
  unfolding scan_start scan_hold scan_manual_entry
  handle_scan_state_request rq p = elim rq.state [
    | to_scan ↦ scan_start C p
    | to_hold ↦ scan_hold C p
    | to_manual ↦ scan_manual_entry C rq.man_freq "FM" p
    | state_other ↦ p
  ]

  unfoldable pub handle_demod_request : SocketDemodRequest Float → Program Float → Program Float
  unfolding set_demod_squelch set_demod_gain
  handle_demod_request rq p = elim rq.type [
    | set_squelch_func ↦ set_demod_squelch C (to_int rq.level) p
    | set_gain_func ↦ set_demod_gain C rq.level p
    | func_other ↦ p
  ]

  unfoldable pub handle_client_message : ClientToServer Float → Program Float → Program Float
  unfolding handle_general_request handle_scan_state_request handle_demod_request
  handle_client_message (general_request type) p = handle_general_request type p
  handle_client_message (scanner_state_request rq) p = handle_scan_state_request rq p
  handle_client_message (demod_request rq) p = handle_demod_request rq p
  handle_client_message unhandled_request p = p

  -- `disconnect`: an open socket is closed, and the server is told.
  unfoldable pub disconnect :
      Bool → Connection → Bool → Program Float → Outcome (Bool × Program Float)
  disconnect locked connection false p = ok (false, p)
  disconnect locked connection true p = do
    m ← issue_request locked connection RequestType.notify_disconnected (negsuc 0) p.server
    ok (false, record p { server = m })

  -- `_handleRead`, with whether the socket is open behind it; a message starts the next read.
  unfoldable pub handle_read :
      Bool → Connection → ReadResult Float → Bool → Program Float → Outcome (Bool × Program Float)
  unfolding handle_client_message disconnect
  handle_read locked connection (message msg) open_ p = ok (open_, handle_client_message msg p)
  handle_read locked connection read_error open_ p = disconnect locked connection open_ p

  -- `_handleWrite`.
  unfoldable pub handle_write :
      Bool → Connection → Bool → Bool → Program Float → Outcome (Bool × Program Float)
  unfolding disconnect
  handle_write locked connection failed open_ p =
      if failed then disconnect locked connection open_ p else ok (open_, p)
