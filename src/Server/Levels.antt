-- ===== src/Server/Levels.antt =====
-- What the level of a connection allows it.
use pi_scan.Base.{
  ℕ, zero, suc, ◌<◌, ◌≤◌, ◌≡◌, refl, ◌∙◌, ℤ, pos, Bool, true, false, not, List, [], ◌∷◌, ◌++◌, some,
  none, Option, ok, set, undefined, arith, get_elem?,
}
use pi_scan.Server.{
  sends_general, ServerManager, Connection, ConnectionLevel, viewer, full_control, ClientRequest,
  permission_map, rank, Message, to_system, to_scanner, to_demod, RequestType, notify_disconnected,
  system_function, scanner_function, database_retrieve, config_retrieve, demod_configure,
  get_context, give_message,
}
use pi_scan.Server.Requests.{
  Reply, issue_request, refusal, insufficient_permission, request_handle, serve_request,
  give_request, queue_round, queue_thread, drain_messages, runs, gives_request, run_server,
}

-- A request of a connection in a slot is refused, and changes nothing, where the connection's level
-- lies below the one that its type asks for; otherwise it is served.
give_request_by_rank :
    (locked : Bool) (rq : ClientRequest) (m : ServerManager) (c : Connection)
    → get_elem? m.connections rq.source ≡ some (some c)
    → (rank c.level < rank (permission_map rq.type)
        → give_request locked rq m ≡ ok (insufficient_permission, m))
      × (rank (permission_map rq.type) ≤ rank c.level
          → give_request locked rq m ≡ ok (serve_request locked rq rq.type m))
unfolding give_request
give_request_by_rank locked rq m c here = (λ below. ground arith, λ above. ground arith)

-- The requests that a connection may make: one that only receives may ask for a context and leave, a
-- viewer may also look at the database and the configuration, full control allows every request.
abbrev pub may_ask : ConnectionLevel → RequestType → Bool
may_ask full_control _ = true
may_ask viewer database_retrieve = true
may_ask viewer config_retrieve = true
may_ask _ get_context = true
may_ask _ notify_disconnected = true
may_ask _ _ = false

-- What asks for a context by its number.
abbrev pub context_messages : ClientRequest → ℤ → List Message
context_messages rq (pos zero) = to_scanner rq ∷ []
context_messages rq (pos (suc zero)) = to_demod rq ∷ []
context_messages rq _ = []

-- The messages that a request makes. Commands come of full control only.
abbrev pub messages_of : ClientRequest → ConnectionLevel → RequestType → List Message
messages_of rq full_control system_function = to_system rq ∷ []
messages_of rq full_control scanner_function = to_scanner rq ∷ []
messages_of rq full_control demod_configure = to_demod rq ∷ []
messages_of rq _ get_context = context_messages rq rq.sub_type
messages_of rq _ _ = []

abbrev pub is_refusal : Reply → Bool
is_refusal insufficient_permission = true
is_refusal _ = false

-- The slots behind a request: one that leaves frees its slot.
abbrev pub slots_of :
    ClientRequest → RequestType → List (Option Connection) → List (Option Connection)
slots_of rq notify_disconnected slots = set slots rq.source none
slots_of rq _ slots = slots

-- What a request of a level and a type comes to.
record Answers (locked : Bool) (rq : ClientRequest) (m : ServerManager) (level : ConnectionLevel)
    (type : RequestType) (r : Reply × ServerManager) : Type 0 where
  pub refused : is_refusal r.0 ≡ not (may_ask level type)
  pub queued : r.1.queue ≡ m.queue ++ messages_of rq level type
  pub slots : r.1.connections ≡ slots_of rq type m.connections

stop_request :
    (rq : ClientRequest) (m : ServerManager) (c : Connection)
    → get_elem? m.connections rq.source ≡ some (some c)
    → rq.type ≡ system_function
    → rank c.level ≡ 2
    → m.queue ≡ []
    → give_request true rq m
      ≡ ok (request_handle, record m { queue = to_system rq ∷ []; msg_available = true })
unfolding serve_request give_message permission_map
stop_request rq m c here kind full empty =
    (give_request_by_rank true rq m c here).1 (ground arith) ∙ ground arith

-- A request to stop the system, of a connection in a slot that has full control, reaches the
-- manager's own queue, empty before, where the assertion on the destination of the message fails
-- at the next round.
pub give_request_misrouted :
    (connects : Connection → Bool) (rq : ClientRequest) (m : ServerManager) (c : Connection)
    → get_elem? m.connections rq.source ≡ some (some c)
    → rq.type ≡ system_function
    → rank c.level ≡ 2
    → m.queue ≡ []
    → run_server (gives_request true rq ∷ runs connects ∷ []) m ≡ undefined
unfolding run_server queue_thread
give_request_misrouted connects rq m c here kind full empty =
    rw (stop_request rq m c here kind full empty) (unfold queue_round drain_messages in refl)

-- A seated connection whose level is too low for a request is told so, and nothing else happens.
pub issue_request_refused :
    (locked : Bool) (c : Connection) (n : ℕ) (type : RequestType) (sub_type : ℤ) (m : ServerManager)
    → c.handle ≡ pos n
    → get_elem? m.connections n ≡ some (some c)
    → rank c.level < rank (permission_map type)
    → issue_request locked c type sub_type m
      ≡ ok (record m { calls = m.calls ++ (n, sends_general refusal) ∷ [] })
unfolding issue_request give_request
issue_request_refused locked c n type sub_type m seated here below = ground arith
