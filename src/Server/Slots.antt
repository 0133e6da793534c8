-- ===== src/Server/Slots.antt =====
-- The slots of the server manager: who sits where, over everything that happens to it.
use pi_scan.Base.{
  ℕ, ◌+◌, zero, suc, ◌≡◌, refl, ap, ltb, pos, Bool, true, false, List, [], ◌∷◌, Option, none, some,
  ok, ◌⊎◌, arith, length, get_elem?, set, if-elim, Option-cases, inl, inr, Post, Post-ok, bind-Post,
  bind_any-Post, if-Post,
}
use pi_scan.Scan.Rotation.{or_undefined}
use pi_scan.Server.{
  permission_map, rank, ServerManager, Connection, new_server_manager, start_server, stop_server,
  allow_new_connections, request_connection, give_message, Message, scanner_update, demod_update,
  other_update, notify, stop_message, signal_level, unknown_type, to_system, to_scanner, to_demod,
  ClientRequest, RequestType, notify_disconnected, get_context, free_slot, add_connection,
  handle_message, broadcast, broadcast_general_message, disconnect_slot, disconnect_slots,
  disconnect_clients, source_of, max_connections,
}
use pi_scan.Server.Requests.{
  ServerAction, runs, gives_message, requests_connection, gives_request, starts, allows, stops,
  server_step, run_server, finish_if_stopped, Reply, serve_request, give_request, drain_messages,
  drain_connections, queue_round, queue_thread,
}

-- There are five slots, and the connection in a slot has its number as its handle.
pub record IsSeated (slots : List (Option Connection)) : Type 0 where
  pub size : length slots ≡ max_connections
  pub handles : (i : ℕ) (c : Connection) → get_elem? slots i ≡ some (some c) → c.handle ≡ pos i

length-set {ℓ} : {A : Type ℓ} (xs : List A) (i : ℕ) (v : A) → length (set xs i v) ≡ length xs
length-set [] i v = refl
length-set (x ∷ xs) zero v = refl
length-set (x ∷ xs) (suc i) v = ap suc (length-set xs i v)

-- A read behind a write.
get_elem?-set {ℓ} :
    {A : Type ℓ} (xs : List A) (i j : ℕ) (v w : A)
    → get_elem? (set xs i v) j ≡ some w
    → ((i ≡ j) × (v ≡ w)) ⊎ (get_elem? xs j ≡ some w)
get_elem?-set [] i j v w h = inr h
get_elem?-set (x ∷ xs) zero zero v w h = inl (refl, cc)
get_elem?-set (x ∷ xs) zero (suc j) v w h = inr h
get_elem?-set (x ∷ xs) (suc i) zero v w h = inr h
get_elem?-set (x ∷ xs) (suc i) (suc j) v w h = elim (get_elem?-set xs i j v w h) [
  | inl (same, there) ↦ inl (ap suc same, there)
  | inr old ↦ inr old
]

set-IsSeated :
    (slots : List (Option Connection)) (i : ℕ) (c : Connection)
    → IsSeated slots
    → c.handle ≡ pos i
    → IsSeated (set slots i (some c))
set-IsSeated slots i c h here = record {
  size = rw (length-set slots i (some c)) h.size;
  handles = λ j d at. elim (get_elem?-set slots i j (some c) (some d) at) [
    | inl (same, there) ↦ cc
    | inr old ↦ h.handles j d old
  ];
}

clear-IsSeated :
    (slots : List (Option Connection)) (i : ℕ) → IsSeated slots → IsSeated (set slots i none)
clear-IsSeated slots i h = record {
  size = rw (length-set slots i none) h.size;
  handles = λ j d at. elim (get_elem?-set slots i j none (some d) at) [
    | inl (same, there) ↦ absurd (cc)
    | inr old ↦ h.handles j d old
  ];
}

-- The count of the active connections that the manager keeps never moves.
abbrev Seated : ServerManager → Type 0
Seated m = IsSeated m.connections × (m.active_connections ≡ 0)

add_connection-Seated :
    (connects : Connection → Bool) (client : Connection) (m : ServerManager)
    → Seated m
    → Seated (add_connection connects client m)
unfolding add_connection
add_connection-Seated connects client m h = elim (Option-cases (free_slot 0 m.connections)) [
  | inl full ↦ rw (full, add_connection) h
  | inr (i, free) ↦
      rw (free, add_connection)
        (if-elim Seated (connects (record client { handle = pos i })) _ _
          (λ _. (set-IsSeated m.connections i (record client { handle = pos i }) h.0 refl, h.1))
          (λ _. h))
]

disconnect_slot-Seated :
    (i : ℕ) (slot : Option (Option Connection)) (m : ServerManager)
    → Seated m
    → Seated (disconnect_slot i slot m)
disconnect_slot-Seated i none m h = h
disconnect_slot-Seated i (some none) m h = h
disconnect_slot-Seated i (some (some c)) m h =
    (clear-IsSeated m.connections (source_of c.handle) h.0, h.1)

disconnect_slots-Seated : (n i : ℕ) (m : ServerManager) → Seated m → Seated (disconnect_slots n i m)
unfolding disconnect_slots
disconnect_slots-Seated zero i m h = h
disconnect_slots-Seated (suc n) i m h =
    disconnect_slots-Seated n (i + 1) _ (disconnect_slot-Seated i (get_elem? m.connections i) m h)

disconnect_clients-Seated : (m : ServerManager) → Seated m → Seated (disconnect_clients m)
unfolding disconnect_clients
disconnect_clients-Seated m h =
    disconnect_slots-Seated max_connections 0 (record m { allow_connections = false }) h

handle_message-Seated :
    (message : Message) (m : ServerManager) → Seated m → Post Seated (handle_message message m)
unfolding handle_message broadcast broadcast_general_message
handle_message-Seated (scanner_update c) m h = h
handle_message-Seated (demod_update c) m h = h
handle_message-Seated other_update m h = h
handle_message-Seated (notify group message) m h = h
handle_message-Seated stop_message m h = disconnect_clients-Seated m h
handle_message-Seated (signal_level level) m h = h
handle_message-Seated (unknown_type n) m h = h
handle_message-Seated (to_system rq) m h = tt
handle_message-Seated (to_scanner rq) m h = tt
handle_message-Seated (to_demod rq) m h = tt

drain_messages-Seated :
    (queue : List Message) (m : ServerManager) → Seated m → Post Seated (drain_messages queue m)
unfolding drain_messages
drain_messages-Seated [] m h = h
drain_messages-Seated (message ∷ queue) m h =
    bind-Post Seated Seated (handle_message message m) _ (handle_message-Seated message m h)
      (λ n k. drain_messages-Seated queue (record n { msg_available = false }) k)

drain_connections-Seated :
    (connects : Connection → Bool) (queue : List Connection) (m : ServerManager)
    → Seated m
    → Seated (drain_connections connects queue m)
unfolding drain_connections
drain_connections-Seated connects [] m h = h
drain_connections-Seated connects (client ∷ queue) m h =
    drain_connections-Seated connects queue _ (add_connection-Seated connects client m h)

queue_round-Seated :
    (connects : Connection → Bool) (m : ServerManager)
    → Seated m
    → Post Seated (queue_round connects m)
unfolding queue_round
queue_round-Seated connects m h =
    if-Post Seated m.msg_available _ _
      (λ _.
        bind-Post Seated Seated (drain_messages m.queue (record m { queue = [] })) _
          (drain_messages-Seated m.queue _ h)
          (λ n k.
            if-elim Seated n.allow_connections _ _
              (λ _. drain_connections-Seated connects n.connection_queue _ k) (λ _. k)))
      (λ _. h)

serve_request-Seated :
    (locked : Bool) (rq : ClientRequest) (type : RequestType) (m : ServerManager)
    → Seated m
    → Seated (serve_request locked rq type m).1
unfolding serve_request give_message
serve_request-Seated locked rq notify_disconnected m h =
    (clear-IsSeated m.connections rq.source h.0, h.1)
serve_request-Seated locked rq get_context m h = ground arith
serve_request-Seated locked rq _ m h = ground arith

give_request-Seated :
    (locked : Bool) (rq : ClientRequest) (m : ServerManager)
    → Seated m
    → Post (λ r. Seated r.1) (give_request locked rq m)
unfolding give_request
give_request-Seated locked rq m h =
    bind_any-Post (λ r. Seated r.1) (or_undefined (get_elem? m.connections rq.source)) _
      (λ slot.
        bind_any-Post (λ r. Seated r.1) (or_undefined slot) _
          (λ c.
            if-elim (λ (r : Reply × ServerManager). Seated r.1)
              (ltb (rank c.level) (rank (permission_map rq.type))) _ _ (λ _. h)
              (λ _. serve_request-Seated locked rq rq.type m h)))

finish-Seated : (m : ServerManager) → Seated m → Seated (finish_if_stopped m)
finish-Seated m h = ground arith

server_step-Seated :
    (a : ServerAction) (m : ServerManager) → Seated m → Post Seated (server_step a m)
unfolding server_step queue_thread give_request give_message request_connection stop_server
    allow_new_connections start_server
server_step-Seated (runs connects) m h =
    bind-Post Seated Seated (queue_round connects m) _ (queue_round-Seated connects m h)
      (λ n k. finish-Seated n k)
server_step-Seated (gives_message locked message) m h = ground arith
server_step-Seated (requests_connection locked client) m h = ground arith
server_step-Seated (gives_request locked rq) m h =
    bind-Post (λ r. Seated r.1) Seated (give_request locked rq m) _
      (give_request-Seated locked rq m h) (λ r k. k)
server_step-Seated allows m h = h
server_step-Seated starts m h = h
server_step-Seated (stops locked) m h = ground (arith, disconnect_clients-Seated m h)

run_server-Seated :
    (history : List ServerAction) (m : ServerManager)
    → Seated m
    → Post Seated (run_server history m)
unfolding run_server
run_server-Seated [] m h = h
run_server-Seated (a ∷ history) m h =
    bind-Post Seated Seated (server_step a m) _ (server_step-Seated a m h)
      (λ n k. run_server-Seated history n k)

no_client :
    (i : ℕ) (c : Connection)
    → get_elem? (none ∷ none ∷ none ∷ none ∷ none ∷ []) i ≡ some (some c)
    → c.handle ≡ pos i
no_client zero c h = absurd (cc)
no_client (suc zero) c h = absurd (cc)
no_client (suc (suc zero)) c h = absurd (cc)
no_client (suc (suc (suc zero))) c h = absurd (cc)
no_client (suc (suc (suc (suc zero)))) c h = absurd (cc)
no_client (suc (suc (suc (suc (suc i))))) c h = absurd (cc)

always-Seated :
    (history : List ServerAction) (m : ServerManager)
    → run_server history new_server_manager ≡ ok m
    → Seated m
always-Seated history m ran =
    Post-ok Seated
      (run_server-Seated history new_server_manager
        (unfold new_server_manager in (record { size = refl; handles = no_client }, refl)))
      ran

-- Over any history of a new server manager, of rounds of its thread, messages, requests and
-- arrivals in any order: it has its five slots, and the connection in a slot has the number of the
-- slot as its handle.
pub run_server-IsSeated :
    (history : List ServerAction) (m : ServerManager)
    → run_server history new_server_manager ≡ ok m
    → IsSeated m.connections
run_server-IsSeated history m ran = (always-Seated history m ran).0

-- After any history of a new server manager, a client that asks for a connection is told that it is
-- accepted, however many clients are connected.
pub request_connection_accepted :
    (history : List ServerAction) (m : ServerManager) (locked : Bool) (client : Connection)
    → run_server history new_server_manager ≡ ok m
    → (request_connection locked client m).0 ≡ true
unfolding request_connection
request_connection_accepted history m locked client ran =
    ground (arith, (always-Seated history m ran).1)
