-- ===== src/Server/Delivery.antt =====
-- Who is sent what, and what never arrives.
use mathlib.Core.Path.{subst}
use pi_scan.Base.{
  ℕ, zero, suc, ◌+◌, ◌<◌, ◌≡◌, ◌≢◌, refl, ◌∙◌, ap, Bool, true, false, List, [], ◌∷◌, ◌++◌, Option,
  none, some, ok, map, Option-cases, arith, get_elem?, set, if◌then◌else◌, ◌==◌, leb, inl, inr, pos,
}
use pi_scan.Server.{
  ServerManager, Connection, ConnectionLevel, receive_only, viewer, full_control, Call, Group,
  all_clients, users, viewers, GeneralMessage, Message, rank, group_level, sends_general, call_each,
  broadcast, broadcast_general_message, give_message, request_connection, add_connection, free_slot,
}
use pi_scan.Server.Requests.{
  drain_messages, drain_connections, server_step, runs, gives_message, requests_connection,
  queue_round, queue_thread, run_server,
}

-- The calls made of slot `i`, in order.
unfoldable pub calls_to : ℕ → List (ℕ × Call) → List Call
calls_to i [] = []
calls_to i ((j, call) ∷ calls) = let rest = calls_to i calls in if j == i then call ∷ rest else rest

calls_to-append :
    (i : ℕ) (xs ys : List (ℕ × Call)) → calls_to i (xs ++ ys) ≡ calls_to i xs ++ calls_to i ys
unfolding calls_to
calls_to-append i [] ys = refl
calls_to-append i ((j, call) ∷ xs) ys = ground (arith, calls_to-append i xs ys)

-- One call for a connection that is to be reached, and none for another slot.
abbrev pub reached : (Connection → Bool) → Call → Option (Option Connection) → List Call
reached reaches call (some (some c)) = if reaches c then call ∷ [] else []
reached reaches call _ = []

call_each-before :
    (reaches : Connection → Bool) (call : Call) (i k : ℕ) (slots : List (Option Connection))
    → i < k
    → calls_to i (call_each reaches call k slots) ≡ []
unfolding calls_to call_each
call_each-before reaches call i k [] h = refl
call_each-before reaches call i k (none ∷ slots) h =
    call_each-before reaches call i (k + 1) slots (omega arith)
call_each-before reaches call i k (some c ∷ slots) h =
    ground (arith, call_each-before reaches call i (k + 1) slots (omega arith))

call_each-at :
    (reaches : Connection → Bool) (call : Call) (i j k : ℕ) (slots : List (Option Connection))
    → i ≡ k + j
    → calls_to i (call_each reaches call k slots) ≡ reached reaches call (get_elem? slots j)
unfolding calls_to call_each
call_each-at reaches call i j k [] h = refl
call_each-at reaches call i zero k (none ∷ slots) h =
    call_each-before reaches call i (k + 1) slots (omega arith)
call_each-at reaches call i zero k (some c ∷ slots) h =
    ground (arith, call_each-before reaches call i (k + 1) slots (omega arith))
call_each-at reaches call i (suc j) k (none ∷ slots) h =
    call_each-at reaches call i j (k + 1) slots (omega arith)
call_each-at reaches call i (suc j) k (some c ∷ slots) h =
    ground (arith, call_each-at reaches call i j (k + 1) slots (omega arith))

broadcast-at :
    (reaches : Connection → Bool) (call : Call) (m : ServerManager) (i : ℕ)
    → calls_to i (broadcast reaches call m).calls
      ≡ calls_to i m.calls ++ reached reaches call (get_elem? m.connections i)
unfolding broadcast
broadcast-at reaches call m i =
    rw
      (
        calls_to-append i m.calls (call_each reaches call 0 m.connections),
        call_each-at reaches call i i 0 m.connections (omega arith),
      )
      refl

-- Who is in a group: the users have full control, the viewers can look at least.
abbrev pub is_in : Group → ConnectionLevel → Bool
is_in all_clients _ = true
is_in users full_control = true
is_in users _ = false
is_in viewers receive_only = false
is_in viewers _ = true

group_level-is_in :
    (group : Group) (level : ConnectionLevel)
    → leb (rank (group_level group)) (rank level) ≡ is_in group level
group_level-is_in all_clients level = ground arith
group_level-is_in users receive_only = refl
group_level-is_in users viewer = refl
group_level-is_in users full_control = refl
group_level-is_in viewers receive_only = refl
group_level-is_in viewers viewer = refl
group_level-is_in viewers full_control = refl

-- A message to all clients is sent once to each connection, one to the users to each that has full
-- control, one to the viewers to each but those that only receive, and to no other; a slot's earlier
-- calls stand.
pub broadcast_general_message-levels :
    (group : Group) (message : GeneralMessage) (m : ServerManager) (i : ℕ)
    → calls_to i (broadcast_general_message group message m).calls
      ≡ calls_to i m.calls
        ++ reached (λ c. is_in group c.level) (sends_general message) (get_elem? m.connections i)
unfolding broadcast_general_message
broadcast_general_message-levels group message m i =
    broadcast-at (λ c. leb (rank (group_level group)) (rank c.level)) (sends_general message) m i
    ∙ ap
        (λ reaches.
          calls_to i m.calls ++ reached reaches (sends_general message) (get_elem? m.connections i))
        (λ j c. group_level-is_in group c.level j)

-- A message that is given to a running manager without the lock, while nothing has woken its
-- thread, stays in the queue for however many rounds, as nothing wakes the thread for it.
pub give_message_lost :
    (m : ServerManager) (message : Message) (rounds : List (Connection → Bool))
    → m.msg_available ≡ false
    → m.run ≡ true
    → run_server (gives_message false message ∷ map runs rounds) m
      ≡ ok (record m { queue = m.queue ++ message ∷ [] })
unfolding run_server give_message
give_message_lost m message rounds asleep running =
    waits rounds (record m { queue = m.queue ++ message ∷ [] }) asleep running
  where
    asks :
        (connects : Connection → Bool) (n : ServerManager)
        → n.msg_available ≡ false
        → n.run ≡ true
        → server_step (runs connects) n ≡ ok n
    asks connects n asleep running = unfold server_step queue_thread queue_round in ground arith

    waits :
        (rounds : List (Connection → Bool)) (n : ServerManager)
        → n.msg_available ≡ false
        → n.run ≡ true
        → run_server (map runs rounds) n ≡ ok n
    waits [] n asleep running = refl
    waits (connects ∷ rounds) n asleep running =
        rw (asks connects n asleep running) (waits rounds n asleep running)

free_slot-none :
    (k i : ℕ) (slots : List (Option Connection))
    → get_elem? slots i ≡ some none
    → free_slot k slots ≢ none
unfolding free_slot
free_slot-none k i [] h e = cc
free_slot-none k i (none ∷ slots) h e = cc
free_slot-none k zero (some c ∷ slots) h e = cc
free_slot-none k (suc i) (some c ∷ slots) h e = free_slot-none (k + 1) i slots h e

free_slot-free :
    (k i : ℕ) (slots : List (Option Connection))
    → free_slot k slots ≡ some i
    → (j : ℕ) × (i ≡ k + j) × (get_elem? slots j ≡ some none)
unfolding free_slot
free_slot-free k i [] e = absurd (cc)
free_slot-free k i (none ∷ slots) e = (0, ground arith, refl)
free_slot-free k i (some c ∷ slots) e =
    let (j, same, free) = free_slot-free (k + 1) i slots e in (suc j, omega arith, free)

get_elem?-set_self {ℓ} :
    {A : Type ℓ} (xs : List A) (i : ℕ) (v w : A)
    → get_elem? xs i ≡ some w
    → get_elem? (set xs i v) i ≡ some v
get_elem?-set_self [] i v w h = absurd (cc)
get_elem?-set_self (x ∷ xs) zero v w h = refl
get_elem?-set_self (x ∷ xs) (suc i) v w h = get_elem?-set_self xs i v w h

get_elem?-set_other {ℓ} :
    {A : Type ℓ} (xs : List A) (i j : ℕ) (v : A) → j ≢ i → get_elem? (set xs i v) j ≡ get_elem? xs j
get_elem?-set_other [] i j v h = refl
get_elem?-set_other (x ∷ xs) zero zero v h = absurd (h refl)
get_elem?-set_other (x ∷ xs) zero (suc j) v h = refl
get_elem?-set_other (x ∷ xs) (suc i) zero v h = refl
get_elem?-set_other (x ∷ xs) (suc i) (suc j) v h = get_elem?-set_other xs i j v (λ e. h (ap suc e))

-- Where a slot is free, a client gets one that was free, if every client connects, with its number
-- as the handle, and every other slot stays as it was.
pub add_connection_seats :
    (connects : Connection → Bool) (client : Connection) (m : ServerManager) (k : ℕ)
    → ((c : Connection) → connects c ≡ true)
    → get_elem? m.connections k ≡ some none
    → (i : ℕ) × (get_elem? m.connections i ≡ some none)
      × (get_elem? (add_connection connects client m).connections i
          ≡ some (some (record client { handle = pos i })))
      × ((j : ℕ)
          → j ≢ i
          → get_elem? (add_connection connects client m).connections j ≡ get_elem? m.connections j)
unfolding add_connection
add_connection_seats connects client m k answers room =
    elim (Option-cases (free_slot 0 m.connections)) [
      | inl full ↦ absurd (free_slot-none 0 k m.connections room full)
      | inr (i, first) ↦
          let (j, same, free) = free_slot-free 0 i m.connections first in
          let seated : Connection = record client { handle = pos i } in
          let taken : (add_connection connects client m).connections
              ≡ set m.connections i (some seated) =
            ground (arith, answers seated) in
          let free' : get_elem? m.connections i ≡ some none =
            subst (λ x. get_elem? m.connections x ≡ some none) (omega arith) free in
          (
            i,
            free',
            ap (λ x. get_elem? x i) taken
                ∙ get_elem?-set_self m.connections i (some seated) none free',
            λ x h.
                ap (λ y. get_elem? y x) taken
                ∙ get_elem?-set_other m.connections i x (some seated) h,
          )
    ]

-- With no slot free, nothing else waiting and connections allowed, a client that asks a running
-- manager whose count of connections is zero is told that it is accepted, and the next round drops
-- it without a call of it.
pub request_connection_dropped :
    (connects : Connection → Bool) (client : Connection) (m : ServerManager)
    → m.active_connections ≡ 0
    → free_slot 0 m.connections ≡ none
    → m.queue ≡ []
    → m.connection_queue ≡ []
    → m.allow_connections ≡ true
    → m.run ≡ true
    → ((request_connection true client m).0 ≡ true)
      × (run_server (requests_connection true client ∷ runs connects ∷ []) m
          ≡ ok (record m { msg_available = false }))
unfolding run_server queue_thread queue_round drain_messages drain_connections add_connection
    request_connection
request_connection_dropped connects client m idle full empty alone open_ running =
    (ground arith, ground arith)
