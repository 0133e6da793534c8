-- ===== src/Tests/Clients.antt =====
-- Tests of the server manager: Server and its child modules.
use pi_scan.Base.{
  ◌≡◌, refl, pos, Bool, true, false, List, [], ◌∷◌, ◌++◌, map, some, none, ok, Outcome,
}
use pi_scan.Server.{
  allow_new_connections, start_server, ServerManager, Connection, viewer, full_control,
  receive_only, new_connection, new_server_manager, GeneralMessage, info, viewers, ClientRequest,
  system_function, sends_general, signal_level, broadcast_general_message, request_connection,
}
use pi_scan.Server.Requests.{
  queue_thread, ServerAction, runs, gives_message, requests_connection, starts, allows, run_server,
}
use pi_scan.Server.Slots.{IsSeated, run_server-IsSeated}
use pi_scan.Server.Delivery.{calls_to, broadcast_general_message-levels, give_message_lost}

abbrev answers : Connection → Bool
answers c = true

abbrev desk : Connection
desk = record (new_connection "desk" full_control) { handle = pos 0 }

abbrev wall : Connection
wall = record (new_connection "wall" viewer) { handle = pos 1 }

abbrev two_clients : ServerManager
two_clients = record {
  connections = some desk ∷ some wall ∷ none ∷ none ∷ none ∷ [];
  active_connections = 0;
  queue = [];
  connection_queue = [];
  msg_available = false;
  allow_connections = true;
  run = true;
  calls = [];
  done = false;
}

abbrev history : List ServerAction
history =
    starts
    ∷ allows
    ∷ requests_connection true (new_connection "desk" full_control)
    ∷ requests_connection true (new_connection "wall" viewer)
    ∷ runs answers
    ∷ []

abbrev manager_of : Outcome ServerManager → ServerManager
manager_of (ok m) = m
manager_of _ = two_clients

abbrev behind_history : ServerManager
behind_history = manager_of (run_server history new_server_manager)

run_server-IsSeated_example : IsSeated behind_history.connections
unfolding run_server new_server_manager queue_thread request_connection allow_new_connections
    start_server
run_server-IsSeated_example = run_server-IsSeated history behind_history refl

-- Both clients of the history have their slots.
history_run : behind_history.connections ≡ two_clients.connections
unfolding run_server new_server_manager queue_thread request_connection allow_new_connections
    start_server
history_run = refl

abbrev wall_stop : ClientRequest
wall_stop = record { source = 1; type = system_function; sub_type = pos 0 }

abbrev desk_stop : ClientRequest
desk_stop = record { source = 0; type = system_function; sub_type = pos 0 }

abbrev hello : GeneralMessage
hello = record { type = info; content = "hello" }

broadcast_general_message-levels_example :
    calls_to 1 (broadcast_general_message viewers hello two_clients).calls
    ≡ calls_to 1 [] ++ sends_general hello ∷ []
broadcast_general_message-levels_example =
    broadcast_general_message-levels viewers hello two_clients 1

give_message_lost_example :
    run_server
      (gives_message false (signal_level (pos 7)) ∷ map runs (answers ∷ answers ∷ []))
      two_clients
    ≡ ok (record two_clients { queue = signal_level (pos 7) ∷ [] })
give_message_lost_example =
    give_message_lost two_clients (signal_level (pos 7)) (answers ∷ answers ∷ []) refl refl

abbrev porch : Connection
porch = new_connection "porch" receive_only

abbrev five_clients : ServerManager
five_clients = record two_clients {
  connections = some desk ∷ some wall ∷ some desk ∷ some desk ∷ some desk ∷ [];
}
