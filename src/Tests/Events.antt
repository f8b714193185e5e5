-- ===== src/Tests/Events.antt =====
-- The loop of the server (server/message_u_server.py) with one connection.
use instant_messaging_progra.Base.{
  ◌⊎◌, str_eq, if◌then◌else◌, ℕ, ◌<◌, ◌≡◌, refl, [], ◌∷◌, ◌++◌, Bytes, ok, throw, exception, true,
  false, none, some, replicate, arith, pos,
}
use instant_messaging_progra.Server.Storage.{is_in, pull_client_messages}
use instant_messaging_progra.Server.Sessions.{session}
use instant_messaging_progra.Server.Events.{
  MessageUServer, accept, serve, handle_session, remove, accepts, Reaches, here, later,
  start_server, python_int, is_valid_port,
}
use instant_messaging_progra.Server.Events.Invariant.{IsRunning, AreGrowing, Reaches-IsRunning}
use instant_messaging_progra.Server.Events.Survival.{handle_session-serve}
use instant_messaging_progra.Server.Events.Unsent.{stored_message, pull_client_messages-serve}
use instant_messaging_progra.Server.Receiving.{receive}
use instant_messaging_progra.Server.Requests.{SendMessage, send_message_request}
use instant_messaging_progra.TcpNetworkClientManager.Partitions.{partitions_of}
use instant_messaging_progra.Tests.Conversation.{two_clients}
use instant_messaging_progra.Tests.Wire.{id_bytes}
use instant_messaging_progra.Tests.Exchange.{sent_wire, zeros-IsByte}
use instant_messaging_progra.Tests.Delivery.{no_rows, no_rows-IsSound}

abbrev idle : MessageUServer
idle = record { port = some (pos 1357); database = no_rows; registered = []; accepted = 3 }

idle-IsRunning : IsRunning idle
unfolding AreGrowing
idle-IsRunning = record { sound = no_rows-IsSound; growing = tt; known = tt }

abbrev busy : MessageUServer
busy = record { port = some (pos 1357); database = no_rows; registered = 3 ∷ []; accepted = 4 }

busy-IsRunning : IsRunning busy
unfolding AreGrowing
busy-IsRunning = record { sound = no_rows-IsSound; growing = (tt, tt); known = (omega arith, tt) }

one_accepted : Reaches idle busy
unfolding accept
one_accepted = later accepts here

Reaches-IsRunning_example :
    IsRunning busy
    × ((conn : ℕ) → conn < 3 → is_in [] conn ≡ false → (conn < 4) × (is_in (3 ∷ []) conn ≡ false))
Reaches-IsRunning_example = Reaches-IsRunning idle busy one_accepted idle-IsRunning

handle_session-serve_example :
    (handle_session 3 9000000 [] (replicate 1024 0 ∷ []) (throw (exception "broken pipe")) busy ≡ (
      ok tt,
      record busy {
        database =
            (serve 9000000 [] (replicate 1024 0 ∷ []) (throw (exception "broken pipe")) no_rows).1;
        registered = remove 3 (3 ∷ []);
      },
    ))
    × (is_in (remove 3 (3 ∷ [])) 3 ≡ false)
    × ((serve 9000000 [] (replicate 1024 0 ∷ []) (ok tt) no_rows).1
        ≡ (session 9000000 [] (replicate 1024 0 ∷ []) no_rows).1)
handle_session-serve_example =
    handle_session-serve 9000000 [] (replicate 1024 0 ∷ []) (omega arith) (zeros-IsByte 1024, tt) 3
      (throw (exception "broken pipe")) busy busy-IsRunning (unfold is_in in refl) tt

pull_client_messages-serve_example :
    let db' =
      (serve 5 [] (partitions_of sent_wire) (throw (exception "broken pipe")) two_clients).1 in
    (pull_client_messages id_bytes db' ≡ pull_client_messages id_bytes two_clients)
    ⊎ ((request : SendMessage) × (receive 5 (partitions_of sent_wire) none none
          ≡ ok (send_message_request request))
        × (pull_client_messages id_bytes db'
            ≡ pull_client_messages id_bytes two_clients
              ++ (if str_eq request.dest_client_id id_bytes
                  then stored_message request 1 ∷ []
                  else [])))
pull_client_messages-serve_example =
    pull_client_messages-serve 5 [] (partitions_of sent_wire) (exception "broken pipe") two_clients
      id_bytes

abbrev unset : MessageUServer
unset = record { port = none; database = no_rows; registered = []; accepted = 0 }

abbrev port_file : Bytes
port_file = 32 ∷ 49 ∷ 51 ∷ 53 ∷ 55 ∷ 10 ∷ []

reads_port :
    start_server (some port_file) unset ≡ (ok true, record unset { port = some (pos 1357) })
unfolding start_server python_int is_valid_port
reads_port = refl
