-- ===== src/Tests/Delivery.antt =====
-- The server's answers and its tables (server/) at concrete requests.
use instant_messaging_progra.Base.{
  ℕ, suc, ◌/◌, ◌≤◌, pad, length-pad, ◌≡◌, ◌≢◌, refl, [], ◌∷◌, ◌++◌, Bytes, All, length,
  length-append, length-replicate, replicate, false, none, ok, arith, str_eq,
}
use instant_messaging_progra.Codec.Number.{le_bytes, length-le_bytes}
use instant_messaging_progra.Codec.ClientId.{hex_id}
use instant_messaging_progra.ServerRequest.{
  Header, new_register, server_request_base, register_code,
}
use instant_messaging_progra.ServerRequest.Format.{header_bytes, length-header_bytes}
use instant_messaging_progra.ServerResponse.{register_success, list_clients_success}
use instant_messaging_progra.ServerResponse.Arrival.{base_with}
use instant_messaging_progra.ServerResponse.Clients.{
  Listed, IsListed, listed_bytes, length-listed_bytes, as_listed,
}
use instant_messaging_progra.TcpNetworkClientManager.{
  Connection, handle_request, read_loop, read_fuel,
}
use instant_messaging_progra.TcpNetworkClientManager.Reassembly.{last_partition}
use instant_messaging_progra.TcpNetworkClientManager.Answer.{
  response_header, read_loop-listed_bytes,
}
use instant_messaging_progra.Server.Struct.{is_utf8, utf8_scan, rstrip}
use instant_messaging_progra.Server.Requests.{register_request}
use instant_messaging_progra.Server.Responses.{Message, pull_messages_success_handler}
use instant_messaging_progra.Server.Storage.{
  Database, fetchone, select, is_user_name_exist, is_client_id_exist, add_client, save_message,
  pull_client_messages,
}
use instant_messaging_progra.Server.Manager
use instant_messaging_progra.Server.Manager.{
  register_client, messages_that_fit, after_send_process, server_version,
}
use instant_messaging_progra.Server.Understood.{register_understood}
use instant_messaging_progra.Server.Answered.{register_answered, length-response_header}
use instant_messaging_progra.Server.Exchange.{connected, handle_request-session}
use instant_messaging_progra.Server.Mailbox.{
  pull_client_messages-save_message, pull_client_messages-after_send_process, IsIncreasing,
}
use instant_messaging_progra.Server.Sessions.{session}
use instant_messaging_progra.Server.Soundness.{IsSound, IsDistinct, session-IsSound}
use instant_messaging_progra.Tests.Wire.{id_bytes, id_bytes-StandsFor, zeros}

abbrev pub no_rows : Database
no_rows = record { clients = []; messages = []; sequence = 0; variable_limit = 32766 }

abbrev pub new_id : Bytes
new_id = le_bytes 16 9

abbrev public_key : Bytes
public_key = replicate 160 1

abbrev register_header : Header
register_header = server_request_base (hex_id id_bytes) 2 register_code 415

one_round :
    suc (length (header_bytes id_bytes register_header ++ pad 255 (97 ∷ []) ++ public_key) / 1024)
    ≤ 1
one_round = omega (
  arith,
  length-append (header_bytes id_bytes register_header ++ pad 255 (97 ∷ [])) public_key,
  length-append (header_bytes id_bytes register_header) (pad 255 (97 ∷ [])),
  length-header_bytes register_header id_bytes (length-le_bytes 16 5),
  length-pad 255 (97 ∷ []) (omega arith),
  length-replicate {A = ℕ} 160 1,
)

-- The first client registers.
handle_request-session_example :
    handle_request zeros
      (connected 1 new_id no_rows)
      (new_register (hex_id id_bytes) 2 (97 ∷ []) public_key)
    ≡ ok (register_success (base_with 2 16) (hex_id new_id) false)
unfolding Manager.handle_request register_client add_client is_user_name_exist is_client_id_exist
    fetchone rstrip
handle_request-session_example =
    handle_request-session zeros 2 1 new_id no_rows
      (new_register (hex_id id_bytes) 2 (97 ∷ []) public_key) _
      (register_request id_bytes 2 (97 ∷ []) public_key) _ _ _ (omega arith)
      (register_understood (hex_id id_bytes) (97 ∷ []) public_key id_bytes 2 id_bytes-StandsFor
        (omega arith) (omega arith) (unfold is_utf8 utf8_scan in refl)
        (length-replicate {A = ℕ} 160 1))
      one_round refl (register_answered new_id (length-le_bytes 16 9))

-- Two messages for client 1 and one for client 2.
abbrev waiting : ℕ → Bytes → Message
waiting n to = record {
  message_id = n;
  to_client = to;
  from_client = 3 ∷ [];
  message_type = 0;
  message_content = [];
}

abbrev pub three_rows : Database
three_rows = record {
  clients = [];
  messages = waiting 1 (1 ∷ []) ∷ waiting 2 (2 ∷ []) ∷ waiting 4 (1 ∷ []) ∷ [];
  sequence = 4;
  variable_limit = 32766;
}

one_is_not_two : ◌≢◌ {A = Bytes} (1 ∷ []) (2 ∷ [])
one_is_not_two e = cc

pull_client_messages-after_send_process_example :
    let (delivered, size) = messages_that_fit 0 (pull_client_messages (1 ∷ []) three_rows) in
    let db' =
      (after_send_process
        (pull_messages_success_handler server_version delivered size)
        three_rows).1 in
    (pull_client_messages (1 ∷ []) three_rows ≡ delivered ++ pull_client_messages (1 ∷ []) db')
    × (pull_client_messages (2 ∷ []) db' ≡ pull_client_messages (2 ∷ []) three_rows)
pull_client_messages-after_send_process_example =
    pull_client_messages-after_send_process three_rows (1 ∷ []) (2 ∷ [])
      (unfold IsIncreasing in ((omega arith, (omega arith, tt)), ((omega arith, tt), (tt, tt))))
      one_is_not_two (unfold pull_client_messages select str_eq messages_that_fit in omega arith)

pull_client_messages-save_message_example :
    pull_client_messages (1 ∷ []) (save_message (1 ∷ []) (3 ∷ []) 0 [] no_rows).1
    ≡ waiting 1 (1 ∷ []) ∷ []
unfolding pull_client_messages save_message str_eq select
pull_client_messages-save_message_example =
    pull_client_messages-save_message (1 ∷ []) (3 ∷ []) (1 ∷ []) 0 [] no_rows

pub no_rows-IsSound : IsSound no_rows
unfolding IsIncreasing IsDistinct
no_rows-IsSound = record {
  increasing = tt;
  bounded = tt;
  ids = tt;
  names = tt;
  variables = omega arith;
}

session-IsSound_example : IsSound (session 1 new_id (replicate 1024 0 ∷ []) no_rows).1
session-IsSound_example = session-IsSound 1 new_id (replicate 1024 0 ∷ []) no_rows no_rows-IsSound

-- A list of one client.
abbrev only : Listed
only = record { id = id_bytes; name = 98 ∷ [] }

only-IsListed : All IsListed (only ∷ [])
only-IsListed =
    (record { id_size = length-le_bytes 16 5; name_size = omega arith; name_text = (refl, tt) }, tt)

abbrev list_answer : Bytes
list_answer = response_header 2 2101 271 ++ listed_bytes (only ∷ [])

list_answer_size : length list_answer ≡ 278
list_answer_size = omega (
  arith,
  length-append (response_header 2 2101 271) (listed_bytes (only ∷ [])),
  length-listed_bytes (only ∷ []) only-IsListed,
  length-response_header 2 2101 271,
)

abbrev listing : Connection
listing = record {
  connect = ok tt;
  write = λ written partition. ok tt;
  read = λ written n. ok (list_answer ++ replicate 746 0);
}

read_loop-listed_bytes_example :
    read_loop zeros listing read_fuel [] 0 none
    ≡ ok (
        list_clients_success
          (base_with 2 271)
          (record { copied = 271; payload = listed_bytes (only ∷ []) })
          1
          (as_listed only ∷ []))
read_loop-listed_bytes_example =
    read_loop-listed_bytes zeros listing [] (only ∷ []) 2 271 (length-replicate {A = ℕ} 271 0)
      only-IsListed (omega arith) (omega arith) (omega arith) (omega arith)
      (last_partition list_answer (replicate 746 0)
        (omega (
          arith,
          length-append list_answer (replicate 746 0),
          length-replicate {A = ℕ} 746 0,
          list_answer_size,
        ))
        (omega (arith, list_answer_size)) refl)
