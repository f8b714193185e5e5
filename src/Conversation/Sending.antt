-- ===== src/Conversation/Sending.antt =====
-- The round of a client that sends a text to another one (client/UserCommand.cpp), and what the server
-- makes of it (server/message_u_manager.py).
use instant_messaging_progra.Base.{
  ℕ, suc, ◌+◌, ◌^◌, ◌≡◌, ◌<◌, refl, ◌++◌, Bytes, true, ok, ◌≤◌, ◌/◌, length, All, IsByte, arith,
  length-append,
}
use instant_messaging_progra.Common.{client_version, MessageType, message_type_code}
use instant_messaging_progra.Codec.Number.{le_bytes}
use instant_messaging_progra.Codec.ClientId.{hex_id}
use instant_messaging_progra.Codec.ClientId.Read.{decode_id-hex_id}
use instant_messaging_progra.ServerRequest.{ServerRequest, new_send_message}
use instant_messaging_progra.ServerRequest.Format.{StandsFor, head_bytes, length-head_bytes}
use instant_messaging_progra.ServerResponse.{Allocator, message_sent_success}
use instant_messaging_progra.ServerResponse.Arrival.{base_with}
use instant_messaging_progra.TcpNetworkClientManager.{handle_request}
use instant_messaging_progra.TcpNetworkClientManager.Answer.{response_header}
use instant_messaging_progra.Server.Requests.{Request, send_message_request}
use instant_messaging_progra.Server.Responses.{message_sent_success_handler}
use instant_messaging_progra.Server.Storage.{Database, is_client_id_exist, save_message}
use instant_messaging_progra.Server.Manager
use instant_messaging_progra.Server.Manager.{
  server_version, send_message, handle_pre_request, after_send_process,
}
use instant_messaging_progra.Server.Understood.{
  Understood, send_message_understood, whole_message, message_header,
}
use instant_messaging_progra.Server.Answered.{Answered, message_sent_answered}
use instant_messaging_progra.Server.Exchange.{connected}
use instant_messaging_progra.Conversation.{database_after}
use instant_messaging_progra.Conversation.Steps.{exchange_lem, database_after_lem}

-- An id of 16 bytes.
pub record IsId (id : Bytes) : Type 0 where
  pub bytes : All IsByte id
  pub size : length id ≡ 16

pub IsId-StandsFor : (id : Bytes) → IsId id → StandsFor (hex_id id) id
IsId-StandsFor id h = record { decoded = decode_id-hex_id id h.bytes; size = h.size }

-- The manager saves a message from one registered client to another.
send_message_lem :
    (fresh from to content : Bytes) (kind : ℕ) (db : Database)
    → is_client_id_exist from db ≡ true
    → is_client_id_exist to db ≡ true
    → Manager.handle_request fresh (send_message_request (whole_message from 2 to kind content)) db
      ≡ (
        ok (
            message_sent_success_handler server_version to
              (save_message to from kind content db).0),
        (save_message to from kind content db).1,
      )
unfolding Manager.handle_request send_message handle_pre_request
send_message_lem fresh from to content kind db known known' = rw (known, known') refl

module _ (alloc : Allocator) (rounds : ℕ) (fresh : Bytes) (db : Database) (from to content : Bytes)
    (t : MessageType) (from_id : IsId from) (to_id : IsId to)
    (known : is_client_id_exist from db ≡ true) (known' : is_client_id_exist to db ≡ true)
    (type_fits : message_type_code t < 256) (number_fits : suc db.sequence < 2 ^ 32)
    (content_fits : length content < 2 ^ 32)
    (enough : suc ((44 + length content) / 1024) ≤ rounds) where
  abbrev sent : ServerRequest
  sent = new_send_message (hex_id from) client_version (hex_id to) t content

  abbrev wire : Bytes
  wire =
      head_bytes from (message_header (hex_id from) client_version content) to t content ++ content

  abbrev request : Request
  request =
      send_message_request (whole_message from client_version to (message_type_code t) content)

  understood : Understood sent wire request
  understood =
      send_message_understood (hex_id from) (hex_id to) from to content client_version t
        (IsId-StandsFor from from_id) (IsId-StandsFor to to_id) (omega arith) type_fits content_fits

  wire_size : length wire ≡ 44 + length content
  wire_size = omega (
    arith,
    length-append
        (head_bytes from (message_header (hex_id from) client_version content) to t content)
        content,
    length-head_bytes (message_header (hex_id from) client_version content) from to content t
        from_id.size to_id.size,
  )

  rounds_left : suc (length wire / 1024) ≤ rounds
  rounds_left = rw wire_size enough

  answered :
      Answered alloc server_version
        (message_sent_success_handler server_version to (suc db.sequence))
        (response_header server_version 2103 20 ++ (to ++ le_bytes 4 (suc db.sequence)))
        (message_sent_success (base_with server_version 20) (hex_id to) (suc db.sequence))
  answered = message_sent_answered to (suc db.sequence) to_id.size number_fits

  -- The sender is told the id that the message got.
  pub handle_request-sent :
      handle_request alloc (connected rounds fresh db) sent
      ≡ ok (message_sent_success (base_with server_version 20) (hex_id to) (suc db.sequence))
  unfolding save_message
  handle_request-sent =
      exchange_lem alloc server_version rounds fresh db _ sent wire request _ _ _ (omega arith)
        understood rounds_left
        (send_message_lem fresh from to content (message_type_code t) db known known') answered

  pub database_after-sent :
      database_after rounds fresh db sent
      ≡ (save_message to from (message_type_code t) content db).1
  unfolding save_message after_send_process
  database_after-sent =
      database_after_lem alloc server_version rounds fresh db _ sent wire request _ _ _
        (omega arith) understood rounds_left
        (send_message_lem fresh from to content (message_type_code t) db known known') answered
