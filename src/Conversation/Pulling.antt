-- ===== src/Conversation/Pulling.antt =====
-- The round of a client that pulls its messages, where all that waits for it fits one answer
-- (server/message_u_manager.py, server/message_u_server.py).
use instant_messaging_progra.Base.{
  ℕ, suc, ◌+◌, ◌-◌, ◌≡◌, refl, ap, ◌∙◌, ◌++◌, ◌∷◌, [], List, map, Bytes, true, ok, ◌≤◌, ◌/◌, leb,
  le→leb, length, All, arith, length-append,
}
use instant_messaging_progra.Common.{client_version}
use instant_messaging_progra.Codec.Number.{length-le_bytes}
use instant_messaging_progra.Codec.ClientId.{hex_id}
use instant_messaging_progra.ServerRequest.{
  ServerRequest, new_pull_messages, server_request_base, pull_messages_code,
}
use instant_messaging_progra.ServerRequest.Format.{header_bytes, length-header_bytes}
use instant_messaging_progra.ServerResponse.{Allocator, pull_messages_success}
use instant_messaging_progra.ServerResponse.Arrival.{base_with}
use instant_messaging_progra.ServerResponse.Posted.{Posted, IsPosted, posted_bytes, as_received}
use instant_messaging_progra.TcpNetworkClientManager.{handle_request}
use instant_messaging_progra.TcpNetworkClientManager.Answer.{response_header}
use instant_messaging_progra.Server.Requests.{pull_messages_request}
use instant_messaging_progra.Server.Responses.{ResponseHandler, pull_messages_success_handler}
use instant_messaging_progra.Server.Storage.{Database, is_client_id_exist, pull_client_messages}
use instant_messaging_progra.Server.Manager
use instant_messaging_progra.Server.Manager.{
  server_version, max_pulled_messages_data, size_of_message, messages_that_fit, pull_messages,
  handle_pre_request, after_send_process, ids_of, pulled_handler,
}
use instant_messaging_progra.Server.Understood.{Understood, pull_messages_understood}
use instant_messaging_progra.Server.Answered.{Answered, as_message, messages_answered}
use instant_messaging_progra.Server.Exchange.{connected}
use instant_messaging_progra.Server.Mailbox.{IsIncreasing, pulled-delivered}
use instant_messaging_progra.Conversation.{database_after}
use instant_messaging_progra.Conversation.Steps.{exchange_lem, database_after_lem}
use instant_messaging_progra.Conversation.Sending.{IsId, IsId-StandsFor}

-- The bytes that waiting messages take in an answer.
unfoldable pub payload_of : List Posted → ℕ
payload_of ms = length (posted_bytes ms [])

pub payload_of-cons :
    (m : Posted) (ms : List Posted)
    → IsPosted m
    → payload_of (m ∷ ms) ≡ 25 + length m.content + payload_of ms
unfolding payload_of posted_bytes
payload_of-cons m ms wf = omega (arith, length-append {0}, length-le_bytes, wf.id_size)

messages_that_fit-All :
    (to : Bytes) (size : ℕ) (ms : List Posted)
    → All IsPosted ms
    → size + payload_of ms ≤ max_pulled_messages_data
    → messages_that_fit size (map (as_message to) ms)
      ≡ (map (as_message to) ms, size + payload_of ms)
unfolding messages_that_fit
messages_that_fit-All to size [] wf fits =
    ap (λ n. ([], n)) {x = size} {y = size + payload_of []}
      (unfold payload_of posted_bytes in omega arith)
messages_that_fit-All to size (m ∷ ms) (wf, wfs) fits =
    let now : leb (size_of_message (as_message to m)) (max_pulled_messages_data - size) ≡ true =
      le→leb _ _ (omega (arith, payload_of-cons m ms wf)) in
    rw
      (
        now,
        messages_that_fit-All to (size + size_of_message (as_message to m)) ms wfs
            (omega (arith, payload_of-cons m ms wf)),
      )
      (ap (λ n. (as_message to m ∷ map (as_message to) ms, n))
        {x = size + size_of_message (as_message to m) + payload_of ms}
        {y = size + payload_of (m ∷ ms)} (omega (arith, payload_of-cons m ms wf)))

module _ (alloc : Allocator) (rounds : ℕ) (fresh : Bytes) (db : Database) (to : Bytes) (m : Posted)
    (ms : List Posted) (to_id : IsId to) (known : is_client_id_exist to db ≡ true)
    (waits : pull_client_messages to db ≡ map (as_message to) (m ∷ ms)) (wf : All IsPosted (m ∷ ms))
    (fits : payload_of (m ∷ ms) ≤ max_pulled_messages_data)
    (allocates : length (alloc (payload_of (m ∷ ms))) ≡ payload_of (m ∷ ms))
    (enough : 1 ≤ rounds) where
  abbrev delivered : ResponseHandler
  delivered =
      pull_messages_success_handler server_version (map (as_message to) (m ∷ ms))
        (payload_of (m ∷ ms))

  abbrev request : ServerRequest
  request = new_pull_messages (hex_id to) client_version

  abbrev wire : Bytes
  wire = header_bytes to (server_request_base (hex_id to) client_version pull_messages_code 0)

  handle_request_lem :
      Manager.handle_request fresh (pull_messages_request to client_version) db ≡ (ok delivered, db)
  unfolding Manager.handle_request pull_messages handle_pre_request
  handle_request_lem =
      let whole : messages_that_fit 0 (map (as_message to) (m ∷ ms))
          ≡ (map (as_message to) (m ∷ ms), payload_of (m ∷ ms)) =
        messages_that_fit-All to 0 (m ∷ ms) wf (omega arith)
        ∙ ap (λ n. (map (as_message to) (m ∷ ms), n)) {x = 0 + payload_of (m ∷ ms)}
            {y = payload_of (m ∷ ms)} (omega arith) in
      rw (known, waits, whole) refl

  understood : Understood request wire (pull_messages_request to client_version)
  understood =
      pull_messages_understood (hex_id to) to client_version (IsId-StandsFor to to_id) (omega arith)

  one_round : suc (length wire / 1024) ≤ rounds
  one_round = omega (
    arith,
    length-header_bytes (server_request_base (hex_id to) client_version pull_messages_code 0) to
        to_id.size,
  )

  answered :
      Answered alloc server_version delivered
        (response_header server_version 2104 (payload_of (m ∷ ms)) ++ posted_bytes (m ∷ ms) [])
        (pull_messages_success
          (base_with server_version (payload_of (m ∷ ms)))
          (record { copied = payload_of (m ∷ ms); payload = posted_bytes (m ∷ ms) [] })
          (map as_received (m ∷ ms)))
  answered =
      messages_answered to (m ∷ ms) (payload_of (m ∷ ms)) wf (unfold payload_of in refl)
        (omega (arith, payload_of-cons m ms wf.0)) (omega arith) allocates

  pub handle_request-pulled :
      handle_request alloc (connected rounds fresh db) request
      ≡ ok (
          pull_messages_success
            (base_with server_version (payload_of (m ∷ ms)))
            (record { copied = payload_of (m ∷ ms); payload = posted_bytes (m ∷ ms) [] })
            (map as_received (m ∷ ms)))
  handle_request-pulled =
      exchange_lem alloc server_version rounds fresh db db request wire
        (pull_messages_request to client_version) delivered _ _ (omega arith) understood one_round
        handle_request_lem answered

  -- Nothing waits for the client any more.
  pub database_after-pulled :
      IsIncreasing db.messages
      → length (map (as_message to) (m ∷ ms)) ≤ db.variable_limit
      → pull_client_messages to (database_after rounds fresh db request) ≡ []
  unfolding after_send_process
  database_after-pulled grows few =
      ap (pull_client_messages to) (
        database_after_lem alloc server_version rounds fresh db db request wire
          (pull_messages_request to client_version) delivered _ _ (omega arith) understood one_round
          handle_request_lem answered)
      ∙ pulled-delivered db to (map (as_message to) (m ∷ ms)) grows waits few
