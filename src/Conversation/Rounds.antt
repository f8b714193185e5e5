-- ===== src/Conversation/Rounds.antt =====
-- A message of any type on its way from the round of one client to the round of another one
-- (client/MessageUClient.cpp), with a session of the server in each.
use instant_messaging_progra.Base.{
  ℕ, suc, ◌+◌, ◌^◌, ◌≡◌, ◌<◌, refl, ap, ◌∙◌, ◌++◌, ◌∷◌, [], List, map, Bytes, true, false, ok, ◌≤◌,
  ◌/◌, length, arith, text, stoi, pos, signed, skip_space, is_space, magnitude, skip_prefix,
  digit_in, fits_int, read_digits, str_eq_refl,
}
use instant_messaging_progra.Environment.{Environment}
use instant_messaging_progra.Common.{client_version, MessageType, message_type_code}
use instant_messaging_progra.Codec.ClientId.{hex_id}
use instant_messaging_progra.ClientInMemoryDataManager.{get_client_id}
use instant_messaging_progra.ServerRequest.{ServerRequest, new_send_message, new_pull_messages}
use instant_messaging_progra.ServerResponse.{
  Allocator, MessageDataFromServer, pull_messages_success, message_type_of, ResponseBase, Big,
}
use instant_messaging_progra.Server.Manager.{server_version}
use instant_messaging_progra.ServerResponse.Arrival.{base_with}
use instant_messaging_progra.ServerResponse.Handle.{handle_response, handle_messages}
use instant_messaging_progra.ServerResponse.Posted.{Posted, IsPosted, as_received, posted_bytes}
use instant_messaging_progra.UserCommand.{
  UserCommand, request_waiting_messages, create_server_request, is_client_done,
}
use instant_messaging_progra.UserCommandConsoleParser.{get_next_command}
use instant_messaging_progra.MessageUClient.{round, running}
use instant_messaging_progra.Server.Storage.{
  Database, is_client_id_exist, pull_client_messages, save_message,
}
use instant_messaging_progra.Server.Answered.{as_message}
use instant_messaging_progra.Server.Mailbox.{pull_client_messages-save_message}
use instant_messaging_progra.Server.Soundness.{IsSound, save_message-IsSound}
use instant_messaging_progra.Conversation.{online, waiting_client, database_after}
use instant_messaging_progra.Conversation.Steps.{round_lem}
use instant_messaging_progra.Conversation.Sending.{IsId, handle_request-sent, database_after-sent}
use instant_messaging_progra.Conversation.Pulling.{
  payload_of, payload_of-cons, handle_request-pulled, database_after-pulled,
}
use instant_messaging_progra.World.{World}

code_140 : stoi 10 (text "140") ≡ ok (pos 140)
unfolding stoi text signed skip_space is_space magnitude skip_prefix digit_in fits_int read_digits
code_140 = refl

length_140 : length (text "140") ≡ 3
unfolding text
length_140 = refl

reads_pull :
    (rest : List Bytes)
    → get_next_command false (text "140" ∷ rest) ≡ (ok request_waiting_messages, rest)
unfolding get_next_command
reads_pull rest = rw (length_140, code_140) refl

handles_pulled :
    (env : Environment) (w w' : World) (base : ResponseBase) (b : Big) (m : MessageDataFromServer)
    (display : Bytes)
    → handle_messages env (m ∷ []) base.response_text w ≡ (ok display, w')
    → handle_response env (pull_messages_success base b (m ∷ [])) w
      ≡ (ok (pull_messages_success (record base { response_text = display }) b (m ∷ [])), w')
unfolding handle_response
handles_pulled env w w' base b m display handles = rw handles refl

module _ (env : Environment) (alloc : Allocator) (rounds : ℕ) (fresh : Bytes) (db : Database)
    (from to content : Bytes) (t : MessageType) (from_id : IsId from) (to_id : IsId to)
    (known : is_client_id_exist from db ≡ true) (known' : is_client_id_exist to db ≡ true)
    (type_fits : message_type_code t < 256) (number_fits : suc db.sequence < 2 ^ 32)
    (content_fits : 25 + length content < 2 ^ 32)
    (enough : suc ((44 + length content) / 1024) ≤ rounds) where
  abbrev pub sent : ServerRequest
  sent = new_send_message (hex_id from) client_version (hex_id to) t content

  abbrev pub left : Database
  left = database_after rounds fresh db sent

  left_lem : left ≡ (save_message to from (message_type_code t) content db).1
  left_lem =
      database_after-sent alloc rounds fresh db from to content t from_id to_id known known'
        type_fits number_fits (omega arith) enough

  -- The round of the sender.
  pub round-sent :
      (command : UserCommand) (w w' : World) (typed rest shown : List Bytes) (requests : ℕ)
      → get_next_command false typed ≡ (ok command, rest)
      → is_client_done command ≡ false
      → create_server_request env command w ≡ (ok sent, w')
      → round (online env alloc rounds fresh db) (waiting_client w typed shown requests)
        ≡ running (
            waiting_client w' rest
              (shown ++ (text "Message sent successfully.\n" ∷ []))
              (suc requests))
  unfolding handle_response
  round-sent command w w' typed rest shown requests reads goes_on creates =
      round_lem (online env alloc rounds fresh db) command w w' w' typed rest shown requests sent _
        _ reads goes_on creates
        (handle_request-sent alloc rounds fresh db from to content t from_id to_id known known'
          type_fits number_fits (omega arith) enough)
        refl

  abbrev posted : Posted
  posted = record {
    sender = from;
    number = suc db.sequence;
    kind = message_type_code t;
    content = content;
  }

  posted-IsPosted : IsPosted posted
  posted-IsPosted = record {
    id_size = from_id.size;
    number_fits = omega arith;
    kind_fits = omega arith;
    content_fits = omega arith;
  }

  -- What waits for the receiver, where nothing waited before.
  waits :
      pull_client_messages to db ≡ []
      → pull_client_messages to left ≡ map (as_message to) (posted ∷ [])
  unfolding save_message
  waits nothing =
      ap (pull_client_messages to) left_lem
      ∙ pull_client_messages-save_message to from to (message_type_code t) content db
      ∙ rw (nothing, str_eq_refl to) refl

  still_known : is_client_id_exist to left ≡ true
  unfolding is_client_id_exist save_message
  still_known = ap (is_client_id_exist to) left_lem ∙ known'

  left-IsSound : IsSound db → IsSound left
  left-IsSound sound =
      rw left_lem (save_message-IsSound to from (message_type_code t) content db sound)

  abbrev pub received : MessageDataFromServer
  received = record {
    client_id = hex_id from;
    message_id = suc db.sequence;
    message_type = t;
    message_content = content;
  }

  size_lem : payload_of (posted ∷ []) ≡ 25 + length content
  size_lem =
      let rest : payload_of [] ≡ 0 = unfold payload_of posted_bytes in refl in
      omega (arith, payload_of-cons posted [] posted-IsPosted)

  -- The round of the receiver, whose message is handled as `handles` says, and what waits afterwards.
  module _ (alloc' : Allocator) (fresh' : Bytes) (allocates : (n : ℕ) → length (alloc' n) ≡ n)
      (nothing : pull_client_messages to db ≡ [])
      (same : message_type_of (message_type_code t) ≡ t) where
    pub round-pulled :
        (w w' : World) (rest shown : List Bytes) (requests : ℕ) (display : Bytes)
        → get_client_id w.manager ≡ ok (hex_id to)
        → handle_messages env (received ∷ []) [] w ≡ (ok display, w')
        → round
            (online env alloc' rounds fresh' left)
            (waiting_client w (text "140" ∷ rest) shown requests)
          ≡ running (waiting_client w' rest (shown ++ (display ∷ [])) (suc requests))
    unfolding create_server_request
    round-pulled w w' rest shown requests display own handles =
        let handles' : handle_messages env (as_received posted ∷ []) [] w ≡ (ok display, w') =
          ap
            (λ k.
              handle_messages env
                (record {
                  client_id = hex_id from;
                  message_id = suc db.sequence;
                  message_type = k;
                  message_content = content;
                }
                  ∷ [])
                [] w)
            same
          ∙ handles in
        round_lem (online env alloc' rounds fresh' left) request_waiting_messages w w w'
          (text "140" ∷ rest) rest shown requests (new_pull_messages (hex_id to) client_version) _ _
          (reads_pull rest) (unfold is_client_done in refl) (rw own refl)
          (handle_request-pulled alloc' rounds fresh' left to posted [] to_id still_known
            (waits nothing) (posted-IsPosted, tt) (omega (arith, size_lem)) (allocates _)
            (omega arith))
          (handles_pulled env w w' (base_with server_version (payload_of (posted ∷ []))) _
            (as_received posted) display handles')

    pub nothing_left :
        IsSound db
        → pull_client_messages to
            (database_after rounds fresh' left (new_pull_messages (hex_id to) client_version))
          ≡ []
    nothing_left sound =
        database_after-pulled alloc' rounds fresh' left to posted [] to_id still_known
          (waits nothing) (posted-IsPosted, tt) (omega (arith, size_lem)) (allocates _)
          (omega arith) (left-IsSound sound).increasing
          (let many : 999 ≤ left.variable_limit = (left-IsSound sound).variables in omega arith)
