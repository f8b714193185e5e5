-- ===== src/Conversation/Texts.antt =====
-- A text on its way from what one client types to what the other one shows: a round of
-- the loop of client/MessageUClient.cpp for the sender and one for the receiver, with a session of the
-- server in each.
use instant_messaging_progra.Base.{
  ℕ, suc, ◌+◌, ◌^◌, ◌≡◌, ◌<◌, refl, ap, ◌++◌, ◌∷◌, [], List, Bytes, true, false, ok, ◌≤◌, ◌/◌,
  length, arith, append_assoc, text, stoi, pos, ltb, signed, skip_space, is_space, magnitude,
  skip_prefix, digit_in, fits_int, read_digits,
}
use instant_messaging_progra.Environment.{Environment, aes_encrypt}
use instant_messaging_progra.Common.{client_version, send_text_message}
use instant_messaging_progra.Codec.ClientId.{hex_id}
use instant_messaging_progra.ClientInMemoryDataManager.{
  get_client_id, get_client_client_id, get_client_symmetric_key, get_client_user_name,
}
use instant_messaging_progra.ServerRequest.{new_send_message, new_pull_messages}
use instant_messaging_progra.ServerResponse.{Allocator, MessageDataFromServer, message_type_of}
use instant_messaging_progra.ServerResponse.Handle.{handle_messages, handle_message}
use instant_messaging_progra.UserCommand.{send_text, create_server_request, is_client_done}
use instant_messaging_progra.UserCommandConsoleParser.{get_next_command, assert_user_name}
use instant_messaging_progra.MessageUClient.{round, running}
use instant_messaging_progra.EndToEnd.{
  CbcDecrypts, create_send_text_lem, decrypte_message-aes_encrypt,
}
use instant_messaging_progra.Server.Storage.{Database, is_client_id_exist, pull_client_messages}
use instant_messaging_progra.Conversation.{online, waiting_client, database_after}
use instant_messaging_progra.Conversation.Sending.{IsId}
use instant_messaging_progra.Conversation.Rounds.{round-sent, round-pulled, nothing_left}
use instant_messaging_progra.Server.Soundness.{IsSound}
use instant_messaging_progra.World.{World}

-- What the client makes of one message whose sender it knows by name.
abbrev pub shown_text : Bytes → Bytes → Bytes
shown_text name message =
    text "From "
    ++ name
    ++ text "\n"
    ++ text "Content:\n"
    ++ message
    ++ text "\n"
    ++ text "----<EOM>----:\n\n"

code_150 : stoi 10 (text "150") ≡ ok (pos 150)
unfolding stoi text signed skip_space is_space magnitude skip_prefix digit_in fits_int read_digits
code_150 = refl

length_150 : length (text "150") ≡ 3
unfolding text
length_150 = refl

reads_send_text :
    (name message : Bytes) (rest : List Bytes)
    → length name ≤ 254
    → get_next_command false (text "150" ∷ name ∷ message ∷ rest)
      ≡ (ok (send_text name message), rest)
unfolding get_next_command assert_user_name
reads_send_text name message rest short =
    let fits : ltb 254 (length name) ≡ false = ground arith in rw (length_150, code_150, fits) refl

abbrev pub text_message : Bytes → ℕ → Bytes → MessageDataFromServer
text_message id number content = record {
  client_id = id;
  message_id = number;
  message_type = send_text_message;
  message_content = content;
}

-- The text before a message of a sender with this name.
abbrev before_text : Bytes → Bytes
before_text name = (text "From " ++ name ++ text "\n") ++ text "Content:\n"

handles_text :
    (env : Environment) (decrypts : CbcDecrypts env) (w : World) (id key : Bytes) (number : ℕ)
    (name message : Bytes)
    → get_client_user_name id w.manager ≡ ok name
    → get_client_symmetric_key id true w.manager ≡ ok key
    → length key ≡ 16
    → length (aes_encrypt env key message (length message)) < 2 ^ 32
    → handle_messages env
        (text_message id number (aes_encrypt env key message (length message)) ∷ [])
        []
        w
      ≡ (ok (shown_text name message), w)
unfolding handle_messages handle_message
handles_text env decrypts w id key number name message named keyed size small =
    rw
      (
        named,
        decrypte_message-aes_encrypt env decrypts w id key message number send_text_message keyed
            size small,
      )
      (ap (λ z. (ok z, w)) (simp (append_assoc)))

-- A text goes from one client to the other through the server: in a round the sender types the
-- command, the target's name and the text, and is shown that the message was sent; in a later round
-- the receiver asks for its messages and is shown the sender's name and exactly this text; neither
-- client's data changes, and then nothing waits for the receiver. The conditions are that both are
-- registered with ids of 16 bytes, that each holds the same key of 16 bytes for the other, that the
-- sender knows the target by name and the receiver knows the sender, that the name has at most 254
-- bytes and the text fewer than 2^32, that the tables are sound and nothing waits for the receiver,
-- that the message's number and size fit their fields, that the receive loop has as many rounds as
-- the request has partitions, that an allocation has the size that was asked for, and that CBC
-- decryption undoes CBC encryption under a key of 16 bytes.
pub round-send_text :
    (env : Environment) (decrypts : CbcDecrypts env) (alloc alloc' : Allocator)
    (allocates : (n : ℕ) → length (alloc' n) ≡ n) (rounds : ℕ) (fresh fresh' : Bytes)
    (db : Database) (from to key target message name : Bytes) (sender receiver : World)
    (rest shown rest' shown' : List Bytes) (requests requests' : ℕ)
    → IsId from
    → IsId to
    → get_client_id sender.manager ≡ ok (hex_id from)
    → get_client_client_id target sender.manager ≡ ok (hex_id to)
    → get_client_symmetric_key (hex_id to) true sender.manager ≡ ok key
    → get_client_id receiver.manager ≡ ok (hex_id to)
    → get_client_user_name (hex_id from) receiver.manager ≡ ok name
    → get_client_symmetric_key (hex_id from) true receiver.manager ≡ ok key
    → length key ≡ 16
    → length target ≤ 254
    → length message < 2 ^ 32
    → IsSound db
    → is_client_id_exist from db ≡ true
    → is_client_id_exist to db ≡ true
    → pull_client_messages to db ≡ []
    → suc db.sequence < 2 ^ 32
    → 25 + length (aes_encrypt env key message (length message)) < 2 ^ 32
    → suc ((44 + length (aes_encrypt env key message (length message))) / 1024) ≤ rounds
    → let request =
        new_send_message
          (hex_id from)
          client_version
          (hex_id to)
          send_text_message
          (aes_encrypt env key message (length message)) in
      let db' = database_after rounds fresh db request in
      (round
          (online env alloc rounds fresh db)
          (waiting_client sender (text "150" ∷ target ∷ message ∷ rest) shown requests)
        ≡ running (
            waiting_client sender rest
              (shown ++ (text "Message sent successfully.\n" ∷ []))
              (suc requests)))
      × (round
            (online env alloc' rounds fresh' db')
            (waiting_client receiver (text "140" ∷ rest') shown' requests')
          ≡ running (
              waiting_client receiver rest'
                (shown' ++ (shown_text name message ∷ []))
                (suc requests')))
      × (pull_client_messages to
            (database_after rounds fresh' db' (new_pull_messages (hex_id to) client_version))
          ≡ [])
unfolding create_server_request
round-send_text env decrypts alloc alloc' allocates rounds fresh fresh' db from to key target
      message name sender receiver rest shown rest' shown' requests requests' from_id to_id known
      found keyed own named keyed' size short small sound here there nothing number_fits
      content_fits enough =
    let content = aes_encrypt env key message (length message) in
    let type_fits : 2 < 256 = omega arith in
    (
      round-sent env alloc rounds fresh db from to content send_text_message from_id to_id here
          there type_fits number_fits content_fits enough (send_text target message) sender sender _
          rest shown requests (reads_send_text target message rest short)
          (unfold is_client_done in refl)
          (create_send_text_lem env sender target message (hex_id from) (hex_id to) key known found
            keyed size small),
      round-pulled env alloc rounds fresh db from to content send_text_message from_id to_id here
          there type_fits number_fits content_fits enough alloc' fresh' allocates nothing
          (unfold message_type_of in refl) receiver receiver rest' shown' requests'
          (shown_text name message) own
          (handles_text env decrypts receiver (hex_id from) key (suc db.sequence) name message named
            keyed' size (omega (arith, content_fits))),
      nothing_left env alloc rounds fresh db from to content send_text_message from_id to_id here
          there type_fits number_fits content_fits enough alloc' fresh' allocates nothing
          (unfold message_type_of in refl) sound,
    )
