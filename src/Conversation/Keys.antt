-- ===== src/Conversation/Keys.antt =====
-- A symmetric key on its way from the round of the client that makes it to the round of the client that
-- stores it (client/MessageUClient.cpp), with a session of the server in each.
use instant_messaging_progra.Base.{
  ℕ, suc, ◌+◌, ◌^◌, ◌≡◌, ◌<◌, refl, ap, ◌++◌, ◌∷◌, [], List, Bytes, true, false, ok, ◌≤◌, ◌/◌,
  length, arith, text, stoi, pos, ltb, signed, skip_space, is_space, magnitude, skip_prefix,
  digit_in, fits_int, read_digits,
}
use instant_messaging_progra.Environment.{Environment, generate_key}
use instant_messaging_progra.Common.{client_version, send_symmetric_key}
use instant_messaging_progra.Codec.ClientId.{hex_id}
use instant_messaging_progra.ClientInMemoryDataManager.{
  ClientData, get_client_data, get_client_public_key, get_private_key, get_client_id,
  get_client_client_id, get_client_symmetric_key, get_client_user_name,
}
use instant_messaging_progra.ServerRequest.{ServerRequest, new_send_message, new_pull_messages}
use instant_messaging_progra.ServerResponse.{Allocator, MessageDataFromServer, message_type_of}
use instant_messaging_progra.ServerResponse.Handle.{
  handle_messages, handle_message, receive_symmetric_key,
}
use instant_messaging_progra.UserCommand.{
  send_your_symmetric_key, create_send_symmetric_key, create_server_request, is_client_done,
}
use instant_messaging_progra.UserCommandConsoleParser.{get_next_command, assert_user_name}
use instant_messaging_progra.MessageUClient.{round, running}
use instant_messaging_progra.RsaWrapper.KeyPair.{RsaLaws, public_of, private_text}
use instant_messaging_progra.EndToEnd.KeyExchange.{receive_symmetric_key-create_send_symmetric_key}
use instant_messaging_progra.Server.Storage.{Database, is_client_id_exist, pull_client_messages}
use instant_messaging_progra.Conversation.{online, waiting_client, database_after}
use instant_messaging_progra.Conversation.Sending.{IsId}
use instant_messaging_progra.Conversation.Rounds.{round-sent, round-pulled, nothing_left}
use instant_messaging_progra.Server.Soundness.{IsSound}
use instant_messaging_progra.World.{World}

code_152 : stoi 10 (text "152") ≡ ok (pos 152)
unfolding stoi text signed skip_space is_space magnitude skip_prefix digit_in fits_int read_digits
code_152 = refl

length_152 : length (text "152") ≡ 3
unfolding text
length_152 = refl

reads_send_key :
    (name : Bytes) (rest : List Bytes)
    → length name ≤ 254
    → get_next_command false (text "152" ∷ name ∷ rest) ≡ (ok (send_your_symmetric_key name), rest)
unfolding get_next_command assert_user_name
reads_send_key name rest short =
    let fits : ltb 254 (length name) ≡ false = ground arith in rw (length_152, code_152, fits) refl

-- The text of a message with a key, and the part of it that stands before the decryption.
abbrev before_key : Bytes → Bytes
before_key name = [] ++ (text "From " ++ name ++ text "\n") ++ text "Content:\n"

abbrev pub shown_key : Bytes → Bytes
shown_key name = (before_key name ++ text "Symmetric key received\n") ++ text "----<EOM>----:\n\n"

abbrev key_message : Bytes → ℕ → Bytes → MessageDataFromServer
key_message id number cipher = record {
  client_id = id;
  message_id = number;
  message_type = send_symmetric_key;
  message_content = cipher;
}

handles_key :
    (env : Environment) (w w' : World) (id cipher : Bytes) (number : ℕ) (name : Bytes)
    → get_client_user_name id w.manager ≡ ok name
    → receive_symmetric_key env (key_message id number cipher) (before_key name) w
      ≡ (ok (before_key name ++ text "Symmetric key received\n"), w')
    → handle_messages env (key_message id number cipher ∷ []) [] w ≡ (ok (shown_key name), w')
unfolding handle_messages handle_message
handles_key env w w' id cipher number name named receives = rw (named, receives) refl

-- A symmetric key goes from one client to the other through the server: in a round the sender types
-- the command and the target's name and is shown that the message was sent; in a later round the
-- receiver asks for its messages and is shown that a key was received; then each holds the same
-- fresh key of 16 bytes for the other, and nothing waits for the receiver. The conditions are those
-- of a text, but instead of a shared key the sender has no symmetric key for the target and knows
-- the public key of a generated pair, of which the receiver stores the text of the private key, and
-- that Crypto++ does what is in RsaLaws.
pub round-send_your_symmetric_key :
    (env : Environment) (laws : RsaLaws env) (born : ℕ) (alloc alloc' : Allocator)
    (allocates : (n : ℕ) → length (alloc' n) ≡ n) (rounds : ℕ) (fresh fresh' : Bytes)
    (db : Database) (from to target name : Bytes) (d d' : ClientData) (sender receiver : World)
    (rest shown rest' shown' : List Bytes) (requests requests' : ℕ)
    → IsId from
    → IsId to
    → get_client_id sender.manager ≡ ok (hex_id from)
    → get_client_client_id target sender.manager ≡ ok (hex_id to)
    → get_client_data (hex_id to) sender.manager ≡ ok d
    → get_client_symmetric_key (hex_id to) false sender.manager ≡ ok []
    → get_client_public_key (hex_id to) sender.manager ≡ ok (public_of env born)
    → get_client_id receiver.manager ≡ ok (hex_id to)
    → get_private_key receiver.manager ≡ ok (private_text env born)
    → get_client_data (hex_id from) receiver.manager ≡ ok d'
    → get_client_user_name (hex_id from) receiver.manager ≡ ok name
    → length target ≤ 254
    → IsSound db
    → is_client_id_exist from db ≡ true
    → is_client_id_exist to db ≡ true
    → pull_client_messages to db ≡ []
    → suc db.sequence < 2 ^ 32
    → 1 ≤ rounds
    → let key = generate_key env.rdrand32 sender.draws 4 in
      (request : ServerRequest) × (sender' : World) × (receiver' : World) × (round
          (online env alloc rounds fresh db)
          (waiting_client sender (text "152" ∷ target ∷ rest) shown requests)
        ≡ running (
            waiting_client sender' rest
              (shown ++ (text "Message sent successfully.\n" ∷ []))
              (suc requests)))
      × (round
            (online env alloc' rounds fresh' (database_after rounds fresh db request))
            (waiting_client receiver (text "140" ∷ rest') shown' requests')
          ≡ running
              (waiting_client receiver' rest' (shown' ++ (shown_key name ∷ [])) (suc requests')))
      × (get_client_symmetric_key (hex_id to) true sender'.manager ≡ ok key)
      × (get_client_symmetric_key (hex_id from) true receiver'.manager ≡ ok key)
      × (length key ≡ 16)
      × (pull_client_messages to (
            database_after rounds fresh'
              (database_after rounds fresh db request)
              (new_pull_messages (hex_id to) client_version))
          ≡ [])
unfolding create_server_request
round-send_your_symmetric_key env laws born alloc alloc' allocates rounds fresh fresh' db from to
      target name d d' sender receiver rest shown rest' shown' requests requests' from_id to_id
      known found at no_key has_key own own_key at' named short sound here there nothing number_fits
      enough =
    let (cipher, creates, receives, held, held', size, cipher_size) =
      receive_symmetric_key-create_send_symmetric_key env laws born sender receiver target
        (hex_id from) (hex_id to) d d' (suc db.sequence) (before_key name) known found at no_key
        has_key own_key at' in
    let sender' : World = (create_send_symmetric_key env target sender).1 in
    let taken =
      receive_symmetric_key env (key_message (hex_id from) (suc db.sequence) cipher)
        (before_key name) receiver in
    let type_fits : 1 < 256 = omega arith in
    let content_fits : 25 + length cipher < 2 ^ 32 = omega (arith, cipher_size) in
    let enough' : suc ((44 + length cipher) / 1024) ≤ rounds = omega (arith, cipher_size, enough) in
    (
      new_send_message (hex_id from) client_version (hex_id to) send_symmetric_key cipher,
      sender',
      taken.1,
      round-sent env alloc rounds fresh db from to cipher send_symmetric_key from_id to_id here
          there type_fits number_fits content_fits enough' (send_your_symmetric_key target) sender
          sender' _ rest shown requests (reads_send_key target rest short)
          (unfold is_client_done in refl) (ap (λ r. (r, sender')) creates),
      round-pulled env alloc rounds fresh db from to cipher send_symmetric_key from_id to_id here
          there type_fits number_fits content_fits enough' alloc' fresh' allocates nothing
          (unfold message_type_of in refl) receiver taken.1 rest' shown' requests' (shown_key name)
          own
          (handles_key env receiver taken.1 (hex_id from) cipher (suc db.sequence) name named
            (ap (λ r. (r, taken.1)) receives)),
      held,
      held',
      size,
      nothing_left env alloc rounds fresh db from to cipher send_symmetric_key from_id to_id here
          there type_fits number_fits content_fits enough' alloc' fresh' allocates nothing
          (unfold message_type_of in refl) sound,
    )
