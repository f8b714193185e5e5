-- ===== src/EndToEnd.antt =====
-- Two clients that talk to each other: what one makes of a command (client/UserCommand.cpp) and what
-- the other makes of the message (client/ServerResponse.cpp). The server between them hands on the
-- content as it is. Crypto++ is a parameter; what is used of it is that it decrypts what it encrypted.
pub mod KeyExchange
use instant_messaging_progra.Base.{
  ap, ◌<◌, ◌^◌, take, take-all, to_u32, ℕ, ◌+◌, ◌≤◌, [], ◌∷◌, ◌++◌, Bytes, true, false, none, some,
  ok, to_string, throw, exception, if◌then◌else◌, ◌≡◌, refl, ◌∙◌, arith, is_empty, text, length,
  replicate, str_eq_refl,
}
use instant_messaging_progra.Common.{
  client_version, MessageType, send_symmetric_key, send_text_message, send_file,
}
use instant_messaging_progra.Environment.{
  Environment, aes_encrypt, aes_decrypt, new_aes_lem, to_u32_lem,
}
use instant_messaging_progra.ClientInMemoryDataManager.{
  ClientData, DataManager, get_private_key, get_user_name, set_private_key, set_user_name,
  get_client_id, get_client_data, get_client_client_id, get_client_symmetric_key,
  get_client_public_key, add_symmetric_key,
}
use instant_messaging_progra.ClientInMemoryDataManager.Lookup.{
  get_client_symmetric_key-add_symmetric_key,
}
use instant_messaging_progra.ServerRequest.{new_send_message, new_register}
use instant_messaging_progra.ServerResponse.Handle.{
  decrypte_message, receive_symmetric_key, receive_text, receive_file,
}
use instant_messaging_progra.RsaWrapper.KeyPair.{
  RsaLaws, private_text, public_of, load-private_text, load-public_of, private_text-is_empty,
  decrypt-encrypt,
}
use instant_messaging_progra.MessageUClient.{load_client}
use instant_messaging_progra.UserCommand.{
  fake_id, create_register, create_send_text, create_send_file, create_send_symmetric_key,
  make_symmetric_key,
}
use instant_messaging_progra.World.{World}

-- The cipher in CBC mode decrypts what it encrypted, for a key of 16 bytes and any start value.
abbrev pub CbcDecrypts : Environment → Type 0
CbcDecrypts env =
    (key iv plain : Bytes)
    → length key ≡ 16
    → env.cbc_decrypt key iv (env.cbc_encrypt key iv plain) ≡ ok plain

aes_decrypt-aes_encrypt :
    (env : Environment) (decrypts : CbcDecrypts env) (key plain : Bytes)
    → length key ≡ 16
    → length (aes_encrypt env key plain (length plain)) < 2 ^ 32
    → let cipher = aes_encrypt env key plain (length plain) in
      aes_decrypt env key cipher (to_u32 (length cipher)) ≡ ok plain
unfolding aes_encrypt aes_decrypt
aes_decrypt-aes_encrypt env decrypts key plain size small =
    let iv : Bytes = replicate 16 0 in
    let cipher : Bytes = env.cbc_encrypt key iv (take (length plain) plain) in
    let whole : take (length plain) plain ≡ plain = take-all (length plain) plain (omega arith) in
    let received : take (to_u32 (length cipher)) cipher ≡ cipher =
      take-all (to_u32 (length cipher)) cipher (omega (arith, to_u32_lem (length cipher) small)) in
    ap (env.cbc_decrypt key iv) received
    ∙ ap (λ p. env.cbc_decrypt key iv (env.cbc_encrypt key iv p)) whole
    ∙ decrypts key iv plain size

pub decrypte_message-aes_encrypt :
    (env : Environment) (decrypts : CbcDecrypts env) (w : World) (id key plain : Bytes) (number : ℕ)
    (t : MessageType)
    → get_client_symmetric_key id true w.manager ≡ ok key
    → length key ≡ 16
    → length (aes_encrypt env key plain (length plain)) < 2 ^ 32
    → decrypte_message env
        (record {
          client_id = id;
          message_id = number;
          message_type = t;
          message_content = aes_encrypt env key plain (length plain);
        })
        w
      ≡ (ok plain, w)
unfolding decrypte_message
decrypte_message-aes_encrypt env decrypts w id key plain number t keyed size small =
    rw (keyed, new_aes_lem key size, aes_decrypt-aes_encrypt env decrypts key plain size small) refl

pub create_send_text_lem :
    (env : Environment) (w : World) (target message sender_id target_id key : Bytes)
    → get_client_id w.manager ≡ ok sender_id
    → get_client_client_id target w.manager ≡ ok target_id
    → get_client_symmetric_key target_id true w.manager ≡ ok key
    → length key ≡ 16
    → length message < 2 ^ 32
    → create_send_text env target message w ≡ (
      ok (
          new_send_message sender_id client_version target_id send_text_message
            (aes_encrypt env key message (length message))),
      w,
    )
unfolding create_send_text
create_send_text_lem env w target message sender_id target_id key known found keyed size small =
    rw (known, found, keyed, new_aes_lem key size, to_u32_lem (length message) small) refl

pub create_send_file_lem :
    (env : Environment) (w : World) (target path file sender_id target_id key : Bytes)
    → get_client_id w.manager ≡ ok sender_id
    → get_client_client_id target w.manager ≡ ok target_id
    → get_client_symmetric_key target_id true w.manager ≡ ok key
    → length key ≡ 16
    → length file < 2 ^ 32
    → env.read_file path ≡ some file
    → create_send_file env target path w ≡ (
      ok (
          new_send_message sender_id client_version target_id send_file
            (aes_encrypt env key file (length file))),
      w,
    )
unfolding create_send_file
create_send_file_lem env w target path file sender_id target_id key known found keyed size small
      there =
    rw (known, found, keyed, new_aes_lem key size, there, to_u32_lem (length file) small) refl

-- Where the sender has an id, knows the target's id, and both hold the same key of 16 bytes for
-- each other, the request for a text carries a content from which the target shows that text, and
-- neither client changes. The text and its encryption have fewer than 2^32 bytes, and the condition
-- on the cipher is that CBC decryption undoes CBC encryption under a key of 16 bytes.
pub receive_text-create_send_text :
    (env : Environment) (decrypts : CbcDecrypts env) (sender receiver : World)
    (target message sender_id target_id key : Bytes) (message_id : ℕ) (shown : Bytes)
    → get_client_id sender.manager ≡ ok sender_id
    → get_client_client_id target sender.manager ≡ ok target_id
    → get_client_symmetric_key target_id true sender.manager ≡ ok key
    → get_client_symmetric_key sender_id true receiver.manager ≡ ok key
    → length key ≡ 16
    → length message < 2 ^ 32
    → length (aes_encrypt env key message (length message)) < 2 ^ 32
    → (content : Bytes) × (create_send_text env target message sender ≡ (
      ok (new_send_message sender_id client_version target_id send_text_message content),
      sender,
    ))
      × (receive_text env
            (record {
              client_id = sender_id;
              message_id = message_id;
              message_type = send_text_message;
              message_content = content;
            })
            shown
            receiver
          ≡ (ok (shown ++ message ++ text "\n"), receiver))
unfolding receive_text
receive_text-create_send_text env decrypts sender receiver target message sender_id target_id key
      message_id shown known found keyed keyed' size small cipher_small =
    (
      aes_encrypt env key message (length message),
      create_send_text_lem env sender target message sender_id target_id key known found keyed size
          small,
      rw
          (decrypte_message-aes_encrypt env decrypts receiver sender_id key message message_id
            send_text_message keyed' size cipher_small)
          refl,
    )

-- Where the sender has an id, knows the target's id, both hold the same key of 16 bytes for each
-- other and the file can be read, the request for a file carries a content from which the target
-- writes a file with the same bytes, named after the sender and the message's number, and shows its
-- path; the sender does not change. The file and its encryption have fewer than 2^32 bytes, the
-- target can open the file that it writes, and the condition on the cipher is that CBC decryption
-- undoes CBC encryption under a key of 16 bytes.
pub receive_file-create_send_file :
    (env : Environment) (decrypts : CbcDecrypts env) (sender receiver : World)
    (target path file sender_id target_id key : Bytes) (message_id : ℕ) (shown : Bytes)
    → get_client_id sender.manager ≡ ok sender_id
    → get_client_client_id target sender.manager ≡ ok target_id
    → get_client_symmetric_key target_id true sender.manager ≡ ok key
    → get_client_symmetric_key sender_id true receiver.manager ≡ ok key
    → length key ≡ 16
    → length file < 2 ^ 32
    → length (aes_encrypt env key file (length file)) < 2 ^ 32
    → env.read_file path ≡ some file
    → receiver.opens (env.temp_path ++ sender_id ++ text "." ++ to_string message_id) ≡ true
    → let written = env.temp_path ++ sender_id ++ text "." ++ to_string message_id in
      (content : Bytes) × (create_send_file env target path sender
        ≡ (ok (new_send_message sender_id client_version target_id send_file content), sender))
      × (receive_file env
            (record {
              client_id = sender_id;
              message_id = message_id;
              message_type = send_file;
              message_content = content;
            })
            shown
            receiver
          ≡ (
            ok (shown ++ written ++ text "\n"),
            record receiver { files = (written, file) ∷ receiver.files },
          ))
unfolding receive_file
receive_file-create_send_file env decrypts sender receiver target path file sender_id target_id key
      message_id shown known found keyed keyed' size small cipher_small there opened =
    (
      aes_encrypt env key file (length file),
      create_send_file_lem env sender target path file sender_id target_id key known found keyed
          size small there,
      rw
          (
            decrypte_message-aes_encrypt env decrypts receiver sender_id key file message_id
                send_file keyed' size cipher_small,
            opened,
          )
          refl,
    )

-- A client that started without my.info and then carries out the command to register sends the
-- public key of the key pair that it generated, keeps the text of its private key, and has the
-- given user name, where an empty one is as good as none. The condition on Crypto++ is RsaLaws.
pub create_register-load_client :
    (env : Environment) (laws : RsaLaws env) (w : World) (name : Bytes)
    → let started = (load_client env none w).1 in
      ((create_register env name started).0
        ≡ ok (new_register fake_id client_version name (public_of env w.draws)))
      × (get_private_key (create_register env name started).1.manager
          ≡ ok (private_text env w.draws))
      × (get_user_name (create_register env name started).1.manager
          ≡ (if is_empty name then throw (exception "no client id for client") else ok name))
unfolding load_client create_register get_private_key get_user_name set_private_key set_user_name
create_register-load_client env laws w name =
    let stored_key = private_text-is_empty env laws w.draws in
    let loaded = load-private_text env laws w.draws in
    (
      rw (stored_key, loaded) refl,
      rw (stored_key, loaded, stored_key) refl,
      rw (stored_key, loaded) refl,
    )
