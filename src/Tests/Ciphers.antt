-- ===== src/Tests/Ciphers.antt =====
-- Two clients that exchange a key and a text, and the keys they keep, with ciphers that change
-- nothing (client/UserCommand.cpp, client/ServerResponse.cpp, client/RSAWrapper.cpp).
use instant_messaging_progra.Base.{
  ℕ, ◌≤◌, ◌≡◌, refl, sym, [], ◌∷◌, ◌++◌, Bytes, length, length-replicate, replicate, none, some, ok,
  true, text, str_eq, is_empty, ◌>>=◌, arith,
}
use instant_messaging_progra.Base.StdMap.{find}
use instant_messaging_progra.Common.{client_version, send_symmetric_key, send_text_message}
use instant_messaging_progra.Environment.{aes_encrypt, Environment, generate_key}
use instant_messaging_progra.ServerRequest.{new_send_message, new_register}
use instant_messaging_progra.ServerResponse.Handle.{receive_symmetric_key, receive_text}
use instant_messaging_progra.ClientInMemoryDataManager.{
  ClientData, new_client_data, DataManager, new_data_manager, get_private_key, get_user_name,
  get_client_id, get_client_data, get_client_client_id, get_client_symmetric_key,
  get_client_public_key,
}
use instant_messaging_progra.EndToEnd.{receive_text-create_send_text, create_register-load_client}
use instant_messaging_progra.EndToEnd.KeyExchange.{receive_symmetric_key-create_send_symmetric_key}
use instant_messaging_progra.Base64Wrapper
use instant_messaging_progra.RsaWrapper.Private
use instant_messaging_progra.RsaWrapper.Public
use instant_messaging_progra.RsaWrapper.KeyPair.{
  RsaLaws, private_text, public_of, load_buffer-get_public_key_into,
}
use instant_messaging_progra.MessageUClient.{load_client}
use instant_messaging_progra.UserCommand.{
  fake_id, create_register, create_send_text, create_send_symmetric_key,
}
use instant_messaging_progra.World.{World}
use instant_messaging_progra.Tests.Clients.{bob_data, with_bob}

-- Ciphers that change nothing.
abbrev pub plain_env : Environment
plain_env = record {
  base64_encoder = λ x. x;
  base64_decoder = λ x. x;
  rsa_initialize = λ place size. 9 ∷ [];
  rsa_function = λ key. key;
  rsa_save_private = λ key. key;
  rsa_load_private = λ saved. ok saved;
  rsa_save_public = λ key. key;
  rsa_load_public = λ saved. ok saved;
  oaep_encrypt = λ place key plain. ok plain;
  oaep_decrypt = λ key cipher. ok cipher;
  rdrand32 = λ place. 77;
  cbc_encrypt = λ key iv plain. plain;
  cbc_decrypt = λ key iv cipher. ok cipher;
  server_info = some (49 ∷ 58 ∷ 49 ∷ 51 ∷ 53 ∷ 55 ∷ []);
  is_address = λ url. true;
  read_file = λ path. none;
  temp_path = [];
}

abbrev pub world_of : DataManager → World
world_of m = record { manager = m; user_info = none; files = []; draws = 0; opens = λ path. true }

-- The sender is client 1 and knows bob, who is client 2; bob knows the sender.
abbrev long_key : Bytes
long_key = replicate 16 1

abbrev sender : World
sender =
    world_of
      (record (with_bob (record bob_data { symmetric_key = long_key })) { client_id = 1 ∷ [] })

abbrev sender_data : ClientData
sender_data = new_client_data (97 ∷ []) (1 ∷ [])

abbrev bob_manager : ClientData → DataManager
bob_manager d = record new_data_manager {
  private_key = 9 ∷ [];
  client_id = 2 ∷ [];
  user_name_to_client_id = (97 ∷ [], 1 ∷ []) ∷ [];
  client_id_to_client_data = (1 ∷ [], d) ∷ [];
}

abbrev receiver : World
receiver = world_of (bob_manager (record sender_data { symmetric_key = long_key }))

receive_text-create_send_text_example :
    (content : Bytes) × (create_send_text plain_env (98 ∷ []) (104 ∷ 105 ∷ []) sender
      ≡ (ok (new_send_message (1 ∷ []) client_version (2 ∷ []) send_text_message content), sender))
    × (receive_text plain_env
          (record {
            client_id = 1 ∷ [];
            message_id = 4;
            message_type = send_text_message;
            message_content = content;
          })
          []
          receiver
        ≡ (ok ([] ++ (104 ∷ 105 ∷ []) ++ text "\n"), receiver))
receive_text-create_send_text_example =
    receive_text-create_send_text plain_env (λ key iv plain size. refl) sender receiver (98 ∷ [])
      (104 ∷ 105 ∷ []) (1 ∷ []) (2 ∷ []) long_key 4 [] (unfold get_client_id is_empty in refl)
      (unfold get_client_client_id find str_eq in refl)
      (unfold get_client_symmetric_key get_client_data find str_eq is_empty in refl)
      (unfold get_client_symmetric_key get_client_data find str_eq is_empty in refl)
      (length-replicate {A = ℕ} 16 1) (omega arith) (unfold aes_encrypt in omega arith)

-- Before the exchange the sender has bob's public key and no symmetric key.
abbrev sender₀ : World
sender₀ =
    world_of (record (with_bob (record bob_data { public_key = 9 ∷ [] })) { client_id = 1 ∷ [] })

abbrev receiver₀ : World
receiver₀ = world_of (bob_manager sender_data)

pub plain_laws : RsaLaws plain_env
plain_laws = record {
  decodes = λ str. refl;
  loads_private = λ place. refl;
  loads_public = λ place. refl;
  encrypts = λ born place plain short. (plain, refl, omega arith);
  decrypts = λ born place plain cipher e. sym e;
  has_text = λ place. (unfold is_empty in refl);
}

receive_symmetric_key-create_send_symmetric_key_example :
    let sent = create_send_symmetric_key plain_env (98 ∷ []) sender₀ in
    let received = λ (cipher : Bytes).
      receive_symmetric_key plain_env
        (record {
          client_id = 1 ∷ [];
          message_id = 4;
          message_type = send_symmetric_key;
          message_content = cipher;
        })
        []
        receiver₀ in
    let fresh = generate_key (λ place. 77) 0 4 in
    (cipher : Bytes) × (sent.0
      ≡ ok (new_send_message (1 ∷ []) client_version (2 ∷ []) send_symmetric_key cipher))
    × ((received cipher).0 ≡ ok ([] ++ text "Symmetric key received\n"))
    × (get_client_symmetric_key (2 ∷ []) true sent.1.manager ≡ ok fresh)
    × (get_client_symmetric_key (1 ∷ []) true (received cipher).1.manager ≡ ok fresh)
    × (length fresh ≡ 16)
    × (length cipher ≤ 128)
receive_symmetric_key-create_send_symmetric_key_example =
    receive_symmetric_key-create_send_symmetric_key plain_env plain_laws 0 sender₀ receiver₀
      (98 ∷ []) (1 ∷ []) (2 ∷ []) (record bob_data { public_key = 9 ∷ [] }) sender_data 4 []
      (unfold get_client_id is_empty in refl) (unfold get_client_client_id find str_eq in refl)
      (unfold get_client_data find str_eq in refl)
      (unfold get_client_symmetric_key get_client_data find str_eq is_empty in refl)
      (unfold get_client_public_key get_client_data find str_eq is_empty Private.get_public_key
          Private.create in
        refl)
      (unfold get_private_key is_empty Base64Wrapper.encode Private.get_private_key
          Private.create in
        refl)
      (unfold get_client_data find str_eq in refl)

create_register-load_client_example :
    let started = (load_client plain_env none receiver₀).1 in
    ((create_register plain_env (98 ∷ []) started).0
      ≡ ok (new_register fake_id client_version (98 ∷ []) (public_of plain_env 0)))
    × (get_private_key (create_register plain_env (98 ∷ []) started).1.manager
        ≡ ok (private_text plain_env 0))
    × (get_user_name (create_register plain_env (98 ∷ []) started).1.manager ≡ ok (98 ∷ []))
unfolding is_empty
create_register-load_client_example =
    create_register-load_client plain_env plain_laws receiver₀ (98 ∷ [])

-- A public key of 160 bytes.
abbrev long_env : Environment
long_env = record plain_env { rsa_initialize = λ place size. replicate 160 9 }

long_laws : RsaLaws long_env
long_laws = record {
  decodes = λ str. refl;
  loads_private = λ place. refl;
  loads_public = λ place. refl;
  encrypts = λ born place plain short. (plain, refl, omega arith);
  decrypts = λ born place plain cipher e. sym e;
  has_text = λ place. (unfold is_empty in refl);
}

load_buffer-get_public_key_into_example :
    (Private.get_public_key_into long_env (Private.create long_env 0) (replicate 200 0) 160
      >>= λ buffer. Public.load_buffer long_env buffer 160)
    ≡ Public.load long_env (public_of long_env 0)
load_buffer-get_public_key_into_example =
    load_buffer-get_public_key_into long_env long_laws 0 (replicate 200 0)
      (unfold Private.get_public_key Private.create in length-replicate {A = ℕ} 160 9)
      (omega (arith, length-replicate {A = ℕ} 200 0))
