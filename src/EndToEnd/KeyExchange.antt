-- ===== src/EndToEnd/KeyExchange.antt =====
-- Two clients that exchange a symmetric key: what one makes of the command to send it
-- (client/UserCommand.cpp) and what the other makes of the message (client/ServerResponse.cpp).
use instant_messaging_progra.Base.{
  ℕ, ◌+◌, ◌≤◌, [], ◌∷◌, ◌++◌, Bytes, true, false, ok, ◌≡◌, refl, ◌∙◌, arith, is_empty, text, length,
  str_eq_refl,
}
use instant_messaging_progra.Common.{client_version, send_symmetric_key}
use instant_messaging_progra.Environment.{Environment, generate_key, length-generate_key}
use instant_messaging_progra.ClientInMemoryDataManager.{
  ClientData, DataManager, get_private_key, get_client_id, get_client_data, get_client_client_id,
  get_client_symmetric_key, get_client_public_key, add_symmetric_key,
}
use instant_messaging_progra.ClientInMemoryDataManager.Lookup.{
  get_client_symmetric_key-add_symmetric_key,
}
use instant_messaging_progra.ServerRequest.{new_send_message}
use instant_messaging_progra.ServerResponse.Handle.{receive_symmetric_key}
use instant_messaging_progra.RsaWrapper.KeyPair.{
  RsaLaws, private_text, public_of, load-private_text, load-public_of, decrypt-encrypt,
}
use instant_messaging_progra.UserCommand.{create_send_symmetric_key, make_symmetric_key}
use instant_messaging_progra.World.{World}

fresh_key : (env : Environment) (place : ℕ) → length (generate_key env.rdrand32 place 4) ≡ 16
fresh_key env place = length-generate_key env.rdrand32 place 4

fresh_key-is_empty : (key : Bytes) → length key ≡ 16 → is_empty key ≡ false
unfolding is_empty
fresh_key-is_empty [] h = absurd (omega arith)
fresh_key-is_empty (b ∷ key) h = refl

get_client_data-known :
    (id : Bytes) (key : Bytes) (m : DataManager) (d : ClientData)
    → get_client_data id m ≡ ok d
    → (m' : DataManager) × (add_symmetric_key id key m ≡ ok m')
unfolding add_symmetric_key
get_client_data-known id key m d e = rw e (_, refl)

-- What a client holds for another one after add_symmetric_key of a key of 16 bytes.
stored :
    (id key : Bytes) (m m' : DataManager)
    → length key ≡ 16
    → add_symmetric_key id key m ≡ ok m'
    → get_client_symmetric_key id true m' ≡ ok key
stored id key m m' size e =
    get_client_symmetric_key-add_symmetric_key m m' id id key (fresh_key-is_empty key size) e
    ∙ rw (str_eq_refl id) refl

-- A client that has an id, knows the target with the public key of a generated key pair, and has no
-- symmetric key for it, makes a request with the encryption of a fresh key; the target, who knows
-- the sender and stores the text of the private key of that pair, receives the message; then each
-- holds that same key of 16 bytes for the other, and the encryption has at most 128 bytes. The
-- condition on Crypto++ is RsaLaws.
pub receive_symmetric_key-create_send_symmetric_key :
    (env : Environment) (laws : RsaLaws env) (born : ℕ) (sender receiver : World)
    (target sender_id target_id : Bytes) (d d' : ClientData) (message_id : ℕ) (shown : Bytes)
    → get_client_id sender.manager ≡ ok sender_id
    → get_client_client_id target sender.manager ≡ ok target_id
    → get_client_data target_id sender.manager ≡ ok d
    → get_client_symmetric_key target_id false sender.manager ≡ ok []
    → get_client_public_key target_id sender.manager ≡ ok (public_of env born)
    → get_private_key receiver.manager ≡ ok (private_text env born)
    → get_client_data sender_id receiver.manager ≡ ok d'
    → let sent = create_send_symmetric_key env target sender in
      let received = λ (cipher : Bytes).
        receive_symmetric_key env
          (record {
            client_id = sender_id;
            message_id = message_id;
            message_type = send_symmetric_key;
            message_content = cipher;
          })
          shown
          receiver in
      let key = generate_key env.rdrand32 sender.draws 4 in
      (cipher : Bytes) × (sent.0
        ≡ ok (new_send_message sender_id client_version target_id send_symmetric_key cipher))
      × ((received cipher).0 ≡ ok (shown ++ text "Symmetric key received\n"))
      × (get_client_symmetric_key target_id true sent.1.manager ≡ ok key)
      × (get_client_symmetric_key sender_id true (received cipher).1.manager ≡ ok key)
      × (length key ≡ 16)
      × (length cipher ≤ 128)
unfolding create_send_symmetric_key make_symmetric_key receive_symmetric_key is_empty
receive_symmetric_key-create_send_symmetric_key env laws born sender receiver target sender_id
      target_id d d' message_id shown known found at no_key has_key own at' =
    let key = generate_key env.rdrand32 sender.draws 4 in
    let size = fresh_key env sender.draws in
    let (m₁, e₁) = get_client_data-known target_id key sender.manager d at in
    let (m₂, e₂) = get_client_data-known sender_id key receiver.manager d' at' in
    let (cipher, encrypted, plain, cipher_size) =
      decrypt-encrypt env laws born (sender.draws + 4) key (omega arith) in
    (
      cipher,
      rw (known, found, no_key, has_key, e₁, load-public_of env laws born, encrypted) refl,
      rw (own, load-private_text env laws born, plain, e₂) refl,
      rw (known, found, no_key, has_key, e₁, load-public_of env laws born, encrypted)
          (stored target_id key sender.manager m₁ size e₁),
      rw (own, load-private_text env laws born, plain, e₂)
          (stored sender_id key receiver.manager m₂ size e₂),
      size,
      cipher_size,
    )
