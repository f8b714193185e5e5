-- ===== src/Tests/Keys.antt =====
-- Ann sends bob a symmetric key over the server (client/, server/), with ciphers that change nothing.
use instant_messaging_progra.Base.{
  ◌≡◌, refl, str_eq, false, true, [], ◌∷◌, ◌++◌, Bytes, length, ok, text, str_eq_refl, is_empty,
  print_hex, print_num, arith,
}
use instant_messaging_progra.Base.StdMap.{find}
use instant_messaging_progra.Common.{client_version}
use instant_messaging_progra.Codec.Number.{le_bytes}
use instant_messaging_progra.Codec.ClientId.{hex_id, hex_byte}
use instant_messaging_progra.Environment.{generate_key}
use instant_messaging_progra.ClientInMemoryDataManager.{
  ClientData, new_data_manager, get_client_id, get_client_data, get_client_client_id,
  get_client_user_name, get_client_symmetric_key, get_client_public_key, get_private_key,
}
use instant_messaging_progra.ServerRequest.{ServerRequest, new_pull_messages}
use instant_messaging_progra.MessageUClient.{round, running}
use instant_messaging_progra.Base64Wrapper
use instant_messaging_progra.RsaWrapper.Private
use instant_messaging_progra.RsaWrapper.KeyPair.{public_of, private_text}
use instant_messaging_progra.Server.Storage.{
  fetchone, is_client_id_exist, pull_client_messages, select,
}
use instant_messaging_progra.Conversation.{online, waiting_client, database_after}
use instant_messaging_progra.Conversation.Keys.{shown_key, round-send_your_symmetric_key}
use instant_messaging_progra.World.{World}
use instant_messaging_progra.Tests.Wire.{id_bytes, zeros, zeros-Allocates}
use instant_messaging_progra.Tests.Ciphers.{plain_env, plain_laws, world_of}
use instant_messaging_progra.Tests.Conversation.{
  id_bytes-IsId, new_id-IsId, two_clients, two_clients-IsSound,
}
use instant_messaging_progra.Tests.Delivery.{new_id}

-- What a client knows of another one with this name and id, whose public key is that of the pair.
abbrev met : Bytes → Bytes → ClientData
met name id = record {
  public_key = public_of plain_env 0;
  symmetric_key = [];
  user_name = name;
  client_id = id;
}

-- A client with this id, which has the private key of the pair, and knows one other.
abbrev acquainted : Bytes → Bytes → Bytes → World
acquainted own name id = world_of (record new_data_manager {
  private_key = private_text plain_env 0;
  client_id = own;
  user_name_to_client_id = (name, id) ∷ [];
  client_id_to_client_data = (id, met name id) ∷ [];
})

knows_data :
    (own name id : Bytes) → get_client_data id (acquainted own name id).manager ≡ ok (met name id)
unfolding get_client_data find
knows_data own name id = rw (str_eq_refl id, get_client_data, find) refl

knows_name :
    (own name id : Bytes) → get_client_client_id name (acquainted own name id).manager ≡ ok id
unfolding get_client_client_id find
knows_name own name id = rw (str_eq_refl name, get_client_client_id, find) refl

names_id :
    (own name id : Bytes) → get_client_user_name id (acquainted own name id).manager ≡ ok name
unfolding get_client_user_name
names_id own name id = rw (knows_data own name id) refl

no_key :
    (own name id : Bytes)
    → get_client_symmetric_key id false (acquainted own name id).manager ≡ ok []
unfolding get_client_symmetric_key is_empty
no_key own name id = rw (knows_data own name id) refl

has_key :
    (own name id : Bytes)
    → get_client_public_key id (acquainted own name id).manager ≡ ok (public_of plain_env 0)
unfolding get_client_public_key is_empty Private.get_public_key Private.create
has_key own name id = rw (knows_data own name id) refl

abbrev ann : World
ann = acquainted (hex_id id_bytes) (98 ∷ []) (hex_id new_id)

abbrev bob : World
bob = acquainted (hex_id new_id) (97 ∷ []) (hex_id id_bytes)

ann_id : get_client_id ann.manager ≡ ok (hex_id id_bytes)
unfolding get_client_id is_empty hex_id hex_byte print_hex print_num le_bytes text
ann_id = refl

bob_id : get_client_id bob.manager ≡ ok (hex_id new_id)
unfolding get_client_id is_empty hex_id hex_byte print_hex print_num le_bytes text
bob_id = refl

bob_key : get_private_key bob.manager ≡ ok (private_text plain_env 0)
unfolding get_private_key is_empty Base64Wrapper.encode Private.get_private_key Private.create
bob_key = refl

round-send_your_symmetric_key_example :
    let key = generate_key (λ place. 77) 0 4 in
    (request : ServerRequest) × (sender' : World) × (receiver' : World) × (round
        (online plain_env zeros 1 [] two_clients)
        (waiting_client ann (text "152" ∷ (98 ∷ []) ∷ []) [] 0)
      ≡ running (waiting_client sender' [] ([] ++ (text "Message sent successfully.\n" ∷ [])) 1))
    × (round
          (online plain_env zeros 1 [] (database_after 1 [] two_clients request))
          (waiting_client bob (text "140" ∷ []) [] 0)
        ≡ running (waiting_client receiver' [] ([] ++ (shown_key (97 ∷ []) ∷ [])) 1))
    × (get_client_symmetric_key (hex_id new_id) true sender'.manager ≡ ok key)
    × (get_client_symmetric_key (hex_id id_bytes) true receiver'.manager ≡ ok key)
    × (length key ≡ 16)
    × (pull_client_messages new_id (
          database_after 1 []
            (database_after 1 [] two_clients request)
            (new_pull_messages (hex_id new_id) client_version))
        ≡ [])
round-send_your_symmetric_key_example =
    round-send_your_symmetric_key plain_env plain_laws 0 zeros zeros zeros-Allocates 1 [] []
      two_clients id_bytes new_id (98 ∷ []) (97 ∷ []) (met (98 ∷ []) (hex_id new_id))
      (met (97 ∷ []) (hex_id id_bytes)) ann bob [] [] [] [] 0 0 id_bytes-IsId new_id-IsId ann_id
      (knows_name _ (98 ∷ []) (hex_id new_id)) (knows_data _ (98 ∷ []) (hex_id new_id))
      (no_key _ (98 ∷ []) (hex_id new_id)) (has_key _ (98 ∷ []) (hex_id new_id)) bob_id bob_key
      (knows_data _ (97 ∷ []) (hex_id id_bytes)) (names_id _ (97 ∷ []) (hex_id id_bytes))
      (omega arith) two_clients-IsSound (unfold is_client_id_exist fetchone str_eq le_bytes in refl)
      (unfold is_client_id_exist fetchone str_eq le_bytes in refl)
      (unfold pull_client_messages select in refl) (omega arith) (omega arith)
