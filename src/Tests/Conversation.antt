-- ===== src/Tests/Conversation.antt =====
-- Ann sends texts to bob over the server (client/, server/), with ciphers that change nothing.
use instant_messaging_progra.Base.{
  ℕ, ◌≡◌, ◌≢◌, refl, ap, ◌∙◌, false, [], ◌∷◌, ◌++◌, Bytes, length-replicate, replicate, ok, true,
  text, some, to_string, str_eq, str_eq_refl, print_hex, print_num, is_empty, arith,
}
use instant_messaging_progra.Base.StdMap.{find}
use instant_messaging_progra.Common.{client_version, send_text_message, send_file}
use instant_messaging_progra.Codec.Number.{le_bytes, length-le_bytes, le_bytes-IsByte}
use instant_messaging_progra.Codec.ClientId.{hex_id, hex_byte}
use instant_messaging_progra.Environment.{Environment, aes_encrypt}
use instant_messaging_progra.ClientInMemoryDataManager.{
  new_data_manager, get_client_id, get_client_data, get_client_client_id, get_client_user_name,
  get_client_symmetric_key,
}
use instant_messaging_progra.ServerRequest.{new_send_message, new_pull_messages}
use instant_messaging_progra.ServerResponse.Handle.{receive_file}
use instant_messaging_progra.MessageUClient.{round, running}
use instant_messaging_progra.EndToEnd.{receive_file-create_send_file}
use instant_messaging_progra.UserCommand.{create_send_file}
use instant_messaging_progra.Server.Storage.{
  Database, ClientRow, fetchone, is_client_id_exist, pull_client_messages, select,
}
use instant_messaging_progra.Server.Soundness.{IsSound, IsDistinct}
use instant_messaging_progra.Server.Mailbox.{IsIncreasing}
use instant_messaging_progra.Conversation.{online, waiting_client, database_after}
use instant_messaging_progra.Conversation.Sending.{IsId}
use instant_messaging_progra.Conversation.Texts.{shown_text, round-send_text}
use instant_messaging_progra.World.{World}
use instant_messaging_progra.Tests.Wire.{id_bytes, zeros, zeros-Allocates}
use instant_messaging_progra.Tests.Ciphers.{plain_env, world_of}
use instant_messaging_progra.Tests.Delivery.{new_id}

pub id_bytes-IsId : IsId id_bytes
id_bytes-IsId = record { bytes = le_bytes-IsByte 16 5; size = length-le_bytes 16 5 }

pub new_id-IsId : IsId new_id
new_id-IsId = record { bytes = le_bytes-IsByte 16 9; size = length-le_bytes 16 9 }

abbrev shared_key : Bytes
shared_key = replicate 16 1

-- A client with this id, who knows one other by name and id and shares a key with it.
abbrev acquainted : Bytes → Bytes → Bytes → World
acquainted own name id = world_of (record new_data_manager {
  client_id = own;
  user_name_to_client_id = (name, id) ∷ [];
  client_id_to_client_data =
      (id, record { public_key = []; symmetric_key = shared_key; user_name = name; client_id = id })
      ∷ [];
})

abbrev ann : World
ann = acquainted (hex_id id_bytes) (98 ∷ []) (hex_id new_id)

abbrev bob : World
bob = acquainted (hex_id new_id) (97 ∷ []) (hex_id id_bytes)

knows_name :
    (own name id : Bytes) → get_client_client_id name (acquainted own name id).manager ≡ ok id
unfolding get_client_client_id find
knows_name own name id = rw (str_eq_refl name, get_client_client_id, find) refl

names_id :
    (own name id : Bytes) → get_client_user_name id (acquainted own name id).manager ≡ ok name
unfolding get_client_user_name get_client_data find
names_id own name id = rw (str_eq_refl id, get_client_data, find) refl

shares_key :
    (own name id : Bytes)
    → get_client_symmetric_key id true (acquainted own name id).manager ≡ ok shared_key
unfolding get_client_symmetric_key get_client_data find is_empty
shares_key own name id = rw (str_eq_refl id, get_client_data, find) refl

ann_id : get_client_id ann.manager ≡ ok (hex_id id_bytes)
unfolding get_client_id is_empty hex_id hex_byte print_hex print_num le_bytes text
ann_id = refl

bob_id : get_client_id bob.manager ≡ ok (hex_id new_id)
unfolding get_client_id is_empty hex_id hex_byte print_hex print_num le_bytes text
bob_id = refl

abbrev with_file : Environment
with_file = record plain_env { read_file = λ path. some (7 ∷ 8 ∷ []) }

receive_file-create_send_file_example :
    let written = [] ++ hex_id id_bytes ++ text "." ++ to_string 4 in
    (content : Bytes) × (create_send_file with_file (98 ∷ []) (99 ∷ []) ann ≡ (
      ok (new_send_message (hex_id id_bytes) client_version (hex_id new_id) send_file content),
      ann,
    ))
    × (receive_file with_file
          (record {
            client_id = hex_id id_bytes;
            message_id = 4;
            message_type = send_file;
            message_content = content;
          })
          []
          bob
        ≡ (ok ([] ++ written ++ text "\n"), record bob { files = (written, 7 ∷ 8 ∷ []) ∷ [] }))
receive_file-create_send_file_example =
    receive_file-create_send_file with_file (λ key iv plain size. refl) ann bob (98 ∷ []) (99 ∷ [])
      (7 ∷ 8 ∷ []) (hex_id id_bytes) (hex_id new_id) shared_key 4 [] ann_id
      (knows_name _ (98 ∷ []) (hex_id new_id)) (shares_key _ (98 ∷ []) (hex_id new_id))
      (shares_key _ (97 ∷ []) (hex_id id_bytes)) (length-replicate {A = ℕ} 16 1) (omega arith)
      (unfold aes_encrypt in omega arith) refl refl

abbrev row : Bytes → Bytes → ClientRow
row id name = record { id = id; user_name = name; public_key = replicate 160 1 }

abbrev pub two_clients : Database
two_clients = record {
  clients = row id_bytes (97 ∷ []) ∷ row new_id (98 ∷ []) ∷ [];
  messages = [];
  sequence = 0;
  variable_limit = 32766;
}

apart : (xs ys : Bytes) → str_eq xs ys ≡ false → ys ≢ xs
apart xs ys h e = let same : str_eq xs ys ≡ true = ap (str_eq xs) e ∙ str_eq_refl xs in cc

pub two_clients-IsSound : IsSound two_clients
unfolding IsIncreasing IsDistinct le_bytes
two_clients-IsSound = record {
  increasing = tt;
  bounded = tt;
  ids = ((apart id_bytes new_id (unfold str_eq in refl), tt), (tt, tt));
  variables = omega arith;
  names = ((apart (97 ∷ []) (98 ∷ []) (unfold str_eq in refl), tt), (tt, tt));
}

round-send_text_example :
    let request =
      new_send_message
        (hex_id id_bytes)
        client_version
        (hex_id new_id)
        send_text_message
        (aes_encrypt plain_env shared_key (104 ∷ 105 ∷ []) 2) in
    let db' = database_after 1 [] two_clients request in
    (round
        (online plain_env zeros 1 [] two_clients)
        (waiting_client ann (text "150" ∷ (98 ∷ []) ∷ (104 ∷ 105 ∷ []) ∷ []) [] 0)
      ≡ running (waiting_client ann [] ([] ++ (text "Message sent successfully.\n" ∷ [])) 1))
    × (round (online plain_env zeros 1 [] db') (waiting_client bob (text "140" ∷ []) [] 0)
        ≡ running (waiting_client bob [] ([] ++ (shown_text (97 ∷ []) (104 ∷ 105 ∷ []) ∷ [])) 1))
    × (pull_client_messages new_id
          (database_after 1 [] db' (new_pull_messages (hex_id new_id) client_version))
        ≡ [])
round-send_text_example =
    round-send_text plain_env (λ key iv plain size. refl) zeros zeros zeros-Allocates 1 [] []
      two_clients id_bytes new_id shared_key (98 ∷ []) (104 ∷ 105 ∷ []) (97 ∷ []) ann bob [] [] []
      [] 0 0 id_bytes-IsId new_id-IsId ann_id (knows_name _ (98 ∷ []) (hex_id new_id))
      (shares_key _ (98 ∷ []) (hex_id new_id)) bob_id (names_id _ (97 ∷ []) (hex_id id_bytes))
      (shares_key _ (97 ∷ []) (hex_id id_bytes)) (length-replicate {A = ℕ} 16 1) (omega arith)
      (omega arith) two_clients-IsSound (unfold is_client_id_exist fetchone str_eq le_bytes in refl)
      (unfold is_client_id_exist fetchone str_eq le_bytes in refl)
      (unfold pull_client_messages select in refl) (omega arith) (unfold aes_encrypt in omega arith)
      (unfold aes_encrypt in omega arith)
