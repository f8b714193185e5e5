-- ===== src/MessageUClient/Agreement.antt =====
-- The requests and responses of a command (client/UserCommand.cpp, client/ServerResponse.cpp) and
-- the maps of the data manager, which they keep in agreement.
use instant_messaging_progra.Base.{
  ℕ, List, [], ◌∷◌, Bytes, Option, none, some, Result, ok, throw, stuck, ◌≡◌, refl, ◌∙◌, arith, ◌⊎◌,
  is_empty, inl, inr,
}
use instant_messaging_progra.Base.Exec.{
  Keeps, keeps, pure-Keeps, lift-Keeps, >>=-Keeps, try_catch-Keeps,
}
use instant_messaging_progra.Common.{
  MessageType, request_symmetric_key, send_symmetric_key, send_text_message, send_file, unknown,
}
use instant_messaging_progra.Environment.{Environment}
use instant_messaging_progra.ClientInMemoryDataManager.{
  DataManager, set_client_id, set_user_name, insert_client, insert_clients_data, add_public_key,
  add_symmetric_key,
}
use instant_messaging_progra.ClientInMemoryDataManager.Consistency.{
  IsConsistent, insert_clients_data-IsConsistent, add_keys-IsConsistent,
}
use instant_messaging_progra.ServerResponse.{
  ServerResponse, ClientDataFromServer, MessageDataFromServer, general_error, register_success,
  list_clients_success, public_key_success, message_sent_success, pull_messages_success,
}
use instant_messaging_progra.ServerResponse.Handle.{
  open_user_info, write_user_info, write_file, shown_message, handle_register, decrypte_message,
  receive_symmetric_key, receive_text, receive_file, message_body, handle_message, handle_messages,
  handle_response,
}
use instant_messaging_progra.UserCommand.{
  UserCommand, register, clients_list, request_public_key, request_waiting_messages, send_text,
  send_request_symmetric_key, send_your_symmetric_key, send_file_command, exit_client,
  create_server_request, create_send_symmetric_key, create_register, create_get_public_key,
  create_send_text, create_send_request_symmetric_key, create_send_file, make_symmetric_key,
}
use instant_messaging_progra.World.{World, ask, tell, attempt, draw}

-- What the setters of the data manager keep true of it; nothing else of the client's own code changes
-- a data manager that is in use.
pub record Settled (P : DataManager → Type 0) : Type 0 where
  pub own_id : (id : Bytes) (m : DataManager) → P m → P (set_client_id id m)
  pub own_name : (name : Bytes) (m : DataManager) → P m → P (set_user_name name m)
  pub listing :
      (found : List ClientDataFromServer) (m : DataManager) → P m → P (insert_clients_data found m)
  pub public_keys :
      (id key : Bytes) (m m' : DataManager) → P m → add_public_key id key m ≡ ok m' → P m'
  pub symmetric_keys :
      (id key : Bytes) (m m' : DataManager) → P m → add_symmetric_key id key m ≡ ok m' → P m'

module _ {P : DataManager → Type 0} (settled : Settled P) where
  abbrev Agrees : World → Type 0
  Agrees w = P w.manager

  ask-Agrees : {A : Type 0} (f : DataManager → Result A) → Keeps Agrees (ask f)
  ask-Agrees f = keeps Agrees _ (λ w h. h)

  draw-Agrees : (n : ℕ) → Keeps Agrees (draw n)
  draw-Agrees n = keeps Agrees _ (λ w h. h)

  attempt-Agrees :
      (f : DataManager → Result DataManager)
      → ((m m' : DataManager) → P m → f m ≡ ok m' → P m')
      → Keeps Agrees (attempt f)
  attempt-Agrees f hf = keeps Agrees _ go
    where
      by_result :
          (w : World) (h : Agrees w) (r : Result DataManager)
          → f w.manager ≡ r
          → Agrees (attempt f w).1
      by_result w h (ok m') e = rw e (hf w.manager m' h e)
      by_result w h (throw x) e = rw e h
      by_result w h (stuck x) e = rw e h

      go : (w : World) → Agrees w → Agrees (attempt f w).1
      go w h = by_result w h (f w.manager) refl

  add_symmetric_key-Agrees : (id key : Bytes) → Keeps Agrees (attempt (add_symmetric_key id key))
  add_symmetric_key-Agrees id key =
      attempt-Agrees (add_symmetric_key id key) (settled.symmetric_keys id key)

  add_public_key-Agrees : (id key : Bytes) → Keeps Agrees (attempt (add_public_key id key))
  add_public_key-Agrees id key = attempt-Agrees (add_public_key id key) (settled.public_keys id key)

  set_client_id-Agrees : (id : Bytes) → Keeps Agrees (tell (set_client_id id))
  set_client_id-Agrees id = keeps Agrees _ (λ w h. settled.own_id id w.manager h)

  set_user_name-Agrees : (name : Bytes) → Keeps Agrees (tell (set_user_name name))
  set_user_name-Agrees name = keeps Agrees _ (λ w h. settled.own_name name w.manager h)

  insert_clients_data-Agrees :
      (found : List ClientDataFromServer) → Keeps Agrees (tell (insert_clients_data found))
  insert_clients_data-Agrees found = keeps Agrees _ (λ w h. settled.listing found w.manager h)

  ruleset agreement = (>>=-Keeps, try_catch-Keeps, pure-Keeps, lift-Keeps, ask-Agrees, draw-Agrees)

  make_symmetric_key-Agrees :
      (env : Environment) (id old : Bytes) → Keeps Agrees (make_symmetric_key env id old)
  unfolding make_symmetric_key is_empty
  make_symmetric_key-Agrees env id [] = search (agreement, add_symmetric_key-Agrees)
  make_symmetric_key-Agrees env id (b ∷ old) = pure-Keeps Agrees (b ∷ old)

  pub create_server_request-Settled :
      (env : Environment) (command : UserCommand) → Keeps Agrees (create_server_request env command)
  unfolding create_server_request create_register create_get_public_key create_send_text
      create_send_request_symmetric_key create_send_symmetric_key create_send_file
  create_server_request-Settled env (register name) = search (agreement, set_user_name-Agrees)
  create_server_request-Settled env clients_list = search agreement
  create_server_request-Settled env (request_public_key target) = search agreement
  create_server_request-Settled env request_waiting_messages = search agreement
  create_server_request-Settled env (send_text target message) = search agreement
  create_server_request-Settled env (send_request_symmetric_key target) = search agreement
  create_server_request-Settled env (send_your_symmetric_key target) =
      search (agreement, make_symmetric_key-Agrees) depth 12
  create_server_request-Settled env (send_file_command target path) = search agreement depth 12
  create_server_request-Settled env exit_client = search agreement

  decrypte_message-Agrees :
      (env : Environment) (m : MessageDataFromServer) → Keeps Agrees (decrypte_message env m)
  unfolding decrypte_message
  decrypte_message-Agrees env m = search agreement

  write_file-Agrees : (path content : Bytes) → Keeps Agrees (write_file path content)
  write_file-Agrees path content = keeps Agrees _ (λ w h. h)

  open_user_info-Agrees : Keeps Agrees open_user_info
  open_user_info-Agrees = keeps Agrees _ (λ w h. h)

  write_user_info-Agrees : (more : Bytes) → Keeps Agrees (write_user_info more)
  write_user_info-Agrees more = keeps Agrees _ (λ w h. h)

  message_body-Agrees :
      (env : Environment) (m : MessageDataFromServer) (t : MessageType) (shown : Bytes)
      → Keeps Agrees (message_body env m t shown)
  unfolding message_body receive_symmetric_key receive_text receive_file
  message_body-Agrees env m request_symmetric_key shown = search agreement
  message_body-Agrees env m send_symmetric_key shown =
      search (agreement, add_symmetric_key-Agrees) depth 8
  message_body-Agrees env m send_text_message shown = search (agreement, decrypte_message-Agrees)
  message_body-Agrees env m send_file shown =
      search (agreement, decrypte_message-Agrees, write_file-Agrees)
  message_body-Agrees env m (unknown n) shown = search agreement

  shown_message-Agrees :
      (env : Environment) (m : MessageDataFromServer) (shown : Bytes) (name : Option Bytes)
      → Keeps Agrees (shown_message env m shown name)
  shown_message-Agrees env m shown none = search agreement
  shown_message-Agrees env m shown (some name) = search (agreement, message_body-Agrees)

  handle_messages-Agrees :
      (env : Environment) (ms : List MessageDataFromServer) (shown : Bytes)
      → Keeps Agrees (handle_messages env ms shown)
  unfolding handle_messages handle_message
  handle_messages-Agrees env [] shown = search agreement
  handle_messages-Agrees env (m ∷ ms) shown =
      search (agreement, shown_message-Agrees, handle_messages-Agrees env ms)

  pub handle_response-Settled :
      (env : Environment) (response : ServerResponse) → Keeps Agrees (handle_response env response)
  unfolding handle_response handle_register
  handle_response-Settled env (general_error base) = search agreement
  handle_response-Settled env (register_success base client_id completed) =
      search (agreement, open_user_info-Agrees, write_user_info-Agrees, set_client_id-Agrees) depth
        12
  handle_response-Settled env (list_clients_success base b n found) =
      search (agreement, insert_clients_data-Agrees)
  handle_response-Settled env (public_key_success base client_id public_key) =
      search (agreement, add_public_key-Agrees)
  handle_response-Settled env (message_sent_success base client_id message_id) = search agreement
  handle_response-Settled env (pull_messages_success base b []) = search agreement
  handle_response-Settled env (pull_messages_success base b (m ∷ ms)) =
      search (agreement, handle_messages-Agrees)

-- The client's own id and name are in neither map.
pub IsConsistent-Settled : Settled IsConsistent
unfolding set_client_id set_user_name
IsConsistent-Settled = record {
  own_id = λ id m h. record { named = h.named; keyed = h.keyed; listed = h.listed };
  own_name = λ name m h. record { named = h.named; keyed = h.keyed; listed = h.listed };
  listing = λ found m h. insert_clients_data-IsConsistent found m h;
  public_keys = λ id key m m' h e. add_keys-IsConsistent m m' id key h (inl e);
  symmetric_keys = λ id key m m' h e. add_keys-IsConsistent m m' id key h (inr e);
}

insert_client-private_key :
    (c : ClientDataFromServer) (m : DataManager) → (insert_client c m).private_key ≡ m.private_key
unfolding insert_client
insert_client-private_key c m = ground arith

add_key-private_key :
    (id key : Bytes) (m m' : DataManager)
    → (add_public_key id key m ≡ ok m') ⊎ (add_symmetric_key id key m ≡ ok m')
    → m'.private_key ≡ m.private_key
unfolding add_public_key add_symmetric_key
add_key-private_key id key m m' (inl e) = ground arith
add_key-private_key id key m m' (inr e) = ground arith

insert_clients_data-private_key :
    (found : List ClientDataFromServer) (m : DataManager)
    → (insert_clients_data found m).private_key ≡ m.private_key
unfolding insert_clients_data insert_client
insert_clients_data-private_key [] m = refl
insert_clients_data-private_key (c ∷ found) m =
    insert_clients_data-private_key found (insert_client c m) ∙ insert_client-private_key c m

-- The private key stays the same.
pub private_key-Settled : (key : Bytes) → Settled (λ m. m.private_key ≡ key)
unfolding set_client_id set_user_name add_public_key add_symmetric_key
private_key-Settled key = record {
  own_id = λ id m h. h;
  own_name = λ name m h. h;
  listing = λ found m h. insert_clients_data-private_key found m ∙ h;
  public_keys = λ id k m m' h e. add_key-private_key id k m m' (inl e) ∙ h;
  symmetric_keys = λ id k m m' h e. add_key-private_key id k m m' (inr e) ∙ h;
}
