-- ===== src/Server/Manager.antt =====
-- server/message_u_manager.py and _handle_request of server/message_u_server.py: the checks in front
-- of the storage. A call can change the database and then raise. `fresh` is what uuid.uuid4 returns.
use instant_messaging_progra.Base.{
  ℕ, ◌+◌, ◌-◌, Bool, true, false, not, Option, none, some, List, [], ◌∷◌, Bytes, length, Result, ok,
  throw, stuck, exception, is_empty, leb, if◌then◌else◌,
}
use instant_messaging_progra.Base.Exec.{Exec, pure, lift, ◌>>=◌, ◌>>◌}
use instant_messaging_progra.Server.Requests.{
  Request, register_request, list_clients_request, get_public_key_request, send_message_request,
  pull_messages_request,
}
use instant_messaging_progra.Server.Responses.{
  Message, ResponseHandler, register_success_handler, list_clients_success_handler,
  public_key_success_handler, message_sent_success_handler, pull_messages_success_handler,
}
use instant_messaging_progra.Server.Storage
use instant_messaging_progra.Server.Storage.{Database}

abbrev pub server_version : ℕ
server_version = 2

abbrev pub max_pulled_messages_data : ℕ
max_pulled_messages_data = 4294967295

abbrev pub look {ℓ} : {A : Type ℓ} → (Database → A) → Database → Result A × Database
look f db = (ok (f db), db)

abbrev pub stored : Result Database → Database → Result (Unit {0}) × Database
stored (ok db') db = (ok tt, db')
stored (throw e) db = (throw e, db)
stored (stuck f) db = (stuck f, db)

-- The text of an exception is only printed, so one text stands for all.
abbrev pub raise_unless : Bool → Exec Database (Unit {0})
raise_unless true = pure tt
raise_unless false = lift (throw (exception "the server refuses the request"))

unfoldable pub handle_pre_request : Bytes → Exec Database (Unit {0})
handle_pre_request client_id = do
  registered ← look (Storage.is_client_id_exist client_id)
  raise_unless registered

unfoldable pub register_client : Bytes → Bytes → Bytes → Exec Database Bytes
register_client fresh name key = do
  taken ← look (Storage.is_user_name_exist name)
  raise_unless (not taken)
  (λ db. stored (Storage.add_client fresh name key db) db)
  pure fresh

unfoldable pub list_clients : Bytes → Exec Database (List (Bytes × Bytes))
list_clients client_id = do handle_pre_request client_id; look (Storage.list_clients client_id)

-- `if not public_key` is true of an empty key too.
abbrev pub some_key : Option Bytes → Result Bytes
some_key none = throw (exception "the client doesn't exist")
some_key (some key) = if is_empty key then throw (exception "the client doesn't exist") else ok key

unfoldable pub get_client_public_key : Bytes → Bytes → Exec Database Bytes
get_client_public_key client_id dest = do
  handle_pre_request client_id
  key ← look (Storage.get_client_public_key dest)
  lift (some_key key)

abbrev pub keep : ℕ × Database → Result ℕ × Database
keep (id, db) = (ok id, db)

unfoldable pub send_message : Bytes → Bytes → ℕ → Bytes → Exec Database ℕ
send_message client_id to kind content = do
  handle_pre_request client_id
  known ← look (Storage.is_client_id_exist to)
  raise_unless known
  (λ db. keep (Storage.save_message to client_id kind content db))

abbrev pub size_of_message : Message → ℕ
size_of_message m = length m.message_content + (16 + 4 + 1 + 4)

-- The loop of pull_messages: the messages that fit, and their size.
unfoldable pub messages_that_fit : ℕ → List Message → List Message × ℕ
messages_that_fit size [] = ([], size)
messages_that_fit size (m ∷ messages) =
    let (rest, total) = messages_that_fit (size + size_of_message m) messages in
    if leb (size_of_message m) (max_pulled_messages_data - size)
    then (m ∷ rest, total)
    else ([], size)

unfoldable pub pull_messages : Bytes → Exec Database (List Message × ℕ)
pull_messages client_id = do
  handle_pre_request client_id
  messages ← look (Storage.pull_client_messages client_id)
  pure (messages_that_fit 0 messages)

abbrev pub pulled_handler : List Message × ℕ → ResponseHandler
pulled_handler (messages, size) = pull_messages_success_handler server_version messages size

-- MessageUServer._handle_request
unfoldable pub handle_request : Bytes → Request → Exec Database ResponseHandler
handle_request fresh (register_request client_id version name key) = do
  id ← register_client fresh name key
  pure (register_success_handler server_version id)
handle_request fresh (list_clients_request client_id version) = do
  clients ← list_clients client_id
  pure (list_clients_success_handler server_version clients)
handle_request fresh (get_public_key_request client_id version dest) = do
  key ← get_client_public_key client_id dest
  pure (public_key_success_handler server_version dest key)
handle_request fresh (send_message_request request) = do
  id ← send_message request.client_id request.dest_client_id request.message_type request.payload
  pure (message_sent_success_handler server_version request.dest_client_id id)
handle_request fresh (pull_messages_request client_id version) = do
  pulled ← pull_messages client_id
  pure (pulled_handler pulled)

abbrev pub ids_of : List Message → List ℕ
ids_of [] = []
ids_of (m ∷ messages) = m.message_id ∷ ids_of messages

-- MessageUServer._after_send_process
unfoldable pub after_send_process : ResponseHandler → Exec Database (Unit {0})
after_send_process (pull_messages_success_handler version messages size) db =
    Storage.delete_client_messages (ids_of messages) db
after_send_process _ db = (ok tt, db)
