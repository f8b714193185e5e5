-- ===== src/UserCommand.antt =====
-- client/UserCommand.h and .cpp: the commands of the user and the requests made from them.
use instant_messaging_progra.Base.{
  to_u32, length, Bytes, Bool, true, false, Option, none, some, Result, ok, throw, exception, text,
  is_empty, if◌then◌else◌,
}
use instant_messaging_progra.Base.Exec.{Exec, pure, lift, ◌>>=◌, ◌>>◌}
use instant_messaging_progra.Common.{
  client_version, request_symmetric_key, send_symmetric_key, send_text_message, send_file,
}
use instant_messaging_progra.Environment.{Environment, generate_key, new_aes, aes_encrypt}
use instant_messaging_progra.Base64Wrapper
use instant_messaging_progra.RsaWrapper.Private
use instant_messaging_progra.RsaWrapper.Public
use instant_messaging_progra.ClientInMemoryDataManager.{
  get_private_key, get_client_id, set_user_name, get_client_client_id, get_client_symmetric_key,
  get_client_public_key, add_symmetric_key,
}
use instant_messaging_progra.ServerRequest.{
  ServerRequest, new_register, new_list_clients, new_get_public_key, new_send_message,
  new_pull_messages,
}
use instant_messaging_progra.World.{World, ask, tell, attempt, draw}

-- The classes that implement IUserCommand.
pub data UserCommand : Type 0 where
  register : Bytes → UserCommand
  clients_list : UserCommand
  request_public_key : Bytes → UserCommand
  request_waiting_messages : UserCommand
  send_text : Bytes → Bytes → UserCommand
  send_request_symmetric_key : Bytes → UserCommand
  send_your_symmetric_key : Bytes → UserCommand
  send_file_command : Bytes → Bytes → UserCommand
  exit_client : UserCommand

unfoldable pub is_client_done : UserCommand → Bool
is_client_done exit_client = true
is_client_done _ = false

unfoldable pub fake_id : Bytes
fake_id = text "CB10D6FB5FD741F39BE43BC3F0B7564C"

module _ (env : Environment) where
  unfoldable pub create_register : Bytes → Exec World ServerRequest
  create_register name = do
    tell (set_user_name name)
    private_key ← ask get_private_key
    wrapper ← lift (Private.load env (Base64Wrapper.decode env private_key))
    pure (new_register fake_id client_version name (Private.get_public_key env wrapper))

  unfoldable pub create_get_public_key : Bytes → Exec World ServerRequest
  create_get_public_key target = do
    id ← ask get_client_id
    target_id ← ask (get_client_client_id target)
    pure (new_get_public_key id client_version target_id)

  unfoldable pub create_send_text : Bytes → Bytes → Exec World ServerRequest
  create_send_text target message = do
    id ← ask get_client_id
    target_id ← ask (get_client_client_id target)
    symmetric_key ← ask (get_client_symmetric_key target_id true)
    aes ← lift (new_aes symmetric_key)
    pure (
        new_send_message id client_version target_id send_text_message
          (aes_encrypt env aes message (to_u32 (length message))))

  unfoldable pub create_send_request_symmetric_key : Bytes → Exec World ServerRequest
  create_send_request_symmetric_key target = do
    id ← ask get_client_id
    target_id ← ask (get_client_client_id target)
    pure (new_send_message id client_version target_id request_symmetric_key (text ""))

  -- A fresh key: four random numbers of 32 bits.
  unfoldable pub make_symmetric_key : Bytes → Bytes → Exec World Bytes
  make_symmetric_key target_id symmetric_key =
      if is_empty symmetric_key
      then (do
        place ← draw 4
        let key = generate_key env.rdrand32 place 4
        attempt (add_symmetric_key target_id key)
        pure key)
      else pure symmetric_key

  unfoldable pub create_send_symmetric_key : Bytes → Exec World ServerRequest
  unfolding make_symmetric_key
  create_send_symmetric_key target = do
    id ← ask get_client_id
    target_id ← ask (get_client_client_id target)
    old_key ← ask (get_client_symmetric_key target_id false)
    public_key ← ask (get_client_public_key target_id)
    symmetric_key ← make_symmetric_key target_id old_key
    wrapper ← lift (Public.load env public_key)
    place ← draw 1
    encrypted ← lift (Public.encrypt env place wrapper symmetric_key)
    pure (new_send_message id client_version target_id send_symmetric_key encrypted)

  abbrev pub content_of : Option Bytes → Result Bytes
  content_of none = throw (exception "file not found")
  content_of (some content) = ok content

  unfoldable pub create_send_file : Bytes → Bytes → Exec World ServerRequest
  create_send_file target path = do
    id ← ask get_client_id
    target_id ← ask (get_client_client_id target)
    symmetric_key ← ask (get_client_symmetric_key target_id true)
    aes ← lift (new_aes symmetric_key)
    content ← lift (content_of (env.read_file path))
    pure (
        new_send_message id client_version target_id send_file
          (aes_encrypt env aes content (to_u32 (length content))))

  unfoldable pub create_server_request : UserCommand → Exec World ServerRequest
  unfolding create_register create_get_public_key create_send_text create_send_request_symmetric_key
      create_send_symmetric_key create_send_file
  create_server_request (register name) = create_register name
  create_server_request clients_list = do
    id ← ask get_client_id
    pure (new_list_clients id client_version)
  create_server_request (request_public_key target) = create_get_public_key target
  create_server_request request_waiting_messages = do
    id ← ask get_client_id
    pure (new_pull_messages id client_version)
  create_server_request (send_text target message) = create_send_text target message
  create_server_request (send_request_symmetric_key target) =
      create_send_request_symmetric_key target
  create_server_request (send_your_symmetric_key target) = create_send_symmetric_key target
  create_server_request (send_file_command target path) = create_send_file target path
  create_server_request exit_client = lift (throw (exception "not supposed to be called"))
