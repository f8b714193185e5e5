-- ===== src/ServerResponse/Handle.antt =====
-- The handleResponse methods of client/ServerResponse.cpp: what a response changes in the client and
-- the text that it shows.
use instant_messaging_progra.Base.{
  to_u32, length, if◌then◌else◌, List, [], ◌∷◌, ◌++◌, Bytes, true, Option, none, some, ok, text,
  to_string,
}
use instant_messaging_progra.Base.Exec.{Exec, pure, lift, try_catch, ◌>>=◌, ◌>>◌}
use instant_messaging_progra.Common.{
  error_message, MessageType, request_symmetric_key, send_symmetric_key, send_text_message,
  send_file, unknown,
}
use instant_messaging_progra.Environment.{Environment, new_aes, aes_decrypt}
use instant_messaging_progra.Base64Wrapper
use instant_messaging_progra.RsaWrapper.Private
use instant_messaging_progra.ClientInMemoryDataManager.{
  get_private_key, get_user_name, set_client_id, get_client_symmetric_key, get_client_user_name,
  insert_clients_data, add_public_key, add_symmetric_key,
}
use instant_messaging_progra.ServerResponse.{
  ClientDataFromServer, MessageDataFromServer, ResponseBase, ServerResponse, general_error,
  register_success, list_clients_success, public_key_success, message_sent_success,
  pull_messages_success,
}
use instant_messaging_progra.World.{World, ask, tell, attempt}

abbrev with_text : Bytes → ResponseBase → ResponseBase
with_text t base = record base { response_text = t }

-- The name CommonConsts::USER_INFO_FILE_NAME.
abbrev pub user_info_file_name : Bytes
user_info_file_name = text "my.info"

-- Opening my.info for output empties it; `<<` appends. A stream that could not be opened writes nothing.
abbrev pub open_user_info : Exec World (Unit {0})
open_user_info w =
    (ok tt, record w { user_info = if w.opens user_info_file_name then some [] else w.user_info })

abbrev appended : Option Bytes → Bytes → Bytes
appended none more = more
appended (some old) more = old ++ more

abbrev pub write_user_info : Bytes → Exec World (Unit {0})
write_user_info more w = (
  ok tt,
  record w {
    user_info =
        if w.opens user_info_file_name then some (appended w.user_info more) else w.user_info;
  },
)

abbrev pub write_file : Bytes → Bytes → Exec World (Unit {0})
write_file path content w =
    (ok tt, record w { files = if w.opens path then (path, content) ∷ w.files else w.files })

-- RegisterSuccessResponse::handleResponse
unfoldable pub handle_register : Bytes → Exec World (Unit {0})
handle_register client_id = do
  open_user_info
  user_name ← ask get_user_name
  write_user_info (user_name ++ text "\n")
  write_user_info (client_id ++ text "\n")
  private_key ← ask get_private_key
  write_user_info private_key
  tell (set_client_id client_id)

unfoldable pub list_text : List ClientDataFromServer → Bytes → Bytes
list_text [] shown = shown
list_text (c ∷ cs) shown = list_text cs (
    shown
    ++ (text "client id: " ++ c.client_id ++ text "\n")
    ++ (text "user name: " ++ c.client_name ++ text "\n")
    ++ text "\n")

module _ (env : Environment) where
  unfoldable pub decrypte_message : MessageDataFromServer → Exec World Bytes
  decrypte_message m = do
    symmetric_key ← ask (get_client_symmetric_key m.client_id true)
    aes ← lift (new_aes symmetric_key)
    lift (aes_decrypt env aes m.message_content (to_u32 (length m.message_content)))

  unfoldable pub receive_symmetric_key : MessageDataFromServer → Bytes → Exec World Bytes
  receive_symmetric_key m shown = do
    private_key ← ask get_private_key
    wrapper ← lift (Private.load env (Base64Wrapper.decode env private_key))
    key ← lift (Private.decrypt env wrapper m.message_content)
    attempt (add_symmetric_key m.client_id key)
    pure (shown ++ text "Symmetric key received\n")

  unfoldable pub receive_text : MessageDataFromServer → Bytes → Exec World Bytes
  unfolding decrypte_message
  receive_text m shown = do plain ← decrypte_message m; pure (shown ++ plain ++ text "\n")

  unfoldable pub receive_file : MessageDataFromServer → Bytes → Exec World Bytes
  unfolding decrypte_message
  receive_file m shown = do
    content ← decrypte_message m
    let path = env.temp_path ++ m.client_id ++ text "." ++ to_string m.message_id
    write_file path content
    pure (shown ++ path ++ text "\n")

  -- The `switch` over the message type; each case catches its exceptions.
  unfoldable pub message_body : MessageDataFromServer → MessageType → Bytes → Exec World Bytes
  unfolding receive_symmetric_key receive_text receive_file
  message_body m request_symmetric_key shown = pure (shown ++ text "Request for symmetric key\n")
  message_body m send_symmetric_key shown =
      try_catch (receive_symmetric_key m shown) (pure (shown ++ text "can't decrypt message\n"))
  message_body m send_text_message shown =
      try_catch (receive_text m shown) (pure (shown ++ text "can't decrypt message\n"))
  message_body m send_file shown =
      try_catch (receive_file m shown) (pure (shown ++ text "can't decrypt message\n"))
  message_body m (unknown n) shown = pure shown

  abbrev pub shown_message : MessageDataFromServer → Bytes → Option Bytes → Exec World Bytes
  shown_message m shown none = pure (shown ++ text "unknown user id\n")
  shown_message m shown (some user_name) =
      message_body m m.message_type
        (shown ++ (text "From " ++ user_name ++ text "\n") ++ text "Content:\n")
      >>= λ body. pure (body ++ text "----<EOM>----:\n\n")

  -- The body of the loop, with the text so far.
  unfoldable pub handle_message : MessageDataFromServer → Bytes → Exec World Bytes
  unfolding message_body
  handle_message m shown = do
    user_name ←
        try_catch (ask (get_client_user_name m.client_id) >>= λ name. pure (some name)) (pure none)
    shown_message m shown user_name

  unfoldable pub handle_messages : List MessageDataFromServer → Bytes → Exec World Bytes
  unfolding handle_message
  handle_messages [] shown = pure shown
  handle_messages (m ∷ ms) shown = do shown' ← handle_message m shown; handle_messages ms shown'

  -- The response after the call: its text, and for a registration its success.
  unfoldable pub handle_response : ServerResponse → Exec World ServerResponse
  unfolding handle_register handle_messages list_text
  handle_response (general_error base) = pure (general_error (with_text error_message base))
  handle_response (register_success base client_id completed) = do
    handle_register client_id
    pure (
        register_success (with_text (text "Registration finished successfully.\n") base) client_id
          true)
  handle_response (list_clients_success base b n found) = do
    tell (insert_clients_data found)
    let shown = list_text found (text "----clients list from server----\n")
    pure (
        list_clients_success
          (with_text (shown ++ text "----end of clients list from server----\n") base) b n found)
  handle_response (public_key_success base client_id public_key) = do
    attempt (add_public_key client_id public_key)
    pure (
        public_key_success (with_text (text "Public key retrieved successfully.\n") base) client_id
          public_key)
  handle_response (message_sent_success base client_id message_id) = pure (
      message_sent_success (with_text (text "Message sent successfully.\n") base) client_id
        message_id)
  handle_response (pull_messages_success base b []) =
      pure (pull_messages_success (with_text (text "No new messages for you.\n") base) b [])
  handle_response (pull_messages_success base b (m ∷ ms)) = do
    shown ← handle_messages (m ∷ ms) base.response_text
    pure (pull_messages_success (with_text shown base) b (m ∷ ms))
