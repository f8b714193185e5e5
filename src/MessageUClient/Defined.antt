-- ===== src/MessageUClient/Defined.antt =====
-- The requests and responses of a command (client/UserCommand.cpp, client/ServerResponse.cpp) return
-- or throw, and a request that is made fits the protocol. What is used of Crypto++ and of the file
-- system is listed in Orderly.
use instant_messaging_progra.Base.{
  ℕ, ◌+◌, ◌^◌, ◌<◌, ◌≤◌, List, [], ◌∷◌, Bytes, length, Bool, true, Option, none, some, Result, ok,
  throw, stuck, ◌≡◌, refl, IsDefined, Yields, arith,
}
use instant_messaging_progra.Base.Exec.Makes.{
  defined-Yields, Makes, Safe, makes, made, pure-Makes, lift-Makes, >>=-Makes, >>=-Makes_with,
  try_catch-Makes, safety,
}
use instant_messaging_progra.Environment.{Environment, RsaKey, new_aes, aes_decrypt}
use instant_messaging_progra.ClientInMemoryDataManager.{
  DataManager, get_private_key, get_user_name, get_client_id, get_client_data, get_client_client_id,
  get_client_symmetric_key, get_client_public_key, get_client_user_name, add_public_key,
  add_symmetric_key,
}
use instant_messaging_progra.Common.{
  MessageType, request_symmetric_key, send_symmetric_key, send_text_message, send_file, unknown,
}
use instant_messaging_progra.RsaWrapper.Private
use instant_messaging_progra.ServerResponse.{
  ServerResponse, MessageDataFromServer, general_error, register_success, list_clients_success,
  public_key_success, message_sent_success, pull_messages_success,
}
use instant_messaging_progra.ServerResponse.Handle.{
  open_user_info, write_user_info, write_file, shown_message, handle_register, decrypte_message,
  receive_symmetric_key, receive_text, receive_file, message_body, handle_message, handle_messages,
  handle_response,
}
use instant_messaging_progra.World.{World, ask, tell, attempt, draw}

-- What Crypto++ and the file system give: a call returns or throws; an encryption with RSA is shorter
-- than 2 ^ 32 bytes, one with AES adds at most 16 bytes, and a file has fewer than 2 ^ 31 bytes.
pub record Orderly (env : Environment) : Type 0 where
  pub loads_private : (saved : Bytes) → IsDefined (env.rsa_load_private saved)
  pub loads_public : (saved : Bytes) → IsDefined (env.rsa_load_public saved)
  pub encrypts :
      (place : ℕ) (key : RsaKey) (plain : Bytes)
      → Yields (λ cipher. length cipher < 2 ^ 32) (env.oaep_encrypt place key plain)
  pub decrypts : (key : RsaKey) (cipher : Bytes) → IsDefined (env.oaep_decrypt key cipher)
  pub cbc_size : (key iv plain : Bytes) → length (env.cbc_encrypt key iv plain) ≤ length plain + 16
  pub cbc_decrypts : (key iv cipher : Bytes) → IsDefined (env.cbc_decrypt key iv cipher)
  pub files : (path content : Bytes) → env.read_file path ≡ some content → length content < 2 ^ 31

-- The getters of the data manager.
ask-Safe :
    {A : Type 0} (f : DataManager → Result A) → ((m : DataManager) → IsDefined (f m)) → Safe (ask f)
ask-Safe f h = makes (λ a. Unit {0}) _ (λ w. defined-Yields (f w.manager) (h w.manager))

getters_defined :
    (id name : Bytes) (must : Bool) (m : DataManager)
    → IsDefined (get_private_key m)
      × IsDefined (get_user_name m)
      × IsDefined (get_client_id m)
      × IsDefined (get_client_data id m)
      × IsDefined (get_client_client_id name m)
      × IsDefined (get_client_user_name id m)
      × IsDefined (get_client_symmetric_key id must m)
      × IsDefined (get_client_public_key id m)
      × IsDefined (add_public_key id name m)
      × IsDefined (add_symmetric_key id name m)
unfolding get_private_key get_user_name get_client_id get_client_data get_client_client_id
    get_client_user_name get_client_symmetric_key get_client_public_key add_public_key
    add_symmetric_key
getters_defined id name must m = (
  ground arith,
  ground arith,
  ground arith,
  ground arith,
  ground arith,
  ground arith,
  ground arith,
  ground arith,
  ground arith,
  ground arith,
)

pub get_private_key-Safe : Safe (ask get_private_key)
get_private_key-Safe = ask-Safe get_private_key (λ m. (getters_defined [] [] true m).0)

pub get_user_name-Safe : Safe (ask get_user_name)
get_user_name-Safe = ask-Safe get_user_name (λ m. (getters_defined [] [] true m).1)

pub get_client_id-Safe : Safe (ask get_client_id)
get_client_id-Safe = ask-Safe get_client_id (λ m. (getters_defined [] [] true m).2)

pub get_client_client_id-Safe : (name : Bytes) → Safe (ask (get_client_client_id name))
get_client_client_id-Safe name =
    ask-Safe (get_client_client_id name) (λ m. (getters_defined [] name true m).4)

pub get_client_user_name-Safe : (id : Bytes) → Safe (ask (get_client_user_name id))
get_client_user_name-Safe id =
    ask-Safe (get_client_user_name id) (λ m. (getters_defined id [] true m).5)

pub get_client_symmetric_key-Safe :
    (id : Bytes) (must : Bool) → Safe (ask (get_client_symmetric_key id must))
get_client_symmetric_key-Safe id must =
    ask-Safe (get_client_symmetric_key id must) (λ m. (getters_defined id [] must m).6)

pub get_client_public_key-Safe : (id : Bytes) → Safe (ask (get_client_public_key id))
get_client_public_key-Safe id =
    ask-Safe (get_client_public_key id) (λ m. (getters_defined id [] true m).7)

attempt-Safe :
    (f : DataManager → Result DataManager)
    → ((m : DataManager) → IsDefined (f m))
    → Safe (attempt f)
attempt-Safe f h = makes (λ a. Unit {0}) _ (λ w. by_result w (f w.manager) refl (h w.manager))
  where
    by_result :
        (w : World) (r : Result DataManager)
        → f w.manager ≡ r
        → IsDefined r
        → Yields (λ a. Unit {0}) (attempt f w).0
    by_result w (ok m) e d = rw e tt
    by_result w (throw x) e d = rw e tt
    by_result w (stuck x) e d = absurd d

pub add_public_key-Safe : (id key : Bytes) → Safe (attempt (add_public_key id key))
add_public_key-Safe id key =
    attempt-Safe (add_public_key id key) (λ m. (getters_defined id key true m).8)

pub add_symmetric_key-Safe : (id key : Bytes) → Safe (attempt (add_symmetric_key id key))
add_symmetric_key-Safe id key =
    attempt-Safe (add_symmetric_key id key) (λ m. (getters_defined id key true m).9)

pub tell-Safe : (f : DataManager → DataManager) → Safe (tell f)
tell-Safe f = makes (λ a. Unit {0}) _ (λ w. tt)

pub draw-Safe : (n : ℕ) → Safe (draw n)
draw-Safe n = makes (λ a. Unit {0}) _ (λ w. tt)

pub open_user_info-Safe : Safe open_user_info
open_user_info-Safe = makes (λ a. Unit {0}) _ (λ w. tt)

pub write_user_info-Safe : (more : Bytes) → Safe (write_user_info more)
write_user_info-Safe more = makes (λ a. Unit {0}) _ (λ w. tt)

pub write_file-Safe : (path content : Bytes) → Safe (write_file path content)
write_file-Safe path content = makes (λ a. Unit {0}) _ (λ w. tt)

pub ruleset defined = (
  safety, tt, get_private_key-Safe, get_user_name-Safe, get_client_id-Safe,
  get_client_client_id-Safe, get_client_user_name-Safe, get_client_symmetric_key-Safe,
  get_client_public_key-Safe, add_public_key-Safe, add_symmetric_key-Safe, tell-Safe, draw-Safe,
  open_user_info-Safe, write_user_info-Safe, write_file-Safe,
)

pub new_aes-Yields : (key : Bytes) → Yields (λ aes. Unit {0}) (new_aes key)
unfolding new_aes
new_aes-Yields key = ground arith

module _ (env : Environment) (orderly : Orderly env) where
  pub load_private-Yields : (saved : Bytes) → Yields (λ key. Unit {0}) (Private.load env saved)
  unfolding Private.load
  load_private-Yields saved = defined-Yields _ (orderly.loads_private saved)

  decrypt-Yields :
      (key : RsaKey) (cipher : Bytes) → Yields (λ plain. Unit {0}) (Private.decrypt env key cipher)
  unfolding Private.decrypt
  decrypt-Yields key cipher = defined-Yields _ (orderly.decrypts key cipher)

  aes_decrypt-Yields :
      (key cipher : Bytes) (size : ℕ) → Yields (λ plain. Unit {0}) (aes_decrypt env key cipher size)
  unfolding aes_decrypt
  aes_decrypt-Yields key cipher size = defined-Yields _ (orderly.cbc_decrypts key _ _)

  decrypte_message-Safe : (m : MessageDataFromServer) → Safe (decrypte_message env m)
  unfolding decrypte_message
  decrypte_message-Safe m = search (defined, new_aes-Yields, aes_decrypt-Yields) depth 8

  message_body-Safe :
      (m : MessageDataFromServer) (t : MessageType) (shown : Bytes)
      → Safe (message_body env m t shown)
  unfolding message_body receive_symmetric_key receive_text receive_file
  message_body-Safe m request_symmetric_key shown = search defined
  message_body-Safe m send_symmetric_key shown =
      search (defined, load_private-Yields, decrypt-Yields) depth 10
  message_body-Safe m send_text_message shown = search (defined, decrypte_message-Safe) depth 8
  message_body-Safe m send_file shown = search (defined, decrypte_message-Safe) depth 8
  message_body-Safe m (unknown n) shown = search defined

  shown_message-Safe :
      (m : MessageDataFromServer) (shown : Bytes) (name : Option Bytes)
      → Safe (shown_message env m shown name)
  shown_message-Safe m shown none = search defined
  shown_message-Safe m shown (some name) = search (defined, message_body-Safe) depth 8

  handle_messages-Safe :
      (ms : List MessageDataFromServer) (shown : Bytes) → Safe (handle_messages env ms shown)
  unfolding handle_messages handle_message
  handle_messages-Safe [] shown = search defined
  handle_messages-Safe (m ∷ ms) shown =
      search (defined, shown_message-Safe, handle_messages-Safe ms) depth 8

  -- handleResponse of any response returns or throws.
  pub handle_response-Safe : (response : ServerResponse) → Safe (handle_response env response)
  unfolding handle_response handle_register
  handle_response-Safe (general_error base) = search defined
  handle_response-Safe (register_success base client_id completed) = search defined depth 14
  handle_response-Safe (list_clients_success base b n found) = search defined
  handle_response-Safe (public_key_success base client_id public_key) = search defined
  handle_response-Safe (message_sent_success base client_id message_id) = search defined
  handle_response-Safe (pull_messages_success base b []) = search defined
  handle_response-Safe (pull_messages_success base b (m ∷ ms)) =
      search (defined, handle_messages-Safe) depth 8
