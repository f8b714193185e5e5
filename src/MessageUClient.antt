-- ===== src/MessageUClient.antt =====
-- client/MessageUClient.h and .cpp: the start of the client, and the loop that carries out one
-- command after another. The text that goes to std::cerr is not modelled.
pub mod UserInfo
pub mod Agreement
pub mod Rounds
pub mod Ending
pub mod Defined
pub mod Fitting
pub mod Opening
pub mod Steady
pub mod Unbroken
use instant_messaging_progra.Base.{
  ℕ, zero, suc, ◌+◌, List, [], ◌∷◌, ◌++◌, Bytes, Bool, true, false, not, Option, none, some, Result,
  ok, throw, stuck, exception, if◌then◌else◌, text, is_empty, ◌≡◌,
}
use instant_messaging_progra.Base.Exec.{Exec, pure, lift, ◌>>=◌, ◌>>◌}
use instant_messaging_progra.Environment.{Environment}
use instant_messaging_progra.Base64Wrapper
use instant_messaging_progra.RsaWrapper.Private
use instant_messaging_progra.InfoFiles.{read_server_info, read_user_info}
use instant_messaging_progra.ClientInMemoryDataManager.{
  DataManager, new_data_manager, set_private_key, set_client_id, set_user_name,
}
use instant_messaging_progra.ServerRequest.{ServerRequest}
use instant_messaging_progra.ServerResponse.{
  ServerResponse, ResponseBase, Allocator, general_error, register_success, list_clients_success,
  public_key_success, message_sent_success, pull_messages_success,
}
use instant_messaging_progra.ServerResponse.Handle.{handle_response}
use instant_messaging_progra.TcpNetworkClientManager.{Connection, handle_request}
use instant_messaging_progra.UserCommand.{UserCommand, is_client_done, create_server_request}
use instant_messaging_progra.UserCommandConsoleParser.{get_next_command}
use instant_messaging_progra.World.{World, tell, draw}

module _ (env : Environment) where
  -- The branches of init for a missing and for an existing my.info. The result is isUserRegistered.
  unfoldable pub load_client : Option Bytes → Exec World Bool
  load_client none = do
    place ← draw 1
    tell (
        set_private_key
          (Base64Wrapper.encode env (Private.get_private_key env (Private.create env place))))
    pure false
  load_client (some file) = do
    (user_name, client_id, private_key) ← lift (read_user_info env file)
    tell (set_user_name user_name)
    tell (set_client_id client_id)
    tell (set_private_key private_key)
    pure true

  abbrev look : Exec World (Option Bytes)
  look w = (ok w.user_info, w)

  unfoldable pub init : Exec World Bool
  unfolding load_client
  init = do
    lift (read_server_info env env.server_info)
    tell (λ _. new_data_manager)
    user_info ← look
    load_client user_info

-- getResponseText and isResponseRegisterSuccess
abbrev pub base_of : ServerResponse → ResponseBase
base_of (general_error b) = b
base_of (register_success b _ _) = b
base_of (list_clients_success b _ _ _) = b
base_of (public_key_success b _ _) = b
base_of (message_sent_success b _ _) = b
base_of (pull_messages_success b _ _) = b

abbrev pub is_response_register_success : ServerResponse → Bool
is_response_register_success (register_success b client_id completed) = completed
is_response_register_success _ = false

-- The client between two rounds of its loop: `input` is what standard input still holds, `shown`
-- what displayCommandResponse was given, `requests` how many connections were made.
pub record Client : Type 0 where
  pub world : World
  pub is_user_registered : Bool
  pub input : List Bytes
  pub shown : List Bytes
  pub requests : ℕ

pub data Outcome : Type 0 where
  running finished : Client → Outcome
  broken : Client → Outcome

-- Everything that the loop takes from outside: the n-th connection is `connections n`.
pub record Surroundings : Type 0 where
  pub env : Environment
  pub alloc : Allocator
  pub connections : ℕ → Connection

abbrev pub in_world : {A : Type 0} → Exec World A → Exec Client A
in_world m c = let (r, w) = m c.world in (r, record c { world = w })

module _ (s : Surroundings) where
  abbrev pub exchange : ServerRequest → Exec Client ServerResponse
  exchange request c = (
    handle_request s.alloc (s.connections c.requests) request,
    record c { requests = suc c.requests },
  )

  -- createServerRequest, HandleRequest and handleResponse, one after another.
  unfoldable pub carry_out : UserCommand → Exec Client ServerResponse
  carry_out command = do
    request ← in_world (create_server_request s.env command)
    response ← exchange request
    in_world (handle_response s.env response)

  unfoldable pub display : Bytes → Client → Client
  display t c = record c { shown = c.shown ++ (t ∷ []) }

  -- What follows the handling of the response, or the `catch`.
  unfoldable pub conclude : Result ServerResponse × Client → Outcome
  unfolding display
  conclude (ok response, c) = running (record (display (base_of response).response_text c) {
    is_user_registered =
        if c.is_user_registered then true else is_response_register_success response;
  })
  conclude (throw e, c) = running (display e.what c)
  conclude (stuck f, c) = broken c

  unfoldable pub obey : Result UserCommand → Client → Outcome
  unfolding carry_out conclude display
  obey (ok command) c =
      if is_client_done command
      then finished (display (text "Client finished successfully.\nGoodbye!") c)
      else conclude (carry_out command c)
  obey (throw e) c = running (display e.what c)
  obey (stuck f) c = broken c

  -- The body of the `while` loop of startClient.
  unfoldable pub round : Client → Outcome
  unfolding obey
  round c =
      let (command, input) = get_next_command (not c.is_user_registered) c.input in
      obey command (record c { input = input })

  -- At most so many rounds of the `while` loop.
  unfoldable pub run : ℕ → Client → Outcome
  run zero c = running c
  run (suc rounds) c = elim (round c) [
    | running c' ↦ run rounds c'
    | finished c' ↦ finished c'
    | broken c' ↦ broken c'
  ]

-- The client after `init`, and the runs of the loop. A run ends where a round breaks out of it.
abbrev pub started : World → Bool → List Bytes → Client
started w registered input = record {
  world = w;
  is_user_registered = registered;
  input = input;
  shown = [];
  requests = 0;
}

pub data Reaches (s : Surroundings) : Client → Client → Type 0 where
  here : {c : Client} → Reaches s c c
  later : {c c' c'' : Client} → round s c ≡ running c' → Reaches s c' c'' → Reaches s c c''

module _ (s : Surroundings) where
  abbrev after_init : ℕ → List Bytes → Result Bool × World → Outcome
  after_init rounds input (ok registered, w) = run s rounds (started w registered input)
  after_init rounds input (throw e, w) = finished (started w false input)
  after_init rounds input (stuck f, w) = broken (started w false input)

  -- startClient, with at most so many rounds of its loop.
  unfoldable pub start_client : ℕ → World → List Bytes → Outcome
  start_client rounds w input = after_init rounds input (init s.env w)
