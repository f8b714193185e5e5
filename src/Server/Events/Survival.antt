-- ===== src/Server/Events/Survival.antt =====
-- No client makes the loop of MessageUServer.start_server (server/message_u_server.py) raise.
use instant_messaging_progra.Base.{
  ltb, length, Bool-cases, inl, inr, ℕ, ◌^◌, ◌≤◌, ◌≡◌, refl, List, [], ◌∷◌, Bytes, IsByte, All,
  Bool, true, false, Option, none, some, Result, ok, throw, stuck, IsDefined, Yields, >>=-IsDefined,
  arith,
}
use instant_messaging_progra.Base.Exec.{Exec, try_catch, handle, pure}
use instant_messaging_progra.Base.Exec.Makes.{defined-Yields, Safe, makes, made, safety}
use instant_messaging_progra.Server.Requests.{
  Request, register_request, list_clients_request, get_public_key_request, send_message_request,
  pull_messages_request,
}
use instant_messaging_progra.Server.Responses.{
  Message, ResponseHandler, register_success_handler, list_clients_success_handler,
  public_key_success_handler, message_sent_success_handler, pull_messages_success_handler,
  general_server_error_handler, pack_number, pack_into, pack_fields, pack_messages, create_response,
}
use instant_messaging_progra.Server.Storage.{
  delete_client_messages, Database, is_in, add_client, save_message,
}
use instant_messaging_progra.Server.Manager.{
  ids_of, look, stored, raise_unless, keep, some_key, handle_pre_request, register_client,
  list_clients, get_client_public_key, send_message, pull_messages, handle_request,
  after_send_process,
}
use instant_messaging_progra.Server.Receiving.{receive}
use instant_messaging_progra.Server.Safety.{receive-IsDefined}
use instant_messaging_progra.Server.Sessions.{respond, session}
use instant_messaging_progra.Server.Events.Sent.{serve-session}
use instant_messaging_progra.Server.Events.Invariant.{IsRunning, is_in-remove}
use instant_messaging_progra.Server.Events.{
  MessageUServer, answer, serve, handle_session, unregister, remove,
}

look-Safe : {A : Type 0} (f : Database → A) → Safe (look f)
look-Safe f = makes (λ a. Unit {0}) _ (λ db. tt)

raise_unless-Safe : (b : Bool) → Safe (raise_unless b)
raise_unless-Safe true = makes (λ a. Unit {0}) _ (λ db. tt)
raise_unless-Safe false = makes (λ a. Unit {0}) _ (λ db. tt)

stored-Safe : (id name key : Bytes) → Safe (λ db. stored (add_client id name key db) db)
unfolding add_client
stored-Safe id name key = makes (λ a. Unit {0}) _ (λ db. ground arith)

keep-Safe :
    (to from : Bytes) (kind : ℕ) (content : Bytes)
    → Safe (λ db. keep (save_message to from kind content db))
unfolding save_message
keep-Safe to from kind content = makes (λ a. Unit {0}) _ (λ db. tt)

some_key-Yields : (key : Option Bytes) → Yields (λ k. Unit {0}) (some_key key)
some_key-Yields none = tt
some_key-Yields (some key) = ground arith

ruleset managed =
    (safety, tt, look-Safe, raise_unless-Safe, stored-Safe, keep-Safe, some_key-Yields)

handle_pre_request-Safe : (id : Bytes) → Safe (handle_pre_request id)
unfolding handle_pre_request
handle_pre_request-Safe id = search managed depth 8

handle_request-Safe : (fresh : Bytes) (q : Request) → Safe (handle_request fresh q)
unfolding handle_request register_client list_clients get_client_public_key send_message
    pull_messages
handle_request-Safe fresh (register_request client_id version name key) = search managed depth 10
handle_request-Safe fresh (list_clients_request client_id version) =
    search (managed, handle_pre_request-Safe) depth 10
handle_request-Safe fresh (get_public_key_request client_id version dest) =
    search (managed, handle_pre_request-Safe) depth 10
handle_request-Safe fresh (send_message_request request) =
    search (managed, handle_pre_request-Safe) depth 12
handle_request-Safe fresh (pull_messages_request client_id version) =
    search (managed, handle_pre_request-Safe) depth 10

pack_number-IsDefined : (k n : ℕ) → IsDefined (pack_number k n)
unfolding pack_number
pack_number-IsDefined k n = ground arith

pack_into-IsDefined : (buffer packed : Bytes) → IsDefined (pack_into buffer packed)
unfolding pack_into
pack_into-IsDefined buffer packed = ground arith

ruleset packed = (>>=-IsDefined, pack_number-IsDefined, pack_into-IsDefined, tt)

pack_messages-IsDefined : (ms : List Message) → IsDefined (pack_messages ms)
unfolding pack_messages
pack_messages-IsDefined [] = tt
pack_messages-IsDefined (m ∷ ms) = search (packed, pack_messages-IsDefined ms) depth 8

pack_fields-IsDefined : (h : ResponseHandler) → IsDefined (pack_fields h)
unfolding pack_fields
pack_fields-IsDefined (register_success_handler version id) = tt
pack_fields-IsDefined (list_clients_success_handler version clients) = tt
pack_fields-IsDefined (public_key_success_handler version id key) = tt
pack_fields-IsDefined (message_sent_success_handler version id number) =
    >>=-IsDefined (pack_number 4 number) _ (pack_number-IsDefined 4 number) (λ packed e. tt)
pack_fields-IsDefined (pull_messages_success_handler version messages size) =
    pack_messages-IsDefined messages
pack_fields-IsDefined (general_server_error_handler version) = tt

create_response-IsDefined : (h : ResponseHandler) → IsDefined (create_response h)
unfolding create_response
create_response-IsDefined h = search (packed, pack_fields-IsDefined) depth 10

delete-Yields :
    (ids : List ℕ) (db : Database) → Yields (λ u. Unit {0}) (delete_client_messages ids db).0
unfolding delete_client_messages
delete-Yields [] db = tt
delete-Yields (id ∷ ids) db = elim (Bool-cases (ltb db.variable_limit (length (id ∷ ids)))) [
  | inl many ↦ rw many tt
  | inr few ↦ rw few tt
]

after_send_process-Safe : (h : ResponseHandler) → Safe (after_send_process h)
unfolding after_send_process
after_send_process-Safe (register_success_handler version id) = makes _ _ (λ db. tt)
after_send_process-Safe (list_clients_success_handler version clients) = makes _ _ (λ db. tt)
after_send_process-Safe (public_key_success_handler version id key) = makes _ _ (λ db. tt)
after_send_process-Safe (message_sent_success_handler version id number) = makes _ _ (λ db. tt)
after_send_process-Safe (pull_messages_success_handler version messages size) =
    makes _ _ (delete-Yields (ids_of messages))
after_send_process-Safe (general_server_error_handler version) = makes _ _ (λ db. tt)

caught :
    (m : Exec Database (Unit {0})) (db : Database)
    → Yields (λ u. Unit {0}) (m db).0
    → (try_catch m (pure tt) db).0 ≡ ok tt
caught m db h = by_result (m db).0 h
  where
    by_result :
        (r : Result (Unit {0})) → Yields (λ u. Unit {0}) r → (handle r (pure tt) (m db).1).0 ≡ ok tt
    by_result (ok u) h = refl
    by_result (throw e) h = refl
    by_result (stuck f) h = absurd h

module _ (rounds : ℕ) (fresh : Bytes) (input : List Bytes) (enough : 2 ^ 23 ≤ rounds)
    (bytes : All (All IsByte) input) where
  receive-Yields : Yields (λ q. Unit {0}) (receive rounds input none none)
  receive-Yields = defined-Yields _ (receive-IsDefined rounds input enough bytes)

  respond-Safe : Safe (respond rounds fresh input)
  unfolding respond
  respond-Safe = search (managed, receive-Yields, handle_request-Safe) depth 8

  create_response-Yields : (h : ResponseHandler) → Yields (λ b. Unit {0}) (create_response h)
  create_response-Yields h = defined-Yields _ (create_response-IsDefined h)

  answer-Safe :
      (sends : Result (Unit {0}))
      → Yields (λ u. Unit {0}) sends
      → Safe (answer rounds fresh input sends)
  unfolding answer
  answer-Safe sends sent =
      search (managed, respond-Safe, create_response-Yields, after_send_process-Safe) depth 8

  serve_returns :
      (sends : Result (Unit {0})) (db : Database)
      → IsDefined sends
      → (serve rounds fresh input sends db).0 ≡ ok tt
  unfolding serve
  serve_returns sends db sent =
      caught (answer rounds fresh input sends) db
        (made (λ u. Unit {0}) _ (answer-Safe sends (defined-Yields sends sent)) db)

  -- Whatever bytes a client sends, and whether sending to it succeeds or throws, _handle_session of
  -- a registered connection returns: the server has carried out the session on its database, the
  -- connection is registered no more, and nothing else has changed; where everything is sent, the
  -- database is the one that a session leaves. The conditions are that the numbers of the
  -- connections grow as they were accepted, that the sends return or throw, and that the rounds of
  -- the receive loop are at least 2^23.
  pub handle_session-serve :
      (conn : ℕ) (sends : Result (Unit {0})) (server : MessageUServer)
      → IsRunning server
      → is_in server.registered conn ≡ true
      → IsDefined sends
      → (handle_session conn rounds fresh input sends server ≡ (
        ok tt,
        record server {
          database = (serve rounds fresh input sends server.database).1;
          registered = remove conn server.registered;
        },
      ))
        × (is_in (remove conn server.registered) conn ≡ false)
        × ((serve rounds fresh input (ok tt) server.database).1
            ≡ (session rounds fresh input server.database).1)
  unfolding handle_session unregister
  handle_session-serve conn sends server running registered sent = (
    rw (serve_returns sends server.database sent, registered) refl,
    is_in-remove conn server.registered running.growing,
    serve-session rounds fresh input server.database,
  )
