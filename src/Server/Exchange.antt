-- ===== src/Server/Exchange.antt =====
-- A whole exchange: HandleRequest of client/TCPNetworkClientManager.cpp connected with a session of
-- server/message_u_server.py, where each receive returns a partition as it was sent.
use instant_messaging_progra.Base.{
  ◌∷◌, ltb, Bool-cases, inl, inr, ℕ, suc, ◌+◌, ◌-◌, ◌*◌, ◌/◌, ◌≤◌, ◌<◌, ◌≡◌, refl, sym, ap, ◌∙◌,
  List, [], Bytes, length, pad, length-pad, replicate, none, ok, throw, stuck, Result, ◌>>=◌, ◌>>◌,
  length-append, arith,
}
use instant_messaging_progra.ServerRequest.{ServerRequest}
use instant_messaging_progra.ServerRequest.Format.{cleared}
use instant_messaging_progra.ServerResponse.{Allocator, ServerResponse}
use instant_messaging_progra.TcpNetworkClientManager.{
  Connection, write_loop, write_fuel, read_loop, read_fuel, handle_request, rethrow,
}
use instant_messaging_progra.TcpNetworkClientManager.Send.{write_loop-Encodes}
use instant_messaging_progra.TcpNetworkClientManager.Reassembly.{Brings}
use instant_messaging_progra.TcpNetworkClientManager.Partitions.{partitions_of}
use instant_messaging_progra.Server.Requests.{Request}
use instant_messaging_progra.Server.Receiving.{receive-more}
use instant_messaging_progra.Server.Understood.{Understood, Understood-Encodes}
use instant_messaging_progra.Server.FromClient.{receive-Understood}
use instant_messaging_progra.Server.Responses.{
  ResponseHandler, register_success_handler, list_clients_success_handler,
  public_key_success_handler, message_sent_success_handler, pull_messages_success_handler,
  general_server_error_handler, buffer_size,
}
use instant_messaging_progra.Base.Exec.{Exec, pure, try_catch}
use instant_messaging_progra.Server.Storage.{Database, delete_client_messages}
use instant_messaging_progra.Server.Manager
use instant_messaging_progra.Server.Manager.{server_version, after_send_process, ids_of}
use instant_messaging_progra.Server.Sessions.{respond, session, sent_partitions, slices}
use instant_messaging_progra.Server.Serving.{nth_read, slices-Brings}
use instant_messaging_progra.Server.Answered.{
  Answered, create_response-Answered, length-response_header, register_answered,
  no_clients_answered, clients_answered, public_key_answered, message_sent_answered,
  no_messages_answered, messages_answered, error_answered,
}
use instant_messaging_progra.Server.Reading.{read_loop-Answered}

-- The server at the other end of a connection, with its database and the id that it would give next.
unfoldable pub connected : ℕ → Bytes → Database → Connection
connected rounds fresh db = record {
  connect = ok tt;
  write = λ written partition. ok tt;
  read = λ written n. (session rounds fresh written db).0 >>= λ parts. nth_read parts n;
}

-- The answer to a request, where an exception is answered with an error.
abbrev pub or_error : Result ResponseHandler → Result ResponseHandler
or_error (ok h) = ok h
or_error (throw e) = ok (general_server_error_handler server_version)
or_error (stuck f) = stuck f

-- What follows the sending changes the database, and an exception of it is caught.
ends :
    (h : ResponseHandler) (db : Database)
    → try_catch (after_send_process h) (pure tt) db ≡ (ok tt, (after_send_process h db).1)
unfolding after_send_process delete_client_messages
ends (register_success_handler version id) db = refl
ends (list_clients_success_handler version clients) db = refl
ends (public_key_success_handler version id key) db = refl
ends (message_sent_success_handler version id number) db = refl
ends (pull_messages_success_handler version [] size) db = refl
ends (pull_messages_success_handler version (m ∷ messages) size) db =
    elim (Bool-cases (ltb db.variable_limit (length (ids_of (m ∷ messages))))) [
      | inl many ↦ rw many refl
      | inr few ↦ rw few refl
    ]
ends (general_server_error_handler version) db = refl

answered_with :
    (m : Exec Database ResponseHandler) (db : Database) (h : ResponseHandler)
    → or_error (m db).0 ≡ ok h
    → try_catch m (pure (general_server_error_handler server_version)) db ≡ (ok h, (m db).1)
answered_with m db h e = by_result (m db).0 (m db).1 e
  where
    by_result :
        (r : Result ResponseHandler) (db' : Database)
        → or_error r ≡ ok h
        → try_catch (λ d. (r, db')) (pure (general_server_error_handler server_version)) db
          ≡ (ok h, db')
    by_result (ok h') db' e' = ap (λ z. (z, db')) e'
    by_result (throw x) db' e' = ap (λ z. (z, db')) e'
    by_result (stuck f) db' e' = cc

Answered-long :
    (alloc : Allocator) (version : ℕ) (h : ResponseHandler) (wire : Bytes) (r : ServerResponse)
    → Answered alloc version h wire r
    → 0 < length wire
Answered-long alloc version h _ _ (register_answered id e) =
    omega (arith, length-append {0}, length-response_header version 2100 16)
Answered-long alloc version h _ _ no_clients_answered =
    omega (arith, length-append {0}, length-response_header version 2101 0)
Answered-long alloc version h _ _ (clients_answered cs size wf whole some fits owned) =
    omega (arith, length-append {0}, length-response_header version 2101 size)
Answered-long alloc version h _ _ (public_key_answered id key e e') =
    omega (arith, length-append {0}, length-response_header version 2102 176)
Answered-long alloc version h _ _ (message_sent_answered id number e fits) =
    omega (arith, length-append {0}, length-response_header version 2103 20)
Answered-long alloc version h _ _ no_messages_answered =
    omega (arith, length-append {0}, length-response_header version 2104 0)
Answered-long alloc version h _ _ (messages_answered to ms size wf whole some fits owned) =
    omega (arith, length-append {0}, length-response_header version 2104 size)
Answered-long alloc version h _ _ error_answered =
    omega (arith, length-append {0}, length-response_header version 9000 0)

-- The partitions of an answer whose buffer has a whole number of them.
sent_partitions-pad :
    (answer : Bytes) (n : ℕ)
    → 1024 * n < length answer
    → length answer ≤ 1024 * suc n
    → sent_partitions (pad (buffer_size (length answer)) answer)
      ≡ slices (suc n) (pad (1024 * suc n) answer)
unfolding sent_partitions buffer_size
sent_partitions-pad answer n some fits =
    let size : (length answer + 1023) / 1024 * 1024 ≡ 1024 * suc n = omega arith in
    let count : (1024 * suc n + 1023) / 1024 ≡ suc n = omega arith in
    rw (size, length-pad (1024 * suc n) answer fits, count) refl

buffer_cleared : cleared [] ≡ replicate 1024 0
unfolding pad
buffer_cleared = refl

sequence :
    (connects : Result (Unit {0})) (writes : Result (List Bytes))
    (reads : List Bytes → Result ServerResponse) (sent : List Bytes) (r : ServerResponse)
    → connects ≡ ok tt
    → writes ≡ ok sent
    → reads sent ≡ ok r
    → rethrow (connects >> (writes >>= reads)) ≡ ok r
unfolding rethrow
sequence connects writes reads sent r e e' e'' = rw (e, e', e'') refl

exchange_steps :
    (alloc : Allocator) (c : Connection) (request : ServerRequest) (sent : List Bytes)
    (r : ServerResponse)
    → c.connect ≡ ok tt
    → write_loop c (write_fuel request) request (cleared []) [] ≡ ok sent
    → read_loop alloc c read_fuel sent 0 none ≡ ok r
    → handle_request alloc c request ≡ ok r
unfolding handle_request
exchange_steps alloc c request sent r connects writes reads =
    let writes' : write_loop c (write_fuel request) request (replicate 1024 0) [] ≡ ok sent =
      ap (λ b. write_loop c (write_fuel request) request b []) (sym buffer_cleared) ∙ writes in
    sequence c.connect _ (λ written. read_loop alloc c read_fuel written 0 none) sent r connects
      writes' reads

module _ (alloc : Allocator) (version rounds : ℕ) (fresh : Bytes) (db : Database)
    (request : ServerRequest) (wire : Bytes) (q : Request) (h : ResponseHandler) (answer : Bytes)
    (r : ServerResponse) (version_fits : version < 256) (understood : Understood request wire q)
    (enough : suc (length wire / 1024) ≤ rounds)
    (served : or_error (Manager.handle_request fresh q db).0 ≡ ok h)
    (answered : Answered alloc version h answer r) where
  respond-Answered :
      respond rounds fresh (partitions_of wire) db ≡ (ok h, (Manager.handle_request fresh q db).1)
  unfolding respond
  respond-Answered =
      rw
        (receive-more (suc (length wire / 1024)) rounds (partitions_of wire) none none q enough
          (receive-Understood request wire q understood))
        (answered_with (Manager.handle_request fresh q) db h served)

  -- The session sends the answer, and the database is that after the request and the deletions.
  pub session-Answered : session rounds fresh (partitions_of wire) db ≡ (
    ok (sent_partitions (pad (buffer_size (length answer)) answer)),
    (after_send_process h (Manager.handle_request fresh q db).1).1,
  )
  unfolding session
  session-Answered =
      rw
        (
          respond-Answered,
          create_response-Answered alloc version h answer r version_fits answered,
          ends h (Manager.handle_request fresh q db).1,
        )
        refl

  answer-Brings : Brings (connected rounds fresh db) (partitions_of wire) 0 answer
  answer-Brings =
      let n = (length answer - 1) / 1024 in
      let long = Answered-long alloc version h answer r answered in
      slices-Brings (connected rounds fresh db) (partitions_of wire) n answer 0 (omega arith)
        (omega arith)
        (λ i.
          unfold connected in
          (ap (λ parts. parts.0 >>= λ p. nth_read p (0 + i)) session-Answered
            ∙ ap (λ parts. nth_read parts (0 + i))
                (sent_partitions-pad answer n (omega arith) (omega arith))
            ∙ ap (nth_read (slices (suc n) (pad (1024 * suc n) answer))) {x = 0 + i} {y = i}
                (omega arith)))

  -- HandleRequest of the client, connected with a session of the server whose receives return the
  -- partitions as they were sent, returns the response that belongs to the server's answer to this
  -- request: the answer of _handle_request on the database, or the general error where it raises.
  -- The conditions are that the request is one that the server understands (Understood), that the
  -- rounds of the receive loop are more than the full partitions of the request, that the server's
  -- version fits one byte, and that the fields of the answer have their sizes (Answered).
  pub handle_request-session : handle_request alloc (connected rounds fresh db) request ≡ ok r
  handle_request-session =
      exchange_steps alloc (connected rounds fresh db) request (partitions_of wire) r
        (unfold connected in refl)
        (write_loop-Encodes (connected rounds fresh db)
          (λ written partition. unfold connected in refl) request wire
          (Understood-Encodes request wire q understood))
        (read_loop-Answered alloc (connected rounds fresh db) (partitions_of wire) version
          (omega arith) h answer r answered answer-Brings)
