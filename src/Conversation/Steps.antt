-- ===== src/Conversation/Steps.antt =====
-- One round of startClient (client/MessageUClient.cpp) whose three steps succeed.
use instant_messaging_progra.Base.{
  ℕ, suc, ◌≡◌, refl, ap, ◌∙◌, ◌++◌, ◌∷◌, [], List, Bytes, false, ok, ◌<◌, ◌≤◌, ◌/◌, length,
}
use instant_messaging_progra.ServerRequest.{ServerRequest}
use instant_messaging_progra.ServerResponse.{Allocator, ServerResponse}
use instant_messaging_progra.ServerResponse.Handle.{handle_response}
use instant_messaging_progra.TcpNetworkClientManager.{handle_request}
use instant_messaging_progra.TcpNetworkClientManager.Send.{write_loop-Encodes}
use instant_messaging_progra.UserCommand.{UserCommand, is_client_done, create_server_request}
use instant_messaging_progra.UserCommandConsoleParser.{get_next_command}
use instant_messaging_progra.MessageUClient.{Surroundings, running, base_of, round}
use instant_messaging_progra.Server.Requests.{Request}
use instant_messaging_progra.Server.Responses.{ResponseHandler}
use instant_messaging_progra.Server.Storage.{Database}
use instant_messaging_progra.Server.Manager
use instant_messaging_progra.Server.Manager.{after_send_process}
use instant_messaging_progra.Server.Understood.{Understood, Understood-Encodes}
use instant_messaging_progra.Server.Answered.{Answered}
use instant_messaging_progra.Server.Exchange.{
  connected, or_error, handle_request-session, session-Answered,
}
use instant_messaging_progra.Conversation.{waiting_client, database_after}
use instant_messaging_progra.World.{World}

module _ (s : Surroundings) (command : UserCommand) (w w' w'' : World)
    (typed rest shown : List Bytes) (requests : ℕ) (request : ServerRequest)
    (response response' : ServerResponse) where
  pub round_lem :
      get_next_command false typed ≡ (ok command, rest)
      → is_client_done command ≡ false
      → create_server_request s.env command w ≡ (ok request, w')
      → handle_request s.alloc (s.connections requests) request ≡ ok response
      → handle_response s.env response w' ≡ (ok response', w'')
      → round s (waiting_client w typed shown requests)
        ≡ running (
            waiting_client w'' rest
              (shown ++ ((base_of response').response_text ∷ []))
              (suc requests))
  unfolding round
  round_lem reads goes_on creates answers handles =
      rw (reads, goes_on, creates, answers, handles) refl

-- The exchange of one request, and the database that it leaves.
module _ (alloc : Allocator) (version rounds : ℕ) (fresh : Bytes) (db db' : Database)
    (request : ServerRequest) (wire : Bytes) (q : Request) (h : ResponseHandler) (answer : Bytes)
    (r : ServerResponse) (version_fits : version < 256) (understood : Understood request wire q)
    (enough : suc (length wire / 1024) ≤ rounds)
    (served : Manager.handle_request fresh q db ≡ (ok h, db'))
    (answered : Answered alloc version h answer r) where
  serves : or_error (Manager.handle_request fresh q db).0 ≡ ok h
  serves = rw served refl

  pub exchange_lem : handle_request alloc (connected rounds fresh db) request ≡ ok r
  exchange_lem =
      handle_request-session alloc version rounds fresh db request wire q h answer r version_fits
        understood enough serves answered

  pub database_after_lem : database_after rounds fresh db request ≡ (after_send_process h db').1
  unfolding database_after
  database_after_lem =
      rw
        (write_loop-Encodes (connected rounds fresh db)
          (λ written partition. unfold connected in refl) request wire
          (Understood-Encodes request wire q understood))
        (ap (λ p. p.1)
            (session-Answered alloc version rounds fresh db request wire q h answer r version_fits
              understood enough serves answered)
          ∙ ap (λ p. (after_send_process h p.1).1) served)
