-- ===== src/Server/Events/Sent.antt =====
-- Where everything is sent, the session of the loop (server/message_u_server.py) leaves the database of
-- the session that Server.Sessions follows.
use instant_messaging_progra.Base.{ℕ, ◌≡◌, refl, ◌∙◌, List, Bytes, Result, ok, throw, stuck}
use instant_messaging_progra.Base.Exec.{Exec, continue, lift, try_catch, handle, pure, ◌>>=◌, ◌>>◌}
use instant_messaging_progra.Server.Responses.{ResponseHandler, create_response}
use instant_messaging_progra.Server.Storage.{Database}
use instant_messaging_progra.Server.Manager.{after_send_process}
use instant_messaging_progra.Server.Sessions.{respond, session, sent_partitions}
use instant_messaging_progra.Server.Events.{answer, serve}

module _ (rounds : ℕ) (fresh : Bytes) (input : List Bytes) (db : Database) where
  after_catch : (m : Exec Database (Unit {0})) → (try_catch m (pure tt) db).1 ≡ (m db).1
  after_catch m = by_result (m db).0
    where
      by_result : (r : Result (Unit {0})) → (handle r (pure tt) (m db).1).1 ≡ (m db).1
      by_result (ok u) = refl
      by_result (throw e) = refl
      by_result (stuck f) = refl

  answer-session : (answer rounds fresh input (ok tt) db).1 ≡ (session rounds fresh input db).1
  unfolding answer session
  answer-session = by_handler (respond rounds fresh input db).0 (respond rounds fresh input db).1
    where
      by_after :
          (r : Result (Unit {0})) (db' : Database) (parts : List Bytes)
          → db'
            ≡ (continue (handle r (pure tt) db').0 (λ u. pure parts) (handle r (pure tt) db').1).1
      by_after (ok u) db' parts = refl
      by_after (throw e) db' parts = refl
      by_after (stuck f) db' parts = refl

      by_response :
          (h : ResponseHandler) (r : Result Bytes) (db' : Database)
          → (continue r (λ response. lift (ok tt) >> after_send_process h) db').1
            ≡ (continue r
                (λ response.
                  try_catch (after_send_process h) (pure tt) >> pure (sent_partitions response))
                db').1
      by_response h (ok response) db' =
          by_after (after_send_process h db').0 (after_send_process h db').1
            (sent_partitions response)
      by_response h (throw e) db' = refl
      by_response h (stuck f) db' = refl

      by_handler :
          (r : Result ResponseHandler) (db' : Database)
          → (continue r
              (λ h. lift (create_response h) >>= λ response. lift (ok tt) >> after_send_process h)
              db').1
            ≡ (continue r
                (λ h. lift (create_response h) >>= λ response.
                  try_catch (after_send_process h) (pure tt) >> pure (sent_partitions response))
                db').1
      by_handler (ok h) db' = by_response h (create_response h) db'
      by_handler (throw e) db' = refl
      by_handler (stuck f) db' = refl

  pub serve-session : (serve rounds fresh input (ok tt) db).1 ≡ (session rounds fresh input db).1
  unfolding serve
  serve-session = after_catch (answer rounds fresh input (ok tt)) ∙ answer-session
