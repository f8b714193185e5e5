-- ===== src/Server/Events/Unsent.antt =====
-- A session of server/message_u_server.py whose answer cannot be sent loses no message, and stores at
-- most the one that it was sent.
use instant_messaging_progra.Base.{
  ℕ, suc, ◌≡◌, refl, ap, ◌∙◌, List, [], ◌∷◌, ◌++◌, Bytes, Bool, true, false, Result, ok, stuck,
  none, throw, Exception, ◌⊎◌, inl, inr, str_eq, if◌then◌else◌, arith,
}
use instant_messaging_progra.Base.Exec.{
  Exec, Keeps, keeps, kept, >>=-Keeps, try_catch-Keeps, pure-Keeps, lift-Keeps, lift, handle,
  continue, try_catch, ◌>>=◌,
}
use instant_messaging_progra.Server.Requests.{
  SendMessage, Request, register_request, list_clients_request, get_public_key_request,
  send_message_request, pull_messages_request,
}
use instant_messaging_progra.Server.Responses.{Message}
use instant_messaging_progra.Server.Storage.{
  Database, add_client, save_message, select, is_for, pull_client_messages,
}
use instant_messaging_progra.Server.Mailbox.{select-append}
use instant_messaging_progra.Server.Manager.{
  look, stored, raise_unless, keep, handle_pre_request, register_client, list_clients,
  get_client_public_key, send_message, pull_messages, handle_request,
}
use instant_messaging_progra.Server.Receiving.{receive}
use instant_messaging_progra.Server.Sessions.{respond}
use instant_messaging_progra.Server.Events.{serve}

-- The row of a message that was sent.
abbrev pub stored_message : SendMessage → ℕ → Message
stored_message request id = record {
  message_id = id;
  to_client = request.dest_client_id;
  from_client = request.client_id;
  message_type = request.message_type;
  message_content = request.payload;
}

-- What holds before a call, and what holds after it, whether it returns or throws.
Leaves : {A : Type 0} → (Database → Type 0) → (Database → Type 0) → Exec Database A → Type 0
Leaves P Q m = (db : Database) → P db → Q (m db).1

module _ {A B : Type 0} (P Q : Database → Type 0) where
  -- A call that keeps P, before the one that leads to Q.
  >>=-Leaves :
      (m : Exec Database A) (f : A → Exec Database B)
      → ((db : Database) → P db → Q db)
      → Keeps P m
      → ((a : A) → Leaves P Q (f a))
      → Leaves P Q (m >>= f)
  unfolding Leaves
  >>=-Leaves m f weaken hm hf db p = by_result (m db).0 (m db).1 (kept P m hm db p)
    where
      by_result : (r : Result A) (db' : Database) → P db' → Q (continue r f db').1
      by_result (ok a) db' p' = hf a db' p'
      by_result (throw e) db' p' = weaken db' p'
      by_result (stuck s) db' p' = weaken db' p'

  -- Calls that keep Q, after the one that leads to it.
  >>=-Leaves_first :
      (m : Exec Database A) (f : A → Exec Database B)
      → Leaves P Q m
      → ((a : A) → Keeps Q (f a))
      → Leaves P Q (m >>= f)
  unfolding Leaves
  >>=-Leaves_first m f hm hf db p = by_result (m db).0 (m db).1 (hm db p)
    where
      by_result : (r : Result A) (db' : Database) → Q db' → Q (continue r f db').1
      by_result (ok a) db' q = kept Q (f a) (hf a) db' q
      by_result (throw e) db' q = q
      by_result (stuck s) db' q = q

module _ {A : Type 0} (P Q : Database → Type 0) where
  try_catch-Leaves : (m h : Exec Database A) → Leaves P Q m → Keeps Q h → Leaves P Q (try_catch m h)
  unfolding Leaves
  try_catch-Leaves m h hm hh db p = by_result (m db).0 (m db).1 (hm db p)
    where
      by_result : (r : Result A) (db' : Database) → Q db' → Q (handle r h db').1
      by_result (ok a) db' q = q
      by_result (throw e) db' q = kept Q h hh db' q
      by_result (stuck s) db' q = q

failed-Keeps :
    (P : Database → Type 0) (e : Exception) (f : Unit {0} → Exec Database (Unit {0}))
    → Keeps P (lift (throw e) >>= f)
failed-Keeps P e f = keeps P _ (λ db h. h)

-- The messages and the last id that was given.
Unchanged : List Message → ℕ → Database → Type 0
Unchanged ms n db = (db.messages ≡ ms) × (db.sequence ≡ n)

-- Unchanged, or with one message that this request has sent.
Left : List Message → ℕ → Result Request → Database → Type 0
Left ms n q db =
    (db.messages ≡ ms)
    ⊎ ((request : SendMessage) × (q ≡ ok (send_message_request request))
        × (db.messages ≡ ms ++ (stored_message request (suc n) ∷ [])))

module _ (ms : List Message) (n : ℕ) where
  Unchanged-Left : (q : Result Request) (db : Database) → Unchanged ms n db → Left ms n q db
  unfolding Unchanged Left
  Unchanged-Left q db h = inl h.0

  look-Unchanged : {A : Type 0} (f : Database → A) → Keeps (Unchanged ms n) (look f)
  look-Unchanged f = keeps (Unchanged ms n) (look f) (λ db h. h)

  raise_unless-Unchanged : (b : Bool) → Keeps (Unchanged ms n) (raise_unless b)
  raise_unless-Unchanged true = keeps (Unchanged ms n) _ (λ db h. h)
  raise_unless-Unchanged false = keeps (Unchanged ms n) _ (λ db h. h)

  stored-Unchanged :
      (id name key : Bytes) → Keeps (Unchanged ms n) (λ db. stored (add_client id name key db) db)
  unfolding add_client Unchanged
  stored-Unchanged id name key =
      keeps (Unchanged ms n) _ (λ db h. (ground (arith, h.0), ground (arith, h.1)))

  ruleset unchanged = (
    >>=-Keeps, try_catch-Keeps, pure-Keeps, lift-Keeps, look-Unchanged, raise_unless-Unchanged,
    stored-Unchanged,
  )

  handle_pre_request-Unchanged : (id : Bytes) → Keeps (Unchanged ms n) (handle_pre_request id)
  unfolding handle_pre_request
  handle_pre_request-Unchanged id = search unchanged depth 8

  -- A request that stores no message.
  quiet-Left :
      {A : Type 0} (q : Result Request) (m : Exec Database A)
      → Keeps (Unchanged ms n) m
      → Leaves (Unchanged ms n) (Left ms n q) m
  unfolding Leaves
  quiet-Left q m h db p = Unchanged-Left q (m db).1 (kept (Unchanged ms n) m h db p)

  keep-Left :
      (request : SendMessage)
      → Leaves (Unchanged ms n) (Left ms n (ok (send_message_request request))) (λ db. keep (
          save_message request.dest_client_id request.client_id request.message_type request.payload
            db))
  unfolding Leaves Unchanged Left save_message
  keep-Left request db (same, last) = inr (request, refl, rw (same, last) refl)

  send_message-Left :
      (request : SendMessage)
      → Leaves (Unchanged ms n) (Left ms n (ok (send_message_request request))) (
          send_message request.client_id request.dest_client_id request.message_type
            request.payload)
  unfolding send_message
  send_message-Left request =
      let Q = Left ms n (ok (send_message_request request)) in
      let weaken = Unchanged-Left (ok (send_message_request request)) in
      >>=-Leaves (Unchanged ms n) Q (handle_pre_request request.client_id) _ weaken
        (handle_pre_request-Unchanged request.client_id)
        λ u. >>=-Leaves (Unchanged ms n) Q (look _) _ weaken (look-Unchanged _) λ known.
          >>=-Leaves (Unchanged ms n) Q (raise_unless known) _ weaken (raise_unless-Unchanged known)
            λ v. keep-Left request

  handle_request-Left :
      (fresh : Bytes) (q : Request)
      → Leaves (Unchanged ms n) (Left ms n (ok q)) (handle_request fresh q)
  unfolding handle_request register_client list_clients get_client_public_key pull_messages
  handle_request-Left fresh (register_request client_id version name key) =
      quiet-Left _ _ (search unchanged depth 10)
  handle_request-Left fresh (list_clients_request client_id version) =
      quiet-Left _ _ (search (unchanged, handle_pre_request-Unchanged) depth 10)
  handle_request-Left fresh (get_public_key_request client_id version dest) =
      quiet-Left _ _ (search (unchanged, handle_pre_request-Unchanged) depth 10)
  handle_request-Left fresh (send_message_request request) =
      >>=-Leaves_first (Unchanged ms n) (Left ms n (ok (send_message_request request))) _ _
        (send_message-Left request) (λ id. pure-Keeps _ _)
  handle_request-Left fresh (pull_messages_request client_id version) =
      quiet-Left _ _ (search (unchanged, handle_pre_request-Unchanged) depth 10)

  received-Left :
      (fresh : Bytes) (q : Result Request)
      → Leaves (Unchanged ms n) (Left ms n q) (lift q >>= handle_request fresh)
  unfolding Leaves
  received-Left fresh (ok q) = handle_request-Left fresh q
  received-Left fresh (throw e) = Unchanged-Left (throw e)
  received-Left fresh (stuck s) = Unchanged-Left (stuck s)

  serve-Left :
      (rounds : ℕ) (fresh : Bytes) (input : List Bytes) (e : Exception)
      → Leaves
          (Unchanged ms n)
          (Left ms n (receive rounds input none none))
          (serve rounds fresh input (throw e))
  unfolding serve respond
  serve-Left rounds fresh input e =
      let q = receive rounds input none none in
      try_catch-Leaves (Unchanged ms n) (Left ms n q) _ _
        (>>=-Leaves_first (Unchanged ms n) (Left ms n q) _ _
          (try_catch-Leaves (Unchanged ms n) (Left ms n q) _ _ (received-Left fresh q)
            (pure-Keeps _ _))
          (λ h. search (failed-Keeps, >>=-Keeps, lift-Keeps) depth 8))
        (pure-Keeps _ _)

-- A session whose sending fails loses no message: for every client what waited before still waits,
-- and nothing else does, unless the session received a request to send a message: then this
-- message, with the next id and the request's sender, type and content, may wait behind it, and for
-- its receiver only.
pub pull_client_messages-serve :
    (rounds : ℕ) (fresh : Bytes) (input : List Bytes) (e : Exception) (db : Database) (x : Bytes)
    → let db' = (serve rounds fresh input (throw e) db).1 in
      (pull_client_messages x db' ≡ pull_client_messages x db)
      ⊎ ((request : SendMessage) × (receive rounds input none none
            ≡ ok (send_message_request request))
          × (pull_client_messages x db'
              ≡ pull_client_messages x db
                ++ (if str_eq request.dest_client_id x
                    then stored_message request (suc db.sequence) ∷ []
                    else [])))
unfolding Leaves Unchanged Left pull_client_messages select
pull_client_messages-serve rounds fresh input e db x =
    by_left (serve rounds fresh input (throw e) db).1
      (serve-Left db.messages db.sequence rounds fresh input e db (refl, refl))
  where
    by_left :
        (db' : Database)
        → Left db.messages db.sequence (receive rounds input none none) db'
        → (select (is_for x) db'.messages ≡ select (is_for x) db.messages)
          ⊎ ((request : SendMessage) × (receive rounds input none none
                ≡ ok (send_message_request request))
              × (select (is_for x) db'.messages
                  ≡ select (is_for x) db.messages
                    ++ (if str_eq request.dest_client_id x
                        then stored_message request (suc db.sequence) ∷ []
                        else [])))
    by_left db' (inl same) = inl (ap (select (is_for x)) same)
    by_left db' (inr (request, sent, one)) =
        inr (request, sent, ap (select (is_for x)) one ∙ select-append (is_for x) db.messages _)
