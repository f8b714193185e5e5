-- ===== src/Server/Soundness.antt =====
-- What holds of the server's tables (server/storage_handler.py) whatever is received: ids and names of
-- clients are distinct, and ids of messages grow and are never given twice.
use instant_messaging_progra.Base.{
  ltb, length, ℕ, suc, ◌≤◌, ◌<◌, ◌≡◌, ◌≢◌, sym, Bool, true, false, Bool-cases, inl, inr, List, [],
  ◌∷◌, ◌++◌, Bytes, All, All-append, str_eq_refl, arith,
}
use instant_messaging_progra.Base.Exec.{
  Keeps, keeps, kept, pure-Keeps, lift-Keeps, try_catch-Keeps, >>=-Keeps,
}
use instant_messaging_progra.Server.Requests.{
  Request, register_request, list_clients_request, get_public_key_request, send_message_request,
  pull_messages_request,
}
use instant_messaging_progra.Server.Responses.{
  Message, ResponseHandler, register_success_handler, list_clients_success_handler,
  public_key_success_handler, message_sent_success_handler, pull_messages_success_handler,
  general_server_error_handler,
}
use instant_messaging_progra.Server.Storage.{
  ClientRow, Database, select, fetchone, is_some, has_id, has_name, is_client_id_exist,
  is_user_name_exist, add_client, save_message, delete_client_messages,
}
use instant_messaging_progra.Server.Manager.{
  look, stored, raise_unless, keep, handle_pre_request, register_client, list_clients,
  get_client_public_key, send_message, pull_messages, handle_request, after_send_process,
}
use instant_messaging_progra.Server.Sessions.{respond, session}
use instant_messaging_progra.Server.Mailbox.{IsIncreasing}

-- No two rows have the same key.
unfoldable pub IsDistinct : (ClientRow → Bytes) → List ClientRow → Type 0
IsDistinct key [] = Unit
IsDistinct key (row ∷ rows) = All (λ r. key r ≢ key row) rows × IsDistinct key rows

-- The tables are sound, and a statement may have the 999 parameters that SQLite has allowed from the
-- start, or more.
pub record IsSound (db : Database) : Type 0 where
  pub increasing : IsIncreasing db.messages
  pub bounded : All (λ m. m.message_id ≤ db.sequence) db.messages
  pub ids : IsDistinct (λ row. row.id) db.clients
  pub names : IsDistinct (λ row. row.user_name) db.clients
  pub variables : 999 ≤ db.variable_limit

IsDistinct-append :
    (key : ClientRow → Bytes) (rows : List ClientRow) (row : ClientRow)
    → IsDistinct key rows
    → All (λ r. key r ≢ key row) rows
    → IsDistinct key (rows ++ (row ∷ []))
unfolding IsDistinct
IsDistinct-append key [] row h others = (tt, tt)
IsDistinct-append key (r ∷ rows) row (apart, h) (other, others) = (
  All-append (λ s. key s ≢ key r) rows (row ∷ []) apart (λ e. other (sym e), tt),
  IsDistinct-append key rows row h others,
)

fetchone-none :
    (p : ClientRow → Bool) (key : ClientRow → Bytes) (k : Bytes)
    → ((row : ClientRow) → key row ≡ k → p row ≡ true)
    → (rows : List ClientRow) → is_some (fetchone p rows) ≡ false
    → All (λ row. key row ≢ k) rows
unfolding fetchone
fetchone-none p key k hits [] h = tt
fetchone-none p key k hits (row ∷ rows) h = elim (Bool-cases (p row)) [
  | inl hit ↦ absurd (found (rw hit at h))
  | inr miss ↦
      (λ e. clash (p row) miss (hits row e), fetchone-none p key k hits rows (rw miss at h))
]
  where
    found : ◌≢◌ {A = Bool} true false
    found e = cc

    clash : (b : Bool) → b ≡ false → b ≡ true → ⊥
    clash b e e' = cc

IsIncreasing-append :
    (ms : List Message) (m : Message)
    → IsIncreasing ms
    → All (λ r. r.message_id < m.message_id) ms
    → IsIncreasing (ms ++ (m ∷ []))
unfolding IsIncreasing
IsIncreasing-append [] m h below = (tt, tt)
IsIncreasing-append (r ∷ ms) m (later, h) (less, below) = (
  All-append (λ s. r.message_id < s.message_id) ms (m ∷ []) later (less, tt),
  IsIncreasing-append ms m h below,
)

All-kept :
    (P : Message → Type 0) (p : Message → Bool) (ms : List Message) → All P ms → All P (select p ms)
unfolding select
All-kept P p [] h = tt
All-kept P p (m ∷ ms) (h, hs) = elim (Bool-cases (p m)) [
  | inl hit ↦ rw hit (h, All-kept P p ms hs)
  | inr miss ↦ rw miss (All-kept P p ms hs)
]

IsIncreasing-select :
    (p : Message → Bool) (ms : List Message) → IsIncreasing ms → IsIncreasing (select p ms)
unfolding IsIncreasing select
IsIncreasing-select p [] h = tt
IsIncreasing-select p (m ∷ ms) (later, h) = elim (Bool-cases (p m)) [
  | inl hit ↦
      rw hit (All-kept (λ s. m.message_id < s.message_id) p ms later, IsIncreasing-select p ms h)
  | inr miss ↦ rw miss (IsIncreasing-select p ms h)
]

All-raise :
    (n : ℕ) (ms : List Message)
    → All (λ m. m.message_id ≤ n) ms
    → All (λ m. m.message_id < suc n) ms × All (λ m. m.message_id ≤ suc n) ms
All-raise n [] h = (tt, tt)
All-raise n (m ∷ ms) (h, hs) =
    let (below, least) = All-raise n ms hs in ((omega arith, below), (omega arith, least))

pub save_message-IsSound :
    (to from : Bytes) (kind : ℕ) (content : Bytes) (db : Database)
    → IsSound db
    → IsSound (save_message to from kind content db).1
unfolding save_message
save_message-IsSound to from kind content db h =
    let (below, least) = All-raise db.sequence db.messages h.bounded in
    record {
      increasing = IsIncreasing-append db.messages _ h.increasing below;
      bounded =
          All-append (λ m. m.message_id ≤ suc db.sequence) db.messages _ least (omega arith, tt);
      ids = h.ids;
      names = h.names;
      variables = h.variables;
    }

delete-IsSound :
    (ids : List ℕ) (db : Database) → IsSound db → IsSound (delete_client_messages ids db).1
unfolding delete_client_messages
delete-IsSound [] db h = h
delete-IsSound (id ∷ ids) db h = elim (Bool-cases (ltb db.variable_limit (length (id ∷ ids)))) [
  | inl many ↦ rw many h
  | inr few ↦ rw few (record {
    increasing = IsIncreasing-select _ db.messages h.increasing;
    bounded = All-kept (λ m. m.message_id ≤ db.sequence) _ db.messages h.bounded;
    ids = h.ids;
    names = h.names;
    variables = h.variables;
  })
]

add_client-IsSound :
    (id name key : Bytes) (db : Database)
    → IsSound db
    → IsSound (stored (add_client id name key db) db).1
unfolding add_client
add_client-IsSound id name key db h = elim (Bool-cases (is_client_id_exist id db)) [
  | inl known ↦ rw known h
  | inr new ↦ elim (Bool-cases (is_user_name_exist name db)) [
    | inl taken ↦ rw (new, taken) h
    | inr free ↦
        rw (new, free)
          (record {
            increasing = h.increasing;
            bounded = h.bounded;
            ids =
                IsDistinct-append (λ row. row.id) db.clients _ h.ids
                  (fetchone-none (has_id id) (λ row. row.id) id (λ row e. rw e (str_eq_refl id))
                    db.clients (unfold is_client_id_exist in new));
            names =
                IsDistinct-append (λ row. row.user_name) db.clients _ h.names
                  (fetchone-none (has_name name) (λ row. row.user_name) name
                    (λ row e. rw e (str_eq_refl name)) db.clients
                    (unfold is_user_name_exist in free));
            variables = h.variables;
          })
  ]
]

-- The steps of the manager.
pub look-IsSound : {A : Type 0} (f : Database → A) → Keeps IsSound (look f)
look-IsSound f = keeps IsSound (look f) (λ db h. h)

pub raise_unless-IsSound : (b : Bool) → Keeps IsSound (raise_unless b)
raise_unless-IsSound true = pure-Keeps IsSound tt
raise_unless-IsSound false = lift-Keeps IsSound _

pub stored-IsSound :
    (id name key : Bytes) → Keeps IsSound (λ db. stored (add_client id name key db) db)
stored-IsSound id name key = keeps IsSound _ (add_client-IsSound id name key)

pub keep-IsSound :
    (to from : Bytes) (kind : ℕ) (content : Bytes)
    → Keeps IsSound (λ db. keep (save_message to from kind content db))
keep-IsSound to from kind content = keeps IsSound _ (save_message-IsSound to from kind content)

pub ruleset soundness = (
  >>=-Keeps, try_catch-Keeps, pure-Keeps, lift-Keeps, look-IsSound, raise_unless-IsSound,
  stored-IsSound, keep-IsSound,
)

handle_pre_request-IsSound : (id : Bytes) → Keeps IsSound (handle_pre_request id)
unfolding handle_pre_request
handle_pre_request-IsSound id = search soundness depth 8

pub handle_request-IsSound : (fresh : Bytes) (q : Request) → Keeps IsSound (handle_request fresh q)
unfolding handle_request register_client list_clients get_client_public_key send_message
    pull_messages
handle_request-IsSound fresh (register_request client_id version name key) =
    search soundness depth 10
handle_request-IsSound fresh (list_clients_request client_id version) =
    search (soundness, handle_pre_request-IsSound) depth 10
handle_request-IsSound fresh (get_public_key_request client_id version dest) =
    search (soundness, handle_pre_request-IsSound) depth 10
handle_request-IsSound fresh (send_message_request request) =
    search (soundness, handle_pre_request-IsSound) depth 12
handle_request-IsSound fresh (pull_messages_request client_id version) =
    search (soundness, handle_pre_request-IsSound) depth 10

pub after_send_process-IsSound : (h : ResponseHandler) → Keeps IsSound (after_send_process h)
unfolding after_send_process
after_send_process-IsSound (register_success_handler version id) = keeps IsSound _ (λ db h. h)
after_send_process-IsSound (list_clients_success_handler version clients) =
    keeps IsSound _ (λ db h. h)
after_send_process-IsSound (public_key_success_handler version id key) = keeps IsSound _ (λ db h. h)
after_send_process-IsSound (message_sent_success_handler version id number) =
    keeps IsSound _ (λ db h. h)
after_send_process-IsSound (pull_messages_success_handler version messages size) =
    keeps IsSound _ (λ db h. delete-IsSound _ db h)
after_send_process-IsSound (general_server_error_handler version) = keeps IsSound _ (λ db h. h)

session-Keeps :
    (rounds : ℕ) (fresh : Bytes) (input : List Bytes) → Keeps IsSound (session rounds fresh input)
unfolding session respond
session-Keeps rounds fresh input =
    search (soundness, handle_request-IsSound, after_send_process-IsSound) depth 12

-- A session with any input keeps the tables sound, whether the request succeeds or fails: ids of
-- clients are distinct, user names are distinct, ids of messages grow in the order of the table,
-- none is above the last id that was given, and SQLite takes at least 999 parameters in a
-- statement.
pub session-IsSound :
    (rounds : ℕ) (fresh : Bytes) (input : List Bytes) (db : Database)
    → IsSound db
    → IsSound (session rounds fresh input db).1
session-IsSound rounds fresh input db h =
    kept IsSound (session rounds fresh input) (session-Keeps rounds fresh input) db h
