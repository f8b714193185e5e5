-- ===== src/Server/Mailbox.antt =====
-- What the server keeps for a client between two requests (server/message_u_manager.py,
-- server/storage_handler.py): a message that was sent is pulled once, and no message is lost.
use instant_messaging_progra.Base.{
  ℕ, suc, length, ltb, ok, ◌≤◌, ◌+◌, ◌-◌, leb, ◌<◌, ◌≡◌, ◌≢◌, refl, sym, ap, subst, ◌∙◌, Bool, true,
  false, not, Bool-cases, inl, inr, List, [], ◌∷◌, ◌++◌, Bytes, All, str_eq, str_eq_eq, ◌==◌,
  if◌then◌else◌, arith, append-nil,
}
use instant_messaging_progra.Server.Responses.{Message, pull_messages_success_handler}
use instant_messaging_progra.Server.Storage.{
  Database, select, is_for, is_in, save_message, pull_client_messages, delete_client_messages,
}
use instant_messaging_progra.Server.Manager.{
  server_version, messages_that_fit, ids_of, size_of_message, max_pulled_messages_data,
  after_send_process,
}

-- Ids grow in the order of the table.
unfoldable pub IsIncreasing : List Message → Type 0
IsIncreasing [] = Unit
IsIncreasing (m ∷ ms) = All (λ r. m.message_id < r.message_id) ms × IsIncreasing ms

pub select-append :
    (p : Message → Bool) (xs ys : List Message) → select p (xs ++ ys) ≡ select p xs ++ select p ys
unfolding select
select-append p [] ys = refl
select-append p (m ∷ xs) ys = elim (Bool-cases (p m)) [
  | inl hit ↦ rw (hit, select-append p xs ys) refl
  | inr miss ↦ rw (miss, select-append p xs ys) refl
]

-- After a message has been saved, what waits for its receiver is what waited before, followed by
-- this message with its new id, sender, type and content; what waits for any other client is
-- unchanged.
pub pull_client_messages-save_message :
    (to from x : Bytes) (kind : ℕ) (content : Bytes) (db : Database)
    → let (id, db') = save_message to from kind content db in
      pull_client_messages x db'
      ≡ pull_client_messages x db
        ++ (if str_eq to x
            then record {
              message_id = id;
              to_client = to;
              from_client = from;
              message_type = kind;
              message_content = content;
            }
              ∷ []
            else [])
unfolding pull_client_messages save_message select
pull_client_messages-save_message to from x kind content db = select-append (is_for x) db.messages _

select-cong :
    (p q : Message → Bool) (ms : List Message) → All (λ m. p m ≡ q m) ms → select p ms ≡ select q ms
unfolding select
select-cong p q [] h = refl
select-cong p q (m ∷ ms) (h, hs) = rw (h, select-cong p q ms hs) refl

selects_each :
    (p : Message → Bool) (ms : List Message) → All (λ m. p m ≡ true) ms → select p ms ≡ ms
unfolding select
selects_each p [] h = refl
selects_each p (m ∷ ms) (h, hs) = rw (h, selects_each p ms hs) refl

abbrev is_left : List ℕ → Message → Bool
is_left ids m = not (is_in ids m.message_id)

is_left-nil : (ms : List Message) → All (λ m. is_left [] m ≡ true) ms
unfolding is_in
is_left-nil [] = tt
is_left-nil (m ∷ ms) = (refl, is_left-nil ms)

is_left-cons :
    (n : ℕ) (ids : List ℕ) (ms : List Message)
    → All (λ r. n < r.message_id) ms
    → All (λ r. is_left (n ∷ ids) r ≡ is_left ids r) ms
unfolding is_in
is_left-cons n ids [] h = tt
is_left-cons n ids (r ∷ ms) (h, hs) =
    let other : (n == r.message_id) ≡ false = ground arith in
    (rw other refl, is_left-cons n ids ms hs)

is_left-head : (n : ℕ) (ids : List ℕ) → is_in (n ∷ ids) n ≡ true
unfolding is_in
is_left-head n ids = let same : (n == n) ≡ true = ground arith in rw same refl

All-select :
    (n : ℕ) (p : Message → Bool) (ms : List Message)
    → All (λ r. n < r.message_id) ms
    → All (λ r. n < r.message_id) (select p ms)
unfolding select
All-select n p [] h = tt
All-select n p (m ∷ ms) (h, hs) = elim (Bool-cases (p m)) [
  | inl hit ↦ rw hit (h, All-select n p ms hs)
  | inr miss ↦ rw miss (All-select n p ms hs)
]

is_in-later :
    (n : ℕ) (front back : List Message)
    → All (λ r. n < r.message_id) (front ++ back)
    → is_in (ids_of front) n ≡ false
unfolding is_in
is_in-later n [] back h = refl
is_in-later n (m ∷ front) back (h, hs) =
    let other : (m.message_id == n) ≡ false = ground arith in
    rw (other, is_in-later n front back hs) refl

same_head : (m x : Message) (ms xs : List Message) → m ∷ ms ≡ x ∷ xs → (m ≡ x) × (ms ≡ xs)
same_head m x ms xs e = (cc, cc)

-- The first message of the table is deleted; no other has its id.
drop_head :
    (m x : Message) (ms : List Message) (ids : List ℕ)
    → m ≡ x
    → All (λ r. m.message_id < r.message_id) ms
    → select (is_left (x.message_id ∷ ids)) (m ∷ ms) ≡ select (is_left ids) ms
drop_head m x ms ids e h =
    ap (λ z. select (is_left (z.message_id ∷ ids)) (m ∷ ms)) (sym e)
    ∙ head_gone
    ∙ select-cong (is_left (m.message_id ∷ ids)) (is_left ids) ms
        (is_left-cons m.message_id ids ms h)
  where
    head_gone :
        select (is_left (m.message_id ∷ ids)) (m ∷ ms) ≡ select (is_left (m.message_id ∷ ids)) ms
    head_gone = unfold select in rw (is_left-head m.message_id ids) refl

-- The first of the messages that `p` selects are deleted.
module _ (p : Message → Bool) where
  select-rest :
      (ms : List Message) (front back : List Message)
      → IsIncreasing ms
      → select p ms ≡ front ++ back
      → select p (select (is_left (ids_of front)) ms) ≡ back
  unfolding IsIncreasing select
  select-rest ms [] back grows e = rw (selects_each (is_left []) ms (is_left-nil ms)) e
  select-rest [] (x ∷ front) back grows e = absurd (cc)
  select-rest (m ∷ ms) (x ∷ front) back (later, grows) e = elim (Bool-cases (p m)) [
    | inl hit ↦
        (let (head, tail) = same_head m x (select p ms) (front ++ back) (rw hit at e) in
          ap (select p) (drop_head m x ms (ids_of front) head later)
          ∙ select-rest ms front back grows tail)
    | inr miss ↦
        (let e' : select p ms ≡ x ∷ (front ++ back) = rw miss at e in
          elim (Bool-cases (is_left (ids_of (x ∷ front)) m)) [
            | inl left ↦ rw (left, miss) (select-rest ms (x ∷ front) back grows e')
            | inr gone ↦ rw gone (select-rest ms (x ∷ front) back grows e')
          ])
  ]

  -- A message that `p` does not select stays.
  select-others :
      (q : Message → Bool) (apart : (m : Message) → p m ≡ true → q m ≡ false) (ms : List Message)
      (front back : List Message)
      → IsIncreasing ms
      → select p ms ≡ front ++ back
      → select q (select (is_left (ids_of front)) ms) ≡ select q ms
  unfolding IsIncreasing select
  select-others q apart ms [] back grows e =
      ap (select q) (selects_each (is_left []) ms (is_left-nil ms))
  select-others q apart [] (x ∷ front) back grows e = refl
  select-others q apart (m ∷ ms) (x ∷ front) back (later, grows) e = elim (Bool-cases (p m)) [
    | inl hit ↦
        (let (head, tail) = same_head m x (select p ms) (front ++ back) (rw hit at e) in
          ap (select q) (drop_head m x ms (ids_of front) head later)
          ∙ select-others q apart ms front back grows tail
          ∙ rw (apart m hit) refl)
    | inr miss ↦
        (let e' : select p ms ≡ x ∷ (front ++ back) = rw miss at e in
          let kept : is_in (ids_of (x ∷ front)) m.message_id ≡ false =
            is_in-later m.message_id (x ∷ front) back (
              subst (All (λ r. m.message_id < r.message_id)) e'
                (All-select m.message_id p ms later)) in
          rw kept (
            ap (λ z. if q m then m ∷ z else z)
              (select-others q apart ms (x ∷ front) back grows e')))
  ]

pub length-ids_of : (ms : List Message) → length (ids_of ms) ≡ length ms
length-ids_of [] = refl
length-ids_of (m ∷ ms) = ap suc (length-ids_of ms)

-- Within the limit of parameters, the messages are deleted.
deletes :
    (ms : List Message) (db : Database)
    → IsIncreasing db.messages
    → length ms ≤ db.variable_limit
    → delete_client_messages (ids_of ms) db
      ≡ (ok tt, record db { messages = select (is_left (ids_of ms)) db.messages })
unfolding delete_client_messages
deletes [] db grows few =
    ap (λ rows. (ok tt, record db { messages = rows }))
      (sym (selects_each (is_left []) db.messages (is_left-nil db.messages)))
deletes (m ∷ ms) db grows few =
    let within : ltb db.variable_limit (suc (length (ids_of ms))) ≡ false =
      ground (arith, length-ids_of ms) in
    rw within refl

-- Where all that waits is deleted, nothing waits.
pub pulled-delivered :
    (db : Database) (x : Bytes) (delivered : List Message)
    → IsIncreasing db.messages
    → pull_client_messages x db ≡ delivered
    → length delivered ≤ db.variable_limit
    → pull_client_messages x (delete_client_messages (ids_of delivered) db).1 ≡ []
unfolding pull_client_messages
pulled-delivered db x delivered grows e few =
    rw (deletes delivered db grows few)
      (select-rest (is_for x) db.messages delivered [] grows (e ∙ sym (append-nil delivered)))

messages_that_fit-prefix :
    (size : ℕ) (ms : List Message)
    → (back : List Message) × (ms ≡ (messages_that_fit size ms).0 ++ back)
unfolding messages_that_fit
messages_that_fit-prefix size [] = ([], refl)
messages_that_fit-prefix size (m ∷ ms) =
    let (back, e) = messages_that_fit-prefix (size + size_of_message m) ms in
    elim (Bool-cases (leb (size_of_message m) (max_pulled_messages_data - size))) [
      | inl fits ↦ (back, rw fits (ap (λ z. m ∷ z) e))
      | inr full ↦ (m ∷ ms, rw full refl)
    ]

-- What waits for a client before its messages are pulled is what is delivered, followed by what
-- waits after the deletion: no message is lost and none is delivered twice; and what waits for any
-- other client is unchanged. The conditions are that the ids of the messages grow in the order of
-- the table, and that SQLite takes as many parameters in a statement as messages are delivered.
pub pull_client_messages-after_send_process :
    (db : Database) (x y : Bytes)
    → IsIncreasing db.messages
    → x ≢ y
    → length (messages_that_fit 0 (pull_client_messages x db)).0 ≤ db.variable_limit
    → let (delivered, size) = messages_that_fit 0 (pull_client_messages x db) in
      let db' =
        (after_send_process (pull_messages_success_handler server_version delivered size) db).1 in
      (pull_client_messages x db ≡ delivered ++ pull_client_messages x db')
      × (pull_client_messages y db' ≡ pull_client_messages y db)
unfolding pull_client_messages after_send_process
pull_client_messages-after_send_process db x y grows other few =
    let (back, e) = messages_that_fit-prefix 0 (select (is_for x) db.messages) in
    let front = (messages_that_fit 0 (select (is_for x) db.messages)).0 in
    (
      e
          ∙ ap (λ z. front ++ z)
              (rw (deletes front db grows few)
                (sym (select-rest (is_for x) db.messages front back grows e))),
      rw (deletes front db grows few)
          (select-others (is_for x) (is_for y) apart db.messages front back grows e),
    )
  where
    apart : (m : Message) → is_for x m ≡ true → is_for y m ≡ false
    apart m hit = elim (Bool-cases (is_for y m)) [
      | inl also ↦ absurd (other (sym (str_eq_eq m.to_client x hit) ∙ str_eq_eq m.to_client y also))
      | inr not_its ↦ not_its
    ]
