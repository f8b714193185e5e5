-- ===== src/Server/Storage.antt =====
-- server/storage_handler.py: the two tables, and what the SQL statements make of them. A table is the
-- list of its rows in the order of insertion; `sequence` is the last id that AUTOINCREMENT gave, and
-- `variable_limit` is how many parameters SQLite takes in a statement. The
-- column LastSeen is only ever written and is left out.
use instant_messaging_progra.Base.{
  ℕ, suc, Bool, true, false, not, ◌||◌, Option, none, some, List, [], ◌∷◌, ◌++◌, Bytes, Result, ok,
  throw, foreign, text, str_eq, ◌==◌, ltb, length, if◌then◌else◌,
}
use instant_messaging_progra.Server.Responses.{Message}

pub record ClientRow : Type 0 where
  pub id : Bytes
  pub user_name : Bytes
  pub public_key : Bytes

pub record Database : Type 0 where
  pub clients : List ClientRow
  pub messages : List Message
  pub sequence : ℕ
  pub variable_limit : ℕ

-- The rows of a SELECT or those that a DELETE leaves.
unfoldable pub select {ℓ} : {A : Type ℓ} → (A → Bool) → List A → List A
select where_clause [] = []
select where_clause (row ∷ rows) =
    let rest = select where_clause rows in if where_clause row then row ∷ rest else rest

-- The first row of a SELECT.
unfoldable pub fetchone {ℓ} : {A : Type ℓ} → (A → Bool) → List A → Option A
fetchone where_clause [] = none
fetchone where_clause (row ∷ rows) =
    let rest = fetchone where_clause rows in if where_clause row then some row else rest

abbrev pub is_some {ℓ} : {A : Type ℓ} → Option A → Bool
is_some none = false
is_some (some a) = true

abbrev pub has_id : Bytes → ClientRow → Bool
has_id client_id row = str_eq row.id client_id

abbrev pub has_name : Bytes → ClientRow → Bool
has_name name row = str_eq row.user_name name

unfoldable pub is_client_id_exist : Bytes → Database → Bool
is_client_id_exist client_id db = is_some (fetchone (has_id client_id) db.clients)

unfoldable pub is_user_name_exist : Bytes → Database → Bool
is_user_name_exist name db = is_some (fetchone (has_name name) db.clients)

-- PRIMARY KEY and UNIQUE: sqlite3.IntegrityError.
unfoldable pub add_client : Bytes → Bytes → Bytes → Database → Result Database
add_client client_id name key db =
    if is_client_id_exist client_id db || is_user_name_exist name db
    then throw (record { kind = foreign; what = text "UNIQUE constraint failed" })
    else ok (record db {
      clients = db.clients ++ (record { id = client_id; user_name = name; public_key = key } ∷ []);
    })

abbrev names_of : List ClientRow → List (Bytes × Bytes)
names_of [] = []
names_of (row ∷ rows) = (row.id, row.user_name) ∷ names_of rows

unfoldable pub list_clients : Bytes → Database → List (Bytes × Bytes)
list_clients excluded db = names_of (select (λ row. not (has_id excluded row)) db.clients)

abbrev key_of : Option ClientRow → Option Bytes
key_of none = none
key_of (some row) = some row.public_key

unfoldable pub get_client_public_key : Bytes → Database → Option Bytes
get_client_public_key client_id db = key_of (fetchone (has_id client_id) db.clients)

-- The new row, and its id.
unfoldable pub save_message : Bytes → Bytes → ℕ → Bytes → Database → ℕ × Database
save_message to from kind content db = (
  suc db.sequence,
  record db {
    messages =
        db.messages
        ++ (record {
          message_id = suc db.sequence;
          to_client = to;
          from_client = from;
          message_type = kind;
          message_content = content;
        }
            ∷ []);
    sequence = suc db.sequence;
  },
)

abbrev pub is_for : Bytes → Message → Bool
is_for client_id m = str_eq m.to_client client_id

unfoldable pub pull_client_messages : Bytes → Database → List Message
pull_client_messages client_id db = select (is_for client_id) db.messages

-- `ID IN (...)`
unfoldable pub is_in : List ℕ → ℕ → Bool
is_in [] id = false
is_in (n ∷ ids) id = let rest = is_in ids id in if n == id then true else rest

-- One parameter for each id; above SQLite's limit, sqlite3.OperationalError.
unfoldable pub delete_client_messages : List ℕ → Database → Result (Unit {0}) × Database
delete_client_messages [] db = (ok tt, db)
delete_client_messages (id ∷ ids) db =
    if ltb db.variable_limit (length (id ∷ ids))
    then (throw (record { kind = foreign; what = text "too many SQL variables" }), db)
    else (
      ok tt,
      record db { messages = select (λ m. not (is_in (id ∷ ids) m.message_id)) db.messages },
    )
