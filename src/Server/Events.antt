-- ===== src/Server/Events.antt =====
-- MessageUServer (server/message_u_server.py): the start of the server with its port, and the loop that
-- accepts connections and handles one session after another, in a single thread. Connections are
-- numbered in the order in which they are accepted; the selector is the list of those registered.
pub mod Sent
pub mod Unsent
pub mod Survival
pub mod Invariant
pub mod Port
use instant_messaging_progra.Base.{
  ℕ, zero, suc, ◌+◌, ◌-◌, ◌*◌, List, [], ◌∷◌, ◌++◌, Bytes, Bool, true, false, not, ◌&&◌, ◌||◌,
  Option, none, some, Result, ok, throw, foreign, Exception, text, if◌then◌else◌, ltb, leb, ◌==◌, ℤ,
  pos, negsuc, ◌≡◌,
}
use mathlib.Core.Option
use instant_messaging_progra.Base.Exec.{Exec, pure, lift, try_catch, ◌>>=◌, ◌>>◌}
use instant_messaging_progra.Server.Storage.{Database, is_in}
use instant_messaging_progra.Server.Responses.{create_response}
use instant_messaging_progra.Server.Manager.{after_send_process}
use instant_messaging_progra.Server.Sessions.{respond}

pub record MessageUServer : Type 0 where
  pub port : Option ℤ
  pub database : Database
  pub registered : List ℕ
  pub accepted : ℕ

abbrev pub error : Exception
error = record { kind = foreign; what = text "raised" }

-- What int() strips, of an ASCII text.
unfoldable pub is_space : ℕ → Bool
is_space c = (leb 9 c && leb c 13) || c == 32

unfoldable pub skip_spaces : Bytes → Bytes
skip_spaces [] = []
skip_spaces (c ∷ rest) = let later = skip_spaces rest in if is_space c then later else c ∷ rest

-- Digits with single underscores between them, then spaces up to the end; `after` is true behind a
-- digit.
unfoldable pub read_digits : Bytes → ℕ → Bool → Option ℕ
read_digits [] value after = if after then some value else none
read_digits (c ∷ rest) value after =
    let more = read_digits rest (value * 10 + (c - 48)) true in
    let joined = read_digits rest value false in
    if leb 48 c && leb c 57
    then more
    else if after && c == b'_'
    then joined
    else elim (skip_spaces (c ∷ rest)) [ [] ↦ if after then some value else none | _ ↦ none ]

abbrev negated : ℕ → ℤ
negated zero = pos 0
negated (suc n) = negsuc n

abbrev pub number_or_error : Option ℤ → Result ℤ
number_or_error none = throw error
number_or_error (some number) = ok number

-- A text without spaces at its front.
abbrev pub signed_number : Bytes → Result ℤ
signed_number [] = throw error
signed_number (c ∷ rest) = number_or_error (
    if c == b'-'
    then Option.map negated (read_digits rest 0 false)
    else if c == b'+'
    then Option.map pos (read_digits rest 0 false)
    else Option.map pos (read_digits (c ∷ rest) 0 false))

-- `int(...)` of an ASCII text, or a ValueError.
unfoldable pub python_int : Bytes → Result ℤ
unfolding is_space skip_spaces read_digits
python_int str = signed_number (skip_spaces str)

unfoldable pub is_valid_port : ℤ → Bool
is_valid_port (pos number) = not (ltb number 1024 || ltb 65535 number)
is_valid_port (negsuc number) = false

abbrev opened : Option Bytes → Result Bytes
opened none = throw error
opened (some file) = ok file

-- What is behind the test of `self.port`, with the number that the file holds.
abbrev pub initialize_with : ℤ → Exec MessageUServer (Option Bool)
initialize_with number server =
    if not (is_valid_port number)
    then (ok (some false), server)
    else (ok (some true), record server { port = some number })

-- MessageUServer._initialize with the file of that name. Where the port was given, nothing is returned,
-- which is not False either.
unfoldable pub initialize : Option Bytes → Option ℤ → Exec MessageUServer (Option Bool)
unfolding is_valid_port
initialize file (some number) = pure none
initialize file none = do
  content ← lift (opened file)
  number ← lift (python_int content)
  initialize_with number

abbrev pub goes_on : Option Bool → Bool
goes_on (some started) = started
goes_on none = true

-- Whether start_server comes to its loop.
unfoldable pub start_server : Option Bytes → Exec MessageUServer Bool
unfolding initialize
start_server file server =
    (initialize file server.port >>= λ returned. pure (goes_on returned)) server

-- MessageUServer._accept, where a connection is there to be accepted.
unfoldable pub accept : Exec MessageUServer (Unit {0})
accept server = (
  ok tt,
  record server {
    registered = server.registered ++ (server.accepted ∷ []);
    accepted = suc server.accepted;
  },
)

unfoldable pub remove : ℕ → List ℕ → List ℕ
remove conn [] = []
remove conn (c ∷ registered) =
    let rest = remove conn registered in if c == conn then registered else c ∷ rest

-- `self.sel.unregister(conn)`: a KeyError where it is not registered.
unfoldable pub unregister : ℕ → Exec MessageUServer (Unit {0})
unfolding remove
unregister conn server =
    if is_in server.registered conn
    then (ok tt, record server { registered = remove conn server.registered })
    else (throw error, server)

abbrev pub in_database : {A : Type 0} → Exec Database A → Exec MessageUServer A
in_database m server = let (r, db) = m server.database in (r, record server { database = db })

-- The request, the answer, its sending, and what follows the sending. `sends` is what all the calls of
-- conn.sendall do.
unfoldable pub answer : ℕ → Bytes → List Bytes → Result (Unit {0}) → Exec Database (Unit {0})
answer rounds fresh input sends = do
  handler ← respond rounds fresh input
  response ← lift (create_response handler)
  lift sends
  after_send_process handler

-- Any exception of it is printed.
unfoldable pub serve : ℕ → Bytes → List Bytes → Result (Unit {0}) → Exec Database (Unit {0})
unfolding answer
serve rounds fresh input sends = try_catch (answer rounds fresh input sends) (pure tt)

-- MessageUServer._handle_session.
unfoldable pub handle_session :
    ℕ → ℕ → Bytes → List Bytes → Result (Unit {0}) → Exec MessageUServer (Unit {0})
unfolding serve unregister
handle_session conn rounds fresh input sends = do
  in_database (serve rounds fresh input sends)
  unregister conn

-- One callback of the loop of start_server. The selector reports registered connections only.
pub data Step : MessageUServer → MessageUServer → Type 0 where
  accepts : {server : MessageUServer} → Step server (accept server).1
  serves :
      {server server' : MessageUServer} (conn rounds : ℕ) (fresh : Bytes) (input : List Bytes)
      (sends : Result (Unit {0}))
      → is_in server.registered conn ≡ true
      → handle_session conn rounds fresh input sends server ≡ (ok tt, server')
      → Step server server'

pub data Reaches : MessageUServer → MessageUServer → Type 0 where
  here : {server : MessageUServer} → Reaches server server
  later :
      {before between after : MessageUServer}
      → Step before between
      → Reaches between after
      → Reaches before after
