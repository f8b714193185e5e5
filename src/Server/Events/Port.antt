-- ===== src/Server/Events/Port.antt =====
-- The port that MessageUServer.start_server takes from its file (server/message_u_server.py).
use instant_messaging_progra.Base.{
  ℕ, ◌≤◌, ◌≡◌, Bytes, Bool, true, false, Option, none, some, Result, ok, throw, stuck, ℤ, pos,
  Exception, ◌⊎◌,
}
use instant_messaging_progra.Base.Exec.{continue}
use instant_messaging_progra.Server.Events.{MessageUServer, python_int, is_valid_port, goes_on}

-- The file holds a number that can be a port, and it is the port.
abbrev TakesPort : Option Bytes → Option ℤ → Type 0
TakesPort file port =
    (content : Bytes) × (number : ℕ) × (file ≡ some content)
    × (python_int content ≡ ok (pos number))
    × (port ≡ some (pos number))
    × (1024 ≤ number)
    × (number ≤ 65535)

-- There is no file, or what it holds is no number.
abbrev NoNumber : Option Bytes → Exception → Type 0
NoNumber file e =
    (file ≡ none) ⊎ ((content : Bytes) × (file ≡ some content) × (python_int content ≡ throw e))

-- How start_server comes to its loop (true), returns (false) or throws.
abbrev pub Started : Option Bytes → Result Bool × MessageUServer → Type 0
Started file (ok true, server) = TakesPort file server.port
Started file (ok false, server) =
    (content : Bytes) × (number : ℤ) × (file ≡ some content)
    × (python_int content ≡ ok number)
    × (is_valid_port number ≡ false)
    × (server.port ≡ none)
Started file (throw e, server) = NoNumber file e × (server.port ≡ none)
Started file (stuck f, server) = ⊥

after_initialize : Result (Option Bool) × MessageUServer → Result Bool × MessageUServer
after_initialize p = continue p.0 (λ returned s. (ok (goes_on returned), s)) p.1
