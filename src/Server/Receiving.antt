-- ===== src/Server/Receiving.antt =====
-- The loop of MessageUServer._handle_session (server/message_u_server.py) that receives a request.
-- The input is what each `conn.recv` returns; behind it the peer has closed the connection.
use instant_messaging_progra.Base.{
  ℕ, zero, suc, List, [], ◌∷◌, Bytes, Option, none, some, Result, ok, stuck, out_of_fuel, ◌>>=◌,
  >>=-eq-ok, ◌≤◌, ◌≡◌, arith,
}
use instant_messaging_progra.Common.{ParseStatus, undone, done}
use instant_messaging_progra.Server.Requests.{
  Request, RequestParser, get_request_parser, parse_request,
}

-- `conn.recv(BUFFER_PARTITION_SIZE)`
abbrev pub recv : List Bytes → Bytes × List Bytes
recv [] = ([], [])
recv (buffer ∷ input) = (buffer, input)

abbrev pub parser_for : Bytes → Option RequestParser → Result RequestParser
parser_for buffer none = get_request_parser buffer
parser_for buffer (some p) = ok p

-- Another round while the status is UNDONE.
abbrev pub unless_done : ParseStatus × Request → (Request → Result Request) → Result Request
unless_done (done, request) rest = ok request
unless_done (undone, request) rest = rest request

unfoldable pub receive : ℕ → List Bytes → Option RequestParser → Option Request → Result Request
receive zero input p request = stuck out_of_fuel
receive (suc rounds) input p request =
    let (buffer, later) = recv input in
    do
      p' ← parser_for buffer p
      parsed ← parse_request p' buffer request
      unless_done parsed (λ request'. receive rounds later (some p') (some request'))

unless_done-more :
    (x : ParseStatus × Request) (few many : Request → Result Request) (r : Request)
    → ((q : Request) → few q ≡ ok r → many q ≡ ok r)
    → unless_done x few ≡ ok r
    → unless_done x many ≡ ok r
unless_done-more (done, q) few many r h e = e
unless_done-more (undone, q) few many r h e = h q e

-- A request that few rounds find, more rounds find.
pub receive-more :
    (few many : ℕ) (input : List Bytes) (p : Option RequestParser) (q : Option Request)
    (r : Request)
    → few ≤ many
    → receive few input p q ≡ ok r
    → receive many input p q ≡ ok r
unfolding receive
receive-more zero many input p q r h e = cc
receive-more (suc few) zero input p q r h e = absurd (omega arith)
receive-more (suc few) (suc many) input p q r h e =
    let (p', parser, e') = >>=-eq-ok (parser_for (recv input).0 p) _ e in
    let (x, parsed, e'') = >>=-eq-ok (parse_request p' (recv input).0 q) _ e' in
    rw (parser, parsed)
      (unless_done-more x _ _ r
        (λ q'. receive-more few many (recv input).1 (some p') (some q') r (omega arith)) e'')
