-- ===== src/Server/Safety.antt =====
-- The server's receive loop (server/message_u_server.py) whatever a peer sends: it comes to a request
-- or to an exception.
use instant_messaging_progra.Base.{
  ℕ, zero, suc, ◌-◌, ◌*◌, ◌^◌, ◌≤◌, List, [], ◌∷◌, none, some, Bytes, IsByte, All, Result,
  IsDefined, Yields, >>=-Yields, Yields-IsDefined, ◌>>=◌, ◌==◌, arith,
}
use instant_messaging_progra.Common.{ParseStatus}
use instant_messaging_progra.Server.Requests.{
  Request, SendMessage, send_message_request, RequestParser, ParserClass, register_parser,
  list_clients_parser, get_public_key_parser, send_message_parser, pull_messages_parser,
  parse_by_class, get_request_parser, parse_request, parse_send_message, parse_content,
  continue_content, sent_message,
}
use instant_messaging_progra.Server.Receiving.{recv, unless_done, receive}
use instant_messaging_progra.Server.Outcomes.{
  if-Yields, Any, NextRound, get_request_parser-Yields, done-any, sent_message-NextRound,
  unless_done-Yields, parse_register-Yields, parse_get_public_key-Yields, parse_send_message-Yields,
  parse_content-Remaining,
}

abbrev parser : ParserClass → Bytes → ℕ → ℕ → RequestParser
parser c id version size = record {
  parser_class = c;
  client_id = id;
  client_version = version;
  payload_size = size;
}

receive-sending :
    (n : ℕ) (input : List Bytes) (id : Bytes) (version size : ℕ) (q : SendMessage)
    → q.content_size - q.payload_index ≤ 980 * n
    → Yields Any (
        receive
          (suc n)
          input
          (some (parser send_message_parser id version size))
          (some (send_message_request q)))
unfolding receive parse_request continue_content
receive-sending zero input id version size q h =
    unless_done-Yields 0 (sent_message (parse_content (recv input).0 q)) _
      (sent_message-NextRound (q.content_size - q.payload_index) 0 (parse_content (recv input).0 q)
        (parse_content-Remaining (recv input).0 q) (omega arith))
      (λ q' h'. absurd (omega arith))
receive-sending (suc n) input id version size q h =
    unless_done-Yields (980 * suc n) (sent_message (parse_content (recv input).0 q)) _
      (sent_message-NextRound (q.content_size - q.payload_index) (980 * suc n)
        (parse_content (recv input).0 q) (parse_content-Remaining (recv input).0 q) h)
      (λ q' h'. receive-sending n (recv input).1 id version size q' (omega arith))

-- A parser of one partition leaves nothing to the next round.
single :
    (m : Result (ParseStatus × Request)) (rest : Request → Result Request)
    → Yields (NextRound 0) m
    → Yields Any (m >>= λ parsed. unless_done parsed rest)
single m rest h =
    >>=-Yields (NextRound 0) Any m _ h
      (λ parsed h'. unless_done-Yields 0 parsed rest h' (λ q h''. absurd (omega arith)))

recv-bytes : (input : List Bytes) → All (All IsByte) input → All IsByte (recv input).0
recv-bytes [] h = tt
recv-bytes (buffer ∷ input) (hb, h) = hb

module _ (n : ℕ) (enough : 2 ^ 32 ≤ 980 * suc n) (input : List Bytes)
    (bytes : All (All IsByte) input) where
  after_first :
      (c : ParserClass) (id : Bytes) (version size : ℕ)
      → Yields Any (
          parse_by_class c (parser c id version size) (recv input).0 none >>= λ parsed.
          unless_done parsed (λ request.
            receive (suc n) (recv input).1 (some (parser c id version size)) (some request)))
  after_first register_parser id version size = single _ _ (
      parse_register-Yields (recv input).0 (recv-bytes input bytes)
        (parser register_parser id version size))
  after_first list_clients_parser id version size =
      single _ _ (if-Yields (NextRound 0) (size == 0) _ _ (λ e. done-any 0 _) tt)
  after_first get_public_key_parser id version size = single _ _ (
      parse_get_public_key-Yields (recv input).0 (recv-bytes input bytes)
        (parser get_public_key_parser id version size))
  after_first pull_messages_parser id version size =
      single _ _ (if-Yields (NextRound 0) (size == 0) _ _ (λ e. done-any 0 _) tt)
  after_first send_message_parser id version size =
      >>=-Yields (NextRound (2 ^ 32)) Any
        (parse_send_message (parser send_message_parser id version size) (recv input).0) _
        (parse_send_message-Yields (recv input).0 (recv-bytes input bytes)
          (parser send_message_parser id version size))
        (λ parsed h.
          unless_done-Yields (2 ^ 32) parsed _ h
            (λ q h'. receive-sending n (recv input).1 id version size q (omega arith)))

  receive-Yields : Yields Any (receive (suc (suc n)) input none none)
  unfolding receive parse_request
  receive-Yields =
      >>=-Yields Any Any (get_request_parser (recv input).0) _
        (get_request_parser-Yields (recv input).0 (recv-bytes input bytes))
        (λ p h. after_first p.parser_class p.client_id p.client_version p.payload_size)

-- Whatever bytes the reads of the server's receive loop return, in parts of any length, the loop
-- comes to a request or an exception within 2^23 rounds.
pub receive-IsDefined :
    (rounds : ℕ) (input : List Bytes)
    → 2 ^ 23 ≤ rounds
    → All (All IsByte) input
    → IsDefined (receive rounds input none none)
receive-IsDefined zero input h bytes = absurd (omega arith)
receive-IsDefined (suc zero) input h bytes = absurd (omega arith)
receive-IsDefined (suc (suc n)) input h bytes =
    Yields-IsDefined Any (receive (suc (suc n)) input none none)
      (receive-Yields n (omega arith) input bytes)
