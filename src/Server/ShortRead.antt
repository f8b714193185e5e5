-- ===== src/Server/ShortRead.antt =====
-- A receive that brings less than a partition: `conn.recv` of server/message_u_server.py returns what
-- has arrived, and TCP can cut a partition anywhere.
use instant_messaging_progra.Base.{
  ℕ, suc, ◌+◌, ◌-◌, ◌^◌, ◌≤◌, ◌<◌, ◌≡◌, refl, sym, ap, ◌∙◌, List, [], ◌∷◌, ◌++◌, Bytes, length,
  take-all, drop-append, drop-replicate, none, drop, replicate, append-nil, ok, arith, le→ltb,
}
use instant_messaging_progra.Common.{MessageType, message_type_code, done}
use instant_messaging_progra.ServerRequest.Format.{StandsFor, head_bytes, length-head_bytes}
use instant_messaging_progra.Server.Requests.{
  SendMessage, send_message_request, content_from, bytes_to_read, assign_slice, parse_content,
}
use instant_messaging_progra.Server.Receiving.{receive}
use instant_messaging_progra.Server.Content.{progress_of}
use instant_messaging_progra.Server.Headers.{get_request_parser-header_bytes}
use instant_messaging_progra.Server.Understood.{message_header, whole_message}
use instant_messaging_progra.Server.Parsing.{parse_request-head, get_request_parser-head}

whole : (n : ℕ) → n ≤ 980 → bytes_to_read (0 + n) 0 44 ≡ (done, n)
unfolding bytes_to_read
whole n h = rw (le→ltb 980 (0 + n - 0) (omega arith)) (ap (λ k. (done, k)) {y = n} (omega arith))

no_zeros : (n : ℕ) → drop (0 + n) (replicate {A = ℕ} n 0) ≡ []
no_zeros n =
    drop-replicate (0 + n) n 0 ∙ ap (λ k. replicate k 0) {x = n - (0 + n)} {y = 0} (omega arith)

-- What the parser makes of a buffer that ends before the content does.
parse_content-ends :
    (r : SendMessage) (front part content : Bytes)
    → length front ≡ 44
    → length part ≤ length content
    → length content ≤ 980
    → parse_content (front ++ part) (progress_of r [] content) ≡ (
      done,
      record r { payload = part; payload_index = length content; content_size = length content },
    )
unfolding parse_content content_from assign_slice
parse_content-ends r front part content e short fits =
    let n = length content in
    let cut : drop 44 (front ++ part) ≡ part =
      ap (λ z. drop 44 (front ++ z)) (sym (append-nil part))
      ∙ drop-append 44 front (part ++ []) e
      ∙ append-nil part in
    rw (whole n fits, cut, take-all n part short, no_zeros n, append-nil part)
      (ap (λ k. (done, record r { payload = part; payload_index = k; content_size = k }))
        {x = 0 + n} {y = n} (omega arith))

-- Where a message fits one partition and the first read of the server returns its header and only a
-- part of its content, the server takes the message for complete and keeps this part as its
-- payload, whatever arrives later.
pub receive-head_bytes :
    (id dest sender receiver part content : Bytes) (version : ℕ) (t : MessageType)
    (input : List Bytes) (rounds : ℕ)
    → StandsFor id sender
    → StandsFor dest receiver
    → version < 256
    → message_type_code t < 256
    → length part ≤ length content
    → length content ≤ 980
    → let head = head_bytes sender (message_header id version content) receiver t content in
      receive (suc rounds) ((head ++ part) ∷ input) none none
      ≡ ok (
          send_message_request
            (record (whole_message sender version receiver (message_type_code t) content) {
              payload = part;
            }))
unfolding receive
receive-head_bytes id dest sender receiver part content version t input rounds s d hv ht short
      fits =
    let h = message_header id version content in
    let small : length content < 2 ^ 32 = omega arith in
    let head = head_bytes sender h receiver t content in
    let r = whole_message sender version receiver (message_type_code t) content in
    rw
      (
        get_request_parser-head sender receiver content h t s.size d.size ht small
            (λ post. get_request_parser-header_bytes sender post h s.size hv (omega arith)) part,
        parse_request-head sender receiver content h t s.size d.size ht small part,
        parse_content-ends r head part content
            (length-head_bytes h sender receiver content t s.size d.size) short fits,
      )
      refl
