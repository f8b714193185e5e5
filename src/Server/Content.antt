-- ===== src/Server/Content.antt =====
-- The content of a message, read out of its partitions by SendMessageRequestParser
-- (server/request_parser.py).
use instant_messaging_progra.Base.{
  ℕ, zero, suc, ◌+◌, ◌-◌, ◌*◌, ◌≤◌, ◌<◌, ◌≡◌, refl, sym, ap, ap₂, ◌∙◌, [], ◌++◌, Bytes, length,
  take, drop, replicate, pad, some, ok, length-append, take-append, drop-append, drop-append_more,
  drop-replicate, append_assoc, append-nil, arith, lt→ltb, le→ltb, leb, leb→le, leb→gt, Bool-cases,
  inl, inr, take-append-drop, length-take, length-drop,
}
use instant_messaging_progra.Common.{ParseStatus, undone, done}
use instant_messaging_progra.Server.Requests.{
  SendMessage, Request, send_message_request, RequestParser, send_message_parser, content_from,
  bytes_to_read, assign_slice, parse_content, continue_content, sent_message, parse_request,
}
use instant_messaging_progra.Server.Receiving.{receive}
use instant_messaging_progra.TcpNetworkClientManager.Partitions.{
  partitions, partitions_short, partitions_cut,
}

-- The request with `read` of the content in its payload and `rest` still to come.
abbrev pub progress_of : SendMessage → Bytes → Bytes → SendMessage
progress_of r read rest = record r {
  payload = read ++ replicate (length rest) 0;
  payload_index = length read;
  content_size = length read + length rest;
}

assign_slice-append :
    (read part later : Bytes)
    → assign_slice (length read) (length part) part (read ++ replicate (length (part ++ later)) 0)
      ≡ (read ++ part) ++ replicate (length later) 0
unfolding assign_slice
assign_slice-append read part later = rw (take-append (length read) read zeros refl, behind) refl
  where
    zeros : Bytes
    zeros = replicate (length (part ++ later)) 0

    behind : drop (length read + length part) (read ++ zeros) ≡ replicate (length later) 0
    behind =
        drop-append_more (length read) (length part) read zeros refl
        ∙ drop-replicate (length part) (length (part ++ later)) 0
        ∙ ap (λ n. replicate n 0) {y = length later} (omega (arith, length-append part later))

pub parse_content-part :
    (r : SendMessage) (read part later front post : Bytes) (status : ParseStatus)
    → content_from (length read) ≡ length front
    → bytes_to_read (length read + length (part ++ later)) (length read) (length front)
      ≡ (status, length part)
    → parse_content (front ++ (part ++ post)) (progress_of r read (part ++ later))
      ≡ (status, progress_of r (read ++ part) later)
unfolding parse_content
parse_content-part r read part later front post status at count =
    rw
      (
        at,
        count,
        drop-append (length front) front (part ++ post) refl,
        take-append (length part) part post refl,
        assign_slice-append read part later,
      )
      (ap₂
        (λ i n. (
          status,
          record r {
            payload = (read ++ part) ++ replicate (length later) 0;
            payload_index = i;
            content_size = n;
          },
        ))
        (sym (length-append read part))
        (omega (arith, length-append read part, length-append part later)))

-- The last part fits into the room behind `front`; a part before it fills this room.
pub bytes_to_read-last :
    (read part : Bytes) (start : ℕ)
    → length part ≤ 1024 - start
    → bytes_to_read (length read + length (part ++ [])) (length read) start ≡ (done, length part)
unfolding bytes_to_read
bytes_to_read-last read part start fits =
    rw
      (
        append-nil part,
        le→ltb (1024 - start) (length read + length part - length read) (omega arith),
      )
      (ap (λ n. (done, n)) {y = length part} (omega arith))

pub bytes_to_read-more :
    (read part later : Bytes) (start : ℕ)
    → length part ≡ 1024 - start
    → 0 < length later
    → bytes_to_read (length read + length (part ++ later)) (length read) start
      ≡ (undone, length part)
unfolding bytes_to_read
bytes_to_read-more read part later start fills more =
    rw
      (lt→ltb (1024 - start) (length read + length (part ++ later) - length read)
        (omega (arith, length-append part later)))
      (ap (λ n. (undone, n)) (sym fills))

content_from-later : (n : ℕ) → 0 < n → content_from n ≡ 0
unfolding content_from
content_from-later n h = ground arith

abbrev pub sent_request : SendMessage → Bytes → Bytes → Request
sent_request r read rest = send_message_request (progress_of r read rest)

abbrev pub send_parser : Bytes → ℕ → ℕ → RequestParser
send_parser id version size = record {
  parser_class = send_message_parser;
  client_id = id;
  client_version = version;
  payload_size = size;
}

module _ (id : Bytes) (version size : ℕ) (r : SendMessage) where
  pub parse_request-content :
      (buffer : Bytes) (q : SendMessage)
      → parse_request (send_parser id version size) buffer (some (send_message_request q))
        ≡ ok (sent_message (parse_content buffer q))
  unfolding parse_request continue_content
  parse_request-content buffer q = refl

  parse_content-last :
      (read rest : Bytes)
      → 0 < length read
      → length rest ≤ 1024
      → parse_content (pad 1024 rest) (progress_of r read rest)
        ≡ (done, progress_of r (read ++ rest) [])
  unfolding pad
  parse_content-last read rest h short =
      let zeros = replicate (1024 - length rest) 0 in
      ap (λ z. parse_content (rest ++ zeros) (progress_of r read z)) (sym (append-nil rest))
      ∙ parse_content-part r read rest [] [] zeros done (content_from-later (length read) h)
          (bytes_to_read-last read rest 0 short)

  parse_content-more :
      (read part later : Bytes)
      → 0 < length read
      → length part ≡ 1024
      → 0 < length later
      → parse_content (pad 1024 part) (progress_of r read (part ++ later))
        ≡ (undone, progress_of r (read ++ part) later)
  unfolding pad
  parse_content-more read part later h full more =
      parse_content-part r read part later [] (replicate (1024 - length part) 0) undone
        (content_from-later (length read) h) (bytes_to_read-more read part later 0 full more)

  -- What is left of the content comes in the partitions behind the first one.
  pub receive-later :
      (k : ℕ) (read rest : Bytes)
      → 0 < length read
      → length rest ≤ 1024 * suc k
      → receive
          (suc k)
          (partitions k rest)
          (some (send_parser id version size))
          (some (sent_request r read rest))
        ≡ ok (sent_request r (read ++ rest) [])
  unfolding receive
  receive-later zero read rest h fits =
      rw
        (
          partitions_short 0 rest (omega arith),
          parse_request-content (pad 1024 rest) (progress_of r read rest),
          parse_content-last read rest h (omega arith),
        )
        refl
  receive-later (suc k) read rest h fits = elim (Bool-cases (leb (length rest) 1024)) [
    | inl short ↦
        (let short' = leb→le (length rest) 1024 short in
          rw
            (
              partitions_short (suc k) rest short',
              parse_request-content (pad 1024 rest) (progress_of r read rest),
              parse_content-last read rest h short',
            )
            refl)
    | inr long ↦
        (let long' = leb→gt (length rest) 1024 long in
          let part = take 1024 rest in
          let later = drop 1024 rest in
          let cut =
            ap (λ z. parse_content (pad 1024 part) (progress_of r read z))
              (sym (take-append-drop 1024 rest))
            ∙ parse_content-more read part later h (length-take 1024 rest (omega arith))
                (omega (arith, length-drop 1024 rest)) in
          rw
            (
              partitions_cut k rest long',
              parse_request-content (pad 1024 part) (progress_of r read rest),
              cut,
            )
            (receive-later k (read ++ part) later (omega (arith, length-append read part))
                (omega (arith, length-drop 1024 rest))
              ∙ ap (λ z. ok (sent_request r z []))
                  (append_assoc read part later
                    ∙ ap (λ z. read ++ z) (take-append-drop 1024 rest))))
  ]
