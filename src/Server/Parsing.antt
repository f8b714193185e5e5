-- ===== src/Server/Parsing.antt =====
-- What the server receives of a request that client/TCPNetworkClientManager.cpp wrote: the loop of
-- _handle_session (server/message_u_server.py) on its partitions.
use instant_messaging_progra.Base.{
  ℕ, zero, suc, ◌+◌, ◌-◌, ◌*◌, ◌%◌, ◌^◌, ◌≤◌, ◌<◌, ◌≡◌, refl, sym, ap, ap₂, ◌∙◌, [], ◌++◌, Bytes,
  length, take, drop, replicate, pad, none, ok, length-append, take-append_more, drop-append_more,
  append_assoc, append-nil, arith, length-take, length-drop, take-append-drop, leb, leb→le, leb→gt,
  Bool-cases, inl, inr,
}
use instant_messaging_progra.Common.{MessageType, message_type_code, ParseStatus, done, undone}
use instant_messaging_progra.Codec.Number.{le_bytes}
use instant_messaging_progra.ServerRequest.{Header}
use instant_messaging_progra.ServerRequest.Format.{
  header_bytes, length-header_bytes, head_bytes, length-head_bytes,
}
use instant_messaging_progra.TcpNetworkClientManager.Partitions.{
  partitions, partitions_short, partitions_cut,
}
use instant_messaging_progra.Server.Requests.{
  content_from, bytes_to_read, Request, send_message_request, SendMessage, RequestParser,
  parse_request, get_request_parser, parse_content, sent_message, new_send_message_request,
}
use instant_messaging_progra.Server.Receiving.{receive}
use instant_messaging_progra.Server.Content.{
  progress_of, sent_request, send_parser, parse_content-part, bytes_to_read-last,
  bytes_to_read-more, receive-later,
}
use instant_messaging_progra.Server.Understood.{whole_message, parse_send_message-wire}

-- A request of one partition takes one round.
pub receive-one :
    (n k : ℕ) (wire : Bytes) (p : RequestParser) (r : Request)
    → length wire ≤ 1024
    → get_request_parser (pad 1024 wire) ≡ ok p
    → parse_request p (pad 1024 wire) none ≡ ok (done, r)
    → receive (suc n) (partitions k wire) none none ≡ ok r
unfolding receive
receive-one n k wire p r short e e' = rw (partitions_short k wire short, e, e') refl

pub pad-append :
    (xs ys : Bytes) → pad 1024 (xs ++ ys) ≡ xs ++ (ys ++ replicate (1024 - length (xs ++ ys)) 0)
unfolding pad
pad-append xs ys = append_assoc xs ys _

-- The message, with `content` of `length content` bytes.
module _ (sender receiver content : Bytes) (h : Header) (t : MessageType) (e : length sender ≡ 16)
    (e' : length receiver ≡ 16) where
  abbrev pub request₀ : SendMessage
  request₀ = whole_message sender h.version receiver (message_type_code t) content

  new_send_message-progress_of :
      new_send_message_request sender h.version receiver (message_type_code t) (length content)
      ≡ progress_of request₀ [] content
  unfolding new_send_message_request
  new_send_message-progress_of =
      ap
        (λ n. record request₀ {
          payload = replicate (length content) 0;
          payload_index = 0;
          content_size = n;
        })
        (omega arith)

  progress_of-all : progress_of request₀ content [] ≡ request₀
  progress_of-all =
      ap₂ (λ z n. record request₀ { payload = z; content_size = n }) (append-nil content)
        (omega arith)

  abbrev pub head : Bytes
  head = head_bytes sender h receiver t content

  head_bytes-append :
      (post : Bytes)
      → head ++ post
        ≡ header_bytes sender h
          ++ (receiver
              ++ ((le_bytes 1 (message_type_code t) ++ le_bytes 4 (length content % 2 ^ 32))
                  ++ post))
  unfolding head_bytes
  head_bytes-append post = simp (append_assoc)

  module _ (kind : message_type_code t < 256) (fits : length content < 2 ^ 32) where
    pub parse_request-head :
        (post : Bytes)
        → parse_request (send_parser sender h.version h.payload_size) (head ++ post) none
          ≡ ok (sent_message (parse_content (head ++ post) (progress_of request₀ [] content)))
    unfolding parse_request
    parse_request-head post =
        let size : length content % 2 ^ 32 ≡ length content = omega arith in
        rw
          (
            head_bytes-append post,
            size,
            parse_send_message-wire (send_parser sender h.version h.payload_size)
                (header_bytes sender h) (length-header_bytes h sender e) receiver post
                (message_type_code t) (length content) e' kind fits,
            new_send_message-progress_of,
          )
          refl

    -- The first partition, whether the content ends in it or not.
    parse_request-first :
        (part later post : Bytes) (status : ParseStatus)
        → part ++ later ≡ content
        → bytes_to_read (0 + length (part ++ later)) 0 44 ≡ (status, length part)
        → parse_request (send_parser sender h.version h.payload_size) (head ++ (part ++ post)) none
          ≡ ok (status, sent_request request₀ part later)
    parse_request-first part later post status all count =
        parse_request-head (part ++ post)
        ∙ ap
            (λ z.
              ok
                (sent_message (parse_content (head ++ (part ++ post)) (progress_of request₀ [] z))))
            (sym all)
        ∙ ap (λ z. ok (sent_message z))
            (parse_content-part request₀ [] part later head post status
              (unfold content_from in sym (length-head_bytes h sender receiver content t e e'))
              (ap (bytes_to_read _ 0) (length-head_bytes h sender receiver content t e e') ∙ count))

    module _
        (parsed : (post : Bytes)
          → get_request_parser (header_bytes sender h ++ post)
            ≡ ok (send_parser sender h.version h.payload_size)) where
      pub get_request_parser-head :
          (post : Bytes)
          → get_request_parser (head ++ post) ≡ ok (send_parser sender h.version h.payload_size)
      get_request_parser-head post = ap get_request_parser (head_bytes-append post) ∙ parsed _

      receive-short :
          (n k : ℕ)
          → length (head ++ content) ≤ 1024
          → receive (suc n) (partitions k (head ++ content)) none none
            ≡ ok (send_message_request request₀)
      receive-short n k short =
          let zeros = replicate {A = ℕ} (1024 - length (head ++ content)) 0 in
          receive-one n k (head ++ content) (send_parser sender h.version h.payload_size)
            (sent_request request₀ content []) short
            (ap get_request_parser (pad-append head content)
              ∙ get_request_parser-head (content ++ zeros))
            (ap (λ z. parse_request (send_parser sender h.version h.payload_size) z none)
                (pad-append head content)
              ∙ parse_request-first content [] zeros done (append-nil content) (
                  bytes_to_read-last [] content 44 (
                    omega (
                      arith,
                      length-append {0},
                      length-head_bytes h sender receiver content t e e',
                    ))))
          ∙ ap (λ z. ok (send_message_request z)) progress_of-all

      receive-long :
          (k : ℕ)
          → 1024 < length (head ++ content)
          → length (head ++ content) ≤ 1024 * suc (suc k)
          → receive (suc (suc k)) (partitions (suc k) (head ++ content)) none none
            ≡ ok (send_message_request request₀)
      unfolding receive
      receive-long k long fits' =
          let size = length-head_bytes h sender receiver content t e e' in
          let part = take 980 content in
          let later = drop 980 content in
          let cut : take 1024 (head ++ content) ≡ head ++ part =
            take-append_more 44 980 head content size in
          let left : drop 1024 (head ++ content) ≡ later =
            drop-append_more 44 980 head content size in
          let full : length part ≡ 980 =
            length-take 980 content (omega (arith, length-append head content)) in
          let full' : length part ≡ 1024 - 44 = omega arith in
          let more : 0 < length later =
            omega (arith, length-append head content, length-drop 980 content) in
          let first : 0 < length part = omega arith in
          let fits'' : length later ≤ 1024 * suc k =
            omega (arith, length-append head content, length-drop 980 content) in
          let count : bytes_to_read (0 + length (part ++ later)) 0 44 ≡ (undone, length part) =
            bytes_to_read-more [] part later 44 full' more in
          let zeros = replicate {A = ℕ} (1024 - length (head ++ part)) 0 in
          rw
            (
              partitions_cut k (head ++ content) long,
              cut,
              left,
              pad-append head part,
              get_request_parser-head (part ++ zeros),
              parse_request-first part later zeros undone (take-append-drop 980 content) count,
            )
            (receive-later sender h.version h.payload_size request₀ k part later first fits''
              ∙ ap (λ z. ok (sent_request request₀ z [])) (take-append-drop 980 content)
              ∙ ap (λ z. ok (send_message_request z)) progress_of-all)

      pub receive-message :
          (k : ℕ)
          → length (head ++ content) ≤ 1024 * suc k
          → receive (suc k) (partitions k (head ++ content)) none none
            ≡ ok (send_message_request request₀)
      receive-message zero h' = receive-short zero zero (omega arith)
      receive-message (suc k) h' = elim (Bool-cases (leb (length (head ++ content)) 1024)) [
        | inl short ↦ receive-short (suc k) (suc k) (leb→le _ 1024 short)
        | inr long ↦ receive-long k (leb→gt _ 1024 long) h'
      ]
