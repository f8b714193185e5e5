-- ===== src/ServerResponse/Messages.antt =====
-- PullMessagesSuccessResponse::parseDataList (client/ServerResponse.cpp) on a payload of messages.
use instant_messaging_progra.Base.{
  ℕ, suc, ◌+◌, ◌-◌, ◌^◌, ◌≤◌, ◌<◌, ◌≡◌, refl, sym, ap, ap₂, ◌∙◌, List, [], ◌∷◌, ◌++◌, map,
  append_assoc, append-nil, arith, Bytes, length, length-append, ok, throw, exception, lt→ltb,
  le→ltb, sub_u32, All,
}
use instant_messaging_progra.Codec.ClientId.{hex_id}
use instant_messaging_progra.ServerResponse.{MessageDataFromServer, parse_message, message_loop}
use instant_messaging_progra.ServerResponse.Message.{parse_message_short}
use instant_messaging_progra.ServerResponse.Posted.{
  Posted, IsPosted, fixed_bytes, posted_bytes, as_received, reads_id, reads_number, reads_kind,
  reads_size, head, length-head, split_head, length-fixed, size_lem, parse_message-posted,
}

message_loop-next :
    (fuel : ℕ) (payload : Bytes) (size offset next : ℕ) (found : List MessageDataFromServer)
    (m : MessageDataFromServer)
    → size < 2 ^ 32
    → offset + 25 ≤ size
    → parse_message payload size offset ≡ ok (m, next)
    → message_loop (suc fuel) payload size offset found
      ≡ message_loop fuel payload size next (found ++ (m ∷ []))
unfolding message_loop
message_loop-next fuel payload size offset next found m small inside e =
    rw (lt→ltb offset size (omega arith), le→ltb (sub_u32 size offset) 25 (omega arith), e) refl

message_loop-cut :
    (fuel : ℕ) (payload : Bytes) (size offset : ℕ) (found : List MessageDataFromServer)
    → size < 2 ^ 32
    → offset < size
    → size < offset + 25
    → message_loop (suc fuel) payload size offset found ≡ throw (exception "invalid payload size")
unfolding message_loop
message_loop-cut fuel payload size offset found small more short =
    rw (lt→ltb offset size more, lt→ltb (sub_u32 size offset) 25 (omega arith)) refl

message_loop-short :
    (fuel : ℕ) (payload : Bytes) (size offset : ℕ) (found : List MessageDataFromServer)
    → size < 2 ^ 32
    → offset + 25 ≤ size
    → parse_message payload size offset ≡ throw (exception "invalid payload size")
    → message_loop (suc fuel) payload size offset found ≡ throw (exception "invalid payload size")
unfolding message_loop
message_loop-short fuel payload size offset found small inside e =
    rw (lt→ltb offset size (omega arith), le→ltb (sub_u32 size offset) 25 (omega arith), e) refl

message_loop-end :
    (fuel : ℕ) (payload : Bytes) (size : ℕ) (found : List MessageDataFromServer)
    → message_loop (suc fuel) payload size size found ≡ ok found
unfolding message_loop
message_loop-end fuel payload size found = rw (le→ltb size size (omega arith)) refl

-- The loop reads whole messages one after another and comes to what is behind them.
message_loop-posted :
    (ms : List Posted) (pre rest : Bytes) (fuel size offset : ℕ)
    (found : List MessageDataFromServer)
    → All IsPosted ms
    → offset ≡ length pre
    → size < 2 ^ 32
    → size ≡ length (pre ++ posted_bytes ms rest)
    → (front : Bytes) × (pre ++ posted_bytes ms rest ≡ front ++ rest)
      × (message_loop (length ms + fuel) (pre ++ posted_bytes ms rest) size offset found
          ≡ message_loop fuel (front ++ rest) size (length front) (found ++ map as_received ms))
unfolding posted_bytes
message_loop-posted [] pre rest fuel size offset found wf at small whole = (
  pre,
  refl,
  rw at (
      ap₂ (λ n f. message_loop n (pre ++ rest) size (length pre) f) (omega arith)
        (sym (append-nil found))),
)
message_loop-posted (m ∷ ms) pre rest fuel size offset found (wf, wfs) at small whole =
    let tail = posted_bytes ms rest in
    let front = head m wf pre (m.content ++ tail) offset at ++ m.content in
    let regroup : pre ++ fixed_bytes m (m.content ++ tail) ≡ front ++ tail =
      split_head m wf pre (m.content ++ tail) offset at
      ∙ sym (append_assoc (head m wf pre (m.content ++ tail) offset at) m.content tail) in
    let length-front : offset + 25 + length m.content ≡ length front = omega (
      arith,
      length-append (head m wf pre (m.content ++ tail) offset at) m.content,
      length-head m wf pre (m.content ++ tail) offset at,
    ) in
    let (front', regroup', e) =
      message_loop-posted ms front rest fuel size (offset + 25 + length m.content)
        (found ++ (as_received m ∷ [])) wfs length-front small (whole ∙ ap length regroup) in
    (
      front',
      regroup ∙ regroup',
      ap (λ n. message_loop n (pre ++ fixed_bytes m (m.content ++ tail)) size offset found)
            (omega arith)
          ∙ message_loop-next (length ms + fuel) (pre ++ fixed_bytes m (m.content ++ tail)) size
              offset (offset + 25 + length m.content) found (as_received m) small
              (omega (arith, size_lem m wf pre tail offset size at small whole))
              (parse_message-posted m wf pre tail offset size at small whole)
          ∙ ap
              (λ b.
                message_loop (length ms + fuel) b size (offset + 25 + length m.content)
                  (found ++ (as_received m ∷ [])))
              regroup
          ∙ e
          ∙ ap (message_loop fuel (front' ++ rest) size (length front'))
              (append_assoc found (as_received m ∷ []) (map as_received ms)),
    )

length-posted :
    (ms : List Posted) (rest : Bytes) → All IsPosted ms → length ms ≤ length (posted_bytes ms rest)
unfolding posted_bytes
length-posted [] rest wf = omega arith
length-posted (m ∷ ms) rest (wf, wfs) = omega (
  arith,
  length-fixed m wf [] (m.content ++ posted_bytes ms rest) 0 refl,
  length-append m.content (posted_bytes ms rest),
  length-posted ms rest wfs,
)

-- On a payload of fewer than 2 ^ 32 bytes that consists of messages whose fields fit, the loop of
-- PullMessagesSuccessResponse::parseDataList gives those messages in order: the sender's id as
-- hexadecimal text, the number, the type and the content. `suc size` rounds are enough.
pub message_loop-posted_bytes :
    (ms : List Posted) (size : ℕ)
    → All IsPosted ms
    → size ≡ length (posted_bytes ms [])
    → size < 2 ^ 32
    → message_loop (suc size) (posted_bytes ms []) size 0 [] ≡ ok (map as_received ms)
message_loop-posted_bytes ms size wf whole small =
    let (front, regroup, e) =
      message_loop-posted ms [] [] (suc (size - length ms)) size 0 [] wf refl small whole in
    ap (λ n. message_loop n (posted_bytes ms []) size 0 []) (omega (arith, length-posted ms [] wf))
    ∙ e
    ∙ ap (λ n. message_loop (suc (size - length ms)) (front ++ []) size n (map as_received ms))
        (omega (arith, ap length regroup, length-append {0} front []))
    ∙ message_loop-end (size - length ms) (front ++ []) size (map as_received ms)

-- What is left of a message that does not fit: less than its fixed part, or a content that is
-- shorter than it says.
pub data IsCut : Bytes → Type 0 where
  cut_head : {rest : Bytes} → 0 < length rest → length rest < 25 → IsCut rest
  cut_content :
      (m : Posted) (part : Bytes)
      → IsPosted m
      → length part < length m.content
      → IsCut (fixed_bytes m part)

message_loop-IsCut :
    (rest front : Bytes) (fuel size : ℕ) (found : List MessageDataFromServer)
    → IsCut rest
    → size ≡ length (front ++ rest)
    → size < 2 ^ 32
    → message_loop (suc fuel) (front ++ rest) size (length front) found
      ≡ throw (exception "invalid payload size")
message_loop-IsCut rest front fuel size found (cut_head some_left few) whole small =
    message_loop-cut fuel (front ++ rest) size (length front) found small
      (omega (arith, length-append front rest)) (omega (arith, length-append front rest))
message_loop-IsCut rest front fuel size found (cut_content m part wf short) whole small =
    let inside = length-fixed m wf front part (length front) refl in
    message_loop-short fuel (front ++ fixed_bytes m part) size (length front) found small
      (omega arith)
      (parse_message_short (front ++ fixed_bytes m part) size (length front) (hex_id m.sender)
        m.number m.kind (length m.content) small (omega arith) wf.content_fits
        (reads_id m wf front part (length front) refl)
        (reads_number m wf front part (length front) refl)
        (reads_kind m wf front part (length front) refl)
        (reads_size m wf front part (length front) refl) (omega arith))

-- On a payload of fewer than 2 ^ 32 bytes that ends in the middle of a message, behind any whole
-- messages whose fields fit, the loop of PullMessagesSuccessResponse::parseDataList throws "invalid
-- payload size": both where less than the fixed part is left and where the content is shorter than
-- its size field says.
pub message_loop-throws :
    (ms : List Posted) (rest : Bytes) (size : ℕ)
    → All IsPosted ms
    → IsCut rest
    → size ≡ length (posted_bytes ms rest)
    → size < 2 ^ 32
    → message_loop (suc size) (posted_bytes ms rest) size 0 []
      ≡ throw (exception "invalid payload size")
message_loop-throws ms rest size wf cut whole small =
    let (front, regroup, e) =
      message_loop-posted ms [] rest (suc (size - length ms)) size 0 [] wf refl small whole in
    ap (λ n. message_loop n (posted_bytes ms rest) size 0 [])
      (omega (arith, length-posted ms rest wf))
    ∙ e
    ∙ message_loop-IsCut rest front (size - length ms) size (map as_received ms) cut
        (whole ∙ ap length regroup) small
