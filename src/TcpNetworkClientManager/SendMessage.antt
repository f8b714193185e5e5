-- ===== src/TcpNetworkClientManager/SendMessage.antt =====
-- The first loop of HandleRequest (client/TCPNetworkClientManager.cpp) with a message of one partition or
-- of several.
use instant_messaging_progra.Base.{
  ℕ, zero, suc, ◌+◌, ◌-◌, ◌*◌, ◌/◌, ◌≤◌, ◌<◌, ◌^◌, ◌≡◌, refl, sym, ap, ◌∙◌, List, [], ◌∷◌, ◌++◌,
  arith, append_assoc, Bytes, length, length-append, take, drop, replicate, pad, length-pad,
  length-take, length-drop, take-append-drop, take-append, ok, drop-drop, drop-append,
}
use native.Mathlib.Decide.{dec_le}
use instant_messaging_progra.Common.{MessageType, undone, done}
use instant_messaging_progra.ServerRequest.{
  Header, ServerRequest, send_message, prepare_request_buffer,
}
use instant_messaging_progra.ServerRequest.Format.{
  cleared, WrittenAs, head_bytes, length-head_bytes, parse_message_head-cleared,
}
use instant_messaging_progra.ServerRequest.Partition.{
  content_first_last, content_first_more, content_rest_last, content_rest_more,
}
use instant_messaging_progra.TcpNetworkClientManager.{Connection, clear, write_loop}
use instant_messaging_progra.TcpNetworkClientManager.Partitions.{
  partitions, partitions_of, partitions_short, partitions_cut,
}

clear_lem : (buffer : Bytes) → clear buffer ≡ replicate (length buffer) 0
unfolding clear
clear_lem [] = refl
clear_lem (b ∷ bs) = ap (λ z. 0 ∷ z) (clear_lem bs)

clear-cleared : (bs : Bytes) → length bs ≤ 1024 → clear (cleared bs) ≡ cleared []
clear-cleared bs h =
    clear_lem (cleared bs) ∙ ap (λ n. replicate n 0) (length-pad 1024 bs h) ∙ unfold pad in refl

-- The connection takes every write.
abbrev pub Accepts : Connection → Type 0
Accepts c = (written : List Bytes) (partition : Bytes) → c.write written partition ≡ ok tt

module _ (c : Connection) (accepts : Accepts c) where
  pub last_write :
      (fuel : ℕ) (request request' : ServerRequest) (buffer buffer' : Bytes) (written : List Bytes)
      → prepare_request_buffer request buffer ≡ ok (done, buffer', request')
      → write_loop c (suc fuel) request buffer written ≡ ok (written ++ (buffer' ∷ []))
  unfolding write_loop
  last_write fuel request request' buffer buffer' written e = rw (e, accepts written buffer')

  more_write :
      (fuel : ℕ) (request request' : ServerRequest) (buffer buffer' : Bytes) (written : List Bytes)
      → prepare_request_buffer request buffer ≡ ok (undone, buffer', request')
      → write_loop c (suc fuel) request buffer written
        ≡ write_loop c fuel request' (clear buffer') (written ++ (buffer' ∷ []))
  unfolding write_loop
  more_write fuel request request' buffer buffer' written e = rw (e, accepts written buffer')

  module _ (h : Header) (dest : Bytes) (t : MessageType) (content : Bytes)
      (small : length content < 2 ^ 32) where
    unfoldable pub message : ℕ → ServerRequest
    message sent = send_message h dest t content sent

    prepare_last :
        (sent : ℕ)
        → suc sent ≤ length content
        → length content - suc sent ≤ 1024
        → prepare_request_buffer (message (suc sent)) (cleared [])
          ≡ ok (done, cleared (drop (suc sent) content), message (length content))
    unfolding prepare_request_buffer message
    prepare_last sent le last = rw (content_rest_last content sent small le last)

    prepare_more :
        (sent : ℕ)
        → suc sent ≤ length content
        → 1024 < length content - suc sent
        → prepare_request_buffer (message (suc sent)) (cleared [])
          ≡ ok (undone, cleared (take 1024 (drop (suc sent) content)), message (suc (sent + 1024)))
    unfolding prepare_request_buffer message
    prepare_more sent le more = rw (content_rest_more content sent small le more)

    write_final :
        (k sent : ℕ) (written : List Bytes)
        → suc sent ≤ length content
        → length content - suc sent ≤ 1024
        → write_loop c (suc k) (message (suc sent)) (cleared []) written
          ≡ ok (written ++ partitions k (drop (suc sent) content))
    write_final k sent written le last =
        last_write k (message (suc sent)) _ _ _ written (prepare_last sent le last)
        ∙ ap (λ z. ok (written ++ z))
            (sym (
              partitions_short k (drop (suc sent) content)
                (omega (arith, length-drop (suc sent) content))))

    drop_next : (sent : ℕ) → drop (suc (sent + 1024)) content ≡ drop 1024 (drop (suc sent) content)
    drop_next sent =
        ap (λ n. drop n content) {x = suc (sent + 1024)} {y = suc sent + 1024} (omega arith)
        ∙ sym (drop-drop 1024 (suc sent) content)

    -- The rounds after the first.
    write_rest :
        (k sent : ℕ) (written : List Bytes)
        → suc sent ≤ length content
        → length content - suc sent ≤ 1024 * suc k
        → write_loop c (suc k) (message (suc sent)) (cleared []) written
          ≡ ok (written ++ partitions k (drop (suc sent) content))
    write_rest zero sent written le fits = write_final zero sent written le (omega arith)
    write_rest (suc k) sent written le fits = elim (dec_le (length content - suc sent) 1024) [
      | yes last ↦ write_final (suc k) sent written le last
      | no long ↦
          let chunk : Bytes = take 1024 (drop (suc sent) content) in
          let full : length chunk ≡ 1024 =
            length-take 1024 (drop (suc sent) content)
              (omega (arith, length-drop (suc sent) content)) in
          more_write (suc k) (message (suc sent)) _ _ _ written (prepare_more sent le (omega arith))
          ∙ ap
              (λ z.
                write_loop c (suc k) (message (suc (sent + 1024))) z
                  (written ++ (cleared chunk ∷ [])))
              (clear-cleared chunk (omega arith))
          ∙ write_rest k (sent + 1024) (written ++ (cleared chunk ∷ [])) (omega arith) (omega arith)
          ∙ ap ok (
              append_assoc written (cleared chunk ∷ []) _
              ∙ ap (λ z. written ++ z)
                  (ap (λ z. cleared chunk ∷ partitions k z) (drop_next sent)
                    ∙ sym (
                        partitions_cut k (drop (suc sent) content)
                          (omega (arith, length-drop (suc sent) content)))))
    ]

    module _ (sender receiver : Bytes) (s : WrittenAs h.client_id sender)
        (r : WrittenAs dest receiver) where
      unfoldable pub head : Bytes
      head = head_bytes sender h receiver t content

      head_size : length head ≡ 44
      unfolding head
      head_size = length-head_bytes h sender receiver content t s.size r.size

      first_last :
          length content ≤ 980
          → prepare_request_buffer (message 0) (cleared [])
            ≡ ok (done, cleared (head ++ content), message (length content))
      unfolding prepare_request_buffer message head
      first_last short = rw (
        parse_message_head-cleared h sender s dest receiver content t r,
        content_first_last content head small head_size short,
      )

      first_more :
          980 < length content
          → prepare_request_buffer (message 0) (cleared [])
            ≡ ok (undone, cleared (head ++ take 980 content), message 980)
      unfolding prepare_request_buffer message head
      first_more long = rw (
        parse_message_head-cleared h sender s dest receiver content t r,
        content_first_more content head small head_size long,
      )

      wire_size : length (head ++ content) ≡ 44 + length content
      wire_size = omega (arith, length-append head content, head_size)

      rounds :
          980 < length content → (44 + length content) / 1024 ≡ suc ((length content - 980) / 1024)
      rounds h = omega arith

      -- The first partition of the wire ends with 980 bytes of the content.
      cut_wire :
          980 < length content
          → cleared (head ++ take 980 content)
              ∷ partitions ((length content - 980) / 1024) (drop 980 content)
            ≡ partitions_of (head ++ content)
      unfolding partitions_of
      cut_wire long =
          let first : Bytes = head ++ take 980 content in
          let full : length first ≡ 1024 = omega (
            arith,
            length-append head (take 980 content),
            head_size,
            length-take 980 content (omega arith),
          ) in
          let whole : first ++ drop 980 content ≡ head ++ content =
            append_assoc head (take 980 content) (drop 980 content)
            ∙ ap (λ z. head ++ z) (take-append-drop 980 content) in
          let count : length (head ++ content) / 1024 ≡ suc ((length content - 980) / 1024) =
            ap (λ n. n / 1024) wire_size ∙ rounds long in
          sym (
            rw (
              count,
              partitions_cut ((length content - 980) / 1024) (head ++ content)
                  (omega (arith, wire_size)),
              ← whole,
              take-append 1024 first (drop 980 content) full,
              drop-append 1024 first (drop 980 content) full,
            ))

      pub write_message :
          write_loop c (suc ((44 + length content) / 1024)) (message 0) (cleared []) []
          ≡ ok (partitions_of (head ++ content))
      write_message = elim (dec_le (length content) 980) [
        | yes short ↦
            last_write ((44 + length content) / 1024) (message 0) _ _ _ [] (first_last short)
            ∙ ap ok (
                sym (
                  unfold partitions_of in
                  partitions_short (length (head ++ content) / 1024) (head ++ content)
                    (omega (arith, wire_size))))
        | no long ↦
            let first : Bytes = head ++ take 980 content in
            let full : length first ≡ 1024 = omega (
              arith,
              length-append head (take 980 content),
              head_size,
              length-take 980 content (omega arith),
            ) in
            rw (rounds (omega arith)) (
              more_write (suc ((length content - 980) / 1024)) (message 0) _ _ _ []
                (first_more (omega arith))
              ∙ ap
                  (λ z.
                    write_loop c (suc ((length content - 980) / 1024)) (message 980) z
                      (cleared first ∷ []))
                  (clear-cleared first (omega arith))
              ∙ write_rest ((length content - 980) / 1024) 979 (cleared first ∷ []) (omega arith)
                  (omega arith)
              ∙ ap ok (cut_wire (omega arith)))
      ]
