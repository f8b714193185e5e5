-- ===== src/ServerRequest/Partition.antt =====
-- SendMessageServerRequest::parseMessageContentIntoBuffer: which bytes each call writes.
use instant_messaging_progra.Base.{
  ℕ, suc, ◌+◌, ◌-◌, ◌^◌, ◌≤◌, ◌<◌, ◌≡◌, refl, sym, ap, ◌∙◌, [], ◌++◌, arith, ap₂,
}
use instant_messaging_progra.Base.{
  Bytes, length, take-all, ◌⊎◌, inl, inr, length-take, length-drop, take, drop, ok, copy-pad,
  range-in_bounds,
}
use instant_messaging_progra.Common.{ParseStatus, undone, done}
use instant_messaging_progra.ServerRequest.{
  chunk_of, content_start, parse_message_content_into_buffer,
}
use instant_messaging_progra.ServerRequest.Format.{cleared}

start_cases : (sent : ℕ) → (content_start sent ≡ 44) ⊎ (content_start sent ≡ 0)
unfolding content_start
start_cases sent = ground arith

module _ (size sent start : ℕ) (small : size < 2 ^ 32) (le : sent ≤ size) (near : start ≤ 44) where
  chunk_last : size - sent ≤ 1024 - start → chunk_of size sent start ≡ (done, size - sent)
  unfolding chunk_of
  chunk_last h = ground arith

  chunk_more : 1024 - start < size - sent → chunk_of size sent start ≡ (undone, 1024 - start)
  unfolding chunk_of
  chunk_more h = ground arith

-- One call, where the buffer holds `front` and `sent` bytes of the content have been sent.
module _ (content : Bytes) (sent : ℕ) (front : Bytes) (small : length content < 2 ^ 32)
    (le : sent ≤ length content) (place : length front ≡ content_start sent) where
  writes :
      (status : ParseStatus) (n : ℕ)
      → chunk_of (length content) sent (content_start sent) ≡ (status, n)
      → sent + n ≤ length content
      → length front + n ≤ 1024
      → parse_message_content_into_buffer content sent (cleared front)
        ≡ ok (status, cleared (front ++ take n (drop sent content)), sent + n)
  unfolding parse_message_content_into_buffer
  writes status n e inside fits =
      rw
        (
          e,
          range-in_bounds content sent n inside,
          copy-pad 1024 (content_start sent) front (take n (drop sent content)) (sym place) (
              omega (
                arith,
                length-take n (drop sent content) (omega (arith, length-drop sent content)),
              )),
        )
        (ap (λ k. ok (status, cleared (front ++ take n (drop sent content)), k)) (omega arith))

  near : content_start sent ≤ 44
  near = elim (start_cases sent) [ inl e ↦ omega arith | inr e ↦ omega arith ]

  -- What is left fits the buffer: all of it is written.
  pub content_last :
      length content - sent ≤ 1024 - content_start sent
      → parse_message_content_into_buffer content sent (cleared front)
        ≡ ok (done, cleared (front ++ drop sent content), length content)
  content_last h =
      writes done (length content - sent) (chunk_last _ sent _ small le near h) (omega arith)
        (omega (arith, near))
      ∙ ap₂ (λ z k. ok (done, cleared (front ++ z), k))
          (take-all (length content - sent) (drop sent content)
            (omega (arith, length-drop sent content)))
          (omega arith)

  -- Otherwise the buffer is filled to its end.
  pub content_more :
      1024 - content_start sent < length content - sent
      → parse_message_content_into_buffer content sent (cleared front)
        ≡ ok (
          undone,
          cleared (front ++ take (1024 - content_start sent) (drop sent content)),
          sent + (1024 - content_start sent),
        )
  content_more h =
      writes undone (1024 - content_start sent) (chunk_more _ sent _ small le near h) (omega arith)
        (omega (arith, near))

content_start-suc : (sent : ℕ) → content_start (suc sent) ≡ 0
unfolding content_start
content_start-suc sent = ground arith

-- The calls after the first write from the start of the cleared buffer.
module _ (content : Bytes) (sent : ℕ) (small : length content < 2 ^ 32)
    (le : suc sent ≤ length content) where
  pub content_rest_last :
      length content - suc sent ≤ 1024
      → parse_message_content_into_buffer content (suc sent) (cleared [])
        ≡ ok (done, cleared (drop (suc sent) content), length content)
  content_rest_last h =
      content_last content (suc sent) [] small le (sym (content_start-suc sent))
        (rw (content_start-suc sent) h)

  pub content_rest_more :
      1024 < length content - suc sent
      → parse_message_content_into_buffer content (suc sent) (cleared [])
        ≡ ok (undone, cleared (take 1024 (drop (suc sent) content)), suc (sent + 1024))
  content_rest_more h =
      content_more content (suc sent) [] small le (sym (content_start-suc sent))
        (rw (content_start-suc sent) h)
      ∙ ap₂ (λ m n. ok (undone, cleared (take m (drop (suc sent) content)), n))
          (ap (λ n. 1024 - n) (content_start-suc sent)) (omega (arith, content_start-suc sent))

-- The first call writes behind the 44 bytes of the fields before the content.
module _ (content front : Bytes) (small : length content < 2 ^ 32) (place : length front ≡ 44) where
  pub content_first_last :
      length content ≤ 980
      → parse_message_content_into_buffer content 0 (cleared front)
        ≡ ok (done, cleared (front ++ content), length content)
  content_first_last h =
      content_last content 0 front small (omega arith) (unfold content_start in place)
        (unfold content_start in omega arith)

  pub content_first_more :
      980 < length content
      → parse_message_content_into_buffer content 0 (cleared front)
        ≡ ok (undone, cleared (front ++ take 980 content), 980)
  content_first_more h =
      content_more content 0 front small (omega arith) (unfold content_start in place)
        (unfold content_start in omega arith)
      ∙ (unfold content_start in refl)
