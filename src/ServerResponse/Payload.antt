-- ===== src/ServerResponse/Payload.antt =====
-- BigResponse::parsePayload: how the payload is put together from the partitions.
use instant_messaging_progra.Base.{
  ℕ, ◌+◌, ◌^◌, ◌≤◌, ◌<◌, ◌≡◌, ap, ◌++◌, ◌≢◌, arith, Bytes, length, length-append, length-take,
  length-drop, take, drop, ok, copy, range-in_bounds, le→leb,
}
use instant_messaging_progra.ServerResponse.{Big, start_of, count_of, collect}

pub start_bounds : (copied : ℕ) → (start_of copied ≤ 7) × (0 < copied → start_of copied ≡ 0)
unfolding start_of
start_bounds copied = ground arith

module _ (size copied : ℕ) (small : size < 2 ^ 32) (le : copied ≤ size) where
  -- The bytes lie in the buffer and belong to the payload.
  pub count_bounds :
      (copied + count_of size copied ≤ size) × (start_of copied + count_of size copied ≤ 1024)
  unfolding count_of
  count_bounds = ground (arith, start_bounds copied)

  -- Either the payload is complete afterwards, or the buffer has been read to its end.
  pub count_cases :
      copied + count_of size copied ≢ size → start_of copied + count_of size copied ≡ 1024
  unfolding count_of
  count_cases h = ground (arith, start_bounds copied)

module _ (size : ℕ) (b : Big) (buffer : Bytes) (small : size < 2 ^ 32) (le : b.copied ≤ size)
    (owned : length b.payload ≡ size) (full : length buffer ≡ 1024) where
  abbrev pub chunk : Bytes
  chunk = take (count_of size b.copied) (drop (start_of b.copied) buffer)

  pub length-chunk : length chunk ≡ count_of size b.copied
  length-chunk =
      length-take (count_of size b.copied) (drop (start_of b.copied) buffer)
        (omega (arith, length-drop (start_of b.copied) buffer, count_bounds size b.copied small le))

  abbrev pub filled : Bytes
  filled = take b.copied b.payload ++ (chunk ++ drop (b.copied + length chunk) b.payload)

  copies_chunk : copy chunk b.copied b.payload ≡ ok filled
  unfolding copy
  copies_chunk = rw (
      le→leb (b.copied + length chunk) (length b.payload)
        (omega (arith, length-chunk, count_bounds size b.copied small le)))

  -- The call stays inside the buffer and inside the payload, and fills the next bytes.
  pub collect_lem :
      collect size b buffer
      ≡ ok (record { copied = b.copied + count_of size b.copied; payload = filled })
  unfolding collect
  collect_lem =
      rw
        (
          range-in_bounds buffer (start_of b.copied) (count_of size b.copied)
              (omega (arith, count_bounds size b.copied small le)),
          copies_chunk,
        )
        (ap (λ n. ok (record { copied = n; payload = filled }))
          (omega (arith, count_bounds size b.copied small le)))

  pub length-filled : length filled ≡ size
  length-filled = omega (
    arith,
    length-append {0},
    length-chunk,
    length-take b.copied b.payload (omega arith),
    length-drop (b.copied + length chunk) b.payload,
    count_bounds size b.copied small le,
  )
