-- ===== src/ServerResponse/Safety.antt =====
-- Whatever bytes the server sends, parsing a payload reads and writes inside its objects and ends.
use instant_messaging_progra.Base.{
  ℕ, suc, ◌+◌, ◌-◌, ◌*◌, ◌^◌, ◌≤◌, ◌<◌, ◌≡◌, ◌≢◌, arith, Bytes, length, Result, ok, throw, stuck,
  IsDefined, ◌>>=◌, ◌>>◌, inl, inr, Bool-cases, false, range-in_bounds, ◌==◌,
}
use instant_messaging_progra.Common.{ParseStatus, undone, done}
use instant_messaging_progra.Codec.Number.{get_num-in_bounds}
use instant_messaging_progra.Codec.ClientId.Read.{get_client_id-in_bounds}
use instant_messaging_progra.ServerResponse.{
  Big, ServerResponse, general_error, register_success, list_clients_success, public_key_success,
  message_sent_success, pull_messages_success, assert_payload_size, collect, count_of, start_of,
  parse_payload,
}
use instant_messaging_progra.ServerResponse.Loops.{client_loop-in_bounds, message_loop-IsDefined}
use instant_messaging_progra.ServerResponse.Payload.{
  filled, collect_lem, length-filled, count_cases, count_bounds, start_bounds,
}

-- What a response keeps between two partitions.
abbrev pub IsFilling : ℕ → Big → Type 0
IsFilling size b = (size < 2 ^ 32) × (b.copied ≤ size) × (length b.payload ≡ size)

abbrev pub IsSound : ServerResponse → Type 0
IsSound (list_clients_success base b n found) =
    IsFilling base.payload_size b × (n * 271 ≡ base.payload_size)
IsSound (pull_messages_success base b found) = IsFilling base.payload_size b
IsSound _ = Unit {0}

abbrev pub copied_of : ServerResponse → ℕ
copied_of (list_clients_success base b n found) = b.copied
copied_of (pull_messages_success base b found) = b.copied
copied_of _ = 0

-- The payload bytes that are still to come.
abbrev pub remaining : ServerResponse → ℕ
remaining (list_clients_success base b n found) = base.payload_size - b.copied
remaining (pull_messages_success base b found) = base.payload_size - b.copied
remaining _ = 0

-- A partition finishes the response, is rejected, or brings a full partition of the payload.
abbrev pub Progress : ServerResponse → Result (ParseStatus × ServerResponse) → Type 0
Progress r (ok (done, r')) = Unit {0}
Progress r (ok (undone, r')) =
    IsSound r'
    × (0 < copied_of r')
    × (0 < remaining r')
    × (remaining r' + 1024 ≤ remaining r + start_of (copied_of r))
Progress r (throw e) = Unit {0}
Progress r (stuck f) = ⊥

finish_Progress {ℓ} :
    {A : Type ℓ} (r : ServerResponse) (m : Result A) (f : A → ServerResponse)
    → IsDefined m
    → Progress r (m >>= λ a. ok (done, f a))
finish_Progress r (ok a) f h = tt
finish_Progress r (throw e) f h = tt
finish_Progress r (stuck e) f h = h

assert_Progress :
    (r : ServerResponse) (expected size : ℕ) (m : Result (ParseStatus × ServerResponse))
    → Progress r m
    → Progress r (assert_payload_size expected size >> m)
unfolding assert_payload_size
assert_Progress r expected size m h = elim (Bool-cases (expected == size)) [
  | inl same ↦ rw same h
  | inr other ↦ rw other tt
]

module _ (size : ℕ) (b : Big) (buffer : Bytes) (h : IsFilling size b)
    (full : length buffer ≡ 1024) where
  next : Big
  next = record {
    copied = b.copied + count_of size b.copied;
    payload = filled size b buffer h.0 h.1 h.2 full;
  }

  collects_next : collect size b buffer ≡ ok next
  unfolding next
  collects_next = collect_lem size b buffer h.0 h.1 h.2 full

  next-IsFilling : IsFilling size next
  unfolding next
  next-IsFilling =
      (h.0, (count_bounds size b.copied h.0 h.1).0, length-filled size b buffer h.0 h.1 h.2 full)

  next_moves :
      next.copied ≢ size
      → (0 < next.copied)
        × (0 < size - next.copied)
        × (size - next.copied + 1024 ≤ size - b.copied + start_of b.copied)
  unfolding next
  next_moves more = omega (
    arith,
    count_cases size b.copied h.0 h.1 more,
    count_bounds size b.copied h.0 h.1,
    start_bounds b.copied,
  )

ne_of_test : (a b : ℕ) → (a == b) ≡ false → a ≢ b
ne_of_test a b h = ground arith

-- parsePayload on a buffer of 1024 bytes, for a response that holds the invariant of the payload's
-- memory, stays inside all its memory and returns or throws. Where it asks for more partitions, the
-- response still holds the invariant, some payload bytes have been copied and some are missing, and
-- a full partition has been taken from what was missing.
pub parse_payload-Progress :
    (r : ServerResponse) (buffer : Bytes)
    → IsSound r
    → length buffer ≡ 1024
    → Progress r (parse_payload r buffer)
unfolding parse_payload
parse_payload-Progress (general_error base) buffer s full =
    assert_Progress (general_error base) 0 base.payload_size _ tt
parse_payload-Progress (register_success base id c) buffer s full =
    let (id', e) = get_client_id-in_bounds buffer 7 (omega arith) in
    assert_Progress (register_success base id c) 16 base.payload_size _ (rw e tt)
parse_payload-Progress (list_clients_success base b n found) buffer s full =
    elim (Bool-cases (base.payload_size == 0)) [
      | inl empty ↦ rw empty tt
      | inr some_bytes ↦
          rw (some_bytes, collects_next base.payload_size b buffer s.0 full)
            (elim (Bool-cases
              ((next base.payload_size b buffer s.0 full).copied == base.payload_size)) [
                | inl whole ↦
                    let filled_size = (next-IsFilling base.payload_size b buffer s.0 full).2 in
                    let (found', e) =
                      client_loop-in_bounds n 0 (next base.payload_size b buffer s.0 full).payload
                        found (omega (arith, s.1, filled_size)) in
                    rw (whole, e) tt
                | inr part ↦
                    let (a, b', c) =
                      next_moves base.payload_size b buffer s.0 full (ne_of_test _ _ part) in
                    rw part ((next-IsFilling base.payload_size b buffer s.0 full, s.1), a, b', c)
              ])
    ]
parse_payload-Progress (public_key_success base id k) buffer s full =
    let (id', e) = get_client_id-in_bounds buffer 7 (omega arith) in
    assert_Progress (public_key_success base id k) 176 base.payload_size _
      (rw (e, range-in_bounds buffer 23 160 (omega arith)) tt)
parse_payload-Progress (message_sent_success base id k) buffer s full =
    let (id', e) = get_client_id-in_bounds buffer 7 (omega arith) in
    let (k', e', _) = get_num-in_bounds buffer 23 4 (omega arith) in
    assert_Progress (message_sent_success base id k) 20 base.payload_size _ (rw (e, e') tt)
parse_payload-Progress (pull_messages_success base b found) buffer s full =
    elim (Bool-cases (base.payload_size == 0)) [
      | inl empty ↦ rw empty tt
      | inr some_bytes ↦
          rw (some_bytes, collects_next base.payload_size b buffer s full)
            (elim (Bool-cases
              ((next base.payload_size b buffer s full).copied == base.payload_size)) [
                | inl whole ↦
                    let filled_size = (next-IsFilling base.payload_size b buffer s full).2 in
                    rw whole (
                      finish_Progress (pull_messages_success base b found) _
                        (pull_messages_success base (next base.payload_size b buffer s full))
                        (message_loop-IsDefined (suc base.payload_size)
                          (next base.payload_size b buffer s full).payload base.payload_size 0 found
                          filled_size s.0 (omega arith) (omega arith)))
                | inr part ↦
                    let (a, b', c) =
                      next_moves base.payload_size b buffer s full (ne_of_test _ _ part) in
                    rw part (next-IsFilling base.payload_size b buffer s full, a, b', c)
              ])
    ]
