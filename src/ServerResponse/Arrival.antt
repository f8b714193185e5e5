-- ===== src/ServerResponse/Arrival.antt =====
-- BigResponse::parsePayload (client/ServerResponse.cpp) on a partition that brings the next part of the
-- payload.
use instant_messaging_progra.Base.{
  ℕ, suc, ◌+◌, ◌^◌, ◌<◌, ◌≡◌, refl, sym, ap, ap₂, ◌∙◌, ◌++◌, arith, Bytes, length, length-append,
  take, drop, ok, ◌>>=◌, take-append, drop-append, drop-append_more, append_assoc, ◌==◌, true,
  false, [], Result, throw, stuck,
}
use instant_messaging_progra.Common.{ParseStatus, undone, done}
use instant_messaging_progra.ServerResponse.{
  Big, start_of, count_of, collect, parse_payload, ResponseBase, ServerResponse,
  pull_messages_success, list_clients_success, message_loop, client_loop,
}
use instant_messaging_progra.ServerResponse.Payload.{collect_lem, chunk}

-- `have` has been collected, `pre` is the header or nothing, and `part` is what the payload is given.
module _ (size : ℕ) (have part free pre junk : Bytes) (small : size < 2 ^ 32)
    (owned : size ≡ length have + length free) (full : length (pre ++ (part ++ junk)) ≡ 1024)
    (starts : start_of (length have) ≡ length pre)
    (counts : count_of size (length have) ≡ length part) where
  abbrev pub before : Big
  before = record { copied = length have; payload = have ++ free }

  abbrev pub after : Big
  after = record {
    copied = length have + length part;
    payload = (have ++ part) ++ drop (length part) free;
  }

  takes_part : take (length part) (drop (length pre) (pre ++ (part ++ junk))) ≡ part
  takes_part =
      ap (take (length part)) (drop-append (length pre) pre (part ++ junk) refl)
      ∙ take-append (length part) part junk refl

  fills_part :
      take (length have) (have ++ free) ++ (part ++ drop (length have + length part) (have ++ free))
      ≡ (have ++ part) ++ drop (length part) free
  fills_part =
      ap₂ (λ x y. x ++ (part ++ y)) (take-append (length have) have free refl)
        (drop-append_more (length have) (length part) have free refl)
      ∙ sym (append_assoc have part (drop (length part) free))

  chunk-part :
      chunk size before
        (pre ++ (part ++ junk))
        small
        (omega (arith))
        (omega (arith, length-append have free))
        full
      ≡ part
  chunk-part = ap₂ (λ n s. take n (drop s (pre ++ (part ++ junk)))) counts starts ∙ takes_part

  pub collect-part : collect size before (pre ++ (part ++ junk)) ≡ ok after
  collect-part =
      collect_lem size before (pre ++ (part ++ junk)) small (omega arith)
        (omega (arith, length-append have free)) full
      ∙ ap₂ (λ n p. ok (record { copied = n; payload = p })) (ap (λ n. length have + n) counts)
          (ap
              (λ ch.
                take (length have) (have ++ free)
                ++ (ch ++ drop (length have + length ch) (have ++ free)))
              chunk-part
            ∙ fills_part)

abbrev pub parsed : ServerResponse → Result (ParseStatus × ServerResponse)
parsed r = ok (done, r)

-- A class of responses whose payload is collected: `object` is the response while it is filled, and
-- `close` what becomes of it once the payload is there.
pub record IsBig (size : ℕ) (object : Big → ServerResponse) (close : Big → Result ServerResponse)
    : Type 0 where
  pub more :
      (b b' : Big) (buffer : Bytes)
      → 0 < size
      → collect size b buffer ≡ ok b'
      → (b'.copied == size) ≡ false
      → parse_payload (object b) buffer ≡ ok (undone, object b')
  pub last :
      (b b' : Big) (buffer : Bytes)
      → 0 < size
      → collect size b buffer ≡ ok b'
      → (b'.copied == size) ≡ true
      → parse_payload (object b) buffer ≡ (close b' >>= parsed)

is_not_zero : (size : ℕ) → 0 < size → (size == 0) ≡ false
is_not_zero size h = ground arith

regroup {ℓ} :
    {A : Type ℓ} (m : Result A) (g : A → ServerResponse)
    → (m >>= λ a. parsed (g a)) ≡ ((m >>= λ a. ok (g a)) >>= parsed)
regroup (ok a) g = refl
regroup (throw e) g = refl
regroup (stuck f) g = refl

abbrev pub base_with : ℕ → ℕ → ResponseBase
base_with version size = record { version = version; payload_size = size; response_text = [] }

abbrev pub pulled : ℕ → ℕ → Big → ServerResponse
pulled version size b = pull_messages_success (base_with version size) b []

abbrev pub close_pulled : ℕ → ℕ → Big → Result ServerResponse
close_pulled version size b = message_loop (suc size) b.payload size 0 [] >>= λ found.
    ok (pull_messages_success (base_with version size) b found)

pub pulled-IsBig : (version size : ℕ) → IsBig size (pulled version size) (close_pulled version size)
unfolding parse_payload
pulled-IsBig version size = record {
  more = λ b b' buffer some e unequal. rw (is_not_zero size some, e, unequal) refl;
  last = λ b b' buffer some e equal.
      rw (is_not_zero size some, e, equal)
        (regroup (message_loop (suc size) b'.payload size 0 [])
          (λ found. pull_messages_success (base_with version size) b' found));
}

abbrev pub listed : ℕ → ℕ → ℕ → Big → ServerResponse
listed version size n b = list_clients_success (base_with version size) b n []

abbrev pub close_listed : ℕ → ℕ → ℕ → Big → Result ServerResponse
close_listed version size n b = client_loop n 0 b.payload [] >>= λ found.
    ok (list_clients_success (base_with version size) b n found)

pub listed-IsBig :
    (version size n : ℕ) → IsBig size (listed version size n) (close_listed version size n)
unfolding parse_payload
listed-IsBig version size n = record {
  more = λ b b' buffer some e unequal. rw (is_not_zero size some, e, unequal) refl;
  last = λ b b' buffer some e equal.
      rw (is_not_zero size some, e, equal)
        (regroup (client_loop n 0 b'.payload [])
          (λ found. list_clients_success (base_with version size) b' n found));
}
