-- ===== src/TcpNetworkClientManager/Reassembly.antt =====
-- The second loop of HandleRequest (client/TCPNetworkClientManager.cpp) on a response of several
-- partitions that brings messages.
use instant_messaging_progra.Base.{
  ℕ, zero, suc, ◌+◌, ◌*◌, ◌^◌, ◌≤◌, ◌<◌, ◌≡◌, refl, sym, ap, ap₂, ◌∙◌, [], ◌++◌, arith, Bytes,
  length, length-append, length-drop, drop, append-nil, append_assoc, Result, ok, throw, stuck,
  ◌>>=◌, ◌⊎◌, inl, inr, List, Option, some, drop-append, ◌==◌, true, false,
}
use instant_messaging_progra.Common.{undone, done}
use instant_messaging_progra.ServerResponse.{
  Allocator, start_of, count_of, parse_payload, ServerResponse, Big,
}
use instant_messaging_progra.ServerResponse.Arrival.{before, after, collect-part, IsBig, parsed}
use instant_messaging_progra.TcpNetworkClientManager.{Connection, read_loop, response_for}

-- The reads from the given one on bring the bytes in full partitions; the last one ends in any bytes.
pub data Brings (c : Connection) (written : List Bytes) : ℕ → Bytes → Type 0 where
  last_partition :
      {round : ℕ} (part junk : Bytes)
      → length (part ++ junk) ≡ 1024
      → 0 < length part
      → c.read written round ≡ ok (part ++ junk)
      → Brings c written round part
  more_partitions :
      {round : ℕ} (part rest : Bytes)
      → length part ≡ 1024
      → 0 < length rest
      → c.read written round ≡ ok part
      → Brings c written (suc round) rest
      → Brings c written round (part ++ rest)

count_lem :
    (size copied part start : ℕ)
    → size < 2 ^ 32
    → start_of copied ≡ start
    → start + part ≤ 1024
    → copied + part ≤ size
    → (copied + part ≡ size) ⊎ (start + part ≡ 1024)
    → count_of size copied ≡ part
unfolding count_of
count_lem size copied part start small starts fits le (inl whole) = ground arith
count_lem size copied part start small starts fits le (inr filled) = ground arith

start_lem : (copied : ℕ) → 0 < copied → start_of copied ≡ 0
unfolding start_of
start_lem copied h = ground arith

drop-all : (n : ℕ) (bs : Bytes) → length bs ≡ n → drop n bs ≡ []
drop-all n bs h = ap (drop n) (sym (append-nil bs)) ∙ drop-append n bs [] h

is_equal : (a b : ℕ) → a ≡ b → (a == b) ≡ true
is_equal a b h = ground arith

is_unequal : (a b : ℕ) → a < b → (a == b) ≡ false
is_unequal a b h = ground arith

last_bind :
    (m : Result ServerResponse) (next : ServerResponse → Result ServerResponse)
    → ((m >>= parsed) >>= λ p. elim p.0 as (λ _. Result ServerResponse) [
      | undone ↦ next p.1
      | done ↦ ok p.1
    ])
      ≡ m
last_bind (ok r) next = refl
last_bind (throw e) next = refl
last_bind (stuck f) next = refl

module _ (alloc : Allocator) (c : Connection) (written : List Bytes) where
  -- One round, where the response is there already or is made from this partition.
  module _ (fuel round : ℕ) (response : Option ServerResponse) (r : ServerResponse) (buffer : Bytes)
      (reads : c.read written round ≡ ok buffer)
      (chosen : response_for alloc response buffer ≡ ok r) where
    loop_more :
        (r' : ServerResponse)
        → parse_payload r buffer ≡ ok (undone, r')
        → read_loop alloc c (suc fuel) written round response
          ≡ read_loop alloc c fuel written (suc round) (some r')
    unfolding read_loop
    loop_more r' e = rw (reads, chosen, e) refl

    loop_last :
        (m : Result ServerResponse)
        → parse_payload r buffer ≡ (m >>= parsed)
        → read_loop alloc c (suc fuel) written round response ≡ m
    unfolding read_loop
    loop_last m e =
        rw (reads, chosen, e)
          (last_bind m (λ r'. read_loop alloc c fuel written (suc round) (some r')))

-- The whole payload in its memory.
abbrev pub whole_of : ℕ → Bytes → Big
whole_of size payload = record { copied = size; payload = payload }

module _ (alloc : Allocator) (c : Connection) (written : List Bytes) (size : ℕ)
    (small : size < 2 ^ 32) (object : Big → ServerResponse) (close : Big → Result ServerResponse)
    (big : IsBig size object close) where
  abbrev pub filling : Bytes → Bytes → ServerResponse
  filling have free = object (record { copied = length have; payload = have ++ free })

  -- The last partition of the payload, behind the header or without it.
  pub last_round :
      (fuel round : ℕ) (response : Option ServerResponse) (have part free pre junk : Bytes)
      → c.read written round ≡ ok (pre ++ (part ++ junk))
      → response_for alloc response (pre ++ (part ++ junk)) ≡ ok (filling have free)
      → start_of (length have) ≡ length pre
      → size ≡ length have + length part
      → length free ≡ length part
      → length (pre ++ (part ++ junk)) ≡ 1024
      → 0 < size
      → read_loop alloc c (suc fuel) written round response ≡ close (whole_of size (have ++ part))
  last_round fuel round response have part free pre junk reads chosen starts whole owned full
        some_bytes =
      loop_last alloc c written fuel round response (filling have free) (pre ++ (part ++ junk))
        reads chosen
        (close (after size have part free pre junk small (omega arith) full starts counts))
        (big.last (before size have part free pre junk small (omega arith) full starts counts) _ _
          some_bytes
          (collect-part size have part free pre junk small (omega arith) full starts counts)
          (is_equal (length have + length part) size (sym whole)))
      ∙ ap₂ (λ n p. close (record { copied = n; payload = p })) (sym whole)
          (ap (λ z. (have ++ part) ++ z) (drop-all (length part) free owned)
            ∙ append-nil (have ++ part))
    where
      counts : count_of size (length have) ≡ length part
      counts =
          count_lem size (length have) (length part) (length pre) small starts
            (omega (arith, length-append pre (part ++ junk), length-append part junk)) (omega arith)
            (inl (omega arith))

  -- A full partition that is not the last.
  pub more_round :
      (fuel round : ℕ) (response : Option ServerResponse) (have part free pre : Bytes)
      → c.read written round ≡ ok (pre ++ part)
      → response_for alloc response (pre ++ part) ≡ ok (filling have free)
      → start_of (length have) ≡ length pre
      → length have + length part < size
      → size ≡ length have + length free
      → length (pre ++ part) ≡ 1024
      → read_loop alloc c (suc fuel) written round response
        ≡ read_loop alloc c fuel written
            (suc round)
            (some (filling (have ++ part) (drop (length part) free)))
  more_round fuel round response have part free pre reads chosen starts missing owned full =
      loop_more alloc c written fuel round response (filling have free) (pre ++ part) reads chosen
        (object
          (after size have part free pre [] small owned (ap length nothing ∙ full) starts counts))
        (ap (parse_payload (filling have free)) (sym nothing)
          ∙ big.more
              (before size have part free pre [] small owned (ap length nothing ∙ full) starts
                counts)
              _ _ (omega arith)
              (collect-part size have part free pre [] small owned (ap length nothing ∙ full) starts
                counts)
              (is_unequal (length have + length part) size missing))
      ∙ ap
          (λ n. read_loop alloc c fuel written (suc round) (
            some (
              object (record { copied = n; payload = (have ++ part) ++ drop (length part) free }))))
          (sym (length-append have part))
    where
      nothing : pre ++ (part ++ []) ≡ pre ++ part
      nothing = ap (λ z. pre ++ z) (append-nil part)

      counts : count_of size (length have) ≡ length part
      counts =
          count_lem size (length have) (length part) (length pre) small starts
            (omega (arith, length-append pre part)) (omega arith)
            (inr (omega (arith, length-append pre part)))

  -- The partitions after the first one.
  pub read_rest :
      (fuel round : ℕ) (have rest free : Bytes)
      → Brings c written round rest
      → 0 < length have
      → size ≡ length have + length rest
      → length free ≡ length rest
      → length rest ≤ 1024 * fuel
      → read_loop alloc c fuel written round (some (filling have free))
        ≡ close (whole_of size (have ++ rest))
  read_rest zero round have rest free (last_partition part junk full some_part reads) started whole
        owned few =
      absurd (omega arith)
  read_rest (suc fuel) round have rest free (last_partition part junk full some_part reads) started
        whole owned few =
      last_round fuel round (some (filling have free)) have part free [] junk reads
        (unfold response_for in refl) (start_lem (length have) started) whole owned full
        (omega arith)
  read_rest zero round have rest free (more_partitions part others full some_rest reads brings)
        started whole owned few =
      absurd (omega (arith, length-append part others))
  read_rest (suc fuel) round have rest free
        (more_partitions part others full some_rest reads brings) started whole owned few =
      more_round fuel round (some (filling have free)) have part free [] reads
        (unfold response_for in refl) (start_lem (length have) started)
        (omega (arith, length-append part others)) (omega arith) full
      ∙ read_rest fuel (suc round) (have ++ part) others (drop (length part) free) brings
          (omega (arith, length-append have part))
          (omega (arith, length-append have part, length-append part others))
          (omega (arith, length-drop (length part) free, length-append part others))
          (omega (arith, length-append part others))
      ∙ ap (λ z. close (whole_of size z)) (append_assoc have part others)
