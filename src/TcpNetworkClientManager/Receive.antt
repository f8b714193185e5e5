-- ===== src/TcpNetworkClientManager/Receive.antt =====
-- The second loop of HandleRequest ends, and stays in bounds, whatever the server sends.
use instant_messaging_progra.Base.{
  ℕ, zero, suc, ◌+◌, ◌*◌, ◌%◌, ◌^◌, ◌≤◌, ◌<◌, ◌≡◌, refl, List, arith, Bytes, length, Result, ok,
  throw, stuck, Bool, IsDefined, >>=-IsDefined, ◌>>=◌, inl, inr, Bool-cases, true, false, none,
  some, if◌then◌else◌, ◌==◌,
}
use instant_messaging_progra.Common.{ParseStatus, undone, done}
use instant_messaging_progra.Codec.Number.{get_num-in_bounds}
use instant_messaging_progra.ServerRequest.{ServerRequest}
use instant_messaging_progra.ServerRequest.Any.{Fits}
use instant_messaging_progra.ServerResponse.{
  ServerResponse, Allocator, create_by_code, create_server_response_instance,
  new_list_clients_success, parse_payload, start_of,
}
use instant_messaging_progra.ServerResponse.Safety.{
  IsSound, copied_of, remaining, Progress, parse_payload-Progress,
}
use instant_messaging_progra.ServerResponse.Payload.{start_bounds}
use instant_messaging_progra.TcpNetworkClientManager.{
  Connection, read_loop, read_fuel, rethrow, handle_request,
}
use instant_messaging_progra.TcpNetworkClientManager.Sending.{Writes, sending-IsDefined}

-- `new unsigned char[n]` gives n bytes.
abbrev pub Allocates : Allocator → Type 0
Allocates alloc = (n : ℕ) → length (alloc n) ≡ n

-- boost::asio::read on a buffer of 1024 bytes fills it or fails.
abbrev pub Delivers : Connection → Type 0
Delivers c =
    (written : List Bytes) (round : ℕ)
    → IsDefined (c.read written round)
      × ((buffer : Bytes) → c.read written round ≡ ok buffer → length buffer ≡ 1024)

-- The test of the loop, behind a call of parsePayload.
continue :
    (r : ServerResponse) (m : Result (ParseStatus × ServerResponse))
    (next : ServerResponse → Result ServerResponse)
    → Progress r m
    → ((r' : ServerResponse)
        → IsSound r'
        → 0 < copied_of r'
        → 0 < remaining r'
        → remaining r' + 1024 ≤ remaining r + start_of (copied_of r)
        → IsDefined (next r'))
    → IsDefined (m >>= λ p. elim p.0 [ undone ↦ next p.1 | done ↦ ok p.1 ])
continue r (ok (undone, r')) next p k = k r' p.0 p.1 p.2 p.3
continue r (ok (done, r')) next p k = tt
continue r (throw e) next p k = tt
continue r (stuck f) next p k = p

module _ (alloc : Allocator) (allocates : Allocates alloc) where
  -- What the factory returns for a header: no payload has been copied yet.
  abbrev Fresh : Result ServerResponse → Type 0
  Fresh (ok r) = IsSound r × (copied_of r ≡ 0) × (remaining r < 2 ^ 32)
  Fresh (throw e) = Unit {0}
  Fresh (stuck f) = ⊥

  if-Fresh :
      (b : Bool) (m n : Result ServerResponse) → Fresh m → Fresh n → Fresh (if b then m else n)
  if-Fresh true m n hm hn = hm
  if-Fresh false m n hm hn = hn

  new_list_clients-Fresh :
      (version size : ℕ) → size < 2 ^ 32 → Fresh (new_list_clients_success alloc version size)
  unfolding new_list_clients_success
  new_list_clients-Fresh version size h = elim (Bool-cases (size % 271 == 0)) [
    | inl whole ↦ rw whole (((h, omega arith, allocates size), ground arith), refl, omega arith)
    | inr part ↦ rw part tt
  ]

  create_by_code-Fresh :
      (version code size : ℕ) → size < 2 ^ 32 → Fresh (create_by_code alloc version code size)
  unfolding create_by_code
  create_by_code-Fresh version code size h =
      if-Fresh (code == 2100) _ _ (tt, refl, omega arith)
        (if-Fresh (code == 2101) _ _ (new_list_clients-Fresh version size h) (
          if-Fresh (code == 2102) _ _ (tt, refl, omega arith)
            (if-Fresh (code == 2103) _ _ (tt, refl, omega arith)
              (if-Fresh (code == 2104) _ _ ((h, omega arith, allocates size), refl, omega arith)
                (if-Fresh (code == 9000) _ _ (tt, refl, omega arith) tt)))))

  create-Fresh :
      (buffer : Bytes) → length buffer ≡ 1024 → Fresh (create_server_response_instance alloc buffer)
  unfolding create_server_response_instance
  create-Fresh buffer full =
      let (v, e₁, _) = get_num-in_bounds buffer 0 1 (omega arith) in
      let (k, e₂, _) = get_num-in_bounds buffer 1 2 (omega arith) in
      let (n, e₃, hn) = get_num-in_bounds buffer 3 4 (omega arith) in
      rw (e₁, e₂, e₃) (create_by_code-Fresh v k n hn)

  module _ (c : Connection) (delivers : Delivers c) where
    -- The rounds after the first partition.
    read_rest :
        (fuel round : ℕ) (written : List Bytes) (r : ServerResponse)
        → IsSound r
        → 0 < copied_of r
        → remaining r ≤ 1024 * fuel
        → 0 < remaining r
        → IsDefined (read_loop alloc c fuel written round (some r))
    unfolding read_loop
    read_rest zero round written r s started few more = absurd (omega arith)
    read_rest (suc fuel) round written r s started few more =
        >>=-IsDefined (c.read written round) _ (delivers written round).0 λ buffer e.
          continue r (parse_payload r buffer)
            (λ r'. read_loop alloc c fuel written (suc round) (some r'))
            (parse_payload-Progress r buffer s ((delivers written round).1 buffer e))
            (λ r' s' started' more' less.
              read_rest fuel (suc round) written r' s' started'
                (omega (arith, (start_bounds (copied_of r)).1 started)) more')

    -- All the rounds: the first partition brings at least 1017 bytes of the payload.
    read_first :
        (fuel : ℕ) (written : List Bytes)
        → 2 ^ 32 ≤ 1024 * fuel
        → IsDefined (read_loop alloc c (suc fuel) written 0 none)
    unfolding read_loop
    read_first fuel written enough =
        >>=-IsDefined (c.read written 0) _ (delivers written 0).0 λ buffer e.
          first buffer ((delivers written 0).1 buffer e)
            (create_server_response_instance alloc buffer)
            (create-Fresh buffer ((delivers written 0).1 buffer e))
      where
        first :
            (buffer : Bytes)
            → length buffer ≡ 1024
            → (m : Result ServerResponse) → Fresh m
            → IsDefined (
                m >>= λ r. parse_payload r buffer >>= λ p. elim p.0 [
                  | undone ↦ read_loop alloc c fuel written 1 (some p.1)
                  | done ↦ ok p.1
                ])
        first buffer full (ok r) h =
            continue r (parse_payload r buffer) (λ r'. read_loop alloc c fuel written 1 (some r'))
              (parse_payload-Progress r buffer h.0 full)
              (λ r' s' started' more' less.
                read_rest fuel 1 written r' s' started'
                  (omega (arith, start_bounds (copied_of r), h.2)) more')
        first buffer full (throw e) h = tt
        first buffer full (stuck e) h = h

    pub read_all : (written : List Bytes) → IsDefined (read_loop alloc c read_fuel written 0 none)
    read_all written = read_first (2 ^ 22) written (omega arith)

    rethrow-IsDefined {ℓ} : {A : Type ℓ} (m : Result A) → IsDefined m → IsDefined (rethrow m)
    unfolding rethrow
    rethrow-IsDefined (ok a) h = tt
    rethrow-IsDefined (throw e) h = tt
    rethrow-IsDefined (stuck f) h = h

    -- HandleRequest returns a response or throws, for a request whose fields fit (Fits), whatever
    -- text its ids are: every loop ends within its fuel and no access is out of bounds, whatever
    -- bytes the peer answers and whichever call of the connection throws. The conditions are that
    -- an allocation has the size that was asked for, that a read which succeeds fills the 1024
    -- bytes of the buffer, and that connecting, reading and writing return or throw.
    pub handle_request-IsDefined :
        (request : ServerRequest)
        → Fits request
        → IsDefined c.connect
        → Writes c
        → IsDefined (handle_request alloc c request)
    unfolding handle_request
    handle_request-IsDefined request fits connected writes = rethrow-IsDefined _ (
        >>=-IsDefined c.connect _ connected λ _ _.
          >>=-IsDefined _ _ (sending-IsDefined c writes request fits)
            (λ written _. read_all written))
