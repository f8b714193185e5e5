-- ===== src/TcpNetworkClientManager/Answer.antt =====
-- A whole answer with messages, header included, through the second loop of HandleRequest
-- (client/TCPNetworkClientManager.cpp).
use instant_messaging_progra.Base.{
  ℕ, suc, ◌+◌, ◌*◌, ◌^◌, ◌≤◌, ◌<◌, ◌≡◌, refl, sym, ap, ◌∙◌, ◌/◌, ◌%◌, ◌==◌, true, [], ◌++◌, arith,
  Bytes, length, length-append, length-drop, drop, append_assoc, ok, Result, List, none, map, All,
  drop-append, drop-append_more, take-append, take-append_more, take-append-drop, take,
}
use instant_messaging_progra.Codec.Number.{
  le_bytes, length-le_bytes, get_num_from_buffer, get_num-le_bytes,
}
use instant_messaging_progra.ServerResponse.{
  Allocator, start_of, Big, ServerResponse, pull_messages_success, list_clients_success,
  create_server_response_instance, create_by_code, new_list_clients_success,
}
use instant_messaging_progra.ServerResponse.Arrival.{
  IsBig, pulled, close_pulled, pulled-IsBig, listed, close_listed, listed-IsBig,
}
use instant_messaging_progra.ServerResponse.Clients.{
  Listed, IsListed, listed_bytes, length-listed_bytes, as_listed, client_loop-listed_bytes,
}
use instant_messaging_progra.ServerResponse.Posted.{Posted, IsPosted, posted_bytes, as_received}
use instant_messaging_progra.ServerResponse.Messages.{message_loop-posted_bytes}
use instant_messaging_progra.TcpNetworkClientManager.{
  Connection, read_loop, read_fuel, response_for,
}
use instant_messaging_progra.TcpNetworkClientManager.Reassembly.{
  Brings, last_partition, more_partitions, whole_of, last_round, more_round, read_rest,
}

abbrev pub response_header : ℕ → ℕ → ℕ → Bytes
response_header version code size = le_bytes 1 version ++ (le_bytes 2 code ++ le_bytes 4 size)

module _ (alloc : Allocator) (version code size : ℕ) (version_fits : version < 256 ^ 1)
    (code_fits : code < 256 ^ 2) (small : size < 256 ^ 4) where
  pub create-response_header :
      (rest : Bytes)
      → create_server_response_instance alloc (response_header version code size ++ rest)
        ≡ create_by_code alloc version code size
  unfolding create_server_response_instance
  create-response_header rest =
      let wire = response_header version code size ++ rest in
      let by_version : wire
          ≡ [] ++ (le_bytes 1 version ++ ((le_bytes 2 code ++ le_bytes 4 size) ++ rest)) =
        simp (append_assoc) in
      let by_code : wire ≡ le_bytes 1 version ++ (le_bytes 2 code ++ (le_bytes 4 size ++ rest)) =
        simp (append_assoc) in
      let by_size : wire ≡ (le_bytes 1 version ++ le_bytes 2 code) ++ (le_bytes 4 size ++ rest) =
        simp (append_assoc) in
      let e₁ : get_num_from_buffer wire 0 1 ≡ ok version =
        ap (λ b. get_num_from_buffer b 0 1) by_version
        ∙ get_num-le_bytes [] _ 0 1 version refl (omega arith) version_fits in
      let e₂ : get_num_from_buffer wire 1 2 ≡ ok code =
        ap (λ b. get_num_from_buffer b 1 2) by_code
        ∙ get_num-le_bytes (le_bytes 1 version) _ 1 2 code
            (omega (arith, length-le_bytes 1 version)) (omega arith) code_fits in
      let e₃ : get_num_from_buffer wire 3 4 ≡ ok size =
        ap (λ b. get_num_from_buffer b 3 4) by_size
        ∙ get_num-le_bytes (le_bytes 1 version ++ le_bytes 2 code) _ 3 4 size
            (omega (
              arith,
              length-append (le_bytes 1 version) (le_bytes 2 code),
              length-le_bytes 1 version,
              length-le_bytes 2 code,
            ))
            (omega arith) small in
      rw (e₁, e₂, e₃) refl

  pub length-response_header : length (response_header version code size) ≡ 7
  length-response_header = omega (
    arith,
    length-append (le_bytes 1 version) (le_bytes 2 code ++ le_bytes 4 size),
    length-append (le_bytes 2 code) (le_bytes 4 size),
    length-le_bytes 1 version,
    length-le_bytes 2 code,
    length-le_bytes 4 size,
  )

  module _ (c : Connection) (written : List Bytes) (owned : length (alloc size) ≡ size)
      (some_bytes : 0 < size) (object : Big → ServerResponse) (close : Big → Result ServerResponse)
      (big : IsBig size object close)
      (created : create_by_code alloc version code size
        ≡ ok (object (record { copied = 0; payload = alloc size }))) where
    starts_behind : start_of 0 ≡ length (response_header version code size)
    unfolding start_of
    starts_behind = sym length-response_header

    pub read_wire :
        (fuel : ℕ) (wire payload : Bytes)
        → Brings c written 0 wire
        → wire ≡ response_header version code size ++ payload
        → size ≡ length payload
        → size ≤ 1024 * fuel
        → read_loop alloc c (suc fuel) written 0 none ≡ close (whole_of size payload)
    read_wire fuel wire payload (last_partition part junk full some_part reads) e whole enough =
        let regroup : part ++ junk ≡ response_header version code size ++ (payload ++ junk) =
          ap (λ z. z ++ junk) e ∙ append_assoc (response_header version code size) payload junk in
        last_round alloc c written size (omega arith) object close big fuel 0 none [] payload
          (alloc size) (response_header version code size) junk (reads ∙ ap ok regroup)
          (unfold response_for in create-response_header (payload ++ junk) ∙ created) starts_behind
          (omega arith) (omega arith) (sym (ap length regroup) ∙ full) some_bytes
    read_wire fuel wire payload (more_partitions part rest full some_rest reads brings) e whole
          enough =
        let header = response_header version code size in
        let front : part ≡ header ++ take 1017 payload =
          sym (take-append 1024 part rest full)
          ∙ ap (take 1024) e
          ∙ take-append_more 7 1017 header payload length-response_header in
        let back : rest ≡ drop 1017 payload =
          sym (drop-append 1024 part rest full)
          ∙ ap (drop 1024) e
          ∙ drop-append_more 7 1017 header payload length-response_header in
        let sizes : 1024 + length rest ≡ 7 + size = omega (
          arith,
          length-append part rest,
          ap length e,
          length-append header payload,
          length-response_header,
        ) in
        let part_size : 7 + length (take 1017 payload) ≡ 1024 = omega (
          arith,
          ap length front,
          length-append header (take 1017 payload),
          length-response_header,
        ) in
        more_round alloc c written size (omega arith) object close big fuel 0 none []
          (take 1017 payload) (alloc size) header (reads ∙ ap ok front)
          (unfold response_for in create-response_header (take 1017 payload) ∙ created)
          starts_behind (omega arith) (omega arith) (sym (ap length front) ∙ full)
        ∙ read_rest alloc c written size (omega arith) object close big fuel 1 (take 1017 payload)
            rest (drop (length (take 1017 payload)) (alloc size)) brings (omega arith) (omega arith)
            (omega (arith, length-drop (length (take 1017 payload)) (alloc size))) (omega arith)
        ∙ ap (λ z. close (whole_of size z))
            (ap (λ z. take 1017 payload ++ z) back ∙ take-append-drop 1017 payload)

-- Where the reads bring, in full partitions of 1024 bytes and any bytes behind the end, a header
-- with the code of pulled messages followed by a payload of messages whose fields fit, the second
-- loop of HandleRequest returns the response with exactly these messages in order, the payload put
-- together from all partitions. The conditions are that the version fits one byte, that the payload
-- is not empty, that its size is the one in the header and fits four bytes, and that the allocation
-- of the payload has that size.
pub read_loop-posted_bytes :
    (alloc : Allocator) (c : Connection) (written : List Bytes) (ms : List Posted)
    (version size : ℕ)
    → length (alloc size) ≡ size
    → All IsPosted ms
    → version < 256 ^ 1
    → size ≡ length (posted_bytes ms [])
    → 0 < size
    → size < 256 ^ 4
    → Brings c written 0 (response_header version 2104 size ++ posted_bytes ms [])
    → read_loop alloc c read_fuel written 0 none
      ≡ ok (
          pull_messages_success
            (record { version = version; payload_size = size; response_text = [] })
            (record { copied = size; payload = posted_bytes ms [] })
            (map as_received ms))
read_loop-posted_bytes alloc c written ms version size owned wf version_fits whole some_bytes small
      brings =
    read_wire alloc version 2104 size version_fits (omega arith) small c written owned some_bytes
      (pulled version size) (close_pulled version size) (pulled-IsBig version size)
      (unfold create_by_code in refl) (2 ^ 22) _ (posted_bytes ms []) brings refl whole
      (omega arith)
    ∙ rw (message_loop-posted_bytes ms size wf whole (omega arith)) refl

is_multiple : (size n : ℕ) → size ≡ 271 * n → (size % 271 == 0) ≡ true
is_multiple size n h = ground arith

create_list_clients :
    (alloc : Allocator) (version size n : ℕ)
    → size ≡ 271 * n
    → create_by_code alloc version 2101 size
      ≡ ok (listed version size n (record { copied = 0; payload = alloc size }))
unfolding create_by_code new_list_clients_success
create_list_clients alloc version size n h =
    let count : size / 271 ≡ n = omega arith in rw (is_multiple size n h, count) refl

-- Where the reads bring, in full partitions of 1024 bytes and any bytes behind the end, a header
-- with the code of listed clients followed by a payload of clients, the second loop of
-- HandleRequest returns the response with exactly these clients in order. The conditions are that
-- the version fits one byte, that each client has an id of 16 bytes and a name of at most 255 bytes
-- without a zero, that there is at least one client, that the size in the header is that of the
-- payload and fits four bytes, and that the allocation of the payload has that size.
pub read_loop-listed_bytes :
    (alloc : Allocator) (c : Connection) (written : List Bytes) (cs : List Listed)
    (version size : ℕ)
    → length (alloc size) ≡ size
    → All IsListed cs
    → version < 256 ^ 1
    → size ≡ 271 * length cs
    → 0 < size
    → size < 256 ^ 4
    → Brings c written 0 (response_header version 2101 size ++ listed_bytes cs)
    → read_loop alloc c read_fuel written 0 none
      ≡ ok (
          list_clients_success
            (record { version = version; payload_size = size; response_text = [] })
            (record { copied = size; payload = listed_bytes cs })
            (length cs)
            (map as_listed cs))
read_loop-listed_bytes alloc c written cs version size owned wf version_fits whole some_bytes small
      brings =
    read_wire alloc version 2101 size version_fits (omega arith) small c written owned some_bytes
      (listed version size (length cs)) (close_listed version size (length cs))
      (listed-IsBig version size (length cs))
      (create_list_clients alloc version size (length cs) whole) (2 ^ 22) _ (listed_bytes cs) brings
      refl (omega (arith, length-listed_bytes cs wf)) (omega arith)
    ∙ rw (client_loop-listed_bytes cs wf) refl
