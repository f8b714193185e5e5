-- ===== src/Server/Reading.antt =====
-- What the read loop of client/TCPNetworkClientManager.cpp makes of an answer of the server.
use instant_messaging_progra.Base.{
  ℕ, suc, ◌^◌, ◌≤◌, ◌<◌, ◌≡◌, refl, sym, ap, ◌∙◌, List, [], ◌++◌, Bytes, length, none, ok, false,
  length-append, append_assoc, arith, range-append,
}
use instant_messaging_progra.Common.{done}
use instant_messaging_progra.Codec.Number.{le_bytes, length-le_bytes, get_num-le_bytes}
use instant_messaging_progra.Codec.ClientId.{hex_id}
use instant_messaging_progra.Codec.ClientId.Read.{get_client_id-append}
use instant_messaging_progra.ServerResponse.{
  Allocator, ServerResponse, register_success, list_clients_success, public_key_success,
  message_sent_success, pull_messages_success, general_error, create_by_code,
  new_list_clients_success, parse_payload, assert_payload_size,
}
use instant_messaging_progra.ServerResponse.Arrival.{base_with}
use instant_messaging_progra.TcpNetworkClientManager.{
  Connection, read_loop, read_fuel, response_for,
}
use instant_messaging_progra.TcpNetworkClientManager.Reassembly.{
  Brings, last_partition, more_partitions,
}
use instant_messaging_progra.TcpNetworkClientManager.Answer.{
  response_header, create-response_header, read_loop-posted_bytes, read_loop-listed_bytes,
}
use instant_messaging_progra.Server.Responses.{ResponseHandler}
use instant_messaging_progra.Server.Answered.{
  length-response_header, Answered, register_answered, no_clients_answered, clients_answered,
  public_key_answered, message_sent_answered, no_messages_answered, messages_answered,
  error_answered,
}

module _ (version : ℕ) (junk : Bytes) where
  parse_payload-register :
      (id : Bytes)
      → length id ≡ 16
      → parse_payload
          (register_success (base_with version 16) [] false)
          (response_header version 2100 16 ++ (id ++ junk))
        ≡ ok (done, register_success (base_with version 16) (hex_id id) false)
  unfolding parse_payload assert_payload_size
  parse_payload-register id e =
      rw
        (get_client_id-append 7 (response_header version 2100 16) id junk
          (sym (length-response_header version 2100 16)) e)
        refl

  parse_payload-public_key :
      (id key : Bytes)
      → length id ≡ 16
      → length key ≡ 160
      → parse_payload
          (public_key_success (base_with version 176) [] [])
          (response_header version 2102 176 ++ ((id ++ key) ++ junk))
        ≡ ok (done, public_key_success (base_with version 176) (hex_id id) key)
  unfolding parse_payload assert_payload_size
  parse_payload-public_key id key e e' =
      let header = response_header version 2102 176 in
      let size = length-response_header version 2102 176 in
      rw
        (
          append_assoc id key junk,
          get_client_id-append 7 header id (key ++ junk) (sym size) e,
          sym (append_assoc header id (key ++ junk)),
          range-append (header ++ id) key junk 23 160 (omega (arith, length-append header id))
              (sym e'),
        )
        refl

  parse_payload-message_sent :
      (id : Bytes) (number : ℕ)
      → length id ≡ 16
      → number < 256 ^ 4
      → parse_payload
          (message_sent_success (base_with version 20) [] 0)
          (response_header version 2103 20 ++ ((id ++ le_bytes 4 number) ++ junk))
        ≡ ok (done, message_sent_success (base_with version 20) (hex_id id) number)
  unfolding parse_payload assert_payload_size
  parse_payload-message_sent id number e fits =
      let header = response_header version 2103 20 in
      let size = length-response_header version 2103 20 in
      rw
        (
          append_assoc id (le_bytes 4 number) junk,
          get_client_id-append 7 header id (le_bytes 4 number ++ junk) (sym size) e,
          sym (append_assoc header id (le_bytes 4 number ++ junk)),
          get_num-le_bytes (header ++ id) junk 23 4 number (omega (arith, length-append header id))
              (omega arith) fits,
        )
        refl

module _ (alloc : Allocator) (c : Connection) (written : List Bytes) (version : ℕ)
    (version_fits : version < 256 ^ 1) where
  -- An answer that fits one partition and that parsePayload reads at once.
  read_one :
      (fuel code size : ℕ) (wire payload : Bytes) (r r' : ServerResponse)
      → Brings c written 0 wire
      → wire ≡ response_header version code size ++ payload
      → code < 256 ^ 2
      → size < 256 ^ 4
      → length payload ≤ 1000
      → create_by_code alloc version code size ≡ ok r
      → ((junk : Bytes)
          → parse_payload r (response_header version code size ++ (payload ++ junk))
            ≡ ok (done, r'))
      → read_loop alloc c (suc fuel) written 0 none ≡ ok r'
  unfolding read_loop response_for
  read_one fuel code size wire payload r r' (last_partition part junk full some reads) e hc hs short
        created parsed =
      let regroup : part ++ junk ≡ response_header version code size ++ (payload ++ junk) =
        ap (λ z. z ++ junk) e ∙ append_assoc (response_header version code size) payload junk in
      rw
        (
          reads,
          regroup,
          create-response_header alloc version code size version_fits hc hs (payload ++ junk),
          created,
          parsed junk,
        )
        refl
  read_one fuel code size wire payload r r' (more_partitions part rest full some reads brings) e hc
        hs short created parsed =
      absurd (
        omega (
          arith,
          length-append part rest,
          ap length e,
          length-append (response_header version code size) payload,
          length-response_header version code size,
        ))

  -- The client reads the response that belongs to the answer.
  pub read_loop-Answered :
      (h : ResponseHandler) (wire : Bytes) (r : ServerResponse)
      → Answered alloc version h wire r
      → Brings c written 0 wire
      → read_loop alloc c read_fuel written 0 none ≡ ok r
  unfolding create_by_code new_list_clients_success parse_payload assert_payload_size
  read_loop-Answered h _ _ (register_answered id e) brings =
      read_one (2 ^ 22) 2100 16 _ id (register_success (base_with version 16) [] false) _ brings
        refl (omega arith) (omega arith) (omega arith) refl
        (λ junk. parse_payload-register version junk id e)
  read_loop-Answered h _ _ no_clients_answered brings =
      read_one (2 ^ 22) 2101 0 _ []
        (list_clients_success (base_with version 0) (record { copied = 0; payload = alloc 0 }) 0 [])
        _ brings refl (omega arith) (omega arith) (omega arith) refl (λ junk. refl)
  read_loop-Answered h _ _ (clients_answered cs size wf whole some fits owned) brings =
      read_loop-listed_bytes alloc c written cs version size owned wf version_fits whole some fits
        brings
  read_loop-Answered h _ _ (public_key_answered id key e e') brings =
      read_one (2 ^ 22) 2102 176 _ (id ++ key) (public_key_success (base_with version 176) [] []) _
        brings refl (omega arith) (omega arith) (omega (arith, length-append {0})) refl
        (λ junk. parse_payload-public_key version junk id key e e')
  read_loop-Answered h _ _ (message_sent_answered id number e fits) brings =
      read_one (2 ^ 22) 2103 20 _ (id ++ le_bytes 4 number)
        (message_sent_success (base_with version 20) [] 0) _ brings refl (omega arith) (omega arith)
        (omega (arith, length-append {0}, length-le_bytes)) refl
        (λ junk. parse_payload-message_sent version junk id number e fits)
  read_loop-Answered h _ _ no_messages_answered brings =
      read_one (2 ^ 22) 2104 0 _ []
        (pull_messages_success (base_with version 0) (record { copied = 0; payload = alloc 0 }) [])
        _ brings refl (omega arith) (omega arith) (omega arith) refl (λ junk. refl)
  read_loop-Answered h _ _ (messages_answered to ms size wf whole some fits owned) brings =
      read_loop-posted_bytes alloc c written ms version size owned wf version_fits whole some fits
        brings
  read_loop-Answered h _ _ error_answered brings =
      read_one (2 ^ 22) 9000 0 _ [] (general_error (base_with version 0)) _ brings refl
        (omega arith) (omega arith) (omega arith) refl (λ junk. refl)
