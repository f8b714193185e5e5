-- ===== src/Server/Answered.antt =====
-- The answers of the server (server/response_handler.py), their bytes, and the responses that the
-- client reads out of them (client/ServerResponse.cpp).
use instant_messaging_progra.Base.{
  ℕ, ◌+◌, ◌*◌, ◌^◌, ◌≤◌, ◌<◌, ◌≡◌, refl, sym, ap, ap₂, ◌∙◌, List, [], ◌∷◌, ◌++◌, map, Bytes, All,
  length, replicate, pad, false, length-append, length-map, take-append, take-all, length-pad,
  drop-replicate, length-replicate, ok, lt→ltb, le→leb, arith,
}
use instant_messaging_progra.Codec.Number.{le_bytes, length-le_bytes}
use instant_messaging_progra.Codec.ClientId.{hex_id}
use instant_messaging_progra.ServerResponse.{
  Allocator, ServerResponse, register_success, list_clients_success, public_key_success,
  message_sent_success, pull_messages_success, general_error,
}
use instant_messaging_progra.ServerResponse.Arrival.{base_with}
use instant_messaging_progra.ServerResponse.Clients.{
  Listed, IsListed, listed_bytes, length-listed_bytes, as_listed, name_field,
}
use instant_messaging_progra.ServerResponse.Posted.{Posted, IsPosted, posted_bytes, as_received}
use instant_messaging_progra.TcpNetworkClientManager.Answer.{response_header}
use instant_messaging_progra.Server.Responses.{
  pack_string, pack_number, Message, ResponseHandler, register_success_handler,
  list_clients_success_handler, public_key_success_handler, message_sent_success_handler,
  pull_messages_success_handler, general_server_error_handler, pack_header_data, pack_clients,
  pack_messages, pack_fields, buffer_size, create_buffer, pack_into, create_response,
}

abbrev pub id_and_name : Listed → Bytes × Bytes
id_and_name c = (c.id, c.name)

-- A message that waits for the client `to`.
abbrev pub as_message : Bytes → Posted → Message
as_message to m = record {
  message_id = m.number;
  to_client = to;
  from_client = m.sender;
  message_type = m.kind;
  message_content = m.content;
}

-- The handler, the bytes of its answer, and the client's response. Ids have 16 bytes, a public key 160,
-- a name at most 255 without a zero, numbers and contents fit their fields.
pub data Answered (alloc : Allocator) (version : ℕ)
    : ResponseHandler → Bytes → ServerResponse → Type 0 where
  register_answered :
      (id : Bytes)
      → length id ≡ 16
      → Answered alloc version
          (register_success_handler version id)
          (response_header version 2100 16 ++ id)
          (register_success (base_with version 16) (hex_id id) false)
  no_clients_answered :
      Answered alloc version
        (list_clients_success_handler version [])
        (response_header version 2101 0 ++ [])
        (list_clients_success (base_with version 0) (record { copied = 0; payload = alloc 0 }) 0 [])
  clients_answered :
      (cs : List Listed) (size : ℕ)
      → All IsListed cs
      → size ≡ 271 * length cs
      → 0 < size
      → size < 256 ^ 4
      → length (alloc size) ≡ size
      → Answered alloc version
          (list_clients_success_handler version (map id_and_name cs))
          (response_header version 2101 size ++ listed_bytes cs)
          (list_clients_success
            (base_with version size)
            (record { copied = size; payload = listed_bytes cs })
            (length cs)
            (map as_listed cs))
  public_key_answered :
      (id key : Bytes)
      → length id ≡ 16
      → length key ≡ 160
      → Answered alloc version
          (public_key_success_handler version id key)
          (response_header version 2102 176 ++ (id ++ key))
          (public_key_success (base_with version 176) (hex_id id) key)
  message_sent_answered :
      (id : Bytes) (number : ℕ)
      → length id ≡ 16
      → number < 256 ^ 4
      → Answered alloc version
          (message_sent_success_handler version id number)
          (response_header version 2103 20 ++ (id ++ le_bytes 4 number))
          (message_sent_success (base_with version 20) (hex_id id) number)
  no_messages_answered :
      Answered alloc version
        (pull_messages_success_handler version [] 0)
        (response_header version 2104 0 ++ [])
        (pull_messages_success (base_with version 0) (record { copied = 0; payload = alloc 0 }) [])
  messages_answered :
      (to : Bytes) (ms : List Posted) (size : ℕ)
      → All IsPosted ms
      → size ≡ length (posted_bytes ms [])
      → 0 < size
      → size < 256 ^ 4
      → length (alloc size) ≡ size
      → Answered alloc version
          (pull_messages_success_handler version (map (as_message to) ms) size)
          (response_header version 2104 size ++ posted_bytes ms [])
          (pull_messages_success
            (base_with version size)
            (record { copied = size; payload = posted_bytes ms [] })
            (map as_received ms))
  error_answered :
      Answered alloc version
        (general_server_error_handler version)
        (response_header version 9000 0 ++ [])
        (general_error (base_with version 0))

pack_number_lem : (k n : ℕ) → n < 256 ^ k → pack_number k n ≡ ok (le_bytes k n)
unfolding pack_number
pack_number_lem k n h = rw (lt→ltb n (256 ^ k) h) refl

pack_string-full : (n : ℕ) (bs : Bytes) → length bs ≡ n → pack_string n bs ≡ bs
unfolding pack_string pad
pack_string-full n bs h = take-append n bs _ h

pack_string-name : (name : Bytes) → length name ≤ 255 → pack_string 255 name ≡ name_field name
unfolding pack_string pad
pack_string-name name h = take-all 255 (pad 255 name) (omega (arith, length-pad 255 name h))

pack_clients-listed_bytes :
    (cs : List Listed) → All IsListed cs → pack_clients (map id_and_name cs) ≡ listed_bytes cs
unfolding pack_clients listed_bytes
pack_clients-listed_bytes [] wf = refl
pack_clients-listed_bytes (c ∷ cs) (wf, wfs) =
    rw
      (
        pack_string-full 16 c.id wf.id_size,
        pack_string-name c.name wf.name_size,
        pack_clients-listed_bytes cs wfs,
      )
      refl

pack_messages-posted_bytes :
    (to : Bytes) (ms : List Posted)
    → All IsPosted ms
    → pack_messages (map (as_message to) ms) ≡ ok (posted_bytes ms [])
unfolding pack_messages posted_bytes
pack_messages-posted_bytes to [] wf = refl
pack_messages-posted_bytes to (m ∷ ms) (wf, wfs) =
    rw
      (
        pack_number_lem 4 m.number wf.number_fits,
        pack_number_lem 1 m.kind wf.kind_fits,
        pack_number_lem 4 (length m.content) wf.content_fits,
        pack_messages-posted_bytes to ms wfs,
        pack_string-full 16 m.sender wf.id_size,
      )
      refl

create_buffer-room : (size : ℕ) → 7 + size ≤ buffer_size (7 + size)
unfolding buffer_size
create_buffer-room size = omega arith

pub length-response_header :
    (version code size : ℕ) → length (response_header version code size) ≡ 7
length-response_header version code size = omega (arith, length-append {0}, length-le_bytes)

pack_into-pad : (m : ℕ) (bs : Bytes) → length bs ≤ m → pack_into (replicate m 0) bs ≡ ok (pad m bs)
unfolding pack_into pad
pack_into-pad m bs h =
    rw
      (length-replicate {A = ℕ} m 0, le→leb (length bs) m h, drop-replicate {A = ℕ} (length bs) m 0)
      refl

create_response-pack_fields :
    (h : ResponseHandler) (version code size : ℕ) (payload : Bytes)
    → version < 256 ^ 1
    → code < 256 ^ 2
    → size < 256 ^ 4
    → pack_header_data h ≡ (version, code, size)
    → pack_fields h ≡ ok payload
    → length payload ≡ size
    → create_response h
      ≡ ok (
          pad
            (buffer_size (length (response_header version code size ++ payload)))
            (response_header version code size ++ payload))
unfolding create_response create_buffer
create_response-pack_fields h version code size payload hv hc hs header fields whole =
    rw
      (
        header,
        pack_number_lem 1 version hv,
        pack_number_lem 2 code hc,
        pack_number_lem 4 size hs,
        fields,
      )
      (pack_into-pad (buffer_size (7 + size)) (response_header version code size ++ payload) (
          omega (
            arith,
            length-append {0},
            length-response_header version code size,
            create_buffer-room size,
          ))
        ∙ ap (λ n. ok (pad (buffer_size n) (response_header version code size ++ payload)))
            (omega (arith, length-append {0}, length-response_header version code size)))

-- The server packs the answer.
pub create_response-Answered :
    (alloc : Allocator) (version : ℕ) (h : ResponseHandler) (wire : Bytes) (r : ServerResponse)
    → version < 256
    → Answered alloc version h wire r
    → create_response h ≡ ok (pad (buffer_size (length wire)) wire)
unfolding pack_header_data pack_fields
create_response-Answered alloc version h _ _ hv (register_answered id e) =
    create_response-pack_fields h version 2100 16 id (omega arith) (omega arith) (omega arith) refl
      (ap ok (pack_string-full 16 id e)) e
create_response-Answered alloc version h _ _ hv no_clients_answered =
    create_response-pack_fields h version 2101 0 [] (omega arith) (omega arith) (omega arith) refl
      (unfold pack_clients in refl) refl
create_response-Answered alloc version h _ _ hv
      (clients_answered cs size wf whole some fits owned) =
    create_response-pack_fields h version 2101 size (listed_bytes cs) (omega arith) (omega arith)
      fits (ap (λ n. (version, 2101, n)) (omega (arith, length-map id_and_name cs)))
      (ap ok (pack_clients-listed_bytes cs wf)) (omega (arith, length-listed_bytes cs wf))
create_response-Answered alloc version h _ _ hv (public_key_answered id key e e') =
    create_response-pack_fields h version 2102 176 (id ++ key) (omega arith) (omega arith)
      (omega arith) refl
      (ap₂ (λ a b. ok (a ++ b)) (pack_string-full 16 id e) (pack_string-full 160 key e'))
      (omega (arith, length-append {0}))
create_response-Answered alloc version h _ _ hv (message_sent_answered id number e fits) =
    create_response-pack_fields h version 2103 20 (id ++ le_bytes 4 number) (omega arith)
      (omega arith) (omega arith) refl
      (rw (pack_number_lem 4 number fits, pack_string-full 16 id e) refl)
      (omega (arith, length-append {0}, length-le_bytes))
create_response-Answered alloc version h _ _ hv no_messages_answered =
    create_response-pack_fields h version 2104 0 [] (omega arith) (omega arith) (omega arith) refl
      (unfold pack_messages in refl) refl
create_response-Answered alloc version h _ _ hv
      (messages_answered to ms size wf whole some fits owned) =
    create_response-pack_fields h version 2104 size (posted_bytes ms []) (omega arith) (omega arith)
      fits refl (pack_messages-posted_bytes to ms wf) (sym whole)
create_response-Answered alloc version h _ _ hv error_answered =
    create_response-pack_fields h version 9000 0 [] (omega arith) (omega arith) (omega arith) refl
      refl refl
