-- ===== src/Server/Understood.antt =====
-- The requests that the client's constructors make (client/ServerRequest.cpp), their bytes on the
-- wire, and the requests that the server makes of them (server/request_parser.py).
use instant_messaging_progra.Base.{
  ℕ, ◌+◌, ◌-◌, ◌%◌, ◌^◌, ◌≤◌, ◌<◌, ◌≡◌, refl, sym, ◌++◌, Bytes, true, length, pad, ok,
  length-append, length-pad, take-append, drop-append, append_assoc, arith,
}
use instant_messaging_progra.Common.{MessageType, message_type_code, done}
use instant_messaging_progra.Codec.Number.{le_bytes, length-le_bytes}
use instant_messaging_progra.ServerRequest.{
  ServerRequest, server_request_base, register_code, list_clients_code, get_public_key_code,
  send_message_code, pull_messages_code, new_register, new_list_clients, new_get_public_key,
  new_send_message, new_pull_messages, Header,
}
use instant_messaging_progra.ServerRequest.Format.{
  StandsFor, StandsFor-WrittenAs, header_bytes, head_bytes, Encodes, register_wire,
  list_clients_wire, get_public_key_wire, send_message_wire, pull_messages_wire,
}
use instant_messaging_progra.Server.Struct.{
  is_utf8, is_utf8-zeros, decode_text, rstrip, rstrip-zeros, unpack_from-append, uuid-sixteen,
  le_value-le_bytes,
}
use instant_messaging_progra.Server.Requests.{
  Request, register_request, list_clients_request, get_public_key_request, send_message_request,
  pull_messages_request, SendMessage, RequestParser, parse_register, new_register_request,
  parse_get_public_key, parse_send_message, sent_message, parse_content, new_send_message_request,
}

abbrev pub message_header : Bytes → ℕ → Bytes → Header
message_header id version content =
    server_request_base id version send_message_code ((21 + length content % 2 ^ 32) % 2 ^ 32)

abbrev pub whole_message : Bytes → ℕ → Bytes → ℕ → Bytes → SendMessage
whole_message sender version receiver kind content = record {
  client_id = sender;
  client_version = version;
  dest_client_id = receiver;
  message_type = kind;
  payload = content;
  payload_index = length content;
  content_size = length content;
}

-- The client's request, its bytes, and the server's. The ids have 32 hexadecimal digits, a user name
-- is UTF-8 and has at most 255 bytes, a public key has 160 bytes.
pub data Understood : ServerRequest → Bytes → Request → Type 0 where
  register_understood :
      (id name key sender : Bytes) (version : ℕ)
      → StandsFor id sender
      → version < 256
      → length name ≤ 255
      → is_utf8 name ≡ true
      → length key ≡ 160
      → Understood
          (new_register id version name key)
          (header_bytes sender (server_request_base id version register_code 415)
            ++ pad 255 name
            ++ key)
          (register_request sender version (rstrip name) key)
  list_clients_understood :
      (id sender : Bytes) (version : ℕ)
      → StandsFor id sender
      → version < 256
      → Understood
          (new_list_clients id version)
          (header_bytes sender (server_request_base id version list_clients_code 0))
          (list_clients_request sender version)
  get_public_key_understood :
      (id dest sender receiver : Bytes) (version : ℕ)
      → StandsFor id sender
      → StandsFor dest receiver
      → version < 256
      → Understood
          (new_get_public_key id version dest)
          (header_bytes sender (server_request_base id version get_public_key_code 16) ++ receiver)
          (get_public_key_request sender version receiver)
  send_message_understood :
      (id dest sender receiver content : Bytes) (version : ℕ) (t : MessageType)
      → StandsFor id sender
      → StandsFor dest receiver
      → version < 256
      → message_type_code t < 256
      → length content < 2 ^ 32
      → Understood
          (new_send_message id version dest t content)
          (head_bytes sender (message_header id version content) receiver t content ++ content)
          (send_message_request
            (whole_message sender version receiver (message_type_code t) content))
  pull_messages_understood :
      (id sender : Bytes) (version : ℕ)
      → StandsFor id sender
      → version < 256
      → Understood
          (new_pull_messages id version)
          (header_bytes sender (server_request_base id version pull_messages_code 0))
          (pull_messages_request sender version)

pub Understood-Encodes :
    (request : ServerRequest) (wire : Bytes) (r : Request)
    → Understood request wire r
    → Encodes request wire
unfolding new_register new_list_clients new_get_public_key new_send_message new_pull_messages
Understood-Encodes _ _ _ (register_understood id name key sender version s hv hn text hk) =
    register_wire (server_request_base id version register_code 415) name key sender
      (StandsFor-WrittenAs s) hn (omega arith)
Understood-Encodes _ _ _ (list_clients_understood id sender version s hv) =
    list_clients_wire (server_request_base id version list_clients_code 0) sender
      (StandsFor-WrittenAs s)
Understood-Encodes _ _ _ (get_public_key_understood id dest sender receiver version s d hv) =
    get_public_key_wire (server_request_base id version get_public_key_code 16) dest sender receiver
      (StandsFor-WrittenAs s) (StandsFor-WrittenAs d)
Understood-Encodes _ _ _
      (send_message_understood id dest sender receiver content version t s d hv ht fits) =
    send_message_wire (message_header id version content) dest t content sender receiver
      (StandsFor-WrittenAs s) (StandsFor-WrittenAs d) fits
Understood-Encodes _ _ _ (pull_messages_understood id sender version s hv) =
    pull_messages_wire (server_request_base id version pull_messages_code 0) sender
      (StandsFor-WrittenAs s)

-- The three parsers that read a payload, behind a header of 23 bytes.
module _ (p : RequestParser) (front : Bytes) (e : length front ≡ 23) where
  pub parse_register-wire :
      (name key post : Bytes)
      → p.payload_size ≡ 415
      → length name ≤ 255
      → is_utf8 name ≡ true
      → length key ≡ 160
      → parse_register p (front ++ ((pad 255 name ++ key) ++ post))
        ≡ ok (done, register_request p.client_id p.client_version (rstrip name) key)
  unfolding parse_register new_register_request decode_text pad
  parse_register-wire name key post hs hn text hk =
      rw
        (
          hs,
          unpack_from-append 415 front (pad 255 name ++ key) post 23 (sym e)
              (omega (arith, length-append {0}, length-pad 255 name hn)),
          take-append 255 (pad 255 name) key (length-pad 255 name hn),
          drop-append 255 (pad 255 name) key (length-pad 255 name hn),
          is_utf8-zeros name (255 - length name) text,
          rstrip-zeros name (255 - length name),
        )
        refl

  pub parse_get_public_key-wire :
      (receiver post : Bytes)
      → p.payload_size ≡ 16
      → length receiver ≡ 16
      → parse_get_public_key p (front ++ (receiver ++ post))
        ≡ ok (done, get_public_key_request p.client_id p.client_version receiver)
  unfolding parse_get_public_key
  parse_get_public_key-wire receiver post hs hr =
      rw
        (
          hs,
          unpack_from-append 16 front receiver post 23 (sym e) (sym hr),
          uuid-sixteen receiver hr,
        )
        refl

  pub parse_send_message-wire :
      (receiver post : Bytes) (kind size : ℕ)
      → length receiver ≡ 16
      → kind < 256
      → size < 2 ^ 32
      → parse_send_message p (front ++ (receiver ++ ((le_bytes 1 kind ++ le_bytes 4 size) ++ post)))
        ≡ ok (
            sent_message (
              parse_content
                (front ++ (receiver ++ ((le_bytes 1 kind ++ le_bytes 4 size) ++ post)))
                (new_send_message_request p.client_id p.client_version receiver kind size)))
  unfolding parse_send_message
  parse_send_message-wire receiver post kind size hr hk hs =
      let fields = le_bytes 1 kind ++ le_bytes 4 size in
      rw
        (
          unpack_from-append 16 front receiver (fields ++ post) 23 (sym e) (sym hr),
          uuid-sixteen receiver hr,
          sym (append_assoc front receiver (fields ++ post)),
          unpack_from-append 5 (front ++ receiver) fields post 39 (omega (arith, length-append {0}))
              (omega (arith, length-append {0}, length-le_bytes)),
          take-append 1 (le_bytes 1 kind) (le_bytes 4 size) (length-le_bytes 1 kind),
          drop-append 1 (le_bytes 1 kind) (le_bytes 4 size) (length-le_bytes 1 kind),
          le_value-le_bytes 1 kind (omega arith),
          le_value-le_bytes 4 size (omega arith),
        )
        refl
