-- ===== src/ServerRequest/Format.antt =====
-- The wire format of a request: a header of 23 bytes and a payload.
use instant_messaging_progra.Base.{
  ℕ, ◌+◌, ◌-◌, ◌%◌, ◌^◌, ◌≤◌, ◌<◌, ◌≡◌, refl, sym, ap, ◌∙◌, [], ◌++◌, arith, append_assoc, some,
}
use instant_messaging_progra.Base.{
  Bytes, length, length-append, ok, pad, copy-pad, pad-zeros, length-pad,
}
use instant_messaging_progra.Common.{
  buffer_partition_size, client_id_byte_size, user_name_byte_size, public_key_byte_size,
  MessageType, message_type_code, done,
}
use instant_messaging_progra.Codec.Number.{le_bytes, length-le_bytes, parse_num-pad}
use instant_messaging_progra.Codec.ClientId.{parse_client_id, decode_id, parse_client_id-pad}
use instant_messaging_progra.ServerRequest.{
  Header, request_code, ServerRequest, register, list_clients, get_public_key, send_message,
  pull_messages, parse_header_into_buffer, parse_message_head, prepare_request_buffer,
}

-- Client id, version, request code, payload size.
unfoldable pub header_bytes : Bytes → Header → Bytes
header_bytes sender h =
    sender ++ le_bytes 1 h.version ++ le_bytes 2 (request_code h.op) ++ le_bytes 4 h.payload_size

-- A text of 32 hexadecimal digits, with the 16 bytes that it stands for.
pub record StandsFor (id value : Bytes) : Type 0 where
  pub decoded : decode_id id ≡ some value
  pub size : length value ≡ client_id_byte_size

-- An id that is written as these 16 bytes, wherever there is room for them. So is every text of 32
-- hexadecimal digits, and every other text on which std::stoi does not throw.
pub record WrittenAs (id value : Bytes) : Type 0 where
  pub size : length value ≡ client_id_byte_size
  pub written :
      (offset room : ℕ) (front : Bytes)
      → offset ≡ length front
      → length front + client_id_byte_size ≤ room
      → parse_client_id offset id (pad room front) ≡ ok (pad room (front ++ value))

pub StandsFor-WrittenAs : {id value : Bytes} → StandsFor id value → WrittenAs id value
StandsFor-WrittenAs {id} {value} s = record {
  size = s.size;
  written = λ offset room front at fits.
      parse_client_id-pad offset room front id value s.decoded s.size at fits;
}

abbrev pub cleared : Bytes → Bytes
cleared = pad buffer_partition_size

pub length-header_bytes :
    (h : Header) (sender : Bytes)
    → length sender ≡ client_id_byte_size
    → length (header_bytes sender h) ≡ 23
unfolding header_bytes
length-header_bytes h sender e = omega (arith, length-append {0}, length-le_bytes)

-- The payload of a message: destination, type, content size; the content comes behind it.
unfoldable pub head_bytes : Bytes → Header → Bytes → MessageType → Bytes → Bytes
head_bytes sender h receiver message_type content =
    header_bytes sender h
    ++ receiver
    ++ le_bytes 1 (message_type_code message_type)
    ++ le_bytes 4 (length content % 2 ^ 32)

pub length-head_bytes :
    (h : Header) (sender receiver content : Bytes) (t : MessageType)
    → length sender ≡ client_id_byte_size
    → length receiver ≡ client_id_byte_size
    → length (head_bytes sender h receiver t content) ≡ 44
unfolding head_bytes
length-head_bytes h sender receiver content t e e' =
    omega (arith, length-append {0}, length-le_bytes, length-header_bytes h sender e)

-- Behind a name the cleared buffer holds the zeros that fill the name up.
filled_name :
    (front user_name : Bytes)
    → length front ≡ 23
    → length user_name ≤ 255
    → cleared (front ++ user_name) ≡ cleared (front ++ pad 255 user_name)
filled_name front user_name e h =
    sym (
      pad-zeros 1024 (255 - length user_name) (front ++ user_name)
        (omega (arith, length-append front user_name)))
    ∙ ap cleared (append_assoc front user_name _)
    ∙ ap (λ z. cleared (front ++ z)) (unfold pad in refl)

module _ (h : Header) (sender : Bytes) (s : WrittenAs h.client_id sender) where
  pub parse_header-cleared :
      parse_header_into_buffer h (cleared []) ≡ ok (cleared (header_bytes sender h))
  unfolding parse_header_into_buffer header_bytes
  parse_header-cleared =
      let e : length sender ≡ 16 = s.size in
      rw
        (
          s.written 0 1024 [] refl (omega arith),
          parse_num-pad 16 h.version 1 1024 sender (omega arith) (omega arith),
          parse_num-pad 17 (request_code h.op) 2 1024 (sender ++ le_bytes 1 h.version)
              (omega (arith, length-append {0}, length-le_bytes))
              (omega (arith, length-append {0}, length-le_bytes)),
        )
        (parse_num-pad 19 h.payload_size 4 1024
          (sender ++ le_bytes 1 h.version ++ le_bytes 2 (request_code h.op))
          (omega (arith, length-append {0}, length-le_bytes))
          (omega (arith, length-append {0}, length-le_bytes)))

  -- What `ListClients` and `PullMessages` write.
  pub prepare-list_clients_lem :
      prepare_request_buffer (list_clients h) (cleared [])
      ≡ ok (done, cleared (header_bytes sender h), list_clients h)
  unfolding prepare_request_buffer
  prepare-list_clients_lem = rw parse_header-cleared

  pub prepare-pull_messages_lem :
      prepare_request_buffer (pull_messages h) (cleared [])
      ≡ ok (done, cleared (header_bytes sender h), pull_messages h)
  unfolding prepare_request_buffer
  prepare-pull_messages_lem = rw parse_header-cleared

  pub prepare-get_public_key_lem :
      (dest receiver : Bytes)
      → WrittenAs dest receiver
      → prepare_request_buffer (get_public_key h dest) (cleared [])
        ≡ ok (done, cleared (header_bytes sender h ++ receiver), get_public_key h dest)
  unfolding prepare_request_buffer
  prepare-get_public_key_lem dest receiver d =
      let e : length (header_bytes sender h) ≡ 23 = length-header_bytes h sender s.size in
      rw (
        parse_header-cleared,
        d.written 23 1024 (header_bytes sender h) (omega arith) (omega arith),
      )

  -- The user name is cut off by nothing and filled up with zeros to 255 bytes.
  pub prepare-register_lem :
      (user_name public_key : Bytes)
      → length user_name ≤ user_name_byte_size
      → length public_key ≤ public_key_byte_size
      → prepare_request_buffer (register h user_name public_key) (cleared [])
        ≡ ok (
          done,
          cleared (header_bytes sender h ++ pad user_name_byte_size user_name ++ public_key),
          register h user_name public_key,
        )
  unfolding prepare_request_buffer
  prepare-register_lem user_name public_key hu hk =
      let e : length (header_bytes sender h) ≡ 23 = length-header_bytes h sender s.size in
      rw (
        parse_header-cleared,
        copy-pad 1024 23 (header_bytes sender h) user_name (omega arith) (omega arith),
        filled_name (header_bytes sender h) user_name e hu,
        copy-pad 1024 278 (header_bytes sender h ++ pad 255 user_name) public_key
            (omega (arith, length-append {0}, length-pad 255 user_name hu))
            (omega (arith, length-append {0}, length-pad 255 user_name hu)),
      )

  pub parse_message_head-cleared :
      (dest receiver content : Bytes) (t : MessageType)
      → WrittenAs dest receiver
      → parse_message_head h dest t content (cleared [])
        ≡ ok (cleared (head_bytes sender h receiver t content))
  unfolding parse_message_head head_bytes
  parse_message_head-cleared dest receiver content t d =
      let e : length (header_bytes sender h) ≡ 23 = length-header_bytes h sender s.size in
      let e' : length receiver ≡ 16 = d.size in
      rw
        (
          parse_header-cleared,
          d.written 23 1024 (header_bytes sender h) (omega arith) (omega arith),
          parse_num-pad 39 (message_type_code t) 1 1024 (header_bytes sender h ++ receiver)
              (omega (arith, length-append {0})) (omega (arith, length-append {0})),
        )
        (parse_num-pad 40 (length content % 2 ^ 32) 4 1024
          (header_bytes sender h ++ receiver ++ le_bytes 1 (message_type_code t))
          (omega (arith, length-append {0}, length-le_bytes))
          (omega (arith, length-append {0}, length-le_bytes)))

-- The bytes that stand for a request on the wire, header and payload.
pub data Encodes : ServerRequest → Bytes → Type 0 where
  register_wire :
      (h : Header) (user_name public_key sender : Bytes)
      → WrittenAs h.client_id sender
      → length user_name ≤ user_name_byte_size
      → length public_key ≤ public_key_byte_size
      → Encodes
          (register h user_name public_key)
          (header_bytes sender h ++ pad user_name_byte_size user_name ++ public_key)
  list_clients_wire :
      (h : Header) (sender : Bytes)
      → WrittenAs h.client_id sender
      → Encodes (list_clients h) (header_bytes sender h)
  get_public_key_wire :
      (h : Header) (dest sender receiver : Bytes)
      → WrittenAs h.client_id sender
      → WrittenAs dest receiver
      → Encodes (get_public_key h dest) (header_bytes sender h ++ receiver)
  send_message_wire :
      (h : Header) (dest : Bytes) (t : MessageType) (content sender receiver : Bytes)
      → WrittenAs h.client_id sender
      → WrittenAs dest receiver
      → length content < 2 ^ 32
      → Encodes
          (send_message h dest t content 0)
          (head_bytes sender h receiver t content ++ content)
  pull_messages_wire :
      (h : Header) (sender : Bytes)
      → WrittenAs h.client_id sender
      → Encodes (pull_messages h) (header_bytes sender h)
