-- ===== src/Server/Responses.antt =====
-- server/response_handler.py and server/message.py: the answers of the server as bytes.
use instant_messaging_progra.Base.{
  ℕ, ◌+◌, ◌*◌, ◌/◌, ◌^◌, List, [], ◌∷◌, ◌++◌, Bytes, length, take, drop, replicate, pad, Result, ok,
  throw, foreign, text, ltb, leb, if◌then◌else◌, ◌>>=◌,
}
use instant_messaging_progra.Codec.Number.{le_bytes}
use instant_messaging_progra.Server.Requests.{partition_size, id_size, name_size, key_size}

-- `Ns` of struct.pack: cut off or filled up with zeros.
unfoldable pub pack_string : ℕ → Bytes → Bytes
pack_string size bs = take size (pad size bs)

-- `B`, `H` and `I` behind `<`: struct.error where the number does not fit.
unfoldable pub pack_number : ℕ → ℕ → Result Bytes
pack_number size n =
    if ltb n (256 ^ size)
    then ok (le_bytes size n)
    else throw (record { kind = foreign; what = text "argument out of range" })

pub record Message : Type 0 where
  pub message_id : ℕ
  pub to_client : Bytes
  pub from_client : Bytes
  pub message_type : ℕ
  pub message_content : Bytes

-- The subclasses of ResponseHandler; the first field is `server_version`.
pub data ResponseHandler : Type 0 where
  register_success_handler : ℕ → Bytes → ResponseHandler
  list_clients_success_handler : ℕ → List (Bytes × Bytes) → ResponseHandler
  public_key_success_handler : ℕ → Bytes → Bytes → ResponseHandler
  message_sent_success_handler : ℕ → Bytes → ℕ → ResponseHandler
  pull_messages_success_handler : ℕ → List Message → ℕ → ResponseHandler
  general_server_error_handler : ℕ → ResponseHandler

-- `server_version`, `response_code` and `payload_size`
unfoldable pub pack_header_data : ResponseHandler → ℕ × ℕ × ℕ
pack_header_data (register_success_handler version id) = (version, 2100, id_size)
pack_header_data (list_clients_success_handler version clients) =
    (version, 2101, length clients * (id_size + name_size))
pack_header_data (public_key_success_handler version id key) = (version, 2102, id_size + key_size)
pack_header_data (message_sent_success_handler version id number) = (version, 2103, id_size + 4)
pack_header_data (pull_messages_success_handler version messages size) = (version, 2104, size)
pack_header_data (general_server_error_handler version) = (version, 9000, 0)

unfoldable pub pack_clients : List (Bytes × Bytes) → Bytes
pack_clients [] = []
pack_clients ((id, name) ∷ clients) =
    pack_string id_size id ++ (pack_string name_size name ++ pack_clients clients)

unfoldable pub pack_messages : List Message → Result Bytes
pack_messages [] = ok []
pack_messages (m ∷ messages) = do
  number ← pack_number 4 m.message_id
  kind ← pack_number 1 m.message_type
  size ← pack_number 4 (length m.message_content)
  rest ← pack_messages messages
  ok (
      pack_string id_size m.from_client
      ++ (number ++ (kind ++ (size ++ (m.message_content ++ rest)))))

-- What `_get_parse_formatter` and `_get_pack_data` make of the fields behind the header.
unfoldable pub pack_fields : ResponseHandler → Result Bytes
pack_fields (register_success_handler version id) = ok (pack_string id_size id)
pack_fields (list_clients_success_handler version clients) = ok (pack_clients clients)
pack_fields (public_key_success_handler version id key) =
    ok (pack_string id_size id ++ pack_string key_size key)
pack_fields (message_sent_success_handler version id number) = do
  packed ← pack_number 4 number
  ok (pack_string id_size id ++ packed)
pack_fields (pull_messages_success_handler version messages size) = pack_messages messages
pack_fields (general_server_error_handler version) = ok []

-- `math.ceil(request_size / BUFFER_PARTITION_SIZE) * BUFFER_PARTITION_SIZE`
unfoldable pub buffer_size : ℕ → ℕ
buffer_size request_size = (request_size + 1023) / partition_size * partition_size

unfoldable pub create_buffer : ℕ → Bytes
create_buffer payload_size = replicate (buffer_size (1 + 2 + 4 + payload_size)) 0

-- `s.pack_into(buffer, 0, *data)`
unfoldable pub pack_into : Bytes → Bytes → Result Bytes
pack_into buffer packed =
    if leb (length packed) (length buffer)
    then ok (packed ++ drop (length packed) buffer)
    else throw (record { kind = foreign; what = text "pack_into requires a longer buffer" })

abbrev pack_header : ℕ × ℕ × ℕ → Result Bytes
pack_header (version, code, size) = do
  v ← pack_number 1 version
  c ← pack_number 2 code
  s ← pack_number 4 size
  ok (v ++ (c ++ s))

abbrev size_in : ℕ × ℕ × ℕ → ℕ
size_in (version, code, size) = size

-- ResponseHandler.create_response
unfoldable pub create_response : ResponseHandler → Result Bytes
create_response h = do
  header ← pack_header (pack_header_data h)
  fields ← pack_fields h
  pack_into (create_buffer (size_in (pack_header_data h))) (header ++ fields)
