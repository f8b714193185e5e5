-- ===== src/Server/Requests.antt =====
-- server/request.py and server/request_parser.py: the requests that the server reads out of the
-- partitions. What `raise` and the library throw is an exception of the result.
use instant_messaging_progra.Base.{
  ℕ, ◌+◌, ◌-◌, ◌++◌, Option, none, some, Bytes, take, drop, replicate, Result, ok, throw, foreign,
  exception, text, ltb, ◌==◌, if◌then◌else◌, is_empty, ◌>>=◌,
}
use instant_messaging_progra.Common.{ParseStatus, undone, done}
use instant_messaging_progra.Server.Struct.{unpack_from, le_value, uuid, decode_text, rstrip}

abbrev pub register_value : ℕ
register_value = 1100

abbrev pub list_clients_value : ℕ
list_clients_value = 1101

abbrev pub get_public_key_value : ℕ
get_public_key_value = 1102

abbrev pub send_message_value : ℕ
send_message_value = 1103

abbrev pub pull_messages_value : ℕ
pull_messages_value = 1104

abbrev pub partition_size : ℕ
partition_size = 1024

abbrev pub name_size : ℕ
name_size = 255

abbrev pub key_size : ℕ
key_size = 160

abbrev pub id_size : ℕ
id_size = 16

-- Client id, version, request code and payload size.
abbrev pub header_size : ℕ
header_size = 16 + 1 + 2 + 4

pub record SendMessage : Type 0 where
  pub client_id : Bytes
  pub client_version : ℕ
  pub dest_client_id : Bytes
  pub message_type : ℕ
  pub payload : Bytes
  pub payload_index : ℕ
  pub content_size : ℕ

-- The classes of server/request.py; the first two fields are those of Request.
pub data Request : Type 0 where
  register_request : Bytes → ℕ → Bytes → Bytes → Request
  list_clients_request : Bytes → ℕ → Request
  get_public_key_request : Bytes → ℕ → Bytes → Request
  send_message_request : SendMessage → Request
  pull_messages_request : Bytes → ℕ → Request

unfoldable pub new_register_request : Bytes → ℕ → Bytes → Bytes → Result Request
new_register_request client_id client_version user_name public_key = do
  name ← decode_text user_name
  ok (register_request client_id client_version (rstrip name) public_key)

unfoldable pub new_send_message_request : Bytes → ℕ → Bytes → ℕ → ℕ → SendMessage
new_send_message_request client_id client_version dest_client_id message_type content_size =
    record {
      client_id = client_id;
      client_version = client_version;
      dest_client_id = dest_client_id;
      message_type = message_type;
      payload = replicate content_size 0;
      payload_index = 0;
      content_size = content_size;
    }

-- The subclasses of RequestParserBase.
pub data ParserClass : Type 0 where
  register_parser list_clients_parser get_public_key_parser pull_messages_parser
        send_message_parser :
      ParserClass

pub record RequestParser : Type 0 where
  pub parser_class : ParserClass
  pub client_id : Bytes
  pub client_version : ℕ
  pub payload_size : ℕ

-- Client id, version, request code, payload size.
unfoldable pub parse_header : Bytes → Result (Bytes × ℕ × ℕ × ℕ)
parse_header buffer = do
  id_bytes ← unpack_from id_size buffer 0
  client_id ← uuid id_bytes
  fields ← unpack_from 7 buffer id_size
  ok (
    client_id,
    le_value (take 1 fields),
    le_value (take 2 (drop 1 fields)),
    le_value (drop 3 fields),
  )

-- The dictionary Request_Parser_CLS_MAP.
unfoldable pub parser_class_of : ℕ → Option ParserClass
parser_class_of code =
    if code == register_value
    then some register_parser
    else if code == list_clients_value
    then some list_clients_parser
    else if code == get_public_key_value
    then some get_public_key_parser
    else if code == send_message_value
    then some send_message_parser
    else if code == pull_messages_value
    then some pull_messages_parser
    else none

abbrev pub make_parser : Bytes → ℕ → ℕ → Option ParserClass → Result RequestParser
make_parser client_id version size none = throw (exception "invalid request type")
make_parser client_id version size (some c) = ok (record {
  parser_class = c;
  client_id = client_id;
  client_version = version;
  payload_size = size;
})

unfoldable pub get_request_parser : Bytes → Result RequestParser
unfolding parse_header parser_class_of
get_request_parser buffer = if is_empty buffer then throw (exception "no data") else do
  (client_id, version, code, size) ← parse_header buffer
  make_parser client_id version size (parser_class_of code)

-- Where the content begins in the buffer.
unfoldable pub content_from : ℕ → ℕ
content_from payload_index = if payload_index == 0 then header_size + 16 + 1 + 4 else 0

-- How many bytes are read, and whether they are the last. `payload_index` never passes
-- `content_size`.
unfoldable pub bytes_to_read : ℕ → ℕ → ℕ → ParseStatus × ℕ
bytes_to_read content_size payload_index start =
    if ltb (partition_size - start) (content_size - payload_index)
    then (undone, partition_size - start)
    else (done, content_size - payload_index)

-- `request.payload[first : first + count] = part`, where `part` can have another length.
unfoldable pub assign_slice : ℕ → ℕ → Bytes → Bytes → Bytes
assign_slice first count part payload = take first payload ++ part ++ drop (first + count) payload

-- SendMessageRequestParser._parse_content
unfoldable pub parse_content : Bytes → SendMessage → ParseStatus × SendMessage
unfolding content_from bytes_to_read assign_slice
parse_content buffer request =
    let start = content_from request.payload_index in
    let (status, count) = bytes_to_read request.content_size request.payload_index start in
    (
      status,
      record request {
        payload =
            assign_slice request.payload_index count (take count (drop start buffer))
              request.payload;
        payload_index = request.payload_index + count;
      },
    )

abbrev pub sent_message : ParseStatus × SendMessage → ParseStatus × Request
sent_message (status, request) = (status, send_message_request request)

-- The request is one that this parser made, so it has a payload.
unfoldable pub continue_content : Bytes → Request → Result (ParseStatus × Request)
unfolding parse_content
continue_content buffer (send_message_request request) =
    ok (sent_message (parse_content buffer request))
continue_content buffer _ =
    throw (record { kind = foreign; what = text "object has no attribute 'payload_index'" })

unfoldable pub parse_send_message : RequestParser → Bytes → Result (ParseStatus × Request)
unfolding new_send_message_request parse_content
parse_send_message p buffer = do
  id_bytes ← unpack_from id_size buffer header_size
  dest ← uuid id_bytes
  fields ← unpack_from 5 buffer (header_size + id_size)
  ok (
      sent_message (
        parse_content buffer (
          new_send_message_request p.client_id p.client_version dest (le_value (take 1 fields))
            (le_value (drop 1 fields)))))

unfoldable pub parse_register : RequestParser → Bytes → Result (ParseStatus × Request)
unfolding new_register_request
parse_register p buffer =
    if p.payload_size == name_size + key_size
    then (do
      fields ← unpack_from (name_size + key_size) buffer header_size
      request ←
          new_register_request p.client_id p.client_version (take name_size fields)
            (drop name_size fields)
      ok (done, request))
    else throw (exception "invalid register request payload size")

unfoldable pub parse_get_public_key : RequestParser → Bytes → Result (ParseStatus × Request)
parse_get_public_key p buffer =
    if p.payload_size == id_size
    then (do
      id_bytes ← unpack_from id_size buffer header_size
      dest ← uuid id_bytes
      ok (done, get_public_key_request p.client_id p.client_version dest))
    else throw (exception "invalid get public key payload size")

abbrev pub parse_by_class :
    ParserClass → RequestParser → Bytes → Option Request → Result (ParseStatus × Request)
parse_by_class register_parser p buffer request = parse_register p buffer
parse_by_class list_clients_parser p buffer request =
    if p.payload_size == 0
    then ok (done, list_clients_request p.client_id p.client_version)
    else throw (exception "invalid list clients request payload size")
parse_by_class get_public_key_parser p buffer request = parse_get_public_key p buffer
parse_by_class pull_messages_parser p buffer request =
    if p.payload_size == 0
    then ok (done, pull_messages_request p.client_id p.client_version)
    else throw (exception "invalid pull messages request payload size")
parse_by_class send_message_parser p buffer none = parse_send_message p buffer
parse_by_class send_message_parser p buffer (some request) = continue_content buffer request

-- parse_request of the five parsers.
unfoldable pub parse_request :
    RequestParser → Bytes → Option Request → Result (ParseStatus × Request)
parse_request p buffer request = parse_by_class p.parser_class p buffer request
