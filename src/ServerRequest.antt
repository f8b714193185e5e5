-- ===== src/ServerRequest.antt =====
-- client/ServerRequest.h and client/ServerRequest.cpp: the requests and how they are written into
-- the 1024-byte buffer, one partition at a time.
pub mod Format
pub mod Partition
pub mod Any
use instant_messaging_progra.Base.{
  ℕ, zero, suc, ◌+◌, ◌%◌, ◌^◌, Bool, true, false, Bytes, length, Result, ok, ◌>>=◌, copy, range,
  ltb, ◌==◌, if◌then◌else◌, sub_u32, sub_u64, add_u32,
}
use instant_messaging_progra.Common.{
  buffer_partition_size, client_id_byte_size, version_byte_size, request_code_byte_size,
  payload_size_byte_size, user_name_byte_size, public_key_byte_size, message_type_byte_size,
  content_size_byte_size, MessageType, message_type_code, ParseStatus, undone, done,
}
use instant_messaging_progra.Common.InRequest.{
  client_id_offset, version_offset, request_code_offset, payload_size_offset, payload_offset,
  user_name_offset, public_key_offset, message_type_offset, content_size_offset,
  message_content_offset,
}
use instant_messaging_progra.Codec.Number.{parse_num_into_buffer}
use instant_messaging_progra.Codec.ClientId.{parse_client_id}

pub data RequestCode : Type 0 where
  register_code list_clients_code get_public_key_code send_message_code pull_messages_code :
      RequestCode

abbrev pub request_code : RequestCode → ℕ
request_code register_code = 1100
request_code list_clients_code = 1101
request_code get_public_key_code = 1102
request_code send_message_code = 1103
request_code pull_messages_code = 1104

-- ServerRequestBase
pub record Header : Type 0 where
  pub client_id : Bytes
  pub version : ℕ
  pub op : RequestCode
  pub payload_size : ℕ

-- The classes that implement IServerRequest. The last field of `send_message` is
-- `sentMessageContentPayload`.
pub data ServerRequest : Type 0 where
  register : Header → Bytes → Bytes → ServerRequest
  list_clients : Header → ServerRequest
  get_public_key : Header → Bytes → ServerRequest
  send_message : Header → Bytes → MessageType → Bytes → ℕ → ServerRequest
  pull_messages : Header → ServerRequest

abbrev pub server_request_base : Bytes → ℕ → RequestCode → ℕ → Header
server_request_base client_id version op payload_size = record {
  client_id = client_id;
  version = version;
  op = op;
  payload_size = payload_size;
}

unfoldable pub new_register : Bytes → ℕ → Bytes → Bytes → ServerRequest
new_register client_id version user_name public_key =
    register
      (server_request_base client_id version register_code
        (user_name_byte_size + public_key_byte_size))
      user_name public_key

unfoldable pub new_list_clients : Bytes → ℕ → ServerRequest
new_list_clients client_id version =
    list_clients (server_request_base client_id version list_clients_code 0)

unfoldable pub new_get_public_key : Bytes → ℕ → Bytes → ServerRequest
new_get_public_key client_id version dest_client_id =
    get_public_key (server_request_base client_id version get_public_key_code client_id_byte_size)
      dest_client_id

-- The sum is an `unsigned int`, and `(unsigned int)size()` keeps 32 bits.
unfoldable pub new_send_message : Bytes → ℕ → Bytes → MessageType → Bytes → ServerRequest
new_send_message client_id version dest_client_id message_type content =
    send_message
      (server_request_base client_id version send_message_code (
        add_u32 (client_id_byte_size + message_type_byte_size + content_size_byte_size)
          (length content % 2 ^ 32)))
      dest_client_id message_type content 0

unfoldable pub new_pull_messages : Bytes → ℕ → ServerRequest
new_pull_messages client_id version =
    pull_messages (server_request_base client_id version pull_messages_code 0)

unfoldable pub parse_header_into_buffer : Header → Bytes → Result Bytes
parse_header_into_buffer h buffer = do
  b₁ ← parse_client_id client_id_offset h.client_id buffer
  b₂ ← parse_num_into_buffer version_offset h.version version_byte_size b₁
  b₃ ← parse_num_into_buffer request_code_offset (request_code h.op) request_code_byte_size b₂
  parse_num_into_buffer payload_size_offset h.payload_size payload_size_byte_size b₃

unfoldable pub content_start : ℕ → ℕ
content_start sent = if sent == 0 then message_content_offset else 0

-- The bytes that one call writes, and whether more are left.
unfoldable pub chunk_of : ℕ → ℕ → ℕ → ParseStatus × ℕ
chunk_of size sent start =
    if ltb (sub_u32 buffer_partition_size start) (sub_u64 size sent)
    then (undone, sub_u32 buffer_partition_size start)
    else (done, sub_u32 (size % 2 ^ 32) sent)

-- The buffer and the new `sentMessageContentPayload`.
unfoldable pub parse_message_content_into_buffer :
    Bytes → ℕ → Bytes → Result (ParseStatus × Bytes × ℕ)
parse_message_content_into_buffer content sent buffer =
    let (status, count) = chunk_of (length content) sent (content_start sent) in
    do
      chunk ← range content sent count
      buffer' ← copy chunk (content_start sent) buffer
      ok (status, buffer', add_u32 sent count)

-- The fields before the content are written by the first call only.
unfoldable pub parse_message_head : Header → Bytes → MessageType → Bytes → Bytes → Result Bytes
unfolding parse_header_into_buffer
parse_message_head h dest message_type content buffer = do
  b₁ ← parse_header_into_buffer h buffer
  b₂ ← parse_client_id payload_offset dest b₁
  b₃ ←
      parse_num_into_buffer message_type_offset (message_type_code message_type)
        message_type_byte_size b₂
  parse_num_into_buffer content_size_offset (length content % 2 ^ 32) content_size_byte_size b₃

-- The status, the buffer, and the object after the call.
unfoldable pub prepare_request_buffer :
    ServerRequest → Bytes → Result (ParseStatus × Bytes × ServerRequest)
prepare_request_buffer (register h user_name public_key) buffer = do
  b₁ ← parse_header_into_buffer h buffer
  b₂ ← copy user_name user_name_offset b₁
  b₃ ← copy public_key public_key_offset b₂
  ok (done, b₃, register h user_name public_key)
prepare_request_buffer (list_clients h) buffer = do
  b₁ ← parse_header_into_buffer h buffer
  ok (done, b₁, list_clients h)
prepare_request_buffer (get_public_key h dest) buffer = do
  b₁ ← parse_header_into_buffer h buffer
  b₂ ← parse_client_id payload_offset dest b₁
  ok (done, b₂, get_public_key h dest)
prepare_request_buffer (send_message h dest message_type content zero) buffer = do
  b₁ ← parse_message_head h dest message_type content buffer
  (status, b₂, sent') ← parse_message_content_into_buffer content 0 b₁
  ok (status, b₂, send_message h dest message_type content sent')
prepare_request_buffer (send_message h dest message_type content (suc sent)) buffer = do
  (status, b₁, sent') ← parse_message_content_into_buffer content (suc sent) buffer
  ok (status, b₁, send_message h dest message_type content sent')
prepare_request_buffer (pull_messages h) buffer = do
  b₁ ← parse_header_into_buffer h buffer
  ok (done, b₁, pull_messages h)
