-- ===== src/Common/InRequest.antt =====
-- client/common.h: the offsets of the fields in a request buffer.
use instant_messaging_progra.Base.{ℕ, ◌+◌}
use instant_messaging_progra.Common.{
  client_id_byte_size, version_byte_size, request_code_byte_size, payload_size_byte_size,
  user_name_byte_size, message_type_byte_size, content_size_byte_size,
}

abbrev pub client_id_offset : ℕ
client_id_offset = 0

abbrev pub version_offset : ℕ
version_offset = client_id_byte_size

abbrev pub request_code_offset : ℕ
request_code_offset = version_offset + version_byte_size

abbrev pub payload_size_offset : ℕ
payload_size_offset = request_code_offset + request_code_byte_size

abbrev pub payload_offset : ℕ
payload_offset = payload_size_offset + payload_size_byte_size

abbrev pub user_name_offset : ℕ
user_name_offset = payload_offset

abbrev pub public_key_offset : ℕ
public_key_offset = user_name_offset + user_name_byte_size

abbrev pub dest_client_id_offset : ℕ
dest_client_id_offset = payload_offset

abbrev pub message_type_offset : ℕ
message_type_offset = dest_client_id_offset + client_id_byte_size

abbrev pub content_size_offset : ℕ
content_size_offset = message_type_offset + message_type_byte_size

abbrev pub message_content_offset : ℕ
message_content_offset = content_size_offset + content_size_byte_size
