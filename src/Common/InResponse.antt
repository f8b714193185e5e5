-- ===== src/Common/InResponse.antt =====
-- client/common.h: the offsets of the fields in a response buffer.
use instant_messaging_progra.Base.{ℕ, ◌+◌}
use instant_messaging_progra.Common.{
  client_id_byte_size, version_byte_size, response_code_byte_size, payload_size_byte_size,
}

abbrev pub version_offset : ℕ
version_offset = 0

abbrev pub response_code_offset : ℕ
response_code_offset = version_offset + version_byte_size

abbrev pub payload_size_offset : ℕ
payload_size_offset = response_code_offset + response_code_byte_size

abbrev pub payload_offset : ℕ
payload_offset = payload_size_offset + payload_size_byte_size

abbrev pub client_id_offset : ℕ
client_id_offset = payload_offset

abbrev pub public_key_offset : ℕ
public_key_offset = client_id_offset + client_id_byte_size

abbrev pub message_id_offset : ℕ
message_id_offset = client_id_offset + client_id_byte_size
