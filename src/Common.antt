-- ===== src/Common.antt =====
-- client/common.h: the sizes and offsets of the protocol, message types, parse status.
pub mod InRequest
pub mod InResponse
use instant_messaging_progra.Base.{ℕ, ◌+◌, Bytes, text}

abbrev pub client_version : ℕ
client_version = 2

abbrev pub buffer_partition_size : ℕ
buffer_partition_size = 1024

abbrev pub client_id_byte_size : ℕ
client_id_byte_size = 16

abbrev pub version_byte_size : ℕ
version_byte_size = 1

abbrev pub request_code_byte_size : ℕ
request_code_byte_size = 2

abbrev pub payload_size_byte_size : ℕ
payload_size_byte_size = 4

abbrev pub response_code_byte_size : ℕ
response_code_byte_size = 2

abbrev pub user_name_byte_size : ℕ
user_name_byte_size = 255

abbrev pub public_key_byte_size : ℕ
public_key_byte_size = 160

abbrev pub message_type_byte_size : ℕ
message_type_byte_size = 1

abbrev pub content_size_byte_size : ℕ
content_size_byte_size = 4

abbrev pub message_id_byte_size : ℕ
message_id_byte_size = 4

abbrev pub client_data_size : ℕ
client_data_size = client_id_byte_size + user_name_byte_size

abbrev pub min_valid_port_number : ℕ
min_valid_port_number = 1024

abbrev pub max_valid_port_number : ℕ
max_valid_port_number = 65535

abbrev pub error_message : Bytes
error_message = text "server responded with an error\n\n"

-- `unknown` is any other value that a byte of a response is cast to.
pub data MessageType : Type 0 where
  request_symmetric_key send_symmetric_key send_text_message send_file : MessageType
  unknown : ℕ → MessageType

abbrev pub message_type_code : MessageType → ℕ
message_type_code request_symmetric_key = 0
message_type_code send_symmetric_key = 1
message_type_code send_text_message = 2
message_type_code send_file = 3
message_type_code (unknown n) = n

pub data ParseStatus : Type 0 where
  undone done : ParseStatus
