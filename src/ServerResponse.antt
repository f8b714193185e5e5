-- ===== src/ServerResponse.antt =====
-- client/ServerResponse.h, ServerResponse.cpp, ClientDataFromServer and MessageDataFromServer: the
-- responses, how one is chosen by the header and how the payload is collected and parsed.
-- Handling a response is in ServerResponse.Handle.
pub mod Payload
pub mod Arrival
pub mod Message
pub mod Posted
pub mod Messages
pub mod Clients
pub mod Loops
pub mod Safety
pub mod Handle
use instant_messaging_progra.Base.{
  exception, ℕ, zero, suc, ◌+◌, ◌*◌, ◌/◌, ◌%◌, Bool, true, false, not, List, [], ◌∷◌, ◌++◌, Bytes,
  String, length, Result, ok, throw, stuck, out_of_fuel, std_exception, Exception, ◌>>=◌, ◌>>◌,
  copy, range, ltb, ◌==◌, if◌then◌else◌, sub_u32, add_u32, text,
}
use instant_messaging_progra.Common.{
  buffer_partition_size, client_id_byte_size, version_byte_size, response_code_byte_size,
  payload_size_byte_size, user_name_byte_size, public_key_byte_size, message_type_byte_size,
  content_size_byte_size, message_id_byte_size, client_data_size, MessageType,
  request_symmetric_key, send_symmetric_key, send_text_message, send_file, unknown, ParseStatus,
  undone, done,
}
use instant_messaging_progra.Common.InResponse.{
  version_offset, response_code_offset, payload_size_offset, payload_offset, client_id_offset,
  public_key_offset, message_id_offset,
}
use instant_messaging_progra.Codec.Number.{get_num_from_buffer}
use instant_messaging_progra.Codec.ClientId.{get_client_id_from_buffer}

pub record ClientDataFromServer : Type 0 where
  pub client_id : Bytes
  pub client_name : Bytes

pub record MessageDataFromServer : Type 0 where
  pub client_id : Bytes
  pub message_id : ℕ
  pub message_type : MessageType
  pub message_content : Bytes

-- ServerResponseBase
pub record ResponseBase : Type 0 where
  pub version : ℕ
  pub payload_size : ℕ
  pub response_text : Bytes

-- BigResponse: the memory at `payload`, and how much of it has been filled.
pub record Big : Type 0 where
  pub copied : ℕ
  pub payload : Bytes

-- The classes that implement IServerResponse.
pub data ServerResponse : Type 0 where
  general_error : ResponseBase → ServerResponse
  register_success : ResponseBase → Bytes → Bool → ServerResponse
  list_clients_success : ResponseBase → Big → ℕ → List ClientDataFromServer → ServerResponse
  public_key_success : ResponseBase → Bytes → Bytes → ServerResponse
  message_sent_success : ResponseBase → Bytes → ℕ → ServerResponse
  pull_messages_success : ResponseBase → Big → List MessageDataFromServer → ServerResponse

unfoldable pub assert_payload_size : ℕ → ℕ → Result (Unit {0})
assert_payload_size expected payload_size =
    if expected == payload_size
    then ok tt
    else throw (exception "payload size is not the expected payload size")

unfoldable pub message_type_of : ℕ → MessageType
message_type_of n =
    if n == 0
    then request_symmetric_key
    else if n == 1
    then send_symmetric_key
    else if n == 2
    then send_text_message
    else if n == 3
    then send_file
    else unknown n

-- `std::string(s.c_str())`: the characters before the first NUL.
unfoldable pub c_str : Bytes → Bytes
c_str [] = []
c_str (zero ∷ rest) = []
c_str (suc c ∷ rest) = suc c ∷ c_str rest

-- The loop of ListClientsSuccessResponse::parseDataList.
unfoldable pub client_loop :
    ℕ → ℕ → Bytes → List ClientDataFromServer → Result (List ClientDataFromServer)
unfolding c_str
client_loop zero i payload found = ok found
client_loop (suc rounds) i payload found = do
  client_id ← get_client_id_from_buffer payload (i * client_data_size)
  name ← range payload (i * client_data_size + client_id_byte_size) user_name_byte_size
  client_loop rounds (suc i) payload
      (found ++ (record { client_id = client_id; client_name = c_str name } ∷ []))

-- One message, at an offset that has the fixed part behind it; with the offset behind it.
unfoldable pub parse_message : Bytes → ℕ → ℕ → Result (MessageDataFromServer × ℕ)
parse_message payload payload_size o₀ = do
  client_id ← get_client_id_from_buffer payload o₀
  let o₁ = add_u32 o₀ client_id_byte_size
  message_id ← get_num_from_buffer payload o₁ message_id_byte_size
  let o₂ = add_u32 o₁ message_id_byte_size
  message_type ← get_num_from_buffer payload o₂ message_type_byte_size
  let o₃ = add_u32 o₂ message_type_byte_size
  message_size ← get_num_from_buffer payload o₃ content_size_byte_size
  let o₄ = add_u32 o₃ content_size_byte_size
  if ltb (sub_u32 payload_size o₄) message_size
      then throw (exception "invalid payload size")
      else do
        content ← range payload o₄ message_size
        ok (
          record {
            client_id = client_id;
            message_id = message_id;
            message_type = message_type_of message_type;
            message_content = content;
          },
          add_u32 o₄ message_size,
        )

abbrev pub fixed_part : ℕ
fixed_part =
    client_id_byte_size + message_id_byte_size + message_type_byte_size + content_size_byte_size

-- The loop of PullMessagesSuccessResponse::parseDataList.
unfoldable pub message_loop :
    ℕ → Bytes → ℕ → ℕ → List MessageDataFromServer → Result (List MessageDataFromServer)
message_loop zero payload payload_size offset found = stuck out_of_fuel
message_loop (suc fuel) payload payload_size offset found =
    let next : Result (List MessageDataFromServer) = do
      (message, offset') ← parse_message payload payload_size offset
      message_loop fuel payload payload_size offset' (found ++ (message ∷ []))
    in if ltb offset payload_size
      then if ltb (sub_u32 payload_size offset) fixed_part
        then throw (exception "invalid payload size")
        else next
      else ok found

-- `bufferStartIndex` and `numOfBytesToCopy` of BigResponse::parsePayload.
unfoldable pub start_of : ℕ → ℕ
start_of copied = if copied == 0 then payload_offset else 0

unfoldable pub count_of : ℕ → ℕ → ℕ
unfolding start_of
count_of payload_size copied =
    let left = sub_u32 payload_size copied in
    let room = sub_u32 buffer_partition_size (start_of copied) in
    if ltb room left then room else left

-- BigResponse::parsePayload up to the call of parseDataList.
unfoldable pub collect : ℕ → Big → Bytes → Result Big
collect payload_size b buffer = do
  chunk ← range buffer (start_of b.copied) (count_of payload_size b.copied)
  payload' ← copy chunk b.copied b.payload
  ok (record { copied = add_u32 b.copied (count_of payload_size b.copied); payload = payload' })

-- The status, and the object after the call.
unfoldable pub parse_payload : ServerResponse → Bytes → Result (ParseStatus × ServerResponse)
unfolding assert_payload_size collect
parse_payload (general_error base) buffer = do
  assert_payload_size 0 base.payload_size
  ok (done, general_error base)
parse_payload (register_success base _ completed) buffer = do
  assert_payload_size client_id_byte_size base.payload_size
  client_id ← get_client_id_from_buffer buffer client_id_offset
  ok (done, register_success base client_id completed)
parse_payload (list_clients_success base b num_of_clients found) buffer =
    if base.payload_size == 0
    then ok (done, list_clients_success base b num_of_clients found)
    else do
      b' ← collect base.payload_size b buffer
      if not (b'.copied == base.payload_size)
          then ok (undone, list_clients_success base b' num_of_clients found)
          else do
            found' ← client_loop num_of_clients 0 b'.payload found
            ok (done, list_clients_success base b' num_of_clients found')
parse_payload (public_key_success base _ _) buffer = do
  assert_payload_size (client_id_byte_size + public_key_byte_size) base.payload_size
  client_id ← get_client_id_from_buffer buffer client_id_offset
  public_key ← range buffer public_key_offset public_key_byte_size
  ok (done, public_key_success base client_id public_key)
parse_payload (message_sent_success base _ _) buffer = do
  assert_payload_size (client_id_byte_size + message_id_byte_size) base.payload_size
  client_id ← get_client_id_from_buffer buffer client_id_offset
  message_id ← get_num_from_buffer buffer message_id_offset message_id_byte_size
  ok (done, message_sent_success base client_id message_id)
parse_payload (pull_messages_success base b found) buffer =
    if base.payload_size == 0 then ok (done, pull_messages_success base b found) else do
      b' ← collect base.payload_size b buffer
      if not (b'.copied == base.payload_size)
          then ok (undone, pull_messages_success base b' found)
          else do
            found' ← message_loop (suc base.payload_size) b'.payload base.payload_size 0 found
            ok (done, pull_messages_success base b' found')

-- The memory that `new unsigned char[n]` returns holds any bytes: they are a parameter.
abbrev pub Allocator : Type 0
Allocator = ℕ → Bytes

abbrev new_base : ℕ → ℕ → ResponseBase
new_base version payload_size = record {
  version = version;
  payload_size = payload_size;
  response_text = [];
}

abbrev new_big : Allocator → ℕ → Big
new_big alloc payload_size = record { copied = 0; payload = alloc payload_size }

unfoldable pub new_list_clients_success : Allocator → ℕ → ℕ → Result ServerResponse
unfolding exception
new_list_clients_success alloc version payload_size =
    if not (payload_size % client_data_size == 0)
    then throw (exception "invalid payload size for ListClientsSuccessResponse")
    else ok (
        list_clients_success (new_base version payload_size) (new_big alloc payload_size)
          (payload_size / client_data_size) [])

-- The `switch` of the factory.
unfoldable pub create_by_code : Allocator → ℕ → ℕ → ℕ → Result ServerResponse
unfolding new_list_clients_success exception
create_by_code alloc version code payload_size =
    let base = new_base version payload_size in
    if code == 2100
    then ok (register_success base [] false)
    else if code == 2101
    then new_list_clients_success alloc version payload_size
    else if code == 2102
    then ok (public_key_success base [] [])
    else if code == 2103
    then ok (message_sent_success base [] 0)
    else if code == 2104
    then ok (pull_messages_success base (new_big alloc payload_size) [])
    else if code == 9000
    then ok (general_error base)
    else throw (exception "Not valid response code")

-- ServerResponseInstanceFactory::CreateServerResponseInstance
unfoldable pub create_server_response_instance : Allocator → Bytes → Result ServerResponse
unfolding create_by_code
create_server_response_instance alloc buffer = do
  version ← get_num_from_buffer buffer version_offset version_byte_size
  code ← get_num_from_buffer buffer response_code_offset response_code_byte_size
  payload_size ← get_num_from_buffer buffer payload_size_offset payload_size_byte_size
  create_by_code alloc version code payload_size
