-- ===== src/Tests/Wire.antt =====
-- The wire format of client/ServerRequest.cpp, client/ServerResponse.cpp and
-- client/TCPNetworkClientManager.cpp at concrete bytes.
use instant_messaging_progra.Base.{
  ℕ, ◌<◌, ◌≤◌, ◌+◌, ◌*◌, All, ◌≡◌, refl, sym, List, [], ◌∷◌, ◌++◌, map, Bytes, length,
  length-replicate, replicate, ok, throw, exception, IsDefined, ok-injective, arith, ◌^◌,
}
use instant_messaging_progra.Common.{send_text_message}
use instant_messaging_progra.Codec.Number.{le_bytes, length-le_bytes, le_bytes-IsByte}
use instant_messaging_progra.Codec.ClientId.{hex_id}
use instant_messaging_progra.Codec.ClientId.Read.{decode_id-hex_id}
use instant_messaging_progra.ServerRequest.{Header, send_message_code, ServerRequest, send_message}
use instant_messaging_progra.ServerRequest.Format.{
  StandsFor, StandsFor-WrittenAs, head_bytes, Encodes, send_message_wire, cleared,
}
use instant_messaging_progra.ServerResponse.{
  Allocator, ServerResponse, pull_messages_success, parse_payload, message_loop,
}
use instant_messaging_progra.ServerResponse.Safety.{Progress, parse_payload-Progress}
use instant_messaging_progra.ServerResponse.Posted.{Posted, IsPosted, posted_bytes, as_received}
use instant_messaging_progra.ServerResponse.Messages.{
  message_loop-posted_bytes, message_loop-throws, cut_head,
}
use instant_messaging_progra.TcpNetworkClientManager.{
  Connection, write_loop, write_fuel, handle_request,
}
use instant_messaging_progra.TcpNetworkClientManager.Partitions.{partitions_of}
use instant_messaging_progra.TcpNetworkClientManager.Send.{write_loop-Encodes}
use instant_messaging_progra.TcpNetworkClientManager.Bounds.{write_loop-length}
use instant_messaging_progra.TcpNetworkClientManager.Receive.{
  Allocates, Delivers, handle_request-IsDefined,
}

abbrev pub id_bytes : Bytes
id_bytes = le_bytes 16 5

pub id_bytes-StandsFor : StandsFor (hex_id id_bytes) id_bytes
id_bytes-StandsFor = record {
  decoded = decode_id-hex_id id_bytes (le_bytes-IsByte 16 5);
  size = length-le_bytes 16 5;
}

-- A message of three partitions.
abbrev header : Header
header = record {
  client_id = hex_id id_bytes;
  version = 2;
  op = send_message_code;
  payload_size = 2021;
}

abbrev pub content : Bytes
content = replicate 2000 7

abbrev request : ServerRequest
request = send_message header (hex_id id_bytes) send_text_message content 0

abbrev wire : Bytes
wire = head_bytes id_bytes header id_bytes send_text_message content ++ content

pub content_fits : length content < 2 ^ 32
content_fits = omega (arith, length-replicate {A = ℕ} 2000 7)

request-Encodes : Encodes request wire
request-Encodes =
    send_message_wire header (hex_id id_bytes) send_text_message content id_bytes id_bytes
      (StandsFor-WrittenAs id_bytes-StandsFor) (StandsFor-WrittenAs id_bytes-StandsFor) content_fits

abbrev pub quiet : Connection
quiet = record {
  connect = ok tt;
  write = λ written partition. ok tt;
  read = λ written n. ok (replicate 1024 0);
}

write_loop-Encodes_example :
    write_loop quiet (write_fuel request) request (cleared []) [] ≡ ok (partitions_of wire)
write_loop-Encodes_example =
    write_loop-Encodes quiet (λ written partition. refl) request wire request-Encodes

write_loop-length_example :
    (sent : List Bytes) × (write_loop quiet (write_fuel request) request (cleared []) [] ≡ ok sent)
    × All (λ partition. length partition ≡ 1024) sent
    × (length wire ≤ 1024 * length sent)
    × (1024 * length sent < length wire + 1024)
write_loop-length_example =
    write_loop-length quiet (λ written partition. refl) request wire request-Encodes

abbrev pub zeros : Allocator
zeros n = replicate n 0

pub zeros-Allocates : Allocates zeros
zeros-Allocates n = length-replicate n 0

pub quiet-Delivers : Delivers quiet
quiet-Delivers written n = (
  tt,
  λ buffer e. rw (sym (ok-injective (replicate 1024 0) buffer e)) (length-replicate {A = ℕ} 1024 0),
)

handle_request-IsDefined_example : IsDefined (handle_request zeros quiet request)
handle_request-IsDefined_example =
    handle_request-IsDefined zeros zeros-Allocates quiet quiet-Delivers request (content_fits, refl)
      tt (λ written partition. tt)

abbrev waiting : ServerResponse
waiting =
    pull_messages_success (record { version = 2; payload_size = 3000; response_text = [] })
      (record { copied = 0; payload = replicate 3000 0 }) []

parse_payload-Progress_example : Progress waiting (parse_payload waiting (replicate 1024 9))
parse_payload-Progress_example =
    parse_payload-Progress waiting (replicate 1024 9)
      (omega arith, omega arith, length-replicate {A = ℕ} 3000 0) (length-replicate {A = ℕ} 1024 9)

abbrev posted : Posted
posted = record { sender = id_bytes; number = 6; kind = 2; content = 65 ∷ 66 ∷ [] }

posted-IsPosted : IsPosted posted
posted-IsPosted = record {
  id_size = length-le_bytes 16 5;
  number_fits = omega arith;
  kind_fits = omega arith;
  content_fits = omega arith;
}

abbrev two_posted : List Posted
two_posted = posted ∷ posted ∷ []

message_loop-posted_bytes_example :
    message_loop 55 (posted_bytes two_posted []) 54 0 [] ≡ ok (map as_received two_posted)
message_loop-posted_bytes_example =
    message_loop-posted_bytes two_posted 54 (posted-IsPosted, (posted-IsPosted, tt))
      (unfold posted_bytes le_bytes in refl) (omega arith)

message_loop-throws_example :
    message_loop 58 (posted_bytes two_posted (1 ∷ 2 ∷ 3 ∷ [])) 57 0 []
    ≡ throw (exception "invalid payload size")
message_loop-throws_example =
    message_loop-throws two_posted (1 ∷ 2 ∷ 3 ∷ []) 57 (posted-IsPosted, (posted-IsPosted, tt))
      (cut_head (omega arith) (omega arith)) (unfold posted_bytes le_bytes in refl) (omega arith)
