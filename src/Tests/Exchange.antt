-- ===== src/Tests/Exchange.antt =====
-- The server (server/request_parser.py, server/message_u_server.py) at concrete requests.
use instant_messaging_progra.Base.{
  ℕ, zero, ◌≡◌, refl, List, [], ◌∷◌, ◌++◌, Bytes, IsByte, All, length, replicate, none, ok,
  IsDefined, arith, suc, ◌/◌,
}
use instant_messaging_progra.Common.{send_text_message}
use instant_messaging_progra.ServerRequest.{new_send_message}
use instant_messaging_progra.ServerRequest.Format.{head_bytes, cleared}
use instant_messaging_progra.Codec.ClientId.{hex_id}
use instant_messaging_progra.TcpNetworkClientManager.{write_loop, write_fuel}
use instant_messaging_progra.Server.Requests.{send_message_request}
use instant_messaging_progra.Server.Receiving.{receive}
use instant_messaging_progra.Server.Understood.{
  Understood, send_message_understood, message_header, whole_message,
}
use instant_messaging_progra.Server.FromClient.{receive-write_loop}
use instant_messaging_progra.Server.Safety.{receive-IsDefined}
use instant_messaging_progra.Server.ShortRead.{receive-head_bytes}
use instant_messaging_progra.Tests.Wire.{id_bytes, id_bytes-StandsFor, content, content_fits, quiet}

-- A message of three partitions.
abbrev pub sent_wire : Bytes
sent_wire =
    head_bytes id_bytes (message_header (hex_id id_bytes) 2 content) id_bytes send_text_message
      content
    ++ content

request-Understood :
    Understood
      (new_send_message (hex_id id_bytes) 2 (hex_id id_bytes) send_text_message content)
      sent_wire
      (send_message_request (whole_message id_bytes 2 id_bytes 2 content))
request-Understood =
    send_message_understood (hex_id id_bytes) (hex_id id_bytes) id_bytes id_bytes content 2
      send_text_message id_bytes-StandsFor id_bytes-StandsFor (omega arith) (omega arith)
      content_fits

receive-write_loop_example :
    (sent : List Bytes) × (write_loop quiet
        (write_fuel
          (new_send_message (hex_id id_bytes) 2 (hex_id id_bytes) send_text_message content))
        (new_send_message (hex_id id_bytes) 2 (hex_id id_bytes) send_text_message content)
        (cleared [])
        []
      ≡ ok sent)
    × (receive (suc (length sent_wire / 1024)) sent none none
        ≡ ok (send_message_request (whole_message id_bytes 2 id_bytes 2 content)))
receive-write_loop_example =
    receive-write_loop quiet (λ written partition. refl)
      (new_send_message (hex_id id_bytes) 2 (hex_id id_bytes) send_text_message content) sent_wire
      (send_message_request (whole_message id_bytes 2 id_bytes 2 content)) request-Understood

pub zeros-IsByte : (n : ℕ) → All IsByte (replicate n 0)
zeros-IsByte zero = tt
zeros-IsByte (suc n) = (omega arith, zeros-IsByte n)

receive-IsDefined_example : IsDefined (receive 9000000 (replicate 1024 0 ∷ []) none none)
receive-IsDefined_example =
    receive-IsDefined 9000000 (replicate 1024 0 ∷ []) (omega arith) (zeros-IsByte 1024, tt)

-- Five bytes of a content of six arrive first.
abbrev six : Bytes
six = replicate 6 7

receive-head_bytes_example :
    receive 1
      ((head_bytes id_bytes (message_header (hex_id id_bytes) 2 six) id_bytes send_text_message six
          ++ replicate 5 7)
        ∷ [])
      none
      none
    ≡ ok (
        send_message_request
          (record (whole_message id_bytes 2 id_bytes 2 six) { payload = replicate 5 7 }))
receive-head_bytes_example =
    receive-head_bytes (hex_id id_bytes) (hex_id id_bytes) id_bytes id_bytes (replicate 5 7) six 2
      send_text_message [] 0 id_bytes-StandsFor id_bytes-StandsFor (omega arith) (omega arith)
      (omega arith) (omega arith)
