-- ===== src/TcpNetworkClientManager/Send.antt =====
-- The first loop of HandleRequest: what a connection that takes every write is sent.
use instant_messaging_progra.Base.{
  ◌/◌, ◌≤◌, ◌≡◌, sym, ap, ◌∙◌, [], arith, Bytes, length, length-append, length-pad, ok,
}
use instant_messaging_progra.Common.{done}
use instant_messaging_progra.ServerRequest.{
  ServerRequest, register, list_clients, get_public_key, pull_messages, prepare_request_buffer,
}
use instant_messaging_progra.ServerRequest.Format.{
  cleared, length-header_bytes, head_bytes, Encodes, register_wire, list_clients_wire,
  get_public_key_wire, send_message_wire, pull_messages_wire, prepare-register_lem,
  prepare-list_clients_lem, prepare-get_public_key_lem, prepare-pull_messages_lem,
}
use instant_messaging_progra.TcpNetworkClientManager.{Connection, write_loop, write_fuel}
use instant_messaging_progra.TcpNetworkClientManager.Partitions.{partitions_of, partitions_short}
use instant_messaging_progra.TcpNetworkClientManager.SendMessage.{
  Accepts, last_write, message, head, write_message,
}

module _ (c : Connection) (accepts : Accepts c) where
  single :
      (request request' : ServerRequest) (wire : Bytes)
      → prepare_request_buffer request (cleared []) ≡ ok (done, cleared wire, request')
      → length wire ≤ 1024
      → write_loop c 1 request (cleared []) [] ≡ ok (partitions_of wire)
  single request request' wire e h =
      last_write c accepts 0 request request' (cleared []) (cleared wire) [] e
      ∙ ap ok (sym (unfold partitions_of in partitions_short (length wire / 1024) wire h))

  -- Over a connection that takes every write, the first loop of HandleRequest sends a request whose
  -- wire format is `wire`, from a cleared buffer and within `write_fuel` rounds, as exactly the
  -- partitions of `wire`: 1024 bytes each, the last one filled up with zeros.
  pub write_loop-Encodes :
      (request : ServerRequest) (wire : Bytes)
      → Encodes request wire
      → write_loop c (write_fuel request) request (cleared []) [] ≡ ok (partitions_of wire)
  unfolding write_fuel message head_bytes head
  write_loop-Encodes request wire (register_wire h user_name public_key sender s hu hk) =
      single (register h user_name public_key) _ _
        (prepare-register_lem h sender s user_name public_key hu hk)
        (omega (
          arith,
          length-append {0},
          length-header_bytes h sender s.size,
          length-pad 255 user_name hu,
        ))
  write_loop-Encodes request wire (list_clients_wire h sender s) =
      single (list_clients h) _ _ (prepare-list_clients_lem h sender s)
        (omega (arith, length-header_bytes h sender s.size))
  write_loop-Encodes request wire (get_public_key_wire h dest sender receiver s r) =
      single (get_public_key h dest) _ _ (prepare-get_public_key_lem h sender s dest receiver r)
        (omega (arith, length-append {0}, length-header_bytes h sender s.size, r.size))
  write_loop-Encodes request wire (send_message_wire h dest t content sender receiver s r small) =
      write_message c accepts h dest t content small sender receiver s r
  write_loop-Encodes request wire (pull_messages_wire h sender s) =
      single (pull_messages h) _ _ (prepare-pull_messages_lem h sender s)
        (omega (arith, length-header_bytes h sender s.size))
