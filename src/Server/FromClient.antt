-- ===== src/Server/FromClient.antt =====
-- The client's write loop (client/TCPNetworkClientManager.cpp) and the server's receive loop
-- (server/message_u_server.py) together: what one writes, the other understands.
use instant_messaging_progra.Base.{
  ℕ, suc, ◌-◌, ◌/◌, ◌≤◌, ◌<◌, ◌≡◌, refl, sym, ap, ◌∙◌, List, [], ◌++◌, Bytes, length, replicate,
  pad, none, ok, ◌^◌, append-nil, length-append, length-pad, append_assoc, arith,
}
use instant_messaging_progra.Common.{done}
use instant_messaging_progra.ServerRequest.{
  ServerRequest, Header, server_request_base, register_code, list_clients_code, get_public_key_code,
  pull_messages_code,
}
use instant_messaging_progra.ServerRequest.Format.{header_bytes, length-header_bytes, cleared}
use instant_messaging_progra.TcpNetworkClientManager.{Connection, write_loop, write_fuel}
use instant_messaging_progra.TcpNetworkClientManager.Send.{write_loop-Encodes}
use instant_messaging_progra.TcpNetworkClientManager.Partitions.{partitions_of, partitions}
use instant_messaging_progra.Server.Requests.{Request, parse_request, get_request_parser}
use instant_messaging_progra.Server.Receiving.{receive}
use instant_messaging_progra.Server.Headers.{parser_of, get_request_parser-header_bytes}
use instant_messaging_progra.Server.Understood.{
  Understood, register_understood, list_clients_understood, get_public_key_understood,
  send_message_understood, pull_messages_understood, Understood-Encodes, message_header,
  parse_register-wire, parse_get_public_key-wire,
}
use instant_messaging_progra.Server.Parsing.{receive-one, pad-append, receive-message}

-- One partition: the header, and a payload that its parser reads.
receive-header :
    (n k : ℕ) (sender payload : Bytes) (h : Header) (r : Request)
    → length sender ≡ 16
    → h.version < 256
    → h.payload_size < 2 ^ 32
    → length payload ≤ 1001
    → ((post : Bytes)
        → parse_request (parser_of sender h) (header_bytes sender h ++ (payload ++ post)) none
          ≡ ok (done, r))
    → receive (suc n) (partitions k (header_bytes sender h ++ payload)) none none ≡ ok r
receive-header n k sender payload h r e hv hs short reads =
    let wire = header_bytes sender h ++ payload in
    let cut = pad-append (header_bytes sender h) payload in
    let zeros = replicate {A = ℕ} (1024 - length wire) 0 in
    let fits : length wire ≤ 1024 =
      omega (arith, length-append {0}, length-header_bytes h sender e) in
    receive-one n k wire (parser_of sender h) r fits
      (ap get_request_parser cut
        ∙ get_request_parser-header_bytes sender (payload ++ zeros) h e hv hs)
      (ap (λ z. parse_request (parser_of sender h) z none) cut ∙ reads zeros)

receive-nothing :
    (n k : ℕ) (sender : Bytes) (h : Header) (r : Request)
    → length sender ≡ 16
    → h.version < 256
    → h.payload_size < 2 ^ 32
    → ((post : Bytes)
        → parse_request (parser_of sender h) (header_bytes sender h ++ post) none ≡ ok (done, r))
    → receive (suc n) (partitions k (header_bytes sender h)) none none ≡ ok r
receive-nothing n k sender h r e hv hs reads =
    ap (λ z. receive (suc n) (partitions k z) none none) (sym (append-nil (header_bytes sender h)))
    ∙ receive-header n k sender [] h r e hv hs (omega arith) reads

-- The receive loop of the server, on the partitions of the bytes of a request, gives that request
-- after at most one round more than the bytes fill partitions. The conditions are in Understood:
-- ids of 32 hexadecimal digits, numbers that fit their fields, a content of less than 2^32 bytes, a
-- user name of at most 255 bytes of UTF-8, a public key of 160 bytes.
pub receive-Understood :
    (request : ServerRequest) (wire : Bytes) (r : Request)
    → Understood request wire r
    → receive (suc (length wire / 1024)) (partitions_of wire) none none ≡ ok r
unfolding partitions_of parse_request
receive-Understood _ wire _ (register_understood id name key sender version s hv hn text hk) =
    let h = server_request_base id version register_code 415 in
    let k = length wire / 1024 in
    let size : length (pad 255 name ++ key) ≤ 1001 =
      omega (arith, length-append {0}, length-pad 255 name hn) in
    ap (λ z. receive (suc k) (partitions k z) none none)
      (append_assoc (header_bytes sender h) (pad 255 name) key)
    ∙ receive-header k k sender (pad 255 name ++ key) h _ s.size hv (omega arith) size (λ post.
      parse_register-wire (parser_of sender h) (header_bytes sender h)
        (length-header_bytes h sender s.size) name key post refl hn text hk)
receive-Understood _ wire _ (list_clients_understood id sender version s hv) =
    let h = server_request_base id version list_clients_code 0 in
    receive-nothing (length wire / 1024) (length wire / 1024) sender h _ s.size hv (omega arith)
      (λ post. refl)
receive-Understood _ wire _ (get_public_key_understood id dest sender receiver version s d hv) =
    let h = server_request_base id version get_public_key_code 16 in
    let size : length receiver ≤ 1001 = omega (arith, d.size) in
    receive-header (length wire / 1024) (length wire / 1024) sender receiver h _ s.size hv
      (omega arith) size
      (λ post.
        parse_get_public_key-wire (parser_of sender h) (header_bytes sender h)
          (length-header_bytes h sender s.size) receiver post refl d.size)
receive-Understood _ wire _
      (send_message_understood id dest sender receiver content version t s d hv ht fits) =
    let h = message_header id version content in
    receive-message sender receiver content h t s.size d.size ht fits
      (λ post. get_request_parser-header_bytes sender post h s.size hv (omega arith))
      (length wire / 1024) (omega arith)
receive-Understood _ wire _ (pull_messages_understood id sender version s hv) =
    let h = server_request_base id version pull_messages_code 0 in
    receive-nothing (length wire / 1024) (length wire / 1024) sender h _ s.size hv (omega arith)
      (λ post. refl)

-- For each of the five requests as the client's constructors make it, what the write loop of the
-- client sends is what the receive loop of the server reads the same request from: the same ids,
-- version, name, public key, message type and content, over however many partitions. The conditions
-- are in Understood: ids of 32 hexadecimal digits, numbers that fit their fields, a content of less
-- than 2^32 bytes, a user name of at most 255 bytes of UTF-8 (zeros at its end are lost), a public
-- key of 160 bytes.
pub receive-write_loop :
    (c : Connection)
    (accepts : (written : List Bytes) (partition : Bytes) → c.write written partition ≡ ok tt)
    (request : ServerRequest) (wire : Bytes) (r : Request)
    → Understood request wire r
    → (sent : List Bytes) × (write_loop c (write_fuel request) request (cleared []) [] ≡ ok sent)
      × (receive (suc (length wire / 1024)) sent none none ≡ ok r)
receive-write_loop c accepts request wire r u = (
  partitions_of wire,
  write_loop-Encodes c accepts request wire (Understood-Encodes request wire r u),
  receive-Understood request wire r u,
)
