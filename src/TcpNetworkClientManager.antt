-- ===== src/TcpNetworkClientManager.antt =====
-- client/TCPNetworkClientManager.h and .cpp: one request and its response over a connection.
-- boost::asio is a parameter, the record `Connection`.
pub mod Partitions
pub mod SendMessage
pub mod Send
pub mod Bounds
pub mod Sending
pub mod Receive
pub mod Reassembly
pub mod Answer
use instant_messaging_progra.Base.{
  ℕ, zero, suc, ◌+◌, ◌/◌, List, [], ◌∷◌, ◌++◌, Bytes, length, replicate, Result, ok, throw, stuck,
  out_of_fuel, std_exception, Option, none, some, ◌^◌, ◌>>=◌, ◌>>◌,
}
use instant_messaging_progra.Common.{buffer_partition_size, ParseStatus, undone, done}
use instant_messaging_progra.ServerResponse.{
  ServerResponse, Allocator, create_server_response_instance, parse_payload,
}
use instant_messaging_progra.ServerRequest.{ServerRequest, send_message, prepare_request_buffer}

-- What the peer and the network do: `connect`, a `write` after what has been written, and the
-- n-th `read` after what has been written. Each may throw, an end of file included.
pub record Connection : Type 0 where
  pub connect : Result (Unit {0})
  pub write : List Bytes → Bytes → Result (Unit {0})
  pub read : List Bytes → ℕ → Result Bytes

-- `buffer[i] = '\0'` for every element of the array.
unfoldable pub clear : Bytes → Bytes
clear [] = []
clear (b ∷ bs) = 0 ∷ clear bs

-- The first loop of HandleRequest; `data` is cleared behind each write. It returns what it has written.
unfoldable pub write_loop :
    Connection → ℕ → ServerRequest → Bytes → List Bytes → Result (List Bytes)
unfolding clear
write_loop c zero request buffer written = stuck out_of_fuel
write_loop c (suc fuel) request buffer written = do
  (status, buffer', request') ← prepare_request_buffer request buffer
  c.write written buffer'
  elim status [
    | undone ↦ write_loop c fuel request' (clear buffer') (written ++ (buffer' ∷ []))
    | done ↦ ok (written ++ (buffer' ∷ []))
  ]

-- Rounds that are enough: only a message takes more than one partition.
unfoldable pub write_fuel : ServerRequest → ℕ
write_fuel (send_message h dest t content sent) = suc ((44 + length content) / 1024)
write_fuel _ = 1

-- `if (response == nullptr)` the first partition chooses the class of the response.
unfoldable pub response_for : Allocator → Option ServerResponse → Bytes → Result ServerResponse
response_for alloc none buffer = create_server_response_instance alloc buffer
response_for alloc (some response) buffer = ok response

-- The second loop of HandleRequest, at its `round`-th read.
unfoldable pub read_loop :
    Allocator → Connection → ℕ → List Bytes → ℕ → Option ServerResponse → Result ServerResponse
unfolding response_for
read_loop alloc c zero written round response = stuck out_of_fuel
read_loop alloc c (suc fuel) written round response = do
  buffer ← c.read written round
  current ← response_for alloc response buffer
  (status, response') ← parse_payload current buffer
  elim status [
    | undone ↦ read_loop alloc c fuel written (suc round) (some response')
    | done ↦ ok response'
  ]

-- More rounds than partitions in a payload of 2 ^ 32 - 1 bytes and its header.
abbrev pub read_fuel : ℕ
read_fuel = suc (2 ^ 22)

-- `catch (const std::exception& e) { ...; throw e; }` throws a copy of the base class.
unfoldable pub rethrow {ℓ} : {A : Type ℓ} → Result A → Result A
rethrow (ok a) = ok a
rethrow (throw e) = throw (record { kind = std_exception; what = e.what })
rethrow (stuck f) = stuck f

unfoldable pub handle_request : Allocator → Connection → ServerRequest → Result ServerResponse
unfolding rethrow
handle_request alloc c request = rethrow do
  c.connect
  written ← write_loop c (write_fuel request) request (replicate buffer_partition_size 0) []
  read_loop alloc c read_fuel written 0 none
