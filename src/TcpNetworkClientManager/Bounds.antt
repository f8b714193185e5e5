-- ===== src/TcpNetworkClientManager/Bounds.antt =====
-- How much the first loop of HandleRequest (client/TCPNetworkClientManager.cpp) sends.
use instant_messaging_progra.Base.{
  ℕ, zero, suc, ◌+◌, ◌*◌, ◌/◌, ◌≤◌, ◌<◌, ◌≡◌, List, [], Bytes, All, length, length-append,
  length-drop, drop, ok, leb, leb→le, leb→gt, Bool-cases, inl, inr, arith,
}
use instant_messaging_progra.ServerRequest.{ServerRequest}
use instant_messaging_progra.ServerRequest.Format.{
  length-header_bytes, length-head_bytes, cleared, Encodes, register_wire, list_clients_wire,
  get_public_key_wire, send_message_wire, pull_messages_wire,
}
use instant_messaging_progra.TcpNetworkClientManager.{Connection, write_loop, write_fuel}
use instant_messaging_progra.TcpNetworkClientManager.Partitions.{
  partitions, partitions_of, partitions_size,
}
use instant_messaging_progra.TcpNetworkClientManager.Send.{write_loop-Encodes}

length-partitions :
    (k : ℕ) (bs : Bytes)
    → 0 < length bs
    → length bs ≤ 1024 * suc k
    → 1024 * length (partitions k bs) < length bs + 1024
unfolding partitions
length-partitions zero bs some fits = omega arith
length-partitions (suc k) bs some fits = elim (Bool-cases (leb (length bs) 1024)) [
  | inl short ↦ rw short (omega arith)
  | inr long ↦ rw long (
      omega (
        arith,
        length-partitions k (drop 1024 bs)
            (omega (arith, length-drop 1024 bs, leb→gt (length bs) 1024 long))
            (omega (arith, length-drop 1024 bs)),
        length-drop 1024 bs,
        leb→gt (length bs) 1024 long,
      ))
]

covers_all :
    (k : ℕ) (bs : Bytes) → length bs ≤ 1024 * suc k → length bs ≤ 1024 * length (partitions k bs)
unfolding partitions
covers_all zero bs fits = omega arith
covers_all (suc k) bs fits = elim (Bool-cases (leb (length bs) 1024)) [
  | inl short ↦ rw short (omega (arith, leb→le (length bs) 1024 short))
  | inr long ↦ rw long (
      omega (
        arith,
        covers_all k (drop 1024 bs) (omega (arith, length-drop 1024 bs)),
        length-drop 1024 bs,
      ))
]

Encodes-long : (request : ServerRequest) (wire : Bytes) → Encodes request wire → 0 < length wire
Encodes-long _ _ (register_wire h user_name public_key sender s hu hk) =
    omega (arith, length-append {0}, length-header_bytes h sender s.size)
Encodes-long _ _ (list_clients_wire h sender s) = omega (arith, length-header_bytes h sender s.size)
Encodes-long _ _ (get_public_key_wire h dest sender receiver s d) =
    omega (arith, length-append {0}, length-header_bytes h sender s.size)
Encodes-long _ _ (send_message_wire h dest t content sender receiver s d fits) =
    omega (arith, length-append {0}, length-head_bytes h sender receiver content t s.size d.size)
Encodes-long _ _ (pull_messages_wire h sender s) =
    omega (arith, length-header_bytes h sender s.size)

-- Over a connection that takes every write, the first loop of HandleRequest ends within
-- `write_fuel` rounds for a request whose wire format is `wire`. Every partition that it has sent
-- is 1024 bytes, together they have room for all of `wire`, and what fills up the last one is fewer
-- than 1024 bytes, so no partition without a byte of the request is sent.
pub write_loop-length :
    (c : Connection)
    (accepts : (written : List Bytes) (partition : Bytes) → c.write written partition ≡ ok tt)
    (request : ServerRequest) (wire : Bytes)
    → Encodes request wire
    → (sent : List Bytes) × (write_loop c (write_fuel request) request (cleared []) [] ≡ ok sent)
      × All (λ partition. length partition ≡ 1024) sent
      × (length wire ≤ 1024 * length sent)
      × (1024 * length sent < length wire + 1024)
unfolding partitions_of
write_loop-length c accepts request wire e = (
  partitions_of wire,
  write_loop-Encodes c accepts request wire e,
  partitions_size (length wire / 1024) wire (omega arith),
  covers_all (length wire / 1024) wire (omega arith),
  length-partitions (length wire / 1024) wire (Encodes-long request wire e) (omega arith),
)
