-- ===== src/Tests/Answer.antt =====
-- A response of two partitions (client/TCPNetworkClientManager.cpp) at concrete bytes.
use instant_messaging_progra.Base.{
  zero, suc, sym, take, drop, take-append-drop, length-take, length-drop, length-append, subst,
  none,
}
use instant_messaging_progra.TcpNetworkClientManager.{read_loop, read_fuel}
use instant_messaging_progra.TcpNetworkClientManager.Reassembly.{
  Brings, last_partition, more_partitions,
}
use instant_messaging_progra.TcpNetworkClientManager.Answer.{
  response_header, read_loop-posted_bytes,
}
use instant_messaging_progra.Base.{
  ℕ, ◌≡◌, refl, sym, [], ◌∷◌, ◌++◌, map, Bytes, length, length-replicate, replicate, ok, arith,
}
use instant_messaging_progra.Codec.Number.{le_bytes, length-le_bytes}
use instant_messaging_progra.ServerResponse.{pull_messages_success}
use instant_messaging_progra.ServerResponse.Posted.{Posted, IsPosted, posted_bytes, as_received}
use instant_messaging_progra.TcpNetworkClientManager.{Connection}
use instant_messaging_progra.Tests.Wire.{id_bytes, zeros}

-- A message that takes two partitions.
abbrev long_posted : Posted
long_posted = record { sender = id_bytes; number = 6; kind = 2; content = replicate 1500 7 }

long_posted-IsPosted : IsPosted long_posted
long_posted-IsPosted = record {
  id_size = length-le_bytes 16 5;
  number_fits = omega arith;
  kind_fits = omega arith;
  content_fits = omega (arith, length-replicate {A = ℕ} 1500 7);
}

abbrev answer : Bytes
answer = response_header 2 2104 1525 ++ posted_bytes (long_posted ∷ []) []

payload_size : length (posted_bytes (long_posted ∷ []) []) ≡ 1525
unfolding posted_bytes le_bytes
payload_size = refl

header_size : length (response_header 2 2104 1525) ≡ 7
unfolding le_bytes
header_size = refl

answer_size : length answer ≡ 1532
answer_size = omega (
  arith,
  payload_size,
  length-append (response_header 2 2104 1525) (posted_bytes (long_posted ∷ []) []),
  header_size,
)

abbrev nth_partition : ℕ → Bytes
nth_partition zero = take 1024 answer
nth_partition (suc n) = drop 1024 answer ++ replicate 516 0

abbrev answering : Connection
answering = record {
  connect = ok tt;
  write = λ written partition. ok tt;
  read = λ written n. ok (nth_partition n);
}

answering-Brings : Brings answering [] 0 answer
answering-Brings = subst (Brings answering [] 0) (take-append-drop 1024 answer) (
    more_partitions (take 1024 answer) (drop 1024 answer)
      (length-take 1024 answer (omega (arith, answer_size)))
      (omega (arith, answer_size, length-drop 1024 answer)) refl
      (last_partition (drop 1024 answer) (replicate 516 0)
        (omega (
          arith,
          answer_size,
          length-drop 1024 answer,
          length-append (drop 1024 answer) (replicate 516 0),
          length-replicate {A = ℕ} 516 0,
        ))
        (omega (arith, answer_size, length-drop 1024 answer)) refl))

read_loop-posted_bytes_example :
    read_loop zeros answering read_fuel [] 0 none
    ≡ ok (
        pull_messages_success
          (record { version = 2; payload_size = 1525; response_text = [] })
          (record { copied = 1525; payload = posted_bytes (long_posted ∷ []) [] })
          (map as_received (long_posted ∷ [])))
read_loop-posted_bytes_example =
    read_loop-posted_bytes zeros answering [] (long_posted ∷ []) 2 1525
      (length-replicate {A = ℕ} 1525 0) (long_posted-IsPosted, tt) (omega arith) (sym payload_size)
      (omega arith) (omega arith) answering-Brings
