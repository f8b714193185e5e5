-- ===== src/Server/Serving.antt =====
-- The partitions that a session sends (server/message_u_server.py), as the client's read loop
-- (client/TCPNetworkClientManager.cpp) meets them.
use instant_messaging_progra.Base.{
  ℕ, zero, suc, ◌+◌, ◌-◌, ◌*◌, ◌≤◌, ◌<◌, ◌≡◌, refl, sym, ap, subst, ◌∙◌, List, [], ◌∷◌, ◌++◌, Bytes,
  length, take, drop, replicate, pad, length-pad, length-take, length-drop, take-append,
  drop-append, take-append-drop, take-all, append_assoc, Result, ok, throw, foreign, text, arith,
}
use instant_messaging_progra.TcpNetworkClientManager.{Connection}
use instant_messaging_progra.TcpNetworkClientManager.Reassembly.{
  Brings, last_partition, more_partitions,
}
use instant_messaging_progra.Server.Sessions.{slices}

-- The n-th read of the client; behind the last partition the server has closed the connection.
unfoldable pub nth_read : List Bytes → ℕ → Result Bytes
nth_read [] n = throw (record { kind = foreign; what = text "End of file" })
nth_read (part ∷ parts) zero = ok part
nth_read (part ∷ parts) (suc n) = nth_read parts n

zeros_behind : ℕ → Bytes → Bytes
zeros_behind n wire = replicate (1024 * n - length wire) 0

module _ (wire : Bytes) (n : ℕ) (long : 1024 < length wire) where
  take-pad : take 1024 (pad (1024 * n) wire) ≡ take 1024 wire
  unfolding pad
  take-pad =
      ap (λ z. take 1024 (z ++ replicate (1024 * n - length wire) 0))
        (sym (take-append-drop 1024 wire))
      ∙ ap (take 1024) (append_assoc (take 1024 wire) (drop 1024 wire) _)
      ∙ take-append 1024 (take 1024 wire) _ (length-take 1024 wire (omega arith))

  drop-pad : drop 1024 (pad (1024 * suc n) wire) ≡ pad (1024 * n) (drop 1024 wire)
  unfolding pad
  drop-pad =
      ap (λ z. drop 1024 (z ++ replicate (1024 * suc n - length wire) 0))
        (sym (take-append-drop 1024 wire))
      ∙ ap (drop 1024) (append_assoc (take 1024 wire) (drop 1024 wire) _)
      ∙ drop-append 1024 (take 1024 wire) _ (length-take 1024 wire (omega arith))
      ∙ ap (λ k. drop 1024 wire ++ replicate k 0) (omega (arith, length-drop 1024 wire))

module _ (c : Connection) (written : List Bytes) where
  pub slices-Brings :
      (n : ℕ) (wire : Bytes) (round : ℕ)
      → 1024 * n < length wire
      → length wire ≤ 1024 * suc n
      → ((i : ℕ)
          → c.read written (round + i) ≡ nth_read (slices (suc n) (pad (1024 * suc n) wire)) i)
      → Brings c written round wire
  unfolding slices nth_read
  slices-Brings zero wire round some fits reads =
      let size : length (pad 1024 wire) ≡ 1024 = length-pad 1024 wire (omega arith) in
      last_partition wire (replicate (1024 - length wire) 0) (unfold pad in size) (omega arith) (
        ap (c.read written) {x = round} {y = round + 0} (omega arith)
        ∙ reads 0
        ∙ ap ok (take-all 1024 (pad 1024 wire) (omega arith) ∙ unfold pad in refl))
  slices-Brings (suc n) wire round some fits reads =
      let long : 1024 < length wire = omega arith in
      subst (Brings c written round) (take-append-drop 1024 wire) (
        more_partitions (take 1024 wire) (drop 1024 wire) (length-take 1024 wire (omega arith))
          (omega (arith, length-drop 1024 wire))
          (ap (c.read written) {x = round} {y = round + 0} (omega arith)
            ∙ reads 0
            ∙ ap ok (take-pad wire (suc (suc n)) long))
          (slices-Brings n (drop 1024 wire) (suc round) (omega (arith, length-drop 1024 wire))
            (omega (arith, length-drop 1024 wire))
            (λ i.
              ap (c.read written) {x = suc round + i} {y = round + suc i} (omega arith)
              ∙ reads (suc i)
              ∙ ap (λ z. nth_read (slices (suc n) z) i) (drop-pad wire (suc n) long))))
