-- ===== src/TcpNetworkClientManager/Sending.antt =====
-- The first loop of HandleRequest (client/TCPNetworkClientManager.cpp) ends, and stays in bounds, whatever
-- the connection does.
use instant_messaging_progra.Base.{
  ℕ, zero, suc, ◌≡◌, refl, List, [], ◌∷◌, ◌++◌, Bytes, Result, Exception, ok, throw, stuck,
  IsDefined, >>=-IsDefined, ◌>>=◌, ◌>>◌, inl, inr, replicate, pad,
}
use instant_messaging_progra.Common.{ParseStatus, undone, done}
use instant_messaging_progra.ServerRequest.{
  ServerRequest, register, list_clients, get_public_key, send_message, pull_messages,
  prepare_request_buffer,
}
use instant_messaging_progra.ServerRequest.Format.{cleared}
use instant_messaging_progra.ServerRequest.Any.{Fits, Fits-Starts}
use instant_messaging_progra.TcpNetworkClientManager.{Connection, clear, write_loop, write_fuel}
use instant_messaging_progra.TcpNetworkClientManager.Send.{write_loop-Encodes}

-- A write succeeds or throws.
abbrev pub Writes : Connection → Type 0
Writes c = (written : List Bytes) (partition : Bytes) → IsDefined (c.write written partition)

-- The connection that takes every write.
accepting : Connection → Connection
accepting c = record c { write = λ written partition. ok tt }

write_step :
    (m : Result (Unit {0})) (next : Result (List Bytes))
    → IsDefined m
    → IsDefined next
    → IsDefined (m >> next)
write_step (ok u) next h k = k
write_step (throw e) next h k = tt
write_step (stuck f) next h k = h

defined_first {ℓ κ} :
    {A : Type ℓ} {B : Type κ} (m : Result A) (f : A → Result B) → IsDefined (m >>= f) → IsDefined m
defined_first (ok a) f h = tt
defined_first (throw e) f h = tt
defined_first (stuck e) f h = h

pick :
    (status : ParseStatus) (more more' last : Result (List Bytes))
    → (IsDefined more' → IsDefined more)
    → IsDefined (elim status as (λ _. Result (List Bytes)) [ undone ↦ more' | done ↦ last ])
    → IsDefined (elim status as (λ _. Result (List Bytes)) [ undone ↦ more | done ↦ last ])
pick undone more more' last k h = k h
pick done more more' last k h = h

-- Where an accepted request is sent in full, a failing write throws and nothing worse.
write_loop-IsDefined :
    (c : Connection) (fuel : ℕ) (request : ServerRequest) (buffer : Bytes) (written : List Bytes)
    → Writes c
    → IsDefined (write_loop (accepting c) fuel request buffer written)
    → IsDefined (write_loop c fuel request buffer written)
unfolding write_loop accepting
write_loop-IsDefined c zero request buffer written writes h = h
write_loop-IsDefined c (suc fuel) request buffer written writes h =
    >>=-IsDefined (prepare_request_buffer request buffer) _
      (defined_first (prepare_request_buffer request buffer) _ h)
      λ p e. write_step (c.write written p.1) _ (writes written p.1) (
        pick p.0 _ _ _ (write_loop-IsDefined c fuel p.2 (clear p.1) (written ++ (p.1 ∷ [])) writes)
          (rw e at h))

has_rounds : (request : ServerRequest) → (fuel : ℕ) × (write_fuel request ≡ suc fuel)
unfolding write_fuel
has_rounds (register h user_name public_key) = (_, refl)
has_rounds (list_clients h) = (_, refl)
has_rounds (get_public_key h dest) = (_, refl)
has_rounds (send_message h dest t content sent) = (_, refl)
has_rounds (pull_messages h) = (_, refl)

-- An exception of the first partition ends the loop.
throws_at_once :
    (c : Connection) (fuel : ℕ) (request : ServerRequest) (e : Exception)
    → prepare_request_buffer request (cleared []) ≡ throw e
    → IsDefined (write_loop c (suc fuel) request (cleared []) [])
unfolding write_loop
throws_at_once c fuel request e failed = rw failed tt

pub sending-IsDefined :
    (c : Connection)
    → Writes c
    → (request : ServerRequest) → Fits request
    → IsDefined (write_loop c (write_fuel request) request (replicate 1024 0) [])
unfolding pad accepting
sending-IsDefined c writes request fits = elim (Fits-Starts request fits) [
  | inl (wire, enc) ↦
      write_loop-IsDefined c (write_fuel request) request (cleared []) [] writes
        (rw (write_loop-Encodes (accepting c) (λ w p. refl) request wire enc) tt)
  | inr (e, failed) ↦
      (let (fuel, rounds) = has_rounds request in
        rw rounds (throws_at_once c fuel request e failed))
]
