-- ===== src/ServerResponse/Loops.antt =====
-- The two loops of parseDataList (client/ServerResponse.cpp) on a payload of any bytes.
use native.Mathlib.Decide.{dec_lt}
use instant_messaging_progra.Base.{
  ℕ, zero, suc, ◌+◌, ◌-◌, ◌*◌, ◌^◌, ◌≤◌, ◌<◌, ◌≡◌, refl, List, [], ◌∷◌, ◌++◌, arith, Bytes, length,
  take, drop, ok, throw, IsDefined, Exception, ◌⊎◌, inl, inr, Bool-cases, true, false,
  range-in_bounds, ltb, ltb→lt, sub_u32,
}
use instant_messaging_progra.Codec.Number.{get_num_from_buffer, get_num-in_bounds}
use instant_messaging_progra.Codec.ClientId.{get_client_id_from_buffer}
use instant_messaging_progra.Codec.ClientId.Read.{get_client_id-in_bounds}
use instant_messaging_progra.ServerResponse.{
  ClientDataFromServer, MessageDataFromServer, client_loop, parse_message, message_loop,
}
use instant_messaging_progra.ServerResponse.Message.{parse_message_short, parse_message_ok}

pub client_loop-in_bounds :
    (rounds i : ℕ) (payload : Bytes) (found : List ClientDataFromServer)
    → (i + rounds) * 271 ≤ length payload
    → (r : List ClientDataFromServer) × (client_loop rounds i payload found ≡ ok r)
unfolding client_loop
client_loop-in_bounds zero i payload found h = (found, refl)
client_loop-in_bounds (suc rounds) i payload found h =
    let (id, e) = get_client_id-in_bounds payload (i * 271) (omega arith) in
    rw (e, range-in_bounds payload (i * 271 + 16) 255 (omega arith))
      (client_loop-in_bounds rounds (suc i) payload _ (omega arith))

-- A message is parsed from inside the payload, and the offset moves on, but not past the end.
parse_message_cases :
    (payload : Bytes) (size offset : ℕ)
    → length payload ≡ size
    → size < 2 ^ 32
    → offset + 25 ≤ size
    → ((m : MessageDataFromServer) × (next : ℕ) × (parse_message payload size offset ≡ ok (m, next))
        × (offset + 25 ≤ next)
        × (next ≤ size))
      ⊎ ((e : Exception) × (parse_message payload size offset ≡ throw e))
parse_message_cases payload size offset owned small inside =
    let (id, e₁) = get_client_id-in_bounds payload offset (omega arith) in
    let (n, e₂, _) = get_num-in_bounds payload (offset + 16) 4 (omega arith) in
    let (t, e₃, _) = get_num-in_bounds payload (offset + 20) 1 (omega arith) in
    let (k, e₄, hk) = get_num-in_bounds payload (offset + 21) 4 (omega arith) in
    go id n t k e₁ e₂ e₃ e₄ hk
  where
    go :
        (id : Bytes) (n t k : ℕ)
        → get_client_id_from_buffer payload offset ≡ ok id
        → get_num_from_buffer payload (offset + 16) 4 ≡ ok n
        → get_num_from_buffer payload (offset + 20) 1 ≡ ok t
        → get_num_from_buffer payload (offset + 21) 4 ≡ ok k
        → k < 2 ^ 32
        → ((m : MessageDataFromServer) × (next : ℕ) × (parse_message payload size offset
              ≡ ok (m, next))
            × (offset + 25 ≤ next)
            × (next ≤ size))
          ⊎ ((e : Exception) × (parse_message payload size offset ≡ throw e))
    go id n t k e₁ e₂ e₃ e₄ hk = elim (dec_lt size (offset + 25 + k)) [
      | yes short ↦
          inr
            (_, parse_message_short payload size offset id n t k small inside hk e₁ e₂ e₃ e₄ short)
      | no fits ↦ inl (
        _,
        _,
        parse_message_ok payload size offset id n t k small inside hk e₁ e₂ e₃ e₄
            (take k (drop (offset + 25) payload)) (omega arith)
            (range-in_bounds payload (offset + 25) k (omega arith)),
        omega arith,
        omega arith,
      )
    ]

-- The guard before a message leaves room for its fixed part.
guard_inside :
    (size offset : ℕ)
    → size < 2 ^ 32
    → ltb offset size ≡ true
    → ltb (sub_u32 size offset) 25 ≡ false
    → offset + 25 ≤ size
guard_inside size offset small more long = ground arith

pub message_loop-IsDefined :
    (fuel : ℕ) (payload : Bytes) (size offset : ℕ) (found : List MessageDataFromServer)
    → length payload ≡ size
    → size < 2 ^ 32
    → offset ≤ size
    → size - offset < fuel
    → IsDefined (message_loop fuel payload size offset found)
unfolding message_loop
message_loop-IsDefined zero payload size offset found owned small le fuel = absurd (omega arith)
message_loop-IsDefined (suc fuel) payload size offset found owned small le h =
    elim (Bool-cases (ltb offset size)) [
      | inr past ↦ rw past tt
      | inl more ↦ elim (Bool-cases (ltb (sub_u32 size offset) 25)) [
        | inl short ↦ rw (more, short) tt
        | inr long ↦
            rw (more, long)
              (elim (parse_message_cases payload size offset owned small
                (guard_inside size offset small more long)) [
                  | inl (m, next, e, lo, hi) ↦ rw e (
                      message_loop-IsDefined fuel payload size next (found ++ (m ∷ [])) owned small
                        hi (omega (arith, ltb→lt offset size more)))
                  | inr (x, e) ↦ rw e tt
                ])
      ]
    ]
