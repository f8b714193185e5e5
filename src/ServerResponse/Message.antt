-- ===== src/ServerResponse/Message.antt =====
-- One round of PullMessagesSuccessResponse::parseDataList.
use instant_messaging_progra.Base.{
  exception, ℕ, ◌+◌, ◌^◌, ◌≤◌, ◌<◌, ◌≡◌, ap, arith, Bytes, ok, throw, range, lt→ltb, le→ltb,
  add_u32, sub_u32,
}
use instant_messaging_progra.Codec.Number.{get_num_from_buffer}
use instant_messaging_progra.Codec.ClientId.{get_client_id_from_buffer}
use instant_messaging_progra.ServerResponse.{parse_message, message_type_of}

-- One message, given what its fixed part holds.
module _ (payload : Bytes) (size offset : ℕ) (id : Bytes) (n t k : ℕ) (small : size < 2 ^ 32)
    (inside : offset + 25 ≤ size) (word : k < 2 ^ 32)
    (read_id : get_client_id_from_buffer payload offset ≡ ok id)
    (read_number : get_num_from_buffer payload (offset + 16) 4 ≡ ok n)
    (read_type : get_num_from_buffer payload (offset + 20) 1 ≡ ok t)
    (read_size : get_num_from_buffer payload (offset + 21) 4 ≡ ok k) where
  o₁ : add_u32 offset 16 ≡ offset + 16
  o₁ = omega arith

  o₂ : add_u32 (offset + 16) 4 ≡ offset + 20
  o₂ = omega arith

  o₃ : add_u32 (offset + 20) 1 ≡ offset + 21
  o₃ = omega arith

  o₄ : add_u32 (offset + 21) 4 ≡ offset + 25
  o₄ = omega arith

  pub parse_message_short :
      size < offset + 25 + k
      → parse_message payload size offset ≡ throw (exception "invalid payload size")
  unfolding parse_message
  parse_message_short h = rw (
    o₁,
    o₂,
    o₃,
    o₄,
    read_id,
    read_number,
    read_type,
    read_size,
    lt→ltb (sub_u32 size (offset + 25)) k (omega arith),
  )

  pub parse_message_ok :
      (content : Bytes)
      → offset + 25 + k ≤ size
      → range payload (offset + 25) k ≡ ok content
      → parse_message payload size offset
        ≡ ok (
          record {
            client_id = id;
            message_id = n;
            message_type = message_type_of t;
            message_content = content;
          },
          offset + 25 + k,
        )
  unfolding parse_message
  parse_message_ok content h e =
      rw
        (
          o₁,
          o₂,
          o₃,
          o₄,
          read_id,
          read_number,
          read_type,
          read_size,
          le→ltb (sub_u32 size (offset + 25)) k (omega arith),
          e,
        )
        (ap
          (λ z. ok (
            record {
              client_id = id;
              message_id = n;
              message_type = message_type_of t;
              message_content = content;
            },
            z,
          ))
          (omega arith))
