-- ===== src/ServerRequest/Any.antt =====
-- A request of any kind (client/ServerRequest.cpp): it has a wire format, or its first partition
-- throws.
use instant_messaging_progra.Base.{
  ◌^◌, ◌≤◌, ◌<◌, ◌≡◌, zero, suc, refl, [], arith, Bytes, length, throw, Exception, ◌⊎◌, inl, inr,
}
use instant_messaging_progra.Common.{user_name_byte_size, public_key_byte_size}
use instant_messaging_progra.Codec.ClientId.{parse_client_id}
use instant_messaging_progra.Codec.ClientId.Any.{parse_client_id-cases}
use instant_messaging_progra.ServerRequest.{
  Header, ServerRequest, register, list_clients, get_public_key, send_message, pull_messages,
  parse_header_into_buffer, parse_message_head, prepare_request_buffer,
}
use instant_messaging_progra.ServerRequest.Format.{
  WrittenAs, Encodes, cleared, header_bytes, length-header_bytes, parse_header-cleared,
  register_wire, list_clients_wire, get_public_key_wire, send_message_wire, pull_messages_wire,
}

-- A request that no partition has been made of, whose fields fit the protocol.
abbrev pub Fits : ServerRequest → Type 0
Fits (register h user_name public_key) =
    (length user_name ≤ user_name_byte_size) × (length public_key ≤ public_key_byte_size)
Fits (list_clients h) = Unit {0}
Fits (get_public_key h dest) = Unit {0}
Fits (send_message h dest t content sent) = (length content < 2 ^ 32) × (sent ≡ 0)
Fits (pull_messages h) = Unit {0}

-- The wire format of a request, or the exception of its first partition.
abbrev pub Starts : ServerRequest → Type 0
Starts request =
    ((wire : Bytes) × Encodes request wire)
    ⊎ ((e : Exception) × (prepare_request_buffer request (cleared []) ≡ throw e))

sender_or_throws :
    (h : Header) (request : ServerRequest)
    → ((e : Exception)
        → parse_header_into_buffer h (cleared []) ≡ throw e
        → prepare_request_buffer request (cleared []) ≡ throw e)
    → ((sender : Bytes) → WrittenAs h.client_id sender → Starts request)
    → Starts request
unfolding parse_header_into_buffer
sender_or_throws h request fails goes = elim (parse_client_id-cases h.client_id) [
  | inl (sender, size, puts) ↦ goes sender (record { size = size; written = puts })
  | inr (e, puts) ↦ inr (e, fails e (rw (puts 0 1024 [] refl (omega arith)) refl))
]

receiver_or_throws :
    (h : Header) (dest : Bytes) (request : ServerRequest) (sender : Bytes)
    → WrittenAs h.client_id sender
    → ((e : Exception)
        → parse_client_id 23 dest (cleared (header_bytes sender h)) ≡ throw e
        → prepare_request_buffer request (cleared []) ≡ throw e)
    → ((receiver : Bytes) → WrittenAs dest receiver → Starts request)
    → Starts request
receiver_or_throws h dest request sender s fails goes = elim (parse_client_id-cases dest) [
  | inl (receiver, size, puts) ↦ goes receiver (record { size = size; written = puts })
  | inr (e, puts) ↦
      (let size : length (header_bytes sender h) ≡ 23 = length-header_bytes h sender s.size in
        inr (e, fails e (puts 23 1024 (header_bytes sender h) (omega arith) (omega arith))))
]

pub Fits-Starts : (request : ServerRequest) → Fits request → Starts request
unfolding prepare_request_buffer parse_message_head
Fits-Starts (list_clients h) fits =
    sender_or_throws h (list_clients h) (λ e failed. rw failed refl)
      (λ sender s. inl (_, list_clients_wire h sender s))
Fits-Starts (pull_messages h) fits =
    sender_or_throws h (pull_messages h) (λ e failed. rw failed refl)
      (λ sender s. inl (_, pull_messages_wire h sender s))
Fits-Starts (register h user_name public_key) fits =
    sender_or_throws h (register h user_name public_key) (λ e failed. rw failed refl)
      (λ sender s. inl (_, register_wire h user_name public_key sender s fits.0 fits.1))
Fits-Starts (get_public_key h dest) fits =
    sender_or_throws h (get_public_key h dest) (λ e failed. rw failed refl)
      λ sender s.
        receiver_or_throws h dest (get_public_key h dest) sender s
          (λ e failed. rw (parse_header-cleared h sender s, failed) refl)
          (λ receiver r. inl (_, get_public_key_wire h dest sender receiver s r))
Fits-Starts (send_message h dest t content zero) fits =
    sender_or_throws h (send_message h dest t content 0) (λ e failed. rw failed refl)
      λ sender s.
        receiver_or_throws h dest (send_message h dest t content 0) sender s
          (λ e failed. rw (parse_header-cleared h sender s, failed) refl)
          (λ receiver r. inl (_, send_message_wire h dest t content sender receiver s r fits.0))
Fits-Starts (send_message h dest t content (suc sent)) fits = absurd (omega (arith, fits.1))
