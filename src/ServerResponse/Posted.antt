-- ===== src/ServerResponse/Posted.antt =====
-- The messages of a payload as the server writes them, and one round of
-- PullMessagesSuccessResponse::parseDataList (client/ServerResponse.cpp) on one of them.
use instant_messaging_progra.Base.{
  ℕ, ◌+◌, ◌^◌, ◌<◌, ◌≡◌, refl, sym, ap, ◌∙◌, List, [], ◌∷◌, ◌++◌, append_assoc, arith, Bytes,
  length, length-append, ok, range, range-append,
}
use instant_messaging_progra.Codec.Number.{
  le_bytes, length-le_bytes, get_num_from_buffer, get_num-le_bytes,
}
use instant_messaging_progra.Codec.ClientId.{get_client_id_from_buffer, hex_id}
use instant_messaging_progra.Codec.ClientId.Read.{get_client_id-append}
use instant_messaging_progra.ServerResponse.{MessageDataFromServer, parse_message, message_type_of}
use instant_messaging_progra.ServerResponse.Message.{parse_message_ok}

-- A message as the server puts it into a payload.
pub record Posted : Type 0 where
  pub sender : Bytes
  pub number : ℕ
  pub kind : ℕ
  pub content : Bytes

pub record IsPosted (m : Posted) : Type 0 where
  pub id_size : length m.sender ≡ 16
  pub number_fits : m.number < 256 ^ 4
  pub kind_fits : m.kind < 256 ^ 1
  pub content_fits : length m.content < 256 ^ 4

abbrev pub fixed_bytes : Posted → Bytes → Bytes
fixed_bytes m rest =
    m.sender
    ++ (le_bytes 4 m.number ++ (le_bytes 1 m.kind ++ (le_bytes 4 (length m.content) ++ rest)))

unfoldable pub posted_bytes : List Posted → Bytes → Bytes
posted_bytes [] rest = rest
posted_bytes (m ∷ ms) rest = fixed_bytes m (m.content ++ posted_bytes ms rest)

abbrev pub as_received : Posted → MessageDataFromServer
as_received m = record {
  client_id = hex_id m.sender;
  message_id = m.number;
  message_type = message_type_of m.kind;
  message_content = m.content;
}

before₂ : (pre a b x : Bytes) → pre ++ (a ++ (b ++ x)) ≡ ((pre ++ a) ++ b) ++ x
before₂ pre a b x = simp (append_assoc)

before₃ : (pre a b c x : Bytes) → pre ++ (a ++ (b ++ (c ++ x))) ≡ (((pre ++ a) ++ b) ++ c) ++ x
before₃ pre a b c x = simp (append_assoc)

before₄ :
    (pre a b c d x : Bytes)
    → pre ++ (a ++ (b ++ (c ++ (d ++ x)))) ≡ ((((pre ++ a) ++ b) ++ c) ++ d) ++ x
before₄ pre a b c d x = simp (append_assoc)

-- The fixed part of a message, behind `pre`.
module _ (m : Posted) (wf : IsPosted m) (pre rest : Bytes) (offset : ℕ)
    (at : offset ≡ length pre) where
  pub reads_id : get_client_id_from_buffer (pre ++ fixed_bytes m rest) offset ≡ ok (hex_id m.sender)
  reads_id = get_client_id-append offset pre m.sender _ at wf.id_size

  pub reads_number : get_num_from_buffer (pre ++ fixed_bytes m rest) (offset + 16) 4 ≡ ok m.number
  reads_number =
      ap (λ b. get_num_from_buffer b (offset + 16) 4) (sym (append_assoc pre m.sender _))
      ∙ get_num-le_bytes (pre ++ m.sender) _ (offset + 16) 4 m.number
          (omega (arith, length-append pre m.sender, wf.id_size)) (omega arith) wf.number_fits

  pub reads_kind : get_num_from_buffer (pre ++ fixed_bytes m rest) (offset + 20) 1 ≡ ok m.kind
  reads_kind =
      ap (λ b. get_num_from_buffer b (offset + 20) 1) (before₂ pre m.sender (le_bytes 4 m.number) _)
      ∙ get_num-le_bytes ((pre ++ m.sender) ++ le_bytes 4 m.number) _ (offset + 20) 1 m.kind
          (omega (
            arith,
            length-append (pre ++ m.sender) (le_bytes 4 m.number),
            length-append pre m.sender,
            length-le_bytes 4 m.number,
            wf.id_size,
          ))
          (omega arith) wf.kind_fits

  pub reads_size :
      get_num_from_buffer (pre ++ fixed_bytes m rest) (offset + 21) 4 ≡ ok (length m.content)
  reads_size =
      ap (λ b. get_num_from_buffer b (offset + 21) 4)
        (before₃ pre m.sender (le_bytes 4 m.number) (le_bytes 1 m.kind) _)
      ∙ get_num-le_bytes (((pre ++ m.sender) ++ le_bytes 4 m.number) ++ le_bytes 1 m.kind) _
          (offset + 21) 4 (length m.content)
          (omega (
            arith,
            length-append ((pre ++ m.sender) ++ le_bytes 4 m.number) (le_bytes 1 m.kind),
            length-append (pre ++ m.sender) (le_bytes 4 m.number),
            length-append pre m.sender,
            length-le_bytes 4 m.number,
            length-le_bytes 1 m.kind,
            wf.id_size,
          ))
          (omega arith) wf.content_fits

  abbrev pub head : Bytes
  head =
      (((pre ++ m.sender) ++ le_bytes 4 m.number) ++ le_bytes 1 m.kind)
      ++ le_bytes 4 (length m.content)

  pub length-head : length head ≡ offset + 25
  length-head = omega (
    arith,
    length-append (((pre ++ m.sender) ++ le_bytes 4 m.number) ++ le_bytes 1 m.kind)
        (le_bytes 4 (length m.content)),
    length-append ((pre ++ m.sender) ++ le_bytes 4 m.number) (le_bytes 1 m.kind),
    length-append (pre ++ m.sender) (le_bytes 4 m.number),
    length-append pre m.sender,
    length-le_bytes 4 m.number,
    length-le_bytes 1 m.kind,
    length-le_bytes 4 (length m.content),
    wf.id_size,
  )

  pub split_head : pre ++ fixed_bytes m rest ≡ head ++ rest
  split_head =
      before₄ pre m.sender (le_bytes 4 m.number) (le_bytes 1 m.kind) (le_bytes 4 (length m.content))
        rest

  pub length-fixed : length (pre ++ fixed_bytes m rest) ≡ offset + 25 + length rest
  length-fixed = ap length split_head ∙ omega (arith, length-append head rest, length-head)

-- One whole message.
module _ (m : Posted) (wf : IsPosted m) (pre rest : Bytes) (offset size : ℕ)
    (at : offset ≡ length pre) (small : size < 2 ^ 32)
    (whole : size ≡ length (pre ++ fixed_bytes m (m.content ++ rest))) where
  pub size_lem : size ≡ offset + 25 + length m.content + length rest
  size_lem =
      omega
        (arith, length-fixed m wf pre (m.content ++ rest) offset at, length-append m.content rest)

  pub parse_message-posted :
      parse_message (pre ++ fixed_bytes m (m.content ++ rest)) size offset
      ≡ ok (as_received m, offset + 25 + length m.content)
  parse_message-posted =
      parse_message_ok (pre ++ fixed_bytes m (m.content ++ rest)) size offset (hex_id m.sender)
        m.number m.kind (length m.content) small (omega (arith, size_lem)) wf.content_fits
        (reads_id m wf pre _ offset at) (reads_number m wf pre _ offset at)
        (reads_kind m wf pre _ offset at) (reads_size m wf pre _ offset at) m.content
        (omega (arith, size_lem))
        (ap (λ b. range b (offset + 25) (length m.content))
            (split_head m wf pre (m.content ++ rest) offset at)
          ∙ range-append (head m wf pre (m.content ++ rest) offset at) m.content rest (offset + 25)
              (length m.content) (sym (length-head m wf pre (m.content ++ rest) offset at)) refl)
