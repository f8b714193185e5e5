-- ===== src/Server/Outcomes.antt =====
-- What the parsers of server/request_parser.py make of one partition of any bytes: an exception, or a
-- request and how much of it is still to come.
use instant_messaging_progra.Base.{
  ℕ, zero, suc, ◌+◌, ◌-◌, ◌^◌, ◌≤◌, ◌<◌, ◌≡◌, refl, ◌⊎◌, inl, inr, [], ◌∷◌, Bool, true, false,
  Bool-cases, Option, none, some, Bytes, IsByte, All, length, take, drop, Result, ok, Yields,
  >>=-Yields, ◌>>=◌, is_empty, ltb, ltb→lt, leb, leb→le, length-take, length-drop, ◌==◌, arith,
  if◌then◌else◌,
}
use instant_messaging_progra.Common.{ParseStatus, done, undone}
use instant_messaging_progra.Server.Struct.{
  unpack_from, uuid, decode_text, is_utf8, le_value, le_value-bound,
}
use instant_messaging_progra.Server.Requests.{
  Request, register_request, list_clients_request, get_public_key_request, pull_messages_request,
  SendMessage, send_message_request, RequestParser, ParserClass, make_parser, parser_class_of,
  parse_header, get_request_parser, parse_register, new_register_request, parse_get_public_key,
  parse_send_message, new_send_message_request, parse_content, content_from, bytes_to_read,
  sent_message,
}
use instant_messaging_progra.Server.Receiving.{unless_done}

pub if-Yields {ℓ} :
    {A : Type ℓ} (P : A → Type 0) (b : Bool) (x y : Result A)
    → (b ≡ true → Yields P x)
    → Yields P y
    → Yields P (if b then x else y)
if-Yields P true x y hx hy = hx refl
if-Yields P false x y hx hy = hy

-- Anything that is returned.
abbrev pub Any {ℓ} : {A : Type ℓ} → A → Type 0
Any a = Unit

new_register_request-Yields :
    (id : Bytes) (v : ℕ) (name key : Bytes) → Yields Any (new_register_request id v name key)
unfolding new_register_request decode_text
new_register_request-Yields id v name key =
    >>=-Yields Any Any (decode_text name) _ (if-Yields Any (is_utf8 name) _ _ (λ e. tt) tt)
      (λ text h. tt)

make_parser-Yields :
    (id : Bytes) (v size : ℕ) (c : Option ParserClass) → Yields Any (make_parser id v size c)
make_parser-Yields id v size none = tt
make_parser-Yields id v size (some c) = tt

-- Bytes of a known number.
unfoldable pub AreBytes : ℕ → Bytes → Type 0
AreBytes n fields = All IsByte fields × (length fields ≡ n)

All-take : (n : ℕ) (bs : Bytes) → All IsByte bs → All IsByte (take n bs)
All-take zero bs h = tt
All-take (suc n) [] h = tt
All-take (suc n) (b ∷ bs) (hb, h) = (hb, All-take n bs h)

All-drop : (n : ℕ) (bs : Bytes) → All IsByte bs → All IsByte (drop n bs)
All-drop zero bs h = h
All-drop (suc n) [] h = tt
All-drop (suc n) (b ∷ bs) (hb, h) = All-drop n bs h

announced :
    (fields : Bytes) → All IsByte fields → length fields ≡ 5 → le_value (drop 1 fields) < 2 ^ 32
announced fields h e =
    let bound = le_value-bound (drop 1 fields) (All-drop 1 fields h) in
    let four : length (drop 1 fields) ≡ 4 = omega (arith, length-drop 1 fields) in
    let bound' : le_value (drop 1 fields) < 256 ^ 4 = rw four at bound in omega arith

module _ (buffer : Bytes) (bytes : All IsByte buffer) where
  pub unpack_from-Yields : (n at : ℕ) → Yields (AreBytes n) (unpack_from n buffer at)
  unfolding unpack_from AreBytes
  unpack_from-Yields n at =
      if-Yields (AreBytes n) (leb (at + n) (length buffer)) _ _
        (λ fits. (
          All-take n (drop at buffer) (All-drop at buffer bytes),
          length-take n (drop at buffer)
              (omega (arith, leb→le (at + n) (length buffer) fits, length-drop at buffer)),
        ))
        tt

  uuid-Yields : (b : Bytes) → Yields Any (uuid b)
  unfolding uuid
  uuid-Yields b = if-Yields Any (length b == 16) _ _ (λ e. tt) tt

  parse_header-Yields : Yields Any (parse_header buffer)
  unfolding parse_header
  parse_header-Yields =
      >>=-Yields (AreBytes 16) Any (unpack_from 16 buffer 0) _ (unpack_from-Yields 16 0) (λ id h.
        >>=-Yields Any Any (uuid id) _ (uuid-Yields id) (λ id' h'.
          >>=-Yields (AreBytes 7) Any (unpack_from 7 buffer 16) _ (unpack_from-Yields 7 16)
            (λ fields h''. tt)))

  pub get_request_parser-Yields : Yields Any (get_request_parser buffer)
  unfolding get_request_parser
  get_request_parser-Yields =
      if-Yields Any (is_empty buffer) _ _ (λ e. tt)
        (>>=-Yields Any Any (parse_header buffer) _ parse_header-Yields (λ header h.
          let (id, version, code, size) = header in
          make_parser-Yields id version size (parser_class_of code)))

-- One partition holds the rest of the content, or brings at least 980 bytes of it.
bytes_to_read-cases :
    (size index start : ℕ)
    → (bytes_to_read size index start ≡ (done, size - index))
      ⊎ ((bytes_to_read size index start ≡ (undone, 1024 - start)) × (1024 - start < size - index))
unfolding bytes_to_read
bytes_to_read-cases size index start = elim (Bool-cases (ltb (1024 - start) (size - index))) [
  | inl more ↦ inr (rw more refl, ltb→lt _ _ more)
  | inr last ↦ inl (rw last refl)
]

content_from-small : (index : ℕ) → content_from index ≤ 44
unfolding content_from
content_from-small index = ground arith

-- What the parser of messages makes of a partition, and what is still to come.
unfoldable pub Remaining : ℕ → ParseStatus × SendMessage → Type 0
Remaining left (done, q) = Unit
Remaining left (undone, q) = q.content_size - q.payload_index + 980 ≤ left

pub parse_content-Remaining :
    (buffer : Bytes) (q : SendMessage)
    → Remaining (q.content_size - q.payload_index) (parse_content buffer q)
unfolding parse_content Remaining
parse_content-Remaining buffer q =
    let start = content_from q.payload_index in
    elim (bytes_to_read-cases q.content_size q.payload_index start) [
      | inl last ↦ rw last tt
      | inr (more, e) ↦ rw more (omega (arith, content_from-small q.payload_index))
    ]

-- The same of a parsed request: done, or a message with this much left before the partition.
unfoldable pub NextRound : ℕ → ParseStatus × Request → Type 0
NextRound left (done, q) = Unit
NextRound left (undone, send_message_request q) = q.content_size - q.payload_index + 980 ≤ left
NextRound left (undone, _) = ⊥

pub done-any : (left : ℕ) (q : Request) → NextRound left (done, q)
unfolding NextRound
done-any left q = tt

pub sent_message-NextRound :
    (left more : ℕ) (x : ParseStatus × SendMessage)
    → Remaining left x
    → left ≤ more
    → NextRound more (sent_message x)
unfolding Remaining NextRound
sent_message-NextRound left more (done, q) h hm = tt
sent_message-NextRound left more (undone, q) h hm = omega arith

pub unless_done-Yields :
    (left : ℕ) (x : ParseStatus × Request) (rest : Request → Result Request)
    → NextRound left x
    → ((q : SendMessage)
        → q.content_size - q.payload_index + 980 ≤ left
        → Yields Any (rest (send_message_request q)))
    → Yields Any (unless_done x rest)
unfolding NextRound
unless_done-Yields left (done, q) rest h hr = tt
unless_done-Yields left (undone, send_message_request q) rest h hr = hr q h
unless_done-Yields left (undone, register_request _ _ _ _) rest h hr = absurd h
unless_done-Yields left (undone, list_clients_request _ _) rest h hr = absurd h
unless_done-Yields left (undone, get_public_key_request _ _ _) rest h hr = absurd h
unless_done-Yields left (undone, pull_messages_request _ _) rest h hr = absurd h

-- A request that one partition completes.
done-NextRound :
    (m : Result Request) → Yields Any m → Yields (NextRound 0) (m >>= λ q. ok (done, q))
unfolding NextRound
done-NextRound m h = >>=-Yields Any (NextRound 0) m _ h (λ q h'. tt)

module _ (buffer : Bytes) (bytes : All IsByte buffer) (p : RequestParser) where
  pub parse_register-Yields : Yields (NextRound 0) (parse_register p buffer)
  unfolding parse_register
  parse_register-Yields =
      if-Yields (NextRound 0) (p.payload_size == 415) _ _
        (λ e.
          >>=-Yields (AreBytes 415) (NextRound 0) (unpack_from 415 buffer 23) _
            (unpack_from-Yields buffer bytes 415 23)
            (λ fields h. done-NextRound _ (
              new_register_request-Yields p.client_id p.client_version (take 255 fields)
                (drop 255 fields))))
        tt

  pub parse_get_public_key-Yields : Yields (NextRound 0) (parse_get_public_key p buffer)
  unfolding parse_get_public_key
  parse_get_public_key-Yields =
      if-Yields (NextRound 0) (p.payload_size == 16) _ _
        (λ e.
          >>=-Yields (AreBytes 16) (NextRound 0) (unpack_from 16 buffer 23) _
            (unpack_from-Yields buffer bytes 16 23)
            (λ id h.
              >>=-Yields Any (NextRound 0) (uuid id) _ (uuid-Yields buffer bytes id)
                (λ id' h'. done-any 0 _)))
        tt

  -- The size that the first partition of a message announces has four bytes.
  pub parse_send_message-Yields : Yields (NextRound (2 ^ 32)) (parse_send_message p buffer)
  unfolding parse_send_message new_send_message_request AreBytes
  parse_send_message-Yields =
      >>=-Yields (AreBytes 16) (NextRound (2 ^ 32)) (unpack_from 16 buffer 23) _
        (unpack_from-Yields buffer bytes 16 23)
        (λ id h.
          >>=-Yields Any (NextRound (2 ^ 32)) (uuid id) _ (uuid-Yields buffer bytes id) (λ id' h'.
            >>=-Yields (AreBytes 5) (NextRound (2 ^ 32)) (unpack_from 5 buffer 39) _
              (unpack_from-Yields buffer bytes 5 39)
              (λ fields h''.
                let q =
                  new_send_message_request p.client_id p.client_version id'
                    (le_value (take 1 fields)) (le_value (drop 1 fields)) in
                sent_message-NextRound (q.content_size - q.payload_index) (2 ^ 32)
                  (parse_content buffer q) (parse_content-Remaining buffer q)
                  (omega (arith, announced fields h''.0 h''.1)))))
