-- ===== src/Codec/ClientId/Read.antt =====
-- ServerResponseBase::getClientIdFromBuffer: what it reads, and that parseClientId undoes it.
use instant_messaging_progra.Base.{
  ℕ, zero, suc, ◌+◌, ◌*◌, ◌/◌, ◌%◌, ◌≤◌, ◌<◌, ◌≡◌, refl, sym, ap, ◌∙◌, [], ◌∷◌, ◌++◌, arith,
  append_assoc, append-nil, Bool, true, ◌&&◌, some,
}
use instant_messaging_progra.Base.{
  Bytes, IsByte, All, length, length-append, ok, load-append, load-in_bounds, text, digit_char,
  digit_in, str_eq, str_eq_iff,
}
use instant_messaging_progra.Common.{client_id_byte_size}
use instant_messaging_progra.Codec.ClientId.{
  hex_byte, hex_id, get_id_loop, get_client_id_from_buffer, decode_id,
}

get_id_loop-append :
    (rounds i at : ℕ) (pre bs post done : Bytes)
    → at + i ≡ length pre
    → length bs ≡ rounds
    → get_id_loop rounds i (pre ++ (bs ++ post)) at done ≡ ok (done ++ hex_id bs)
unfolding get_id_loop hex_id
get_id_loop-append zero i at pre [] post done e h = ap ok (sym (append-nil done))
get_id_loop-append zero i at pre (b ∷ bs) post done e h = absurd (omega arith)
get_id_loop-append (suc rounds) i at pre [] post done e h = absurd (omega arith)
get_id_loop-append (suc rounds) i at pre (b ∷ bs) post done e h =
    rw (load-append pre (bs ++ post) b (at + i) e) (
      ap (λ z. get_id_loop rounds (suc i) z at (done ++ hex_byte b))
        (sym (append_assoc pre (b ∷ []) (bs ++ post)))
      ∙ get_id_loop-append rounds (suc i) at (pre ++ (b ∷ [])) bs post (done ++ hex_byte b)
          (omega (arith, length-append pre (b ∷ []))) (omega arith)
      ∙ ap ok (append_assoc done (hex_byte b) (hex_id bs)))

-- getClientIdFromBuffer at the place of 16 bytes, anywhere in a buffer, gives the text of those
-- bytes.
pub get_client_id-append :
    (at : ℕ) (pre bs post : Bytes)
    → at ≡ length pre
    → length bs ≡ client_id_byte_size
    → get_client_id_from_buffer (pre ++ (bs ++ post)) at ≡ ok (hex_id bs)
unfolding get_client_id_from_buffer
get_client_id-append at pre bs post e h = get_id_loop-append 16 0 at pre bs post [] (omega arith) h

get_id_loop-in_bounds :
    (rounds i at : ℕ) (buffer done : Bytes)
    → at + i + rounds ≤ length buffer
    → (id : Bytes) × (get_id_loop rounds i buffer at done ≡ ok id)
unfolding get_id_loop
get_id_loop-in_bounds zero i at buffer done h = (done, refl)
get_id_loop-in_bounds (suc rounds) i at buffer done h =
    let (b, e) = load-in_bounds buffer (at + i) (omega arith) in
    rw e (get_id_loop-in_bounds rounds (suc i) at buffer (done ++ hex_byte b) (omega arith))

-- Inside the buffer the read succeeds.
pub get_client_id-in_bounds :
    (buffer : Bytes) (at : ℕ)
    → at + client_id_byte_size ≤ length buffer
    → (id : Bytes) × (get_client_id_from_buffer buffer at ≡ ok id)
unfolding get_client_id_from_buffer
get_client_id-in_bounds buffer at h = get_id_loop-in_bounds 16 0 at buffer [] (omega arith)

-- A test that passes for every number below a bound, one after another.
passes_below : (ℕ → Bool) → ℕ → Bool
passes_below test zero = true
passes_below test (suc bound) = test bound && passes_below test bound

passes_below_lem :
    (test : ℕ → Bool) (bound : ℕ)
    → passes_below test bound ≡ true
    → (c : ℕ) → c < bound
    → test c ≡ true
unfolding passes_below
passes_below_lem test zero passed c below = absurd (omega arith)
passes_below_lem test (suc bound) passed c below =
    ground (arith, passes_below_lem test bound (ground arith) c)

two_digits : ℕ → Bytes
two_digits b = digit_char (b / 16) ∷ digit_char (b % 16) ∷ []

hex_byte_table : passes_below (λ b. str_eq (hex_byte b) (two_digits b)) 256 ≡ true
unfolding passes_below hex_byte two_digits str_eq text
hex_byte_table = refl

hex_byte_lem : (b : ℕ) → IsByte b → hex_byte b ≡ two_digits b
hex_byte_lem b h =
    (str_eq_iff (hex_byte b) (two_digits b)).0
      (passes_below_lem (λ c. str_eq (hex_byte c) (two_digits c)) 256 hex_byte_table b h)

digit_in-digit_char : (d : ℕ) → d < 16 → digit_in 16 (digit_char d) ≡ some d
unfolding digit_in
digit_in-digit_char d h = ground arith

-- The text that getClientIdFromBuffer makes of bytes decodes to those bytes.
pub decode_id-hex_id : (bs : Bytes) → All IsByte bs → decode_id (hex_id bs) ≡ some bs
unfolding decode_id hex_id two_digits
decode_id-hex_id [] h = refl
decode_id-hex_id (b ∷ bs) (hb, h) =
    rw
      (
        hex_byte_lem b hb,
        digit_in-digit_char (b / 16) (omega arith),
        digit_in-digit_char (b % 16) (omega arith),
        decode_id-hex_id bs h,
      )
      (ap (λ z. some (z ∷ bs)) (omega arith))

-- An id read from a response has two characters for each byte.
pub length-hex_id : (bs : Bytes) → All IsByte bs → length (hex_id bs) ≡ 2 * length bs
unfolding hex_id two_digits
length-hex_id [] h = refl
length-hex_id (b ∷ bs) (hb, h) = rw (hex_byte_lem b hb) (omega (arith, length-hex_id bs h))
