-- ===== src/Codec/ClientId.antt =====
-- ServerRequestBase::parseClientId and ServerResponseBase::getClientIdFromBuffer: a client id is
-- 16 bytes on the wire and 32 hexadecimal characters in the client.
pub mod Read
pub mod Any
use instant_messaging_progra.Base.{
  ℕ, zero, suc, ◌+◌, ◌-◌, ◌*◌, ◌/◌, ◌%◌, ◌^◌, ◌≤◌, ◌<◌, ◌≡◌, refl, sym, ap, ◌∙◌, List, [], ◌∷◌,
  ◌++◌, arith, append_assoc, append-nil, Bool, true, false, ◌&&◌, Option, none, some, if◌then◌else◌,
  ltb, leb, ◌==◌,
}
use instant_messaging_progra.Base.{
  Bytes, IsByte, All, length, length-append, take, drop, Result, ok, throw, stuck, ◌>>=◌, IsDefined,
  store, load, pad, store-pad, load-append, load-in_bounds, text, substr, stoi, stoi_pair, to_uchar,
  print_hex, digit_in, ℤ, pos, drop-append, take-append, le→ltb,
}
use mathlib.Core.Option.{some-injective}
use instant_messaging_progra.Common.{client_id_byte_size}

-- One round reads two characters of the id and writes their value to `buffer[offset + i]`.
id_loop : ℕ → ℕ → ℕ → Bytes → Bytes → Result Bytes
id_loop zero i offset client_id buffer = ok buffer
id_loop (suc rounds) i offset client_id buffer = do
  num ← substr client_id (i * 2) 2
  value ← stoi 16 num
  buffer' ← store (to_uchar value) (offset + i) buffer
  id_loop rounds (suc i) offset client_id buffer'

unfoldable pub parse_client_id : ℕ → Bytes → Bytes → Result Bytes
unfolding id_loop
parse_client_id offset client_id buffer = id_loop client_id_byte_size 0 offset client_id buffer

-- Two characters for each byte: below 16 there is one digit, and a 0 is put before it.
unfoldable pub hex_byte : ℕ → Bytes
unfolding print_hex
hex_byte b = if ltb 0xF b then print_hex b else text "0" ++ print_hex b

get_id_loop : ℕ → ℕ → Bytes → ℕ → Bytes → Result Bytes
get_id_loop zero i buffer at client_id = ok client_id
get_id_loop (suc rounds) i buffer at client_id = do
  b ← load buffer (at + i)
  get_id_loop rounds (suc i) buffer at (client_id ++ hex_byte b)

-- `getClientIdFromBuffer(buffer + at)`
unfoldable pub get_client_id_from_buffer : Bytes → ℕ → Result Bytes
unfolding get_id_loop hex_byte
get_client_id_from_buffer buffer at = get_id_loop client_id_byte_size 0 buffer at []

combine : Option ℕ → Option ℕ → Option Bytes → Option Bytes
combine (some x) (some y) (some bs) = some ((x * 16 + y) ∷ bs)
combine _ _ _ = none

-- The value of an id: pairs of hexadecimal digits, of either case.
unfoldable pub decode_id : Bytes → Option Bytes
unfolding combine
decode_id [] = some []
decode_id (a ∷ []) = none
decode_id (a ∷ b ∷ rest) = combine (digit_in 16 a) (digit_in 16 b) (decode_id rest)

-- The id of the given bytes.
unfoldable pub hex_id : Bytes → Bytes
unfolding hex_byte
hex_id [] = []
hex_id (b ∷ bs) = hex_byte b ++ hex_id bs

-- The derivations behind `decode_id`.
pub data Decodes : Bytes → Bytes → Type 0 where
  nil : Decodes [] []
  pair :
      {a b v : ℕ} {rest bs : Bytes} (x y : ℕ)
      → digit_in 16 a ≡ some x
      → digit_in 16 b ≡ some y
      → v ≡ x * 16 + y
      → Decodes rest bs
      → Decodes (a ∷ b ∷ rest) (v ∷ bs)

combine-eq-some :
    (p q : Option ℕ) (r : Option Bytes) (bs : Bytes)
    → combine p q r ≡ some bs
    → (x : ℕ) × (y : ℕ) × (vs : Bytes) × (p ≡ some x)
      × (q ≡ some y)
      × (r ≡ some vs)
      × ((x * 16 + y) ∷ vs ≡ bs)
unfolding combine
combine-eq-some (some x) (some y) (some vs) bs h =
    (x, y, vs, refl, refl, refl, some-injective ((x * 16 + y) ∷ vs) bs h)
combine-eq-some (some x) (some y) none bs h = cc
combine-eq-some (some x) none r bs h = cc
combine-eq-some none q r bs h = cc

pub decode_id-Decodes : (id bs : Bytes) → decode_id id ≡ some bs → Decodes id bs
unfolding decode_id
decode_id-Decodes [] bs h = rw (← some-injective [] bs h) nil
decode_id-Decodes (a ∷ []) bs h = cc
decode_id-Decodes (a ∷ b ∷ rest) bs h =
    let (x, y, vs, ha, hb, hr, e) =
      combine-eq-some (digit_in 16 a) (digit_in 16 b) (decode_id rest) bs h in
    rw (← e) (pair x y ha hb refl (decode_id-Decodes rest vs hr))

substr_pair :
    (front rest : Bytes) (a b i : ℕ)
    → i * 2 ≡ length front
    → substr (front ++ (a ∷ b ∷ rest)) (i * 2) 2 ≡ ok (a ∷ b ∷ [])
unfolding substr
substr_pair front rest a b i h =
    rw (le→ltb (length (front ++ (a ∷ b ∷ rest))) (i * 2) inside)
      (rw (drop-append (i * 2) front (a ∷ b ∷ rest) (sym h)))
  where
    inside : i * 2 ≤ length (front ++ (a ∷ b ∷ rest))
    inside = omega (arith, length-append front (a ∷ b ∷ rest))

-- The loop, where `front` is what it has read of the id.
id_loop-pad :
    (rounds i offset size : ℕ) (front done : Bytes) {id value : Bytes}
    → i * 2 ≡ length front
    → offset + i ≡ length done
    → length done + rounds ≤ size
    → length value ≡ rounds
    → Decodes id value
    → id_loop rounds i offset (front ++ id) (pad size done) ≡ ok (pad size (done ++ value))
unfolding id_loop
id_loop-pad zero i offset size front done hf ho hs hv nil =
    ap (λ z. ok (pad size z)) (sym (append-nil done))
id_loop-pad (suc rounds) i offset size front done hf ho hs hv nil = absurd (omega arith)
id_loop-pad zero i offset size front done hf ho hs hv (pair x y ha hb e d) = absurd (omega arith)
id_loop-pad (suc rounds) i offset size front done hf ho hs hv
      (pair {a = a} {b = b} {v = v} {rest = rest} {bs = bs} x y ha hb e d) =
    let (read, lx, ly) = stoi_pair a b x y ha hb in
    rw (substr_pair front rest a b i hf, read)
      (ap
          (λ w.
            store w (offset + i) (pad size done)
            >>= id_loop rounds (suc i) offset (front ++ (a ∷ b ∷ rest)))
          (byte lx ly)
        ∙ rw (store-pad size (offset + i) v done ho (omega arith)) (
            ap (λ z. id_loop rounds (suc i) offset z (pad size (done ++ (v ∷ []))))
              (sym (append_assoc front (a ∷ b ∷ []) rest))
            ∙ id_loop-pad rounds (suc i) offset size (front ++ (a ∷ b ∷ [])) (done ++ (v ∷ []))
                (omega (arith, length-append front (a ∷ b ∷ [])))
                (omega (arith, length-append done (v ∷ [])))
                (omega (arith, length-append done (v ∷ []))) (omega arith) d
            ∙ ap (λ z. ok (pad size z)) (append_assoc done (v ∷ []) bs)))
  where
    byte : x < 16 → y < 16 → to_uchar (pos (x * 16 + y)) ≡ v
    byte lx ly = unfold to_uchar in omega arith

-- parseClientId of an id that decodes to 16 bytes, at the end of what is written into a cleared
-- buffer with room for them, appends those bytes.
pub parse_client_id-pad :
    (offset size : ℕ) (done id value : Bytes)
    → decode_id id ≡ some value
    → length value ≡ client_id_byte_size
    → offset ≡ length done
    → length done + client_id_byte_size ≤ size
    → parse_client_id offset id (pad size done) ≡ ok (pad size (done ++ value))
unfolding parse_client_id
parse_client_id-pad offset size done id value hd hv ho hs =
    id_loop-pad 16 0 offset size [] done refl (omega arith) hs hv (decode_id-Decodes id value hd)
