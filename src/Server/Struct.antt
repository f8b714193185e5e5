-- ===== src/Server/Struct.antt =====
-- What the server takes from Python: struct.unpack_from, uuid.UUID, bytes.decode and str.rstrip. A
-- str is given by the bytes of its UTF-8 encoding, a UUID by its 16 bytes.
use instant_messaging_progra.Base.{
  ℕ, zero, suc, ◌+◌, ◌*◌, ◌/◌, ◌^◌, ◌<◌, ◌≡◌, refl, sym, ap, ◌∙◌, [], ◌∷◌, ◌++◌, Bool, true, false,
  ◌&&◌, Option, none, some, Bytes, IsByte, All, length, take, drop, replicate, Result, ok, throw,
  foreign, text, ltb, leb, ◌==◌, if◌then◌else◌, is_empty, arith, le→leb, length-append, drop-append,
  take-append,
}
use native.Mathlib.Nat.{pow-suc}
use instant_messaging_progra.Codec.Number.{le_bytes}

-- The bytes of one unpack_from: struct.error where the buffer ends before them.
unfoldable pub unpack_from : ℕ → Bytes → ℕ → Result Bytes
unpack_from size buffer offset =
    if leb (offset + size) (length buffer)
    then ok (take size (drop offset buffer))
    else throw (record { kind = foreign; what = text "unpack_from requires a longer buffer" })

-- A number that `<` in the format makes little-endian.
unfoldable pub le_value : Bytes → ℕ
le_value [] = 0
le_value (b ∷ bs) = b + 256 * le_value bs

-- UUID(bytes=value)
unfoldable pub uuid : Bytes → Result Bytes
uuid value =
    if length value == 16
    then ok value
    else throw (record { kind = foreign; what = text "bytes is not a 16-char string" })

-- How many bytes a character still needs, and the bounds of the next one.
abbrev pub Utf8State : Type 0
Utf8State = ℕ × ℕ × ℕ

abbrev pub fresh : Utf8State
fresh = (0, 128, 191)

abbrev lead : ℕ → Option Utf8State
lead b =
    if ltb b 128
    then some fresh
    else if ltb b 194
    then none
    else if ltb b 224
    then some (1, 128, 191)
    else if b == 224
    then some (2, 160, 191)
    else if b == 237
    then some (2, 128, 159)
    else if ltb b 240
    then some (2, 128, 191)
    else if b == 240
    then some (3, 144, 191)
    else if ltb b 244
    then some (3, 128, 191)
    else if b == 244
    then some (3, 128, 143)
    else none

abbrev utf8_step : ℕ → Utf8State → Option Utf8State
utf8_step b (zero, lo, hi) = lead b
utf8_step b (suc n, lo, hi) = if leb lo b && leb b hi then some (n, 128, 191) else none

unfoldable pub utf8_scan : Option Utf8State → Bytes → Option Utf8State
utf8_scan none bs = none
utf8_scan (some s) [] = some s
utf8_scan (some s) (b ∷ bs) = utf8_scan (utf8_step b s) bs

abbrev is_complete : Option Utf8State → Bool
is_complete none = false
is_complete (some (zero, lo, hi)) = true
is_complete (some (suc n, lo, hi)) = false

unfoldable pub is_utf8 : Bytes → Bool
unfolding utf8_scan
is_utf8 bs = is_complete (utf8_scan (some fresh) bs)

-- `bs.decode()`
unfoldable pub decode_text : Bytes → Result Bytes
unfolding is_utf8
decode_text bs =
    if is_utf8 bs
    then ok bs
    else throw (record { kind = foreign; what = text "codec can't decode bytes" })

-- `str.rstrip("\x00")`
unfoldable pub rstrip : Bytes → Bytes
rstrip [] = []
rstrip (b ∷ bs) = let rest = rstrip bs in if b == 0 && is_empty rest then [] else b ∷ rest

pub le_value-le_bytes : (k v : ℕ) → v < 256 ^ k → le_value (le_bytes k v) ≡ v
unfolding le_value le_bytes
le_value-le_bytes zero v h = omega arith
le_value-le_bytes (suc k) v h =
    omega (arith, le_value-le_bytes k (v / 256) (omega (arith, pow-suc 256 k)))

pub le_value-bound : (bs : Bytes) → All IsByte bs → le_value bs < 256 ^ length bs
unfolding le_value
le_value-bound [] h = omega arith
le_value-bound (b ∷ bs) (hb, h) = omega (arith, le_value-bound bs h, pow-suc 256 (length bs))

utf8_scan-append :
    (s : Option Utf8State) (xs ys : Bytes) → utf8_scan s (xs ++ ys) ≡ utf8_scan (utf8_scan s xs) ys
unfolding utf8_scan
utf8_scan-append none xs ys = refl
utf8_scan-append (some s) [] ys = refl
utf8_scan-append (some s) (b ∷ xs) ys = utf8_scan-append (utf8_step b s) xs ys

utf8_scan-zeros :
    (s : Option Utf8State) (n : ℕ)
    → is_complete s ≡ true
    → is_complete (utf8_scan s (replicate n 0)) ≡ true
unfolding utf8_scan
utf8_scan-zeros none n h = h
utf8_scan-zeros (some (zero, lo, hi)) zero h = refl
utf8_scan-zeros (some (zero, lo, hi)) (suc n) h = utf8_scan-zeros (some fresh) n refl
utf8_scan-zeros (some (suc m, lo, hi)) n h = cc

-- A text stays one with zeros behind it, and rstrip takes them off again.
pub is_utf8-zeros : (bs : Bytes) (n : ℕ) → is_utf8 bs ≡ true → is_utf8 (bs ++ replicate n 0) ≡ true
unfolding is_utf8
is_utf8-zeros bs n h =
    rw (utf8_scan-append (some fresh) bs (replicate n 0))
      (utf8_scan-zeros (utf8_scan (some fresh) bs) n h)

rstrip-replicate : (n : ℕ) → rstrip (replicate n 0) ≡ []
unfolding rstrip is_empty
rstrip-replicate zero = refl
rstrip-replicate (suc n) = rw (rstrip-replicate n) refl

pub rstrip-zeros : (bs : Bytes) (n : ℕ) → rstrip (bs ++ replicate n 0) ≡ rstrip bs
unfolding rstrip
rstrip-zeros [] n = rstrip-replicate n
rstrip-zeros (b ∷ bs) n = rw (rstrip-zeros bs n) refl

pub unpack_from-append :
    (size : ℕ) (pre mid post : Bytes) (offset : ℕ)
    → offset ≡ length pre
    → size ≡ length mid
    → unpack_from size (pre ++ (mid ++ post)) offset ≡ ok mid
unfolding unpack_from
unpack_from-append size pre mid post offset e e' =
    rw
      (le→leb (offset + size) (length (pre ++ (mid ++ post)))
        (omega (arith, length-append pre (mid ++ post), length-append mid post)))
      (ap ok (
        ap (take size) (drop-append offset pre (mid ++ post) (sym e))
        ∙ take-append size mid post (sym e')))

pub uuid-sixteen : (value : Bytes) → length value ≡ 16 → uuid value ≡ ok value
unfolding uuid
uuid-sixteen value e = rw e
