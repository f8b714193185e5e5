-- ===== src/Base/Numerals.antt =====
-- Text and numbers: std::stoi, std::to_string and the hexadecimal output of a stream.
use Prim.Native.Nat.{ℕ, zero, suc, ◌+◌, ◌-◌, ◌*◌, ◌/◌, ◌%◌, ◌^◌, ◌<◌}
use mathlib.Core.Path.{◌≡◌}
use mathlib.Core.Bool.{Bool, false, ◌&&◌, ◌||◌}
use mathlib.Core.Option.{Option, none, some}
use mathlib.Core.List.{[], ◌∷◌, ◌++◌}
use native.Mathlib.Omega.{arith}
use instant_messaging_progra.Base.Tests.{ltb, leb, ◌==◌, if◌then◌else◌}
use instant_messaging_progra.Base.Results.{invalid_argument, out_of_range, Result, ok, throw}
use instant_messaging_progra.Base.Text.{Bytes, text}

-- `negsuc n` is -(n + 1).
pub data ℤ : Type 0 where
  pos : ℕ → ℤ
  negsuc : ℕ → ℤ

abbrev pub negate : ℕ → ℤ
negate zero = pos 0
negate (suc n) = negsuc n

unfoldable pub digit_value : ℕ → Option ℕ
digit_value c =
    if leb b'0' c && leb c b'9'
    then some (c - b'0')
    else if leb b'a' c && leb c b'z'
    then some (c - b'a' + 10)
    else if leb b'A' c && leb c b'Z'
    then some (c - b'A' + 10)
    else none

-- A digit in the base of a conversion.
unfoldable pub digit_in : ℕ → ℕ → Option ℕ
unfolding digit_value
digit_in base c = elim (digit_value c) [
  | none ↦ none
  | some d ↦ if ltb d base then some d else none
]

unfoldable pub read_digits : ℕ → ℕ → Bytes → ℕ
read_digits base acc [] = acc
read_digits base acc (c ∷ rest) = elim (digit_in base c) [
  | none ↦ acc
  | some d ↦ read_digits base (acc * base + d) rest
]

unfoldable pub magnitude : ℕ → Bytes → Option ℕ
magnitude base [] = none
magnitude base (c ∷ rest) = elim (digit_in base c) [
  | none ↦ none
  | some d ↦ some (read_digits base d rest)
]

-- A prefix 0x before a digit, in base 16.
unfoldable pub skip_prefix : ℕ → Bytes → Bytes
skip_prefix base (z ∷ x ∷ d ∷ rest) =
    if base == 16 && z == b'0' && (x == b'x' || x == b'X')
    then elim (digit_in base d) [ none ↦ z ∷ x ∷ d ∷ rest | some v ↦ d ∷ rest ]
    else z ∷ x ∷ d ∷ rest
skip_prefix base s = s

unfoldable pub is_space : ℕ → Bool
is_space c = c == b' ' || (leb 9 c && leb c 13)

unfoldable pub skip_space : Bytes → Bytes
skip_space [] = []
skip_space (c ∷ rest) = if is_space c then skip_space rest else c ∷ rest

unfoldable pub signed : ℕ → Bytes → Option ℤ
signed base [] = none
signed base (c ∷ rest) =
    if c == b'-'
    then elim (magnitude base (skip_prefix base rest)) [ none ↦ none | some m ↦ some (negate m) ]
    else if c == b'+'
    then elim (magnitude base (skip_prefix base rest)) [ none ↦ none | some m ↦ some (pos m) ]
    else elim (magnitude base (skip_prefix base (c ∷ rest))) [ none ↦ none | some m ↦ some (pos m) ]

-- What an `int` holds.
unfoldable pub fits_int : ℤ → Bool
fits_int (pos m) = ltb m (2 ^ 31)
fits_int (negsuc m) = ltb m (2 ^ 31)

-- std::stoi(s, nullptr, base): spaces, a sign, a prefix, and the longest run of digits.
unfoldable pub stoi : ℕ → Bytes → Result ℤ
stoi base s = elim (signed base (skip_space s)) [
  | none ↦ throw (record { kind = invalid_argument; what = text "invalid stoi argument" })
  | some z ↦
      if fits_int z
      then ok z
      else throw (record { kind = out_of_range; what = text "stoi argument out of range" })
]

-- The conversion of an `int` to `unsigned char`.
unfoldable pub to_uchar : ℤ → ℕ
to_uchar (pos n) = n % 256
to_uchar (negsuc n) = 255 - n % 256

abbrev pub digit_char : ℕ → ℕ
digit_char d = if ltb d 10 then d + b'0' else d - 10 + b'a'

-- The digits of an unsigned number, at most as many as the first argument says.
unfoldable pub print_num : ℕ → ℕ → ℕ → Bytes
print_num zero base n = []
print_num (suc k) base n =
    let front = print_num k base (n / base) in
    if ltb n base then digit_char n ∷ [] else front ++ (digit_char (n % base) ∷ [])

-- `stream << std::hex << n` and `std::to_string(n)` for an `unsigned int`.
unfoldable pub print_hex : ℕ → Bytes
unfolding print_num
print_hex n = print_num 8 16 n

unfoldable pub to_string : ℕ → Bytes
unfolding print_num
to_string n = print_num 10 10 n

-- A digit is no space and no sign.
digit_plain :
    (base c x : ℕ)
    → digit_in base c ≡ some x
    → (is_space c ≡ false) × ((c == b'-') ≡ false) × ((c == b'+') ≡ false) × (x < base)
unfolding digit_in is_space
digit_plain base c x h = ground arith

skip_space-digit : (c : ℕ) (rest : Bytes) → is_space c ≡ false → skip_space (c ∷ rest) ≡ c ∷ rest
unfolding skip_space
skip_space-digit c rest h = rw h

magnitude_pair :
    (a b x y : ℕ)
    → digit_in 16 a ≡ some x
    → digit_in 16 b ≡ some y
    → magnitude 16 (a ∷ b ∷ []) ≡ some (x * 16 + y)
unfolding magnitude read_digits
magnitude_pair a b x y ha hb = ground arith

stoi_lem :
    (base : ℕ) (s t : Bytes) (m : ℕ)
    → skip_space s ≡ t
    → signed base t ≡ some (pos m)
    → m < 2 ^ 31
    → stoi base s ≡ ok (pos m)
unfolding stoi fits_int
stoi_lem base s t m hs ht small = ground arith

signed_pair :
    (a b m : ℕ)
    → (a == b'-') ≡ false
    → (a == b'+') ≡ false
    → magnitude 16 (a ∷ b ∷ []) ≡ some m
    → signed 16 (a ∷ b ∷ []) ≡ some (pos m)
unfolding signed skip_prefix
signed_pair a b m minus plus h = ground arith

-- Two digits are read as the number that they write.
pub stoi_pair :
    (a b x y : ℕ)
    → digit_in 16 a ≡ some x
    → digit_in 16 b ≡ some y
    → (stoi 16 (a ∷ b ∷ []) ≡ ok (pos (x * 16 + y))) × (x < 16) × (y < 16)
stoi_pair a b x y ha hb =
    let (space, minus, plus, lo) = digit_plain 16 a x ha in
    let (_, _, _, lo') = digit_plain 16 b y hb in (value space minus plus (omega arith), lo, lo')
  where
    value :
        is_space a ≡ false
        → (a == b'-') ≡ false
        → (a == b'+') ≡ false
        → x * 16 + y < 2 ^ 31
        → stoi 16 (a ∷ b ∷ []) ≡ ok (pos (x * 16 + y))
    value space minus plus small =
        stoi_lem 16 (a ∷ b ∷ []) (a ∷ b ∷ []) (x * 16 + y) (skip_space-digit a (b ∷ []) space)
          (signed_pair a b _ minus plus (magnitude_pair a b x y ha hb)) small
