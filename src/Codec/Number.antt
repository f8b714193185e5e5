-- ===== src/Codec/Number.antt =====
-- ServerRequestBase::parseNumIntoBuffer and ServerResponseBase::getNumFromBuffer.
use native.Mathlib.Nat.{div-div-eq-div-mul, div-add-mod, pow-suc}
use native.Mathlib.Numerals.{towards_suc}
use instant_messaging_progra.Base.{
  ℕ, zero, suc, ◌+◌, ◌*◌, ◌/◌, ◌%◌, ◌^◌, ◌≤◌, ◌<◌, ◌≡◌, refl, sym, ap, ◌∙◌, [], ◌∷◌, ◌++◌, arith,
  append_assoc, append-nil,
}
use instant_messaging_progra.Base.{
  Bytes, IsByte, All, length, length-append, Result, ok, ◌>>=◌, store, load, pad, store-pad,
  load-append, load-in_bounds, add_u32,
}

-- One round of the loop writes `(num >> i * 8) & 0xff` to `buffer[i]`.
num_loop : ℕ → ℕ → ℕ → ℕ → Bytes → Result Bytes
num_loop zero i at num buffer = ok buffer
num_loop (suc rounds) i at num buffer = do
  buffer' ← store (num / 2 ^ (i * 8) % 256) (at + i) buffer
  num_loop rounds (suc i) at num buffer'

-- `parseNumIntoBuffer(buffer + at, num, num_of_bytes)`
unfoldable pub parse_num_into_buffer : ℕ → ℕ → ℕ → Bytes → Result Bytes
unfolding num_loop
parse_num_into_buffer at num num_of_bytes buffer = num_loop num_of_bytes 0 at num buffer

-- One round adds `buffer[i] << (8 * i)` to an `unsigned`.
get_loop : ℕ → ℕ → Bytes → ℕ → ℕ → Result ℕ
get_loop zero i buffer at num = ok num
get_loop (suc rounds) i buffer at num = do
  b ← load buffer (at + i)
  get_loop rounds (suc i) buffer at (add_u32 num (b * 2 ^ (8 * i) % 2 ^ 32))

-- `getNumFromBuffer(buffer + at, num_of_bytes)`
unfoldable pub get_num_from_buffer : Bytes → ℕ → ℕ → Result ℕ
unfolding get_loop
get_num_from_buffer buffer at num_of_bytes = get_loop num_of_bytes 0 buffer at 0

-- A number in little-endian order, by digits.
unfoldable pub le_bytes : ℕ → ℕ → Bytes
le_bytes zero n = []
le_bytes (suc k) n = n % 256 ∷ le_bytes k (n / 256)

pub length-le_bytes : (k n : ℕ) → length (le_bytes k n) ≡ k
unfolding le_bytes
length-le_bytes zero n = refl
length-le_bytes (suc k) n = ap suc (length-le_bytes k (n / 256))

pub le_bytes-IsByte : (k n : ℕ) → All IsByte (le_bytes k n)
unfolding le_bytes
le_bytes-IsByte zero n = tt
le_bytes-IsByte (suc k) n = (omega arith, le_bytes-IsByte k (n / 256))

eight_more : (i : ℕ) → suc i * 8 ≡ i * 8 + 8
eight_more i = omega arith

power : (i : ℕ) → 2 ^ (suc i * 8) ≡ 2 ^ (i * 8) * 256
power i = ap (λ k. 2 ^ k) (eight_more i) ∙ simp towards_suc (omega arith)

shift_step : (n i : ℕ) → n / 2 ^ (suc i * 8) ≡ n / 2 ^ (i * 8) / 256
shift_step n i = ap (λ k. n / k) (power i) ∙ sym (div-div-eq-div-mul n (2 ^ (i * 8)) 256)

num_loop-pad :
    (rounds i at num size : ℕ) (bs : Bytes)
    → at + i ≡ length bs
    → length bs + rounds ≤ size
    → num_loop rounds i at num (pad size bs)
      ≡ ok (pad size (bs ++ le_bytes rounds (num / 2 ^ (i * 8))))
unfolding num_loop le_bytes
num_loop-pad zero i at num size bs e h = ap (λ z. ok (pad size z)) (sym (append-nil bs))
num_loop-pad (suc rounds) i at num size bs e h =
    rw (store-pad size (at + i) (num / 2 ^ (i * 8) % 256) bs e (omega arith)) (
      num_loop-pad rounds (suc i) at num size (bs ++ (num / 2 ^ (i * 8) % 256 ∷ []))
        (omega (arith, length-append bs (num / 2 ^ (i * 8) % 256 ∷ [])))
        (omega (arith, length-append bs (num / 2 ^ (i * 8) % 256 ∷ [])))
      ∙ rw (shift_step num i, append_assoc))

-- parseNumIntoBuffer of any number, at the end of what is written into a cleared buffer with room
-- for its bytes, appends its lowest bytes in little-endian order.
pub parse_num-pad :
    (at num k size : ℕ) (bs : Bytes)
    → at ≡ length bs
    → length bs + k ≤ size
    → parse_num_into_buffer at num k (pad size bs) ≡ ok (pad size (bs ++ le_bytes k num))
unfolding parse_num_into_buffer
parse_num-pad at num k size bs e h =
    num_loop-pad k 0 at num size bs (omega arith) h
    ∙ ap (λ n. ok (pad size (bs ++ le_bytes k n))) (omega arith)

power' : (i : ℕ) → 2 ^ (8 * suc i) ≡ 256 * 2 ^ (8 * i)
power' i =
    ap (λ k. 2 ^ k) {x = 8 * suc i} {y = suc i * 8} (omega arith)
    ∙ power i
    ∙ ap (λ k. 2 ^ k * 256) {x = i * 8} {y = 8 * i} (omega arith)
    ∙ omega arith

-- The lowest byte and the rest, both shifted by `i` bytes.
split_byte : (v i : ℕ) → v * 2 ^ (8 * i) ≡ v % 256 * 2 ^ (8 * i) + v / 256 * 2 ^ (8 * suc i)
split_byte v i = omega (
  arith,
  ap (λ (t : ℕ). t * 2 ^ (8 * i)) (div-add-mod v 256),
  ap (λ (t : ℕ). v / 256 * t) (power' i),
)

zero_below : (v : ℕ) → v < 256 ^ 0 → v ≡ 0
zero_below v h = omega arith

get_loop-append :
    (k i at num v : ℕ) (pre post : Bytes)
    → at + i ≡ length pre
    → v < 256 ^ k
    → num + v * 2 ^ (8 * i) < 2 ^ 32
    → get_loop k i (pre ++ (le_bytes k v ++ post)) at num ≡ ok (num + v * 2 ^ (8 * i))
unfolding get_loop le_bytes
get_loop-append zero i at num v pre post e hv hb =
    let e' : num + v * 2 ^ (8 * i) ≡ num = ground (arith, zero_below v hv) in ap ok (sym e')
get_loop-append (suc k) i at num v pre post e hv hb =
    rw (load-append pre (le_bytes k (v / 256) ++ post) (v % 256) (at + i) e) (
      ap (λ z. get_loop k (suc i) z at sum) (sym (append_assoc pre (v % 256 ∷ []) _))
      ∙ ap (get_loop k (suc i) _ at) sum_lem
      ∙ get_loop-append k (suc i) at (num + v % 256 * 2 ^ (8 * i)) (v / 256) (pre ++ (v % 256 ∷ []))
          post (omega (arith, length-append pre (v % 256 ∷ []))) (omega (arith, pow-suc 256 k))
          (omega (arith, split_byte v i))
      ∙ ap ok (omega (arith, split_byte v i)))
  where
    sum : ℕ
    sum = add_u32 num (v % 256 * 2 ^ (8 * i) % 2 ^ 32)

    sum_lem : sum ≡ num + v % 256 * 2 ^ (8 * i)
    sum_lem = omega (arith, split_byte v i)

get_loop-in_bounds :
    (k i at num : ℕ) (buffer : Bytes)
    → at + i + k ≤ length buffer
    → num < 2 ^ 32
    → (n : ℕ) × (get_loop k i buffer at num ≡ ok n) × (n < 2 ^ 32)
unfolding get_loop
get_loop-in_bounds zero i at num buffer h hn = (num, refl, hn)
get_loop-in_bounds (suc k) i at num buffer h hn =
    let (b, e) = load-in_bounds buffer (at + i) (omega arith) in
    rw e (
      get_loop-in_bounds k (suc i) at (add_u32 num (b * 2 ^ (8 * i) % 2 ^ 32)) buffer (omega arith)
        (omega arith))

-- Inside the buffer the read succeeds, with an `unsigned int`.
pub get_num-in_bounds :
    (buffer : Bytes) (at k : ℕ)
    → at + k ≤ length buffer
    → (n : ℕ) × (get_num_from_buffer buffer at k ≡ ok n) × (n < 2 ^ 32)
unfolding get_num_from_buffer
get_num-in_bounds buffer at k h = get_loop-in_bounds k 0 at 0 buffer (omega arith) (omega arith)

pow_le : (k : ℕ) → k ≤ 4 → 256 ^ k ≤ 2 ^ 32
pow_le zero h = omega arith
pow_le (suc zero) h = omega arith
pow_le (suc (suc zero)) h = omega arith
pow_le (suc (suc (suc zero))) h = omega arith
pow_le (suc (suc (suc (suc zero)))) h = omega arith
pow_le (suc (suc (suc (suc (suc k))))) h = absurd (omega arith)

-- getNumFromBuffer at the place of at most four little-endian bytes, anywhere in a buffer, gives
-- the number that they were made of, if it fits them.
pub get_num-le_bytes :
    (pre post : Bytes) (at k v : ℕ)
    → at ≡ length pre
    → k ≤ 4
    → v < 256 ^ k
    → get_num_from_buffer (pre ++ (le_bytes k v ++ post)) at k ≡ ok v
unfolding get_num_from_buffer
get_num-le_bytes pre post at k v e hk hv =
    get_loop-append k 0 at 0 v pre post (omega arith) hv (omega (arith, pow_le k hk))
    ∙ ap ok (omega arith)
