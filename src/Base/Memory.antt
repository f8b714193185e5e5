-- ===== src/Base/Memory.antt =====
-- Raw memory: an object of `unsigned char` is the list of its bytes. An access outside it is a fault.
use Prim.Native.Nat.{ℕ, zero, suc, ◌+◌, ◌-◌, ◌≤◌, ◌<◌}
use mathlib.Core.Path.{◌≡◌, refl, sym, ap, ap₂, ◌∙◌}
use mathlib.Core.List.{[], ◌∷◌, ◌++◌, append_assoc}
use native.Mathlib.Omega.{arith}
use instant_messaging_progra.Base.Tests.{leb, le→leb, if◌then◌else◌}
use instant_messaging_progra.Base.Lists.{
  length, take, drop, replicate, length-append, length-replicate, take-append, drop-append,
  drop-append_more, drop-replicate, replicate-append,
}
use instant_messaging_progra.Base.Results.{Result, ok, stuck, out_of_bounds}
use instant_messaging_progra.Base.Text.{Bytes}

-- `buffer[i]`, read.
unfoldable pub load : Bytes → ℕ → Result ℕ
load [] i = stuck out_of_bounds
load (b ∷ bs) zero = ok b
load (b ∷ bs) (suc i) = load bs i

-- std::copy(src.begin(), src.end(), buffer + at)
unfoldable pub copy : Bytes → ℕ → Bytes → Result Bytes
copy src at buffer =
    if leb (at + length src) (length buffer)
    then ok (take at buffer ++ (src ++ drop (at + length src) buffer))
    else stuck out_of_bounds

-- `buffer[i] = b`
unfoldable pub store : ℕ → ℕ → Bytes → Result Bytes
store b i buffer = copy (b ∷ []) i buffer

-- The bytes from `buffer + first` up to `buffer + first + n`.
unfoldable pub range : Bytes → ℕ → ℕ → Result Bytes
range buffer first n =
    if leb (first + n) (length buffer) then ok (take n (drop first buffer)) else stuck out_of_bounds

-- A buffer of `size` bytes that begins with `bs` and is cleared behind it.
unfoldable pub pad : ℕ → Bytes → Bytes
pad size bs = bs ++ replicate (size - length bs) 0

length-zeros : (n : ℕ) → length (replicate {A = ℕ} n 0) ≡ n
length-zeros n = length-replicate n 0

pub length-pad : (size : ℕ) (bs : Bytes) → length bs ≤ size → length (pad size bs) ≡ size
unfolding pad
length-pad size bs h =
    omega
      (arith, length-append bs (replicate (size - length bs) 0), length-zeros (size - length bs))

-- A copy to the place behind what is written extends what is written.
pub copy-pad :
    (size at : ℕ) (bs src : Bytes)
    → at ≡ length bs
    → length bs + length src ≤ size
    → copy src at (pad size bs) ≡ ok (pad size (bs ++ src))
unfolding copy pad
copy-pad size at bs src e h = rw (le→leb (at + length src) _ bound) (
    ap ok (
      ap₂ (λ u v. u ++ (src ++ v)) (take-append at bs _ (sym e)) rest
      ∙ sym (append_assoc bs src _)))
  where
    fill : ℕ
    fill = size - length bs

    bound : at + length src ≤ length (bs ++ replicate fill 0)
    bound = omega (arith, length-append bs (replicate fill 0), length-zeros fill)

    left : fill - length src ≡ size - length (bs ++ src)
    left = omega (arith, length-append bs src)

    rest : drop (at + length src) (bs ++ replicate fill 0) ≡ replicate (size - length (bs ++ src)) 0
    rest =
        drop-append_more at (length src) bs (replicate fill 0) (sym e)
        ∙ drop-replicate (length src) fill 0
        ∙ ap (λ k. replicate k 0) left

pub copy-front :
    (src buffer : Bytes)
    → length src ≤ length buffer
    → copy src 0 buffer ≡ ok (src ++ drop (length src) buffer)
unfolding copy
copy-front src buffer h =
    rw (le→leb (0 + length src) (length buffer) (omega arith))
      (ap (λ n. ok (src ++ drop n buffer)) {x = 0 + length src} {y = length src} (omega arith))

pub store-pad :
    (size at b : ℕ) (bs : Bytes)
    → at ≡ length bs
    → length bs < size
    → store b at (pad size bs) ≡ ok (pad size (bs ++ (b ∷ [])))
unfolding store
store-pad size at b bs e h = copy-pad size at bs (b ∷ []) e (omega arith)

-- Zeros behind what is written are there already.
pub pad-zeros :
    (size k : ℕ) (bs : Bytes) → length bs + k ≤ size → pad size (bs ++ replicate k 0) ≡ pad size bs
unfolding pad
pad-zeros size k bs h =
    append_assoc bs (replicate k 0) _
    ∙ ap (λ z. bs ++ z) (replicate-append k _ 0 ∙ ap (λ n. replicate n 0) count)
  where
    count : k + (size - length (bs ++ replicate k 0)) ≡ size - length bs
    count = omega (arith, length-append bs (replicate k 0), length-zeros k)

pub load-append : (pre post : Bytes) (b i : ℕ) → i ≡ length pre → load (pre ++ (b ∷ post)) i ≡ ok b
unfolding load
load-append [] post b zero h = refl
load-append [] post b (suc i) h = absurd (omega arith)
load-append (x ∷ pre) post b zero h = absurd (omega arith)
load-append (x ∷ pre) post b (suc i) h = load-append pre post b i (omega arith)

pub load-in_bounds : (buffer : Bytes) (i : ℕ) → i < length buffer → (b : ℕ) × (load buffer i ≡ ok b)
unfolding load
load-in_bounds [] i h = absurd (omega arith)
load-in_bounds (b ∷ bs) zero h = (b, refl)
load-in_bounds (b ∷ bs) (suc i) h = load-in_bounds bs i (omega arith)

pub range-append :
    (pre mid post : Bytes) (first n : ℕ)
    → first ≡ length pre
    → n ≡ length mid
    → range (pre ++ (mid ++ post)) first n ≡ ok mid
unfolding range
range-append pre mid post first n hf hn = rw (le→leb (first + n) _ bound) (
    ap ok (
      ap (take n) (drop-append first pre (mid ++ post) (sym hf)) ∙ take-append n mid post (sym hn)))
  where
    bound : first + n ≤ length (pre ++ (mid ++ post))
    bound = omega (arith, length-append pre (mid ++ post), length-append mid post)

pub range-in_bounds :
    (buffer : Bytes) (first n : ℕ)
    → first + n ≤ length buffer
    → range buffer first n ≡ ok (take n (drop first buffer))
unfolding range
range-in_bounds buffer first n h = rw (le→leb (first + n) (length buffer) h)
