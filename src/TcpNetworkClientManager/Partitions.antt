-- ===== src/TcpNetworkClientManager/Partitions.antt =====
-- A byte string cut into partitions of 1024 bytes, the last one filled up with zeros. Both ends of
-- the connection send in such partitions.
use instant_messaging_progra.Base.{
  ℕ, zero, suc, ◌+◌, ◌-◌, ◌*◌, ◌/◌, ◌≤◌, ◌<◌, ◌≡◌, refl, sym, ap, ◌∙◌, List, [], ◌∷◌, ◌++◌, arith,
  false, append-nil, Bytes, All, length, take, drop, replicate, pad, length-pad, concat, leb,
  if◌then◌else◌, le→leb, leb→le, leb→gt, gt→leb, Bool-cases, inl, inr, length-take, length-drop,
  take-append-drop, take-append, take-append_more,
}
use instant_messaging_progra.Common.{buffer_partition_size}

-- At most one more than the first argument says.
unfoldable pub partitions : ℕ → Bytes → List Bytes
partitions zero bs = pad buffer_partition_size bs ∷ []
partitions (suc k) bs =
    let rest = partitions k (drop buffer_partition_size bs) in
    if leb (length bs) buffer_partition_size
    then pad buffer_partition_size bs ∷ []
    else take buffer_partition_size bs ∷ rest

unfoldable pub partitions_of : Bytes → List Bytes
unfolding partitions
partitions_of bs = partitions (length bs / buffer_partition_size) bs

pub pad_full : (bs : Bytes) → length bs ≡ 1024 → pad 1024 bs ≡ bs
unfolding pad
pad_full bs e =
    ap (λ n. bs ++ replicate n 0) {x = 1024 - length bs} {y = 0} (omega arith) ∙ append-nil bs

pub partitions_short : (k : ℕ) (bs : Bytes) → length bs ≤ 1024 → partitions k bs ≡ pad 1024 bs ∷ []
unfolding partitions
partitions_short zero bs h = refl
partitions_short (suc k) bs h = rw (le→leb (length bs) 1024 h)

pub partitions_cut :
    (k : ℕ) (bs : Bytes)
    → 1024 < length bs
    → partitions (suc k) bs ≡ pad 1024 (take 1024 bs) ∷ partitions k (drop 1024 bs)
unfolding partitions
partitions_cut k bs h = rw (gt→leb (length bs) 1024 h) (
    ap (λ z. z ∷ partitions k (drop 1024 bs))
      (sym (pad_full (take 1024 bs) (length-take 1024 bs (omega arith)))))

-- Every partition has 1024 bytes.
pub partitions_size :
    (k : ℕ) (bs : Bytes) → length bs ≤ 1024 * suc k → All (λ p. length p ≡ 1024) (partitions k bs)
unfolding partitions
partitions_size zero bs h = (length-pad 1024 bs (omega arith), tt)
partitions_size (suc k) bs h = elim (Bool-cases (leb (length bs) 1024)) [
  | inl short ↦ rw short (length-pad 1024 bs (leb→le (length bs) 1024 short), tt)
  | inr long ↦ rw long (
    length-take 1024 bs (omega (arith, leb→gt (length bs) 1024 long)),
    partitions_size k (drop 1024 bs) (omega (arith, length-drop 1024 bs)),
  )
]

-- Put together again, the partitions begin with the byte string.
pub concat-partitions :
    (k : ℕ) (bs : Bytes)
    → length bs ≤ 1024 * suc k
    → take (length bs) (concat (partitions k bs)) ≡ bs
unfolding partitions
concat-partitions zero bs h = unfold pad in rw append-nil (take-append (length bs) bs _ refl)
concat-partitions (suc k) bs h = elim (Bool-cases (leb (length bs) 1024)) [
  | inl short ↦ rw short (unfold pad in rw append-nil (take-append (length bs) bs _ refl))
  | inr long ↦ rw long (
      ap (λ n. take n (take 1024 bs ++ later)) (split long)
      ∙ take-append_more 1024 (length (drop 1024 bs)) (take 1024 bs) later
          (length-take 1024 bs (omega (arith, leb→gt (length bs) 1024 long)))
      ∙ ap (λ z. take 1024 bs ++ z)
          (concat-partitions k (drop 1024 bs) (omega (arith, length-drop 1024 bs)))
      ∙ take-append-drop 1024 bs)
]
  where
    later : Bytes
    later = concat (partitions k (drop 1024 bs))

    split : leb (length bs) 1024 ≡ false → length bs ≡ 1024 + length (drop 1024 bs)
    split long = omega (arith, length-drop 1024 bs, leb→gt (length bs) 1024 long)
