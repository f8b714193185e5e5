-- ===== src/Base/Lists.antt =====
-- Lists measured and indexed by native numbers, under the library's names.
use Prim.Native.Nat.{ℕ, zero, suc, ◌+◌, ◌-◌, ◌≤◌}
use mathlib.Core.Path.{◌≡◌, refl, ap}
use mathlib.Core.List.{List, [], ◌∷◌, ◌++◌, map}
use native.Mathlib.Omega.{arith}

module _ {ℓ} {A : Type ℓ} where
  abbrev pub length : List A → ℕ
  length [] = 0
  length (x ∷ xs) = suc (length xs)

  abbrev pub take : ℕ → List A → List A
  take zero xs = []
  take (suc n) [] = []
  take (suc n) (x ∷ xs) = x ∷ take n xs

  abbrev pub drop : ℕ → List A → List A
  drop zero xs = xs
  drop (suc n) [] = []
  drop (suc n) (x ∷ xs) = drop n xs

  abbrev pub replicate : ℕ → A → List A
  replicate zero a = []
  replicate (suc n) a = a ∷ replicate n a

module _ {ℓ} {A : Type ℓ} where
  pub length-append : (xs ys : List A) → length (xs ++ ys) ≡ length xs + length ys
  length-append [] ys = omega arith
  length-append (x ∷ xs) ys = omega (arith, length-append xs ys)

  pub length-replicate : (n : ℕ) (a : A) → length (replicate n a) ≡ n
  length-replicate zero a = refl
  length-replicate (suc n) a = ap suc (length-replicate n a)

  pub length-drop : (n : ℕ) (xs : List A) → length (drop n xs) ≡ length xs - n
  length-drop zero xs = omega arith
  length-drop (suc n) [] = omega arith
  length-drop (suc n) (x ∷ xs) = omega (arith, length-drop n xs)

  pub length-take : (n : ℕ) (xs : List A) → n ≤ length xs → length (take n xs) ≡ n
  length-take zero xs h = refl
  length-take (suc n) [] h = absurd (omega arith)
  length-take (suc n) (x ∷ xs) h = ap suc (length-take n xs (omega arith))

  pub take-append-drop : (n : ℕ) (xs : List A) → take n xs ++ drop n xs ≡ xs
  take-append-drop zero xs = refl
  take-append-drop (suc n) [] = refl
  take-append-drop (suc n) (x ∷ xs) = rw (take-append-drop n xs)

  pub take-all : (n : ℕ) (xs : List A) → length xs ≤ n → take n xs ≡ xs
  take-all zero [] h = refl
  take-all zero (x ∷ xs) h = absurd (omega arith)
  take-all (suc n) [] h = refl
  take-all (suc n) (x ∷ xs) h = rw (take-all n xs (omega arith))

  -- Where the cut falls at the end of the front.
  pub take-append : (n : ℕ) (xs ys : List A) → length xs ≡ n → take n (xs ++ ys) ≡ xs
  take-append zero [] ys h = refl
  take-append zero (x ∷ xs) ys h = absurd (omega arith)
  take-append (suc n) [] ys h = absurd (omega arith)
  take-append (suc n) (x ∷ xs) ys h = rw (take-append n xs ys (omega arith))

  pub take-append_more :
      (n k : ℕ) (xs ys : List A) → length xs ≡ n → take (n + k) (xs ++ ys) ≡ xs ++ take k ys
  take-append_more zero k [] ys h = let e : 0 + k ≡ k = omega arith in rw e
  take-append_more zero k (x ∷ xs) ys h = absurd (omega arith)
  take-append_more (suc n) k [] ys h = absurd (omega arith)
  take-append_more (suc n) k (x ∷ xs) ys h =
      let e : suc n + k ≡ suc (n + k) = omega arith in
      rw (e, take-append_more n k xs ys (omega arith))

  pub drop-append : (n : ℕ) (xs ys : List A) → length xs ≡ n → drop n (xs ++ ys) ≡ ys
  drop-append zero [] ys h = refl
  drop-append zero (x ∷ xs) ys h = absurd (omega arith)
  drop-append (suc n) [] ys h = absurd (omega arith)
  drop-append (suc n) (x ∷ xs) ys h = drop-append n xs ys (omega arith)

  pub drop-drop : (n m : ℕ) (xs : List A) → drop n (drop m xs) ≡ drop (m + n) xs
  drop-drop n zero xs = let e : zero + n ≡ n = omega arith in rw e
  drop-drop zero (suc m) [] = let e : suc m + zero ≡ suc m = omega arith in rw e
  drop-drop (suc n) (suc m) [] = let e : suc m + suc n ≡ suc (m + suc n) = omega arith in rw e
  drop-drop n (suc m) (x ∷ xs) =
      let e : suc m + n ≡ suc (m + n) = omega arith in rw e (drop-drop n m xs)

  pub drop-append_more :
      (n k : ℕ) (xs ys : List A) → length xs ≡ n → drop (n + k) (xs ++ ys) ≡ drop k ys
  drop-append_more n k xs ys h = rw (← drop-drop k n (xs ++ ys), drop-append n xs ys h)

  pub drop-replicate : (n m : ℕ) (a : A) → drop n (replicate m a) ≡ replicate (m - n) a
  drop-replicate zero m a = let e : m - 0 ≡ m = omega arith in rw e
  drop-replicate (suc n) zero a = let e : 0 - suc n ≡ 0 = omega arith in rw e
  drop-replicate (suc n) (suc m) a =
      let e : suc m - suc n ≡ m - n = omega arith in rw e (drop-replicate n m a)

  pub replicate-append : (n m : ℕ) (a : A) → replicate n a ++ replicate m a ≡ replicate (n + m) a
  replicate-append zero m a = let e : zero + m ≡ m = omega arith in rw e
  replicate-append (suc n) m a =
      let e : suc n + m ≡ suc (n + m) = omega arith in rw (e, replicate-append n m a)

-- A predicate of every element, and the concatenation of lists.
module _ {ℓ κ} {A : Type ℓ} where
  abbrev pub All : (A → Type κ) → List A → Type κ
  All P [] = Unit {κ}
  All P (x ∷ xs) = P x × All P xs

  pub All-append : (P : A → Type κ) (xs ys : List A) → All P xs → All P ys → All P (xs ++ ys)
  All-append P [] ys hx hy = hy
  All-append P (x ∷ xs) ys hx hy = (hx.0, All-append P xs ys hx.1 hy)

abbrev pub concat {ℓ} : {A : Type ℓ} → List (List A) → List A
concat [] = []
concat (xs ∷ xss) = xs ++ concat xss

pub length-map {ℓ κ} :
    {A : Type ℓ} {B : Type κ} (f : A → B) (xs : List A) → length (map f xs) ≡ length xs
length-map f [] = refl
length-map f (x ∷ xs) = ap suc (length-map f xs)
