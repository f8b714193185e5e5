-- ===== src/Base/Results.antt =====
-- What a C++ call can do: return, throw, or leave what the language defines.
use mathlib.Core.Path.{◌≡◌, refl, ap}
use mathlib.Core.List.{List}
use Prim.Native.Nat.{ℕ}

-- The class of the thrown object; `foreign` is an exception of a library that is not here.
pub data Kind : Type 0 where
  std_exception invalid_argument out_of_range length_error foreign : Kind

pub record Exception : Type 0 where
  pub kind : Kind
  pub what : List ℕ

-- `out_of_bounds` is an access outside an object, which C++ leaves undefined; `out_of_fuel` is a
-- loop of the model that was given too few rounds.
pub data Fault : Type 0 where
  out_of_bounds out_of_fuel : Fault

pub data Result {ℓ} (A : Type ℓ) : Type ℓ where
  ok : A → Result A
  throw : Exception → Result A
  stuck : Fault → Result A

module _ {ℓ κ} {A : Type ℓ} {B : Type κ} where
  infixl 5 ◌>>=◌
  abbrev pub ◌>>=◌ : Result A → (A → Result B) → Result B
  stuck fault >>= rest = stuck fault
  throw thrown >>= rest = throw thrown
  ok value >>= rest = rest value

  -- A sequence of calls that returns has a first call that returns.
  pub >>=-eq-ok :
      (call : Result A) (rest : A → Result B) {b : B}
      → (call >>= rest) ≡ ok b
      → (value : A) × (call ≡ ok value) × (rest value ≡ ok b)
  >>=-eq-ok (stuck fault) rest e = cc
  >>=-eq-ok (throw thrown) rest e = cc
  >>=-eq-ok (ok value) rest e = (value, refl, e)

infixl 5 ◌>>◌
abbrev pub ◌>>◌ {ℓ} : {B : Type ℓ} → Result (Unit {0}) → Result B → Result B
first >> next = first >>= λ returned. next

-- The call returns or throws; it never reads or writes out of bounds and it ends.
abbrev pub IsDefined {ℓ} : {A : Type ℓ} → Result A → Type 0
IsDefined (ok a) = Unit
IsDefined (throw e) = Unit
IsDefined (stuck f) = ⊥

pub >>=-IsDefined {ℓ κ} :
    {A : Type ℓ} {B : Type κ} (m : Result A) (f : A → Result B)
    → IsDefined m
    → ((a : A) → m ≡ ok a → IsDefined (f a))
    → IsDefined (m >>= f)
>>=-IsDefined (ok a) f hm hf = hf a refl
>>=-IsDefined (throw e) f hm hf = tt
>>=-IsDefined (stuck e) f hm hf = hm

ok_value {ℓ} : {A : Type ℓ} → A → Result A → A
ok_value a (ok b) = b
ok_value a (throw e) = a
ok_value a (stuck f) = a

pub ok-injective {ℓ} : {A : Type ℓ} (a b : A) → ◌≡◌ {A = Result A} (ok a) (ok b) → a ≡ b
unfolding ok_value
ok-injective a b e = ap (ok_value a) e

-- The call returns a value with this property, or throws.
abbrev pub Yields {ℓ} : {A : Type ℓ} → (A → Type 0) → Result A → Type 0
Yields P (ok a) = P a
Yields P (throw e) = Unit
Yields P (stuck f) = ⊥

module _ {ℓ κ} {A : Type ℓ} {B : Type κ} where
  pub >>=-Yields :
      (P : A → Type 0) (Q : B → Type 0) (m : Result A) (f : A → Result B)
      → Yields P m
      → ((a : A) → P a → Yields Q (f a))
      → Yields Q (m >>= f)
  >>=-Yields P Q (ok a) f h hf = hf a h
  >>=-Yields P Q (throw e) f h hf = tt
  >>=-Yields P Q (stuck e) f h hf = h

pub Yields-IsDefined {ℓ} : {A : Type ℓ} (P : A → Type 0) (m : Result A) → Yields P m → IsDefined m
Yields-IsDefined P (ok a) h = tt
Yields-IsDefined P (throw e) h = tt
Yields-IsDefined P (stuck f) h = h
