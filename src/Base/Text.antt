-- ===== src/Base/Text.antt =====
-- std::string as the list of its bytes, and the conversions of <string> and <ios>.
use Prim.Native.Nat.{ℕ, ◌<◌}
use Prim.Native.Char.{code}
use Prim.Native.String.{String}
use mathlib.Core.Path.{◌≡◌, refl}
use mathlib.Core.Logic.{◌↔◌}
use mathlib.Core.Bool.{Bool, true, false, ◌&&◌}
use mathlib.Core.List.{List, [], ◌∷◌}
use native.Mathlib.Omega.{arith}
use instant_messaging_progra.Base.Tests.{ltb, ◌==◌, if◌then◌else◌}
use instant_messaging_progra.Base.Lists.{length, take, drop}
use instant_messaging_progra.Base.Results.{
  std_exception, out_of_range, Exception, Result, ok, throw,
}

abbrev pub Bytes : Type 0
Bytes = List ℕ

abbrev pub IsByte : ℕ → Type 0
IsByte b = b < 256

-- A string literal. It stays shut: a proof that needs the characters unfolds it.
unfoldable pub text : String → Bytes
text String.[] = []
text (String.◌∷◌ c s) = code c ∷ text s

-- std::string's operator==.
unfoldable pub str_eq : Bytes → Bytes → Bool
str_eq [] [] = true
str_eq (x ∷ xs) (y ∷ ys) = (x == y) && str_eq xs ys
str_eq _ _ = false

pub str_eq_refl : (xs : Bytes) → str_eq xs xs ≡ true
unfolding str_eq
str_eq_refl [] = refl
str_eq_refl (x ∷ xs) = ground (arith, str_eq_refl xs)

pub str_eq_eq : (xs ys : Bytes) → str_eq xs ys ≡ true → xs ≡ ys
unfolding str_eq
str_eq_eq [] [] h = refl
str_eq_eq [] (y ∷ ys) h = cc
str_eq_eq (x ∷ xs) [] h = cc
str_eq_eq (x ∷ xs) (y ∷ ys) h = ground (arith, str_eq_eq xs ys)

pub str_eq_iff : (xs ys : Bytes) → (str_eq xs ys ≡ true) ↔ (xs ≡ ys)
str_eq_iff xs ys = (str_eq_eq xs ys, λ e. rw e (str_eq_refl ys))

unfoldable pub is_empty : Bytes → Bool
is_empty [] = true
is_empty (x ∷ xs) = false

-- std::string::substr
unfoldable pub substr : Bytes → ℕ → ℕ → Result Bytes
substr s pos n =
    if ltb (length s) pos
    then throw (record { kind = out_of_range; what = text "invalid string position" })
    else ok (take n (drop pos s))

-- `throw std::exception("...")`
unfoldable pub exception : String → Exception
exception s = record { kind = std_exception; what = text s }
