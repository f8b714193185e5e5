-- ===== src/Base/StdMap.antt =====
-- std::map with string keys. The program never iterates over a map but to delete it, so the order
-- of the entries is not modelled.
use mathlib.Core.Path.{◌≡◌}
use mathlib.Core.Option
use mathlib.Core.Option.{Option, none, some}
use mathlib.Core.List.{List, [], ◌∷◌}
use native.Mathlib.Omega.{arith}
use instant_messaging_progra.Base.Tests.{if◌then◌else◌}
use instant_messaging_progra.Base.Text.{Bytes, str_eq, str_eq_iff}

abbrev pub StdMap {ℓ} : Type ℓ → Type ℓ
StdMap V = List (Bytes × V)

module _ {ℓ} {V : Type ℓ} where
  unfoldable pub find : Bytes → StdMap V → Option V
  find k [] = none
  find k ((j, v) ∷ m) = if str_eq j k then some v else find k m

  -- `insert` leaves an entry that is there as it is.
  unfoldable pub insert : Bytes → V → StdMap V → StdMap V
  insert k v m = elim (find k m) [ none ↦ (k, v) ∷ m | some w ↦ m ]

  -- A change of the object that the entry of `k` points to.
  unfoldable pub modify : Bytes → (V → V) → StdMap V → StdMap V
  modify k f [] = []
  modify k f ((j, v) ∷ m) = (j, if str_eq j k then f v else v) ∷ modify k f m

abbrev pub or_else {ℓ} : {V : Type ℓ} → Option V → V → V
or_else none v = v
or_else (some w) v = w

module _ {ℓ} {V : Type ℓ} where
  pub find-insert :
      (k j : Bytes) (v : V) (m : StdMap V)
      → find j (insert k v m) ≡ (if str_eq k j then some (or_else (find k m) v) else find j m)
  unfolding find insert
  find-insert k j v m = ground (arith, str_eq_iff k j)

  pub find-modify :
      (k j : Bytes) (f : V → V) (m : StdMap V)
      → find j (modify k f m) ≡ (if str_eq k j then Option.map f (find j m) else find j m)
  unfolding find modify
  find-modify k j f [] = ground arith
  find-modify k j f ((i, v) ∷ m) =
      ground (arith, find-modify k j f m, str_eq_iff k j, str_eq_iff i j, str_eq_iff i k)
