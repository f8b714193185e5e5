-- ===== src/Base/Exec/Makes.antt =====
-- What the result of a method has, where it returns one: the method is never undefined.
use instant_messaging_progra.Base.Results.{Result, ok, throw, stuck, IsDefined, Yields}
use instant_messaging_progra.Base.Exec.{Exec, pure, lift, handle, try_catch, continue, ◌>>=◌}

-- Called on any object, the method returns a value with this property, or throws.
unfoldable pub Makes {ℓ} : {S A : Type ℓ} → (A → Type 0) → Exec S A → Type ℓ
Makes P m = (s : _) → Yields P (m s).0

-- The method returns or throws.
abbrev pub Safe {ℓ} : {S A : Type ℓ} → Exec S A → Type ℓ
Safe m = Makes (λ a. Unit {0}) m

module _ {ℓ} {S A : Type ℓ} (P : A → Type 0) where
  pub makes : (m : Exec S A) → ((s : S) → Yields P (m s).0) → Makes P m
  unfolding Makes
  makes m h = h

  pub made : (m : Exec S A) → Makes P m → (s : S) → Yields P (m s).0
  unfolding Makes
  made m h = h

  handle-Yields :
      (r : Result A) (h : Exec S A) (s : S)
      → Yields P r
      → Yields P (h s).0
      → Yields P (handle r h s).0
  handle-Yields (ok a) h s p q = p
  handle-Yields (throw e) h s p q = q
  handle-Yields (stuck f) h s p q = p

  pub try_catch-Makes : (m h : Exec S A) → Makes P m → Makes P h → Makes P (try_catch m h)
  unfolding Makes
  try_catch-Makes m h hm hh s = handle-Yields (m s).0 h (m s).1 (hm s) (hh (m s).1)

module _ {ℓ} {S A B : Type ℓ} (P : B → Type 0) where
  pub continue-Yields :
      (Q : A → Type 0) (r : Result A) (f : A → Exec S B) (s : S)
      → Yields Q r
      → ((a : A) → Q a → Yields P (f a s).0)
      → Yields P (continue r f s).0
  continue-Yields Q (ok a) f s q hf = hf a q
  continue-Yields Q (throw e) f s q hf = tt
  continue-Yields Q (stuck e) f s q hf = q

  -- What the first call makes serves the second one.
  pub >>=-Makes_with :
      (Q : A → Type 0) (m : Exec S A) (f : A → Exec S B)
      → Makes Q m
      → ((a : A) → Q a → Makes P (f a))
      → Makes P (m >>= f)
  unfolding Makes
  >>=-Makes_with Q m f hm hf s = continue-Yields Q (m s).0 f (m s).1 (hm s) (λ a q. hf a q (m s).1)

  pub >>=-Makes :
      (m : Exec S A) (f : A → Exec S B) → Safe m → ((a : A) → Makes P (f a)) → Makes P (m >>= f)
  >>=-Makes m f hm hf = >>=-Makes_with (λ a. Unit {0}) m f hm (λ a u. hf a)

module _ {ℓ} (S : Type ℓ) {A : Type ℓ} (P : A → Type 0) where
  pub pure-Makes : (a : A) → P a → Makes P (pure {S = S} a)
  unfolding Makes
  pure-Makes a p s = p

  pub lift-Makes : (r : Result A) → Yields P r → Makes P (lift {S = S} r)
  unfolding Makes
  lift-Makes r h s = h

pub defined-Yields {ℓ} : {A : Type ℓ} (r : Result A) → IsDefined r → Yields (λ a. Unit {0}) r
defined-Yields (ok a) h = tt
defined-Yields (throw e) h = tt
defined-Yields (stuck f) h = h

pub ruleset safety = (>>=-Makes, try_catch-Makes, pure-Makes, lift-Makes)
