-- ===== src/Base/Exec.antt =====
-- Methods that change an object and may throw: what was written before a throw stays written.
pub mod Makes
use instant_messaging_progra.Base.Results.{Result, ok, throw, stuck}

abbrev pub Exec {ℓ} : Type ℓ → Type ℓ → Type ℓ
Exec S A = S → Result A × S

module _ {ℓ} {S A : Type ℓ} where
  abbrev pub pure : A → Exec S A
  pure a s = (ok a, s)

  abbrev pub lift : Result A → Exec S A
  lift r s = (r, s)

  -- `try { m } catch (const std::exception&) { h }`: what `m` changed before it threw stays.
  abbrev pub handle : Result A → Exec S A → Exec S A
  handle (ok a) h s = (ok a, s)
  handle (throw e) h s = h s
  handle (stuck f) h s = (stuck f, s)

  abbrev pub try_catch : Exec S A → Exec S A → Exec S A
  try_catch m h s = handle (m s).0 h (m s).1

module _ {ℓ} {S A B : Type ℓ} where
  abbrev pub continue : Result A → (A → Exec S B) → Exec S B
  continue (ok a) f s = f a s
  continue (throw e) f s = (throw e, s)
  continue (stuck e) f s = (stuck e, s)

  infixl 10 ◌>>=◌ ◌>>◌
  abbrev pub ◌>>=◌ : Exec S A → (A → Exec S B) → Exec S B
  ◌>>=◌ m f s = continue (m s).0 f (m s).1

  abbrev pub ◌>>◌ : Exec S A → Exec S B → Exec S B
  m >> n = m >>= λ _. n

-- What holds of the object before a call holds after it, whether the call returns or throws.
unfoldable pub Keeps {ℓ} : {S A : Type ℓ} → (S → Type 0) → Exec S A → Type ℓ
Keeps P m = (s : _) → P s → P (m s).1

module _ {ℓ} {S A : Type ℓ} (P : S → Type 0) where
  pub keeps : (m : Exec S A) → ((s : S) → P s → P (m s).1) → Keeps P m
  unfolding Keeps
  keeps m h = h

  pub kept : (m : Exec S A) → Keeps P m → (s : S) → P s → P (m s).1
  unfolding Keeps
  kept m h = h

  pub pure-Keeps : (a : A) → Keeps P (pure a)
  unfolding Keeps
  pure-Keeps a s p = p

  pub lift-Keeps : (r : Result A) → Keeps P (lift r)
  unfolding Keeps
  lift-Keeps r s p = p

  handle-Keeps :
      (r : Result A) (h : Exec S A)
      → ((s : S) → P s → P (h s).1)
      → (s : S) → P s
      → P (handle r h s).1
  handle-Keeps (ok a) h hh s p = p
  handle-Keeps (throw e) h hh s p = hh s p
  handle-Keeps (stuck e) h hh s p = p

  pub try_catch-Keeps : (m h : Exec S A) → Keeps P m → Keeps P h → Keeps P (try_catch m h)
  unfolding Keeps
  try_catch-Keeps m h hm hh s p = handle-Keeps (m s).0 h hh (m s).1 (hm s p)

module _ {ℓ} {S A B : Type ℓ} (P : S → Type 0) where
  continue-Keeps :
      (r : Result A) (f : A → Exec S B)
      → ((a : A) → (s : S) → P s → P (f a s).1)
      → (s : S) → P s
      → P (continue r f s).1
  continue-Keeps (ok a) f hf s p = hf a s p
  continue-Keeps (throw e) f hf s p = p
  continue-Keeps (stuck e) f hf s p = p

  pub >>=-Keeps :
      (call : Exec S A) (rest : A → Exec S B)
      → Keeps P call
      → ((value : A) → Keeps P (rest value))
      → Keeps P (call >>= rest)
  unfolding Keeps
  >>=-Keeps call rest first then_rest s p =
      continue-Keeps (call s).0 rest then_rest (call s).1 (first s p)
