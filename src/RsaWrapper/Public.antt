-- ===== src/RsaWrapper/Public.antt =====
-- RSAPublicWrapper (client/RSAWrapper.h and .cpp). The wrapper is its key; `place` is where the random
-- numbers stand that an encryption uses.
use instant_messaging_progra.Base.{ℕ, Bytes, Result, ◌>>=◌, range}
use instant_messaging_progra.Environment.{Environment, RsaKey}
use instant_messaging_progra.RsaWrapper.{save_into}

module _ (env : Environment) where
  -- RSAPublicWrapper(key)
  unfoldable pub load : Bytes → Result RsaKey
  load key = env.rsa_load_public key

  -- RSAPublicWrapper(key, length)
  unfoldable pub load_buffer : Bytes → ℕ → Result RsaKey
  load_buffer key length = do bytes ← range key 0 length; env.rsa_load_public bytes

  unfoldable pub get_public_key : RsaKey → Bytes
  get_public_key public_key = env.rsa_save_public public_key

  -- getPublicKey(keyout, length)
  unfoldable pub get_public_key_into : RsaKey → Bytes → ℕ → Result Bytes
  unfolding save_into
  get_public_key_into public_key keyout length =
      save_into (env.rsa_save_public public_key) keyout length

  unfoldable pub encrypt : ℕ → RsaKey → Bytes → Result Bytes
  encrypt place public_key plain = env.oaep_encrypt place public_key plain

  -- encrypt(plain, length)
  unfoldable pub encrypt_buffer : ℕ → RsaKey → Bytes → ℕ → Result Bytes
  encrypt_buffer place public_key plain length = do
    bytes ← range plain 0 length
    env.oaep_encrypt place public_key bytes
