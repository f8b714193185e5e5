-- ===== src/RsaWrapper/Private.antt =====
-- RSAPrivateWrapper (client/RSAWrapper.h and .cpp). The wrapper is its key; `place` is where the
-- random numbers stand that a new key is made from.
use instant_messaging_progra.Base.{ℕ, Bytes, Result, ◌>>=◌, range}
use instant_messaging_progra.Environment.{Environment, RsaKey}
use instant_messaging_progra.RsaWrapper.{bits, save_into}

module _ (env : Environment) where
  -- RSAPrivateWrapper()
  unfoldable pub create : ℕ → RsaKey
  create place = env.rsa_initialize place bits

  -- RSAPrivateWrapper(key)
  unfoldable pub load : Bytes → Result RsaKey
  load key = env.rsa_load_private key

  -- RSAPrivateWrapper(key, length)
  unfoldable pub load_buffer : Bytes → ℕ → Result RsaKey
  load_buffer key length = do bytes ← range key 0 length; env.rsa_load_private bytes

  unfoldable pub get_private_key : RsaKey → Bytes
  get_private_key private_key = env.rsa_save_private private_key

  -- getPrivateKey(keyout, length)
  unfoldable pub get_private_key_into : RsaKey → Bytes → ℕ → Result Bytes
  unfolding save_into
  get_private_key_into private_key keyout length =
      save_into (env.rsa_save_private private_key) keyout length

  -- The public part of the key is saved.
  unfoldable pub get_public_key : RsaKey → Bytes
  get_public_key private_key = env.rsa_save_public (env.rsa_function private_key)

  -- getPublicKey(keyout, length)
  unfoldable pub get_public_key_into : RsaKey → Bytes → ℕ → Result Bytes
  unfolding save_into
  get_public_key_into private_key keyout length =
      save_into (env.rsa_save_public (env.rsa_function private_key)) keyout length

  unfoldable pub decrypt : RsaKey → Bytes → Result Bytes
  decrypt private_key cipher = env.oaep_decrypt private_key cipher

  -- decrypt(cipher, length)
  unfoldable pub decrypt_buffer : RsaKey → Bytes → ℕ → Result Bytes
  decrypt_buffer private_key cipher length = do
    bytes ← range cipher 0 length
    env.oaep_decrypt private_key bytes
