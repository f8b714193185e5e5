-- ===== src/RsaWrapper/KeyPair.antt =====
-- A private key that client/RSAWrapper.cpp made, and its public key, after both were written out and
-- loaded again; what is used of Crypto++ is listed in RsaLaws.
use instant_messaging_progra.Base.{
  ℕ, ◌≤◌, ◌≡◌, refl, ap, ◌∙◌, [], Bytes, length, take, drop, take-all, ok, ◌>>=◌, copy-front,
  range-append, is_empty, false, arith,
}
use instant_messaging_progra.Environment.{Environment}
use instant_messaging_progra.Base64Wrapper
use instant_messaging_progra.RsaWrapper.{bits, keysize, save_into}
use instant_messaging_progra.RsaWrapper.Private
use instant_messaging_progra.RsaWrapper.Public

-- What Crypto++ documents: a decoder undoes its encoder, a loaded key is the one that was saved, and
-- with a generated key, OAEP takes up to `bits / 8 - 42` bytes, makes at most `bits / 8` of them and decrypts what it
-- encrypted. A
-- private key has a text that is not empty.
pub record RsaLaws (env : Environment) : Type 0 where
  pub decodes : (str : Bytes) → env.base64_decoder (env.base64_encoder str) ≡ str
  pub loads_private :
      (place : ℕ)
      → env.rsa_load_private (env.rsa_save_private (env.rsa_initialize place bits))
        ≡ ok (env.rsa_initialize place bits)
  pub loads_public :
      (place : ℕ)
      → env.rsa_load_public (env.rsa_save_public (env.rsa_function (env.rsa_initialize place bits)))
        ≡ ok (env.rsa_function (env.rsa_initialize place bits))
  pub encrypts :
      (born place : ℕ) (plain : Bytes)
      → length plain ≤ 86
      → (cipher : Bytes) × (env.oaep_encrypt place
            (env.rsa_function (env.rsa_initialize born bits))
            plain
          ≡ ok cipher)
        × (length cipher ≤ 128)
  pub decrypts :
      (born place : ℕ) (plain cipher : Bytes)
      → env.oaep_encrypt place (env.rsa_function (env.rsa_initialize born bits)) plain ≡ ok cipher
      → env.oaep_decrypt (env.rsa_initialize born bits) cipher ≡ ok plain
  pub has_text :
      (place : ℕ)
      → is_empty (env.base64_encoder (env.rsa_save_private (env.rsa_initialize place bits))) ≡ false

-- The text that init stores for a new private key, and the public key that belongs to it.
abbrev pub private_text : Environment → ℕ → Bytes
private_text env born =
    Base64Wrapper.encode env (Private.get_private_key env (Private.create env born))

abbrev pub public_of : Environment → ℕ → Bytes
public_of env born = Private.get_public_key env (Private.create env born)

module _ (env : Environment) (laws : RsaLaws env) (born : ℕ) where
  pub load-private_text :
      Private.load env (Base64Wrapper.decode env (private_text env born))
      ≡ ok (Private.create env born)
  unfolding Private.load Private.get_private_key Private.create Base64Wrapper.encode
      Base64Wrapper.decode
  load-private_text =
      ap env.rsa_load_private (laws.decodes (env.rsa_save_private (env.rsa_initialize born bits)))
      ∙ laws.loads_private born

  pub load-public_of :
      Public.load env (public_of env born) ≡ ok (env.rsa_function (Private.create env born))
  unfolding Public.load Private.get_public_key Private.create
  load-public_of = laws.loads_public born

  pub private_text-is_empty : is_empty (private_text env born) ≡ false
  unfolding Private.get_private_key Private.create Base64Wrapper.encode
  private_text-is_empty = laws.has_text born

  -- What the public key makes of a short text, the private key decrypts.
  pub decrypt-encrypt :
      (place : ℕ) (plain : Bytes)
      → length plain ≤ 86
      → (cipher : Bytes) × (Public.encrypt env place
            (env.rsa_function (Private.create env born))
            plain
          ≡ ok cipher)
        × (Private.decrypt env (Private.create env born) cipher ≡ ok plain)
        × (length cipher ≤ 128)
  unfolding Public.encrypt Private.decrypt Private.create
  decrypt-encrypt place plain short =
      let (cipher, e, size) = laws.encrypts born place plain short in
      (cipher, e, laws.decrypts born place plain cipher e, size)

  -- A public key of 160 bytes that getPublicKey writes into a buffer with room for it is read by
  -- the constructor of RSAPublicWrapper from the first 160 bytes of this buffer, with the same
  -- result as from the string that getPublicKey returns. The condition on Crypto++ is RsaLaws.
  pub load_buffer-get_public_key_into :
      (keyout : Bytes)
      → length (public_of env born) ≡ keysize
      → keysize ≤ length keyout
      → (Private.get_public_key_into env (Private.create env born) keyout keysize >>= λ buffer.
          Public.load_buffer env buffer keysize)
        ≡ Public.load env (public_of env born)
  unfolding Private.get_public_key_into Public.load_buffer Public.load Private.get_public_key
      save_into
  load_buffer-get_public_key_into keyout size room =
      let saved = env.rsa_save_public (env.rsa_function (Private.create env born)) in
      let written : take 160 saved ≡ saved = take-all 160 saved (omega arith) in
      let behind = drop (length saved) keyout in
      rw (
        written,
        copy-front saved keyout (omega arith),
        range-append [] saved behind 0 160 refl (omega arith),
      )
