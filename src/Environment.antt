-- ===== src/Environment.antt =====
-- What the client takes from outside its own source: Crypto++, the processor's random numbers, the
-- file system. AESWrapper (client/AESWrapper.cpp) is here too.
use instant_messaging_progra.Base.{
  take, take-all, to_u32, ◌<◌, ◌^◌, ℕ, zero, suc, ◌*◌, ◌≡◌, refl, List, [], ◌++◌, Bytes, length,
  length-append, replicate, Option, Bool, Result, ok, throw, length_error, text, if◌then◌else◌,
  ◌==◌, arith,
}
use instant_messaging_progra.Codec.Number.{le_bytes, length-le_bytes}

-- A key object of CryptoPP::RSA, by the integers that it consists of.
abbrev pub RsaKey : Type 0
RsaKey = List ℕ

-- The n-th random number is `rdrand32 n`; a private key is made from, and an encryption is salted
-- by, the random numbers at a place in the same sequence. `rsa_function` is the public part of a
-- private key, and `rsa_initialize` is given the size of the key in bits.
pub record Environment : Type 0 where
  pub base64_encoder : Bytes → Bytes
  pub base64_decoder : Bytes → Bytes
  pub rsa_initialize : ℕ → ℕ → RsaKey
  pub rsa_function : RsaKey → RsaKey
  pub rsa_save_private : RsaKey → Bytes
  pub rsa_load_private : Bytes → Result RsaKey
  pub rsa_save_public : RsaKey → Bytes
  pub rsa_load_public : Bytes → Result RsaKey
  pub oaep_encrypt : ℕ → RsaKey → Bytes → Result Bytes
  pub oaep_decrypt : RsaKey → Bytes → Result Bytes
  pub rdrand32 : ℕ → ℕ
  pub cbc_encrypt : Bytes → Bytes → Bytes → Bytes
  pub cbc_decrypt : Bytes → Bytes → Bytes → Result Bytes
  pub server_info : Option Bytes
  pub is_address : Bytes → Bool
  pub read_file : Bytes → Option Bytes
  pub temp_path : Bytes

abbrev pub default_keylength : ℕ
default_keylength = 16

-- AESWrapper::GenerateKey: a random 32-bit number for every four bytes, in memory order.
unfoldable pub generate_key : (ℕ → ℕ) → ℕ → ℕ → Bytes
generate_key rdrand32 draw zero = []
generate_key rdrand32 draw (suc words) =
    le_bytes 4 (rdrand32 draw) ++ generate_key rdrand32 (suc draw) words

pub length-generate_key :
    (rdrand32 : ℕ → ℕ) (draw words : ℕ) → length (generate_key rdrand32 draw words) ≡ 4 * words
unfolding generate_key
length-generate_key rdrand32 draw zero = refl
length-generate_key rdrand32 draw (suc words) = omega (
  arith,
  length-append (le_bytes 4 (rdrand32 draw)) (generate_key rdrand32 (suc draw) words),
  length-le_bytes 4 (rdrand32 draw),
  length-generate_key rdrand32 (suc draw) words,
)

-- AESWrapper(key, length)
unfoldable pub new_aes : Bytes → Result Bytes
new_aes key =
    if to_u32 (length key) == default_keylength
    then ok (take default_keylength key)
    else throw (record { kind = length_error; what = text "key length must be 16 bytes" })

abbrev zero_iv : Bytes
zero_iv = replicate 16 0

-- The first `size` bytes are given to the cipher, where `size` is an `unsigned int`.
unfoldable pub aes_encrypt : Environment → Bytes → Bytes → ℕ → Bytes
aes_encrypt env key plain size = env.cbc_encrypt key zero_iv (take size plain)

unfoldable pub aes_decrypt : Environment → Bytes → Bytes → ℕ → Result Bytes
aes_decrypt env key cipher size = env.cbc_decrypt key zero_iv (take size cipher)

-- A key of the right size.
pub new_aes_lem : (key : Bytes) → length key ≡ 16 → new_aes key ≡ ok key
unfolding new_aes
new_aes_lem key size = rw (size, take-all 16 key (omega arith)) refl

-- A size below 2 ^ 32 is not cut off.
pub to_u32_lem : (n : ℕ) → n < 2 ^ 32 → to_u32 n ≡ n
to_u32_lem n small = omega arith
