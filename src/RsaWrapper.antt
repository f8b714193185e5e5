-- ===== src/RsaWrapper.antt =====
-- client/RSAWrapper.h and .cpp: Public is RSAPublicWrapper, Private is RSAPrivateWrapper. A key of
-- Crypto++ and what it does are parameters; the wrappers' own choices (the size of a new key, which
-- key is saved, how many bytes go into a caller's buffer) are here.
pub mod Public
pub mod Private
pub mod KeyPair
use instant_messaging_progra.Base.{ℕ, Bytes, Result, take, copy}

abbrev pub keysize : ℕ
keysize = 160

abbrev pub bits : ℕ
bits = 1024

-- What is saved through `CryptoPP::ArraySink as(keyout, length)`: at most `length` bytes reach the
-- caller's buffer, which is the second argument.
unfoldable pub save_into : Bytes → Bytes → ℕ → Result Bytes
save_into saved keyout length = copy (take length saved) 0 keyout
