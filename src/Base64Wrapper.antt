-- ===== src/Base64Wrapper.antt =====
-- client/Base64Wrapper.h and .cpp: a text for bytes. The encoder and the decoder are Crypto++'s.
use instant_messaging_progra.Base.{Bytes}
use instant_messaging_progra.Environment.{Environment}

unfoldable pub encode : Environment → Bytes → Bytes
encode env str = env.base64_encoder str

unfoldable pub decode : Environment → Bytes → Bytes
decode env str = env.base64_decoder str
