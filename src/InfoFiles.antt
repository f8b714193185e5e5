-- ===== src/InfoFiles.antt =====
-- The files that client/MessageUClient.cpp reads when the client starts: server.info
-- (readServerInfo) and my.info (in init). The text that goes to std::cerr is not modelled.
use instant_messaging_progra.Base.{
  ℕ, ◌*◌, [], ◌∷◌, Bytes, Bool, true, false, not, ◌&&◌, ◌||◌, length, Option, none, some, Result,
  ok, throw, Exception, exception, ltb, leb, ◌==◌, if◌then◌else◌, ℤ, pos, negsuc, stoi, is_empty,
  ◌>>=◌,
}
use instant_messaging_progra.Common.{
  user_name_byte_size, client_id_byte_size, min_valid_port_number, max_valid_port_number,
}
use instant_messaging_progra.Environment.{Environment}
use instant_messaging_progra.Base64Wrapper
use instant_messaging_progra.RsaWrapper.Private

-- The characters before the first `stop`, and those behind it.
unfoldable pub split_at : ℕ → Bytes → Bytes × Bytes
split_at stop [] = ([], [])
split_at stop (c ∷ rest) =
    let (line, more) = split_at stop rest in if c == stop then ([], rest) else (c ∷ line, more)

-- `std::getline(file, line)`: false where there is nothing left.
unfoldable pub read_line : Exception → Bytes → Result (Bytes × Bytes)
unfolding split_at
read_line e [] = throw e
read_line e (c ∷ rest) = ok (split_at 10 (c ∷ rest))

unfoldable pub is_digits : Bytes → Bool
is_digits [] = true
is_digits (c ∷ rest) = leb 48 c && leb c 57 && is_digits rest

abbrev in_port_range : ℤ → Bool
in_port_range (pos n) = leb min_valid_port_number n && leb n max_valid_port_number
in_port_range (negsuc n) = false

-- The port and the address in server.info.
unfoldable pub read_server_info : Environment → Option Bytes → Result (Bytes × Bytes)
unfolding split_at is_digits
read_server_info env none = throw (exception "readServerInfo failed")
read_server_info env (some file) =
    let (url, rest) = split_at 58 file in
    let (port, _) = split_at 10 rest in
    if is_empty port || not (is_digits port) then throw (exception "readServerInfo failed") else do
      number ← stoi 10 port
      if not (in_port_range number)
          then throw (exception "readServerInfo failed")
          else if not (env.is_address url)
          then throw (exception "readServerInfo failed")
          else ok (port, url)

-- Reading my.info: the user name, the client id and the private key.
unfoldable pub read_user_info : Environment → Bytes → Result (Bytes × Bytes × Bytes)
unfolding read_line
read_user_info env file = do
  (user_name, rest) ← read_line (exception "init failed") file
  if leb user_name_byte_size (length user_name) then throw (exception "user name too long") else do
    (client_id, private_key) ← read_line (exception "init failed") rest
    if ltb (client_id_byte_size * 2) (length client_id)
        then throw (exception "client id too long")
        else do
          key ← Private.load env (Base64Wrapper.decode env private_key)
          ok (user_name, client_id, private_key)
