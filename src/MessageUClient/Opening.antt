-- ===== src/MessageUClient/Opening.antt =====
-- The start of the client (readServerInfo and init of client/MessageUClient.cpp): it returns or throws,
-- and a client that is not registered has a private key of its own.
use instant_messaging_progra.Base.{
  ℕ, ◌≡◌, refl, Bytes, [], ◌∷◌, Bool, true, false, not, Option, none, some, Result, ok, throw,
  stuck, Exception, IsDefined, >>=-IsDefined, ◌||◌, is_empty, stoi, arith,
}
use instant_messaging_progra.Base.Exec.{continue}
use instant_messaging_progra.Base64Wrapper
use instant_messaging_progra.RsaWrapper.Private
use instant_messaging_progra.RsaWrapper.KeyPair.{private_text}
use instant_messaging_progra.Environment.{Environment}
use instant_messaging_progra.InfoFiles.{
  read_server_info, read_user_info, read_line, split_at, is_digits,
}
use instant_messaging_progra.ClientInMemoryDataManager.{new_data_manager, set_private_key}
use instant_messaging_progra.UserCommandConsoleParser.Commands.{if-IsDefined, stoi-IsDefined}
use instant_messaging_progra.MessageUClient.{init, load_client}
use instant_messaging_progra.MessageUClient.Defined.{Orderly}
use instant_messaging_progra.World.{World}

read_server_info-IsDefined :
    (env : Environment) (file : Option Bytes) → IsDefined (read_server_info env file)
unfolding read_server_info
read_server_info-IsDefined env none = tt
read_server_info-IsDefined env (some file) =
    let port = (split_at 10 (split_at 58 file).1).0 in
    if-IsDefined (is_empty port || not (is_digits port)) _ _
      (>>=-IsDefined (stoi 10 port) _ (stoi-IsDefined 10 port) λ number e. ground arith)

read_line-IsDefined : (e : Exception) (file : Bytes) → IsDefined (read_line e file)
unfolding read_line
read_line-IsDefined e [] = tt
read_line-IsDefined e (c ∷ rest) = tt

read_user_info-IsDefined :
    (env : Environment) → Orderly env → (file : Bytes) → IsDefined (read_user_info env file)
unfolding read_user_info Private.load
read_user_info-IsDefined env orderly file =
    >>=-IsDefined (read_line _ file) _ (read_line-IsDefined _ file) λ p e. if-IsDefined _ _ _ (
      >>=-IsDefined (read_line _ p.1) _ (read_line-IsDefined _ p.1) λ q e'.
        if-IsDefined _ _ _
          (>>=-IsDefined _ _ (orderly.loads_private (Base64Wrapper.decode env q.1)) λ key e''. tt))

-- A client that is not registered has the text of a private key that it generated.
abbrev pub Owns : Environment → Result Bool × World → Type 0
Owns env (ok registered, w) =
    registered ≡ false → (born : ℕ) × (w.manager.private_key ≡ private_text env born)
Owns env (throw e, w) = Unit {0}
Owns env (stuck f, w) = ⊥

load_client-Owns :
    (env : Environment)
    → Orderly env
    → (file : Option Bytes) (w : World) → Owns env (load_client env file w)
unfolding load_client set_private_key
load_client-Owns env orderly none w = λ unregistered. (w.draws, refl)
load_client-Owns env orderly (some file) w =
    loaded (read_user_info env file) (read_user_info-IsDefined env orderly file) _
  where
    loaded :
        (r : Result (Bytes × Bytes × Bytes))
        → IsDefined r
        → (f : Bytes × Bytes × Bytes → World → World)
        → Owns env (continue r (λ found w'. (ok true, f found w')) w)
    loaded (ok found) h f = λ unregistered. absurd (cc)
    loaded (throw e) h f = tt
    loaded (stuck e) h f = h

pub init-Owns : (env : Environment) → Orderly env → (w : World) → Owns env (init env w)
unfolding init
init-Owns env orderly w =
    served (read_server_info env env.server_info) (read_server_info-IsDefined env env.server_info)
  where
    served :
        (r : Result (Bytes × Bytes))
        → IsDefined r
        → Owns env (
            continue r
              (λ found w'. load_client env w'.user_info (record w' { manager = new_data_manager }))
              w)
    served (ok found) h = load_client-Owns env orderly w.user_info _
    served (throw e) h = tt
    served (stuck f) h = h
