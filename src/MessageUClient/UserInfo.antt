-- ===== src/MessageUClient/UserInfo.antt =====
-- my.info between two runs of the client: written by RegisterSuccessResponse::handleResponse
-- (client/ServerResponse.cpp), read by init (client/MessageUClient.cpp).
use instant_messaging_progra.Base.{
  ◌<◌, ◌≤◌, [], ◌∷◌, ◌++◌, Bytes, true, false, length, some, ok, throw, Exception, exception, ltb,
  leb, gt→leb, le→ltb, ◌==◌, text, is_empty, ◌≡◌, refl, ap, All, append_assoc,
}
use instant_messaging_progra.InfoFiles.{split_at, read_line, read_server_info, read_user_info}
use instant_messaging_progra.Environment.{Environment, RsaKey}
use instant_messaging_progra.Base64Wrapper
use instant_messaging_progra.RsaWrapper.Private
use instant_messaging_progra.ClientInMemoryDataManager.{
  new_data_manager, get_user_name, get_private_key, set_private_key, set_client_id, set_user_name,
}
use instant_messaging_progra.ServerResponse.Handle.{user_info_file_name, handle_register}
use instant_messaging_progra.MessageUClient.{init, load_client}
use instant_messaging_progra.World.{World}

-- No character of the line ends it.
abbrev pub IsLine : Bytes → Type 0
IsLine = All (λ c. (c == 10) ≡ false)

split_at-line : (line rest : Bytes) → IsLine line → split_at 10 (line ++ (10 ∷ rest)) ≡ (line, rest)
unfolding split_at
split_at-line [] rest h = refl
split_at-line (c ∷ line) rest (h, hs) = rw (h, split_at-line line rest hs) refl

read_line-line :
    (e : Exception) (line rest : Bytes)
    → IsLine line
    → read_line e (line ++ (10 ∷ rest)) ≡ ok (line, rest)
unfolding read_line
read_line-line e [] rest h = refl
read_line-line e (c ∷ line) rest h = ap ok (split_at-line (c ∷ line) rest h)

abbrev info_text : Bytes → Bytes → Bytes → Bytes
info_text name id key = name ++ (10 ∷ (id ++ (10 ∷ key)))

read_user_info_lem :
    (env : Environment) (name id key : Bytes) (loaded : RsaKey)
    → IsLine name
    → IsLine id
    → length name < 255
    → length id ≤ 32
    → Private.load env (Base64Wrapper.decode env key) ≡ ok loaded
    → read_user_info env (info_text name id key) ≡ ok (name, id, key)
unfolding read_user_info
read_user_info_lem env name id key loaded name_line id_line name_short id_short valid =
    let long_name : leb 255 (length name) ≡ false = gt→leb 255 (length name) name_short in
    let long_id : ltb 32 (length id) ≡ false = le→ltb 32 (length id) id_short in
    rw
      (
        read_line-line (exception "init failed") name (id ++ (10 ∷ key)) name_line,
        long_name,
        read_line-line (exception "init failed") id key id_line,
        long_id,
        valid,
      )
      refl

handle_register_text :
    (name id key : Bytes)
    → (([] ++ (name ++ text "\n")) ++ (id ++ text "\n")) ++ key ≡ info_text name id key
unfolding text
handle_register_text name id key = simp (append_assoc)

handle_register_lem :
    (w : World) (id : Bytes)
    → is_empty w.manager.user_name ≡ false
    → is_empty w.manager.private_key ≡ false
    → w.opens user_info_file_name ≡ true
    → handle_register id w ≡ (
      ok tt,
      record w {
        user_info = some (info_text w.manager.user_name id w.manager.private_key);
        manager = set_client_id id w.manager;
      },
    )
unfolding handle_register get_user_name get_private_key
handle_register_lem w id named keyed opened =
    rw (opened, named, opened, keyed, handle_register_text, opened) refl

-- Handling a successful registration writes a my.info from which the next start of the client reads
-- the same user name, client id and private key, and is registered. The conditions are that the
-- name and the key are not empty, that the name has fewer than 255 characters and the id at most
-- 32, both without an end of line, that the key loads, that my.info can be opened for output, and
-- that server.info is valid.
pub init-handle_register :
    (env : Environment) (w : World) (id : Bytes) (server : Bytes × Bytes) (loaded : RsaKey)
    → read_server_info env env.server_info ≡ ok server
    → is_empty w.manager.user_name ≡ false
    → is_empty w.manager.private_key ≡ false
    → IsLine w.manager.user_name
    → IsLine id
    → length w.manager.user_name < 255
    → length id ≤ 32
    → Private.load env (Base64Wrapper.decode env w.manager.private_key) ≡ ok loaded
    → w.opens user_info_file_name ≡ true
    → ((handle_register id w).0 ≡ ok tt)
      × ((init env (handle_register id w).1).0 ≡ ok true)
      × ((init env (handle_register id w).1).1.manager ≡ record new_data_manager {
        private_key = w.manager.private_key;
        client_id = id;
        user_name = w.manager.user_name;
      })
unfolding init load_client set_user_name set_client_id set_private_key
init-handle_register env w id server loaded served named keyed name_line id_line name_short id_short
      valid opened =
    rw
      (
        handle_register_lem w id named keyed opened,
        served,
        read_user_info_lem env w.manager.user_name id w.manager.private_key loaded name_line id_line
            name_short id_short valid,
      )
      (refl, refl, refl)

-- Where the user name is empty and my.info can be opened for output, handling a successful
-- registration throws after it has emptied my.info, changes nothing else, and with a valid
-- server.info the next start of the client throws "init failed".
pub handle_register-empty_name :
    (env : Environment) (w : World) (id : Bytes) (server : Bytes × Bytes)
    → read_server_info env env.server_info ≡ ok server
    → w.manager.user_name ≡ []
    → w.opens user_info_file_name ≡ true
    → ((handle_register id w).0 ≡ throw (exception "no client id for client"))
      × ((handle_register id w).1 ≡ record w { user_info = some [] })
      × ((init env (handle_register id w).1).0 ≡ throw (exception "init failed"))
unfolding init load_client handle_register get_user_name read_user_info read_line is_empty
handle_register-empty_name env w id server served unnamed opened =
    rw (opened, unnamed, served) (refl, refl, refl)
