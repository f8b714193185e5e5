-- ===== src/MessageUClient/Fitting.antt =====
-- The requests that client/UserCommand.cpp makes fit the protocol, and making one returns or throws.
use instant_messaging_progra.Base.{
  to_u32, take, take-all, replicate, ap, ℕ, ◌^◌, ◌<◌, ◌≤◌, [], ◌∷◌, Bytes, length, Option, none,
  some, ok, ◌≡◌, refl, is_empty, text, Yields, arith,
}
use instant_messaging_progra.Base.Exec.{pure, lift, ◌>>=◌}
use instant_messaging_progra.Base.Exec.Makes.{
  defined-Yields, Makes, Safe, made, >>=-Makes_with, pure-Makes, lift-Makes,
}
use instant_messaging_progra.Common.{MessageType, client_version, send_symmetric_key, send_file}
use instant_messaging_progra.Environment.{to_u32_lem, Environment, RsaKey, aes_encrypt}
use instant_messaging_progra.RsaWrapper.Public
use instant_messaging_progra.RsaWrapper.KeyPair.{
  RsaLaws, private_text, public_of, load-private_text, private_text-is_empty,
}
use instant_messaging_progra.ClientInMemoryDataManager.{get_private_key, set_user_name}
use instant_messaging_progra.ServerRequest.{
  new_register, new_list_clients, new_get_public_key, new_send_message, new_pull_messages,
}
use instant_messaging_progra.ServerRequest.Any.{Fits}
use instant_messaging_progra.UserCommand.{
  UserCommand, register, clients_list, request_public_key, request_waiting_messages, send_text,
  send_request_symmetric_key, send_your_symmetric_key, send_file_command, exit_client,
  create_server_request, create_send_symmetric_key, create_register, create_get_public_key,
  create_send_text, create_send_request_symmetric_key, create_send_file, make_symmetric_key,
  content_of,
}
use instant_messaging_progra.MessageUClient.Defined.{Orderly, defined, new_aes-Yields}
use instant_messaging_progra.World.{World}

make_symmetric_key-Safe :
    (env : Environment) (id old : Bytes) → Safe (make_symmetric_key env id old)
unfolding make_symmetric_key is_empty
make_symmetric_key-Safe env id [] = search (defined) depth 8
make_symmetric_key-Safe env id (b ∷ old) = search (defined)

nothing_short : length (text "") < 2 ^ 32
unfolding text
nothing_short = omega arith

-- What a command needs: a message of fewer than 2 ^ 31 bytes, and for a registration a name that
-- fits and the text of a private key whose public key fits.
abbrev pub Ready : Environment → World → UserCommand → Type 0
Ready env w (register name) =
    (length name ≤ 255)
    × (born : ℕ) × (w.manager.private_key ≡ private_text env born)
    × (length (public_of env born) ≤ 160)
Ready env w (send_text target message) = length message < 2 ^ 31
Ready env w command = Unit {0}

module _ (env : Environment) (orderly : Orderly env) where
  message-Makes :
      (id target : Bytes) (t : MessageType) (content : Bytes)
      → length content < 2 ^ 32
      → Makes {S = World} Fits (pure (new_send_message id client_version target t content))
  unfolding new_send_message
  message-Makes id target t content small = pure-Makes _ Fits _ (small, refl)

  encryption-Makes :
      (id target key message : Bytes) (t : MessageType)
      → length message < 2 ^ 31
      → Makes {S = World} Fits (
          pure (
            new_send_message id client_version target t
              (aes_encrypt env key message (to_u32 (length message)))))
  unfolding aes_encrypt
  encryption-Makes id target key message t short =
      let whole : take (to_u32 (length message)) message ≡ message =
        take-all (to_u32 (length message)) message (omega (arith, to_u32_lem (length message))) in
      message-Makes id target t (aes_encrypt env key message (to_u32 (length message))) (
        omega (
          arith,
          orderly.cbc_size key (replicate 16 0) (take (to_u32 (length message)) message),
          ap length whole,
        ))

  load_public-Yields : (saved : Bytes) → Yields (λ key. Unit {0}) (Public.load env saved)
  unfolding Public.load
  load_public-Yields saved = defined-Yields _ (orderly.loads_public saved)

  encrypted-Makes :
      (place : ℕ) (wrapper : RsaKey) (key id target : Bytes)
      → Makes {S = World} Fits (
          lift (Public.encrypt env place wrapper key) >>= λ encrypted.
          pure (new_send_message id client_version target send_symmetric_key encrypted))
  unfolding Public.encrypt
  encrypted-Makes place wrapper key id target =
      >>=-Makes_with Fits (λ cipher. length cipher < 2 ^ 32) _ _
        (lift-Makes World _ _ (orderly.encrypts place wrapper key))
        (λ cipher small. message-Makes id target send_symmetric_key cipher small)

  content_of-Yields :
      (path : Bytes)
      → Yields (λ content. length content < 2 ^ 31) (content_of env (env.read_file path))
  content_of-Yields path = cases (env.read_file path) refl
    where
      cases :
          (r : Option Bytes)
          → env.read_file path ≡ r
          → Yields (λ content. length content < 2 ^ 31) (content_of env r)
      cases none e = tt
      cases (some content) e = orderly.files path content e

  file-Makes :
      (path aes id target : Bytes)
      → Makes {S = World} Fits (
          lift (content_of env (env.read_file path)) >>= λ content. pure (
            new_send_message id client_version target send_file
              (aes_encrypt env aes content (to_u32 (length content)))))
  file-Makes path aes id target =
      >>=-Makes_with Fits (λ content. length content < 2 ^ 31) _ _
        (lift-Makes World _ _ (content_of-Yields path))
        (λ content small. encryption-Makes id target aes content send_file small)

  create_send_text-Makes :
      (target message : Bytes)
      → length message < 2 ^ 31
      → Makes Fits (create_send_text env target message)
  unfolding create_send_text
  create_send_text-Makes target message short =
      search (defined, new_aes-Yields, encryption-Makes) depth 10

  create_send_request_symmetric_key-Makes :
      (target : Bytes) → Makes Fits (create_send_request_symmetric_key env target)
  unfolding create_send_request_symmetric_key
  create_send_request_symmetric_key-Makes target =
      search (message-Makes, nothing_short, defined) depth 8

  create_send_symmetric_key-Makes :
      (target : Bytes) → Makes Fits (create_send_symmetric_key env target)
  unfolding create_send_symmetric_key
  create_send_symmetric_key-Makes target =
      search (encrypted-Makes, defined, make_symmetric_key-Safe, load_public-Yields) depth 14

  create_send_file-Makes : (target path : Bytes) → Makes Fits (create_send_file env target path)
  unfolding create_send_file
  create_send_file-Makes target path = search (file-Makes, defined, new_aes-Yields) depth 10

  create_get_public_key-Makes : (target : Bytes) → Makes Fits (create_get_public_key env target)
  unfolding create_get_public_key new_get_public_key
  create_get_public_key-Makes target = search defined depth 8

  -- A registration is made from a private key that the client generated.
  create_register-Fits :
      (laws : RsaLaws env) (born : ℕ) (name : Bytes) (w : World)
      → length (public_of env born) ≤ 160
      → length name ≤ 255
      → w.manager.private_key ≡ private_text env born
      → Yields Fits (create_register env name w).0
  unfolding create_register new_register
  create_register-Fits laws born name w key_fits name_fits own =
      rw (named_key, load-private_text env laws born) (name_fits, key_fits)
    where
      named_key : get_private_key (set_user_name name w.manager) ≡ ok (private_text env born)
      named_key =
          unfold get_private_key set_user_name in rw (own, private_text-is_empty env laws born) refl

  -- createServerRequest of any command returns a request or throws; a request that it returns fits
  -- the protocol: a user name of at most 255 bytes and a public key of at most 160 in a
  -- registration, and in a message a content of fewer than 2^32 bytes of which nothing has been
  -- sent. The conditions are in Ready: a text of fewer than 2^31 bytes, and for a registration a
  -- name that fits and a stored private key whose public key fits; and that Crypto++ and the files
  -- do what is in RsaLaws and Orderly.
  pub create_server_request-Fits :
      (laws : RsaLaws env) (w : World) (command : UserCommand)
      → Ready env w command
      → Yields Fits (create_server_request env command w).0
  unfolding create_server_request new_list_clients new_pull_messages
  create_server_request-Fits laws w (register name) (fits, born, own, key_fits) =
      create_register-Fits laws born name w key_fits fits own
  create_server_request-Fits laws w clients_list r =
      made Fits (create_server_request env clients_list) (search defined) w
  create_server_request-Fits laws w (request_public_key target) r =
      made Fits _ (create_get_public_key-Makes target) w
  create_server_request-Fits laws w request_waiting_messages r =
      made Fits (create_server_request env request_waiting_messages) (search defined) w
  create_server_request-Fits laws w (send_text target message) r =
      made Fits _ (create_send_text-Makes target message r) w
  create_server_request-Fits laws w (send_request_symmetric_key target) r =
      made Fits _ (create_send_request_symmetric_key-Makes target) w
  create_server_request-Fits laws w (send_your_symmetric_key target) r =
      made Fits _ (create_send_symmetric_key-Makes target) w
  create_server_request-Fits laws w (send_file_command target path) r =
      made Fits _ (create_send_file-Makes target path) w
  create_server_request-Fits laws w exit_client r = tt
