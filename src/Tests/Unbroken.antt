-- ===== src/Tests/Unbroken.antt =====
-- A client with simple ciphers, a connection that takes everything and answers zeros, and something
-- typed (client/MessageUClient.cpp).
use instant_messaging_progra.Base.{
  ℕ, ◌<◌, ◌≤◌, ◌^◌, ◌≡◌, refl, sym, [], ◌∷◌, Bytes, List, length, Result, ok, throw, exception,
  if◌then◌else◌, ltb, arith, Yields, is_empty, Bool-cases, inl, inr,
}
use instant_messaging_progra.Environment.{Environment, RsaKey}
use instant_messaging_progra.ClientInMemoryDataManager.{new_data_manager}
use instant_messaging_progra.RsaWrapper.KeyPair.{RsaLaws, public_of}
use instant_messaging_progra.RsaWrapper.Private
use instant_messaging_progra.ServerRequest.Any.{Fits}
use instant_messaging_progra.MessageUClient.{Surroundings, start_client}
use instant_messaging_progra.MessageUClient.Defined.{Orderly}
use instant_messaging_progra.MessageUClient.Fitting.{create_server_request-Fits}
use instant_messaging_progra.MessageUClient.Steady.{AreShort}
use instant_messaging_progra.MessageUClient.Unbroken.{
  IsWorking, IsUnbroken, start_client-IsUnbroken,
}
use instant_messaging_progra.UserCommand.{send_file_command, create_server_request}
use instant_messaging_progra.Tests.Wire.{quiet, zeros, zeros-Allocates, quiet-Delivers}
use instant_messaging_progra.Tests.Ciphers.{plain_env, world_of}

-- OAEP takes up to 86 bytes.
abbrev oaep : ℕ → RsaKey → Bytes → Result Bytes
oaep place key plain = if ltb 86 (length plain) then throw (exception "too long") else ok plain

abbrev strict_env : Environment
strict_env = record plain_env { oaep_encrypt = oaep }

oaep_short :
    (place : ℕ) (key : RsaKey) (plain : Bytes) → length plain ≤ 86 → oaep place key plain ≡ ok plain
oaep_short place key plain short = ground arith

oaep_plain :
    (place : ℕ) (key : RsaKey) (plain cipher : Bytes)
    → oaep place key plain ≡ ok cipher
    → ok cipher ≡ ok plain
oaep_plain place key plain cipher e = elim (Bool-cases (ltb 86 (length plain))) [
  | inl long ↦ absurd (refused (rw long at e))
  | inr fits ↦ sym (rw fits at e)
]
  where
    refused : ◌≡◌ {A = Result Bytes} (throw (exception "too long")) (ok cipher) → ⊥
    refused h = cc

strict_laws : RsaLaws strict_env
strict_laws = record {
  decodes = λ str. refl;
  loads_private = λ place. refl;
  loads_public = λ place. refl;
  encrypts = λ born place plain short. (plain, oaep_short place (9 ∷ []) plain short, omega arith);
  decrypts = λ born place plain cipher e. oaep_plain place (9 ∷ []) plain cipher e;
  has_text = λ place. (unfold is_empty in refl);
}

oaep_small :
    (place : ℕ) (key : RsaKey) (plain : Bytes)
    → Yields (λ cipher. length cipher < 2 ^ 32) (oaep place key plain)
oaep_small place key plain = ground arith

strict_env-Orderly : Orderly strict_env
strict_env-Orderly = record {
  loads_private = λ saved. tt;
  loads_public = λ saved. tt;
  encrypts = oaep_small;
  decrypts = λ key cipher. tt;
  cbc_size = λ key iv plain. omega arith;
  cbc_decrypts = λ key iv cipher. tt;
  files = λ path content e. absurd (cc);
}

quiet-IsWorking : IsWorking quiet
quiet-IsWorking = record {
  connects = tt;
  writes = λ written partition. tt;
  delivers = quiet-Delivers;
}

abbrev around : Surroundings
around = record { env = strict_env; alloc = zeros; connections = λ n. quiet }

one_byte : (born : ℕ) → length (public_of strict_env born) ≤ 160
unfolding Private.get_public_key Private.create
one_byte born = omega arith

typed_lines : List Bytes
typed_lines = (49 ∷ 49 ∷ 48 ∷ []) ∷ (98 ∷ []) ∷ (49 ∷ 52 ∷ 48 ∷ []) ∷ []

typed_lines-AreShort : AreShort typed_lines
unfolding typed_lines
typed_lines-AreShort = (omega arith, (omega arith, (omega arith, tt)))

start_client-IsUnbroken_example :
    IsUnbroken (start_client around 5 (world_of new_data_manager) typed_lines)
start_client-IsUnbroken_example =
    start_client-IsUnbroken around strict_laws strict_env-Orderly one_byte zeros-Allocates
      (λ n. quiet-IsWorking) 5 (world_of new_data_manager) typed_lines typed_lines-AreShort

create_server_request-Fits_example :
    Yields Fits
      (create_server_request strict_env
        (send_file_command (98 ∷ []) (99 ∷ []))
        (world_of new_data_manager)).0
create_server_request-Fits_example =
    create_server_request-Fits strict_env strict_env-Orderly strict_laws (world_of new_data_manager)
      (send_file_command (98 ∷ []) (99 ∷ [])) tt
