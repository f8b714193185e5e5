-- ===== src/Tests/Loop.antt =====
-- The start and the loop of the client (client/MessageUClient.cpp) at concrete files and input.
use instant_messaging_progra.Base.{
  ℕ, zero, suc, Yields, ◌≡◌, refl, [], ◌∷◌, Bytes, replicate, some, ok, throw, exception, true,
  false, not, ◌||◌, text, is_empty, arith, stoi, signed, skip_space, magnitude, read_digits,
  skip_prefix, digit_in, digit_value, is_space, fits_int,
}
use instant_messaging_progra.ServerResponse.Handle.{handle_register}
use instant_messaging_progra.ClientInMemoryDataManager.{new_data_manager, get_client_id}
use instant_messaging_progra.ClientInMemoryDataManager.Consistency.{
  IsConsistent, new_data_manager-IsConsistent,
}
use instant_messaging_progra.InfoFiles.{split_at, is_digits, read_server_info}
use instant_messaging_progra.MessageUClient.{
  Client, running, Surroundings, init, round, run, obey, carry_out, conclude, display, here, later,
  started,
}
use instant_messaging_progra.MessageUClient.UserInfo.{
  IsLine, init-handle_register, handle_register-empty_name,
}
use instant_messaging_progra.MessageUClient.Rounds.{Reaches-IsConsistent}
use instant_messaging_progra.MessageUClient.Ending.{IsOver, run-IsOver, run-nothing}
use instant_messaging_progra.Base64Wrapper
use instant_messaging_progra.RsaWrapper.Private
use instant_messaging_progra.UserCommand.{is_client_done, create_server_request}
use instant_messaging_progra.UserCommandConsoleParser.{
  getline, assert_code_length, command_of, get_next_command,
}
use instant_messaging_progra.UserCommandConsoleParser.Commands.{
  IsAllowed, get_next_command-IsAllowed,
}
use instant_messaging_progra.World.{World}
use instant_messaging_progra.Tests.Ciphers.{plain_env, world_of}

abbrev server_file : Bytes
server_file = 49 ∷ 58 ∷ 49 ∷ 51 ∷ 53 ∷ 55 ∷ []

abbrev server : Bytes × Bytes
server = (49 ∷ 51 ∷ 53 ∷ 55 ∷ [], 49 ∷ [])

server_served : read_server_info plain_env (some server_file) ≡ ok server
unfolding read_server_info split_at is_digits is_empty stoi signed skip_space magnitude read_digits
    skip_prefix digit_in digit_value is_space fits_int
server_served = refl

abbrev ann : World
ann = world_of (record new_data_manager { user_name = 97 ∷ []; private_key = 9 ∷ [] })

abbrev id : Bytes
id = replicate 32 65

letters-IsLine : (n : ℕ) → IsLine (replicate n 65)
letters-IsLine zero = tt
letters-IsLine (suc n) = (refl, letters-IsLine n)

init-handle_register_example :
    ((handle_register id ann).0 ≡ ok tt)
    × ((init plain_env (handle_register id ann).1).0 ≡ ok true)
    × ((init plain_env (handle_register id ann).1).1.manager
        ≡ record new_data_manager { private_key = 9 ∷ []; client_id = id; user_name = 97 ∷ [] })
init-handle_register_example =
    init-handle_register plain_env ann id server (9 ∷ []) server_served (unfold is_empty in refl)
      (unfold is_empty in refl) (refl, tt) (letters-IsLine 32) (omega arith) (omega arith)
      (unfold Private.load Base64Wrapper.decode in refl) refl

handle_register-empty_name_example :
    ((handle_register id (world_of new_data_manager)).0
      ≡ throw (exception "no client id for client"))
    × ((handle_register id (world_of new_data_manager)).1
        ≡ record (world_of new_data_manager) { user_info = some [] })
    × ((init plain_env (handle_register id (world_of new_data_manager)).1).0
        ≡ throw (exception "init failed"))
handle_register-empty_name_example =
    handle_register-empty_name plain_env (world_of new_data_manager) id server server_served refl
      refl

get_next_command-IsAllowed_example :
    Yields
      (IsAllowed false (text "130" ∷ text "bob" ∷ []))
      (get_next_command false (text "130" ∷ text "bob" ∷ [])).0
get_next_command-IsAllowed_example = get_next_command-IsAllowed false (text "130" ∷ text "bob" ∷ [])

-- Someone who is not registered asks for the clients.
abbrev surroundings : Surroundings
surroundings = record {
  env = plain_env;
  alloc = λ n. replicate n 0;
  connections = λ n. record {
    connect = ok tt;
    write = λ written partition. ok tt;
    read = λ written n. ok (replicate 1024 0);
  };
}

abbrev newcomer : Client
newcomer = started (world_of new_data_manager) false (text "120" ∷ [])

abbrev refused : Client
refused = record newcomer { input = []; shown = text "no client id for client" ∷ [] }

refuses_list : round surroundings newcomer ≡ running refused
unfolding round obey carry_out conclude display is_client_done create_server_request get_client_id
    get_next_command getline assert_code_length command_of exception text is_empty stoi signed
    skip_space magnitude read_digits skip_prefix digit_in digit_value is_space fits_int
refuses_list = refl

Reaches-IsConsistent_example :
    IsConsistent refused.world.manager
    × ((not newcomer.is_user_registered || refused.is_user_registered) ≡ true)
Reaches-IsConsistent_example =
    Reaches-IsConsistent surroundings newcomer refused (later refuses_list here)
      new_data_manager-IsConsistent

run-IsOver_example : IsOver (run surroundings 1 newcomer)
run-IsOver_example = run-IsOver surroundings 1 newcomer (omega arith)

run-nothing_example :
    run surroundings 3 (record newcomer { input = [] })
    ≡ running (record newcomer { input = []; shown = replicate 3 (text "unknown command") })
run-nothing_example = run-nothing surroundings 3 newcomer
