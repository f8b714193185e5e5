-- ===== src/UserCommandConsoleParser.antt =====
-- client/UserCommandConsoleParser.h and .cpp: a command read from the lines of standard input. The
-- menu and the questions that it prints are not modelled.
pub mod Commands
use instant_messaging_progra.Base.{
  ℕ, zero, suc, ◌+◌, ◌-◌, List, [], ◌∷◌, Bytes, Bool, true, false, not, ◌&&◌, length, Result, ok,
  throw, exception, ltb, ◌==◌, if◌then◌else◌, ℤ, pos, negsuc, stoi,
}
use instant_messaging_progra.Base.Exec.{Exec, pure, lift, ◌>>=◌, ◌>>◌}
use instant_messaging_progra.Common.{user_name_byte_size}
use instant_messaging_progra.UserCommand.{
  UserCommand, register, clients_list, request_public_key, request_waiting_messages, send_text,
  send_request_symmetric_key, send_your_symmetric_key, send_file_command, exit_client,
}

-- std::getline on std::cin: at the end of the input the string stays empty.
unfoldable pub getline : Exec (List Bytes) Bytes
getline [] = (ok [], [])
getline (line ∷ rest) = (ok line, rest)

unfoldable pub assert_user_name : Bytes → Result (Unit {0})
assert_user_name name =
    if ltb (user_name_byte_size - 1) (length name)
    then throw (exception "user name length exceeded max size")
    else ok tt

unfoldable pub read_user_name_from_console : Exec (List Bytes) Bytes
unfolding getline assert_user_name
read_user_name_from_console = do name ← getline; lift (assert_user_name name); pure name

-- The number that the `switch` looks at; a negative one is no command.
abbrev pub code_of : ℤ → ℕ
code_of (pos n) = n
code_of (negsuc n) = 1

abbrev pub one_name : (Bytes → UserCommand) → Exec (List Bytes) UserCommand
one_name f = read_user_name_from_console >>= λ name. pure (f name)

abbrev pub name_and_line : (Bytes → Bytes → UserCommand) → Exec (List Bytes) UserCommand
name_and_line f = read_user_name_from_console >>= λ name. getline >>= λ line. pure (f name line)

-- The `switch` over UserCommandCode.
unfoldable pub command_of : Bool → ℕ → Exec (List Bytes) UserCommand
unfolding read_user_name_from_console
command_of allow_register code =
    if code == 110
    then if not allow_register
      then lift (throw (exception "user has been already registered"))
      else one_name register
    else if code == 120
    then pure clients_list
    else if code == 130
    then one_name request_public_key
    else if code == 140
    then pure request_waiting_messages
    else if code == 150
    then name_and_line send_text
    else if code == 151
    then one_name send_request_symmetric_key
    else if code == 152
    then one_name send_your_symmetric_key
    else if code == 153
    then name_and_line send_file_command
    else if code == 0
    then pure exit_client
    else lift (throw (exception "not valid user command code"))

unfoldable pub assert_code_length : Bytes → Result (Unit {0})
assert_code_length code =
    if not (length code == 3) && not (length code == 1)
    then throw (exception "unknown command")
    else ok tt

unfoldable pub get_next_command : Bool → Exec (List Bytes) UserCommand
unfolding getline command_of assert_code_length
get_next_command allow_register = do
  line ← getline
  lift (assert_code_length line)
  code ← lift (stoi 10 line)
  command_of allow_register (code_of code)
