-- ===== src/UserCommandConsoleParser/Commands.antt =====
-- Which commands getNextCommand (client/UserCommandConsoleParser.cpp) can return.
use instant_messaging_progra.Base.{Yields}
use instant_messaging_progra.Base.{
  ℕ, ◌<◌, ◌≡◌, ◌⊎◌, refl, sym, subst, All, List, [], ◌∷◌, Bytes, Bool, true, false, not, length,
  Result, ok, throw, stuck, exception, Exception, IsDefined, Option-cases, signed, skip_space,
  fits_int, ltb, ◌==◌, if◌then◌else◌, Bool-cases, inl, inr, arith, stoi, ℤ,
}
use instant_messaging_progra.Base.Exec.{Exec, lift, ◌>>=◌, ◌>>◌}
use instant_messaging_progra.UserCommand.{
  UserCommand, register, clients_list, request_public_key, request_waiting_messages, send_text,
  send_request_symmetric_key, send_your_symmetric_key, send_file_command, exit_client,
}
use instant_messaging_progra.UserCommandConsoleParser.{
  getline, assert_user_name, read_user_name_from_console, one_name, name_and_line, command_of,
  assert_code_length, code_of, get_next_command,
}

-- A user name fits its 255 bytes in a request with a zero behind it.
abbrev pub NameFits : Bytes → Type 0
NameFits name = length name < 255

-- A line that was typed, or the empty one at the end of the input.
unfoldable pub LineOf : Bytes → List Bytes → Type 0
LineOf line [] = line ≡ []
LineOf line (typed ∷ rest) = (line ≡ typed) ⊎ LineOf line rest

pub All-LineOf :
    (P : Bytes → Type 0) (line : Bytes) (input : List Bytes)
    → P []
    → All P input
    → LineOf line input
    → P line
unfolding LineOf
All-LineOf P line [] base h e = subst P (sym e) base
All-LineOf P line (typed ∷ rest) base (h, hs) (inl e) = subst P (sym e) h
All-LineOf P line (typed ∷ rest) base (h, hs) (inr at) = All-LineOf P line rest base hs at

-- What a command promises where `allow_register` was given to the parser.
abbrev pub IsAllowed : Bool → List Bytes → UserCommand → Type 0
IsAllowed allow input (register name) = (allow ≡ true) × NameFits name
IsAllowed allow input clients_list = Unit
IsAllowed allow input (request_public_key name) = NameFits name
IsAllowed allow input request_waiting_messages = Unit
IsAllowed allow input (send_text name message) = NameFits name × LineOf message input
IsAllowed allow input (send_request_symmetric_key name) = NameFits name
IsAllowed allow input (send_your_symmetric_key name) = NameFits name
IsAllowed allow input (send_file_command name path) = NameFits name × LineOf path input
IsAllowed allow input exit_client = Unit

-- A name is given on only where assertUserName lets it through.
one_name-Yields :
    (P : UserCommand → Type 0) (f : Bytes → UserCommand) (input : List Bytes)
    → ((name : Bytes) → NameFits name → P (f name))
    → Yields P (one_name f input).0
unfolding read_user_name_from_console getline assert_user_name
one_name-Yields P f [] h = h [] (omega arith)
one_name-Yields P f (line ∷ rest) h = elim (Bool-cases (ltb 254 (length line))) [
  | inl long ↦ rw long tt
  | inr short ↦ rw short (h line (ground arith))
]

name_and_line-Yields :
    (P : UserCommand → Type 0) (f : Bytes → Bytes → UserCommand) (input : List Bytes)
    → ((name line : Bytes) → NameFits name → LineOf line input → P (f name line))
    → Yields P (name_and_line f input).0
unfolding LineOf read_user_name_from_console getline assert_user_name
name_and_line-Yields P f [] h = h [] [] (omega arith) refl
name_and_line-Yields P f (name ∷ []) h = elim (Bool-cases (ltb 254 (length name))) [
  | inl long ↦ rw long tt
  | inr short ↦ rw short (h name [] (ground arith) (inr refl))
]
name_and_line-Yields P f (name ∷ line ∷ rest) h = elim (Bool-cases (ltb 254 (length name))) [
  | inl long ↦ rw long tt
  | inr short ↦ rw short (h name line (ground arith) (inr (inl refl)))
]

module _ (allow : Bool) (lines input : List Bytes)
    (within : (line : Bytes) → LineOf line input → LineOf line lines) where
  abbrev Good : Exec (List Bytes) UserCommand → Type 0
  Good m = Yields (IsAllowed allow lines) (m input).0

  either :
      (b : Bool) (m n : Exec (List Bytes) UserCommand) → Good m → Good n → Good (if b then m else n)
  either true m n hm hn = hm
  either false m n hm hn = hn

  register-Good : Good (
      if not allow
      then lift (throw (exception "user has been already registered"))
      else one_name register)
  register-Good = elim (Bool-cases allow) [
    | inl allowed ↦
        rw allowed (one_name-Yields (IsAllowed true lines) register input (λ name h. (refl, h)))
    | inr refused ↦ rw refused tt
  ]

  command_of-Good : (code : ℕ) → Good (command_of allow code)
  unfolding command_of
  command_of-Good code =
      let P = IsAllowed allow lines in
      either (code == 110) _ _ register-Good (
        either (code == 120) _ _ tt (
          either (code == 130) _ _ (one_name-Yields P request_public_key input (λ name h. h)) (
            either (code == 140) _ _ tt (
              either (code == 150) _ _
                (name_and_line-Yields P send_text input (λ name line h at. (h, within line at)))
                (either (code == 151) _ _
                  (one_name-Yields P send_request_symmetric_key input (λ name h. h))
                  (either (code == 152) _ _
                    (one_name-Yields P send_your_symmetric_key input (λ name h. h))
                    (either (code == 153) _ _
                      (name_and_line-Yields P send_file_command input
                        (λ name line h at. (h, within line at)))
                      (either (code == 0) _ _ tt tt))))))))

after_code :
    (allow : Bool) (lines rest : List Bytes)
    (within : (line : Bytes) → LineOf line rest → LineOf line lines) (checked : Result (Unit {0}))
    (code : Result ℤ)
    → (IsDefined checked)
    → IsDefined code
    → Yields
        (IsAllowed allow lines)
        ((lift checked >> (lift code >>= λ z. command_of allow (code_of z))) rest).0
after_code allow lines rest within (ok u) (ok z) h k =
    command_of-Good allow lines rest within (code_of z)
after_code allow lines rest within (ok u) (throw e) h k = tt
after_code allow lines rest within (ok u) (stuck f) h k = k
after_code allow lines rest within (throw e) code h k = tt
after_code allow lines rest within (stuck f) code h k = h

pub if-IsDefined :
    {A : Type 0} (b : Bool) (e : Exception) (m : Result A)
    → IsDefined m
    → IsDefined (if b then throw e else m)
if-IsDefined true e m h = tt
if-IsDefined false e m h = h

pub stoi-IsDefined : (base : ℕ) (s : Bytes) → IsDefined (stoi base s)
unfolding stoi
stoi-IsDefined base s = elim (Option-cases (signed base (skip_space s))) [
  | inl none_read ↦ rw (none_read, stoi) tt
  | inr (z, read) ↦
      rw (read, stoi)
        (elim (Bool-cases (fits_int z)) [ inl fits ↦ rw (fits) tt | inr large ↦ rw large tt ])
]

-- Whatever is typed, getNextCommand returns a command or throws; a command that it returns has a
-- user name of fewer than 255 characters where it has one, the message or path that it has is a
-- typed line or empty, and it is a registration only where registering was allowed.
pub get_next_command-IsAllowed :
    (allow : Bool) (input : List Bytes)
    → Yields (IsAllowed allow input) (get_next_command allow input).0
unfolding get_next_command getline assert_code_length LineOf
get_next_command-IsAllowed allow [] = tt
get_next_command-IsAllowed allow (line ∷ rest) =
    after_code allow (line ∷ rest) rest (λ l at. inr at) (assert_code_length line) (stoi 10 line)
      (if-IsDefined _ _ (ok tt) tt) (stoi-IsDefined 10 line)
