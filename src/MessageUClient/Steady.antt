-- ===== src/MessageUClient/Steady.antt =====
-- What the loop of client/MessageUClient.cpp keeps until the client is registered: a private key of its own,
-- and lines of a bounded length.
use instant_messaging_progra.Base.{
  ℕ, ◌^◌, ◌<◌, ◌≡◌, refl, ◌∙◌, List, [], ◌∷◌, Bytes, length, Bool, true, false, All, if◌then◌else◌,
}
use instant_messaging_progra.Base.Exec.{Exec, Keeps, keeps, kept, >>=-Keeps, pure-Keeps, lift-Keeps}
use instant_messaging_progra.Environment.{Environment}
use instant_messaging_progra.RsaWrapper.KeyPair.{private_text}
use instant_messaging_progra.UserCommand.{UserCommand, create_server_request}
use instant_messaging_progra.UserCommandConsoleParser.{
  get_next_command, getline, read_user_name_from_console, command_of,
}
use instant_messaging_progra.MessageUClient.{Client, Surroundings, in_world, exchange, carry_out}
use instant_messaging_progra.MessageUClient.Agreement.{
  create_server_request-Settled, handle_response-Settled, private_key-Settled,
}
use instant_messaging_progra.World.{World}

abbrev pub AreShort : List Bytes → Type 0
AreShort input = All (λ line. length line < 2 ^ 31) input

-- Lines of fewer than 2 ^ 31 bytes, and before the registration a private key of the client's own.
pub record IsSteady (env : Environment) (c : Client) : Type 0 where
  pub short : AreShort c.input
  pub own :
      c.is_user_registered ≡ false
      → (born : ℕ) × (c.world.manager.private_key ≡ private_text env born)

-- Reading takes lines away and changes none.
getline-AreShort : Keeps AreShort getline
unfolding getline
getline-AreShort = keeps AreShort _ go
  where
    go : (input : List Bytes) → AreShort input → AreShort (getline input).1
    go [] h = h
    go (line ∷ rest) h = h.1

if-AreShort :
    (b : Bool) (m n : Exec (List Bytes) UserCommand)
    → Keeps AreShort m
    → Keeps AreShort n
    → Keeps AreShort (if b then m else n)
if-AreShort true m n hm hn = hm
if-AreShort false m n hm hn = hn

ruleset reading = (if-AreShort, >>=-Keeps, pure-Keeps, lift-Keeps, getline-AreShort)

command_of-AreShort : (allow : Bool) (code : ℕ) → Keeps AreShort (command_of allow code)
unfolding command_of read_user_name_from_console
command_of-AreShort allow code = search reading depth 18

pub get_next_command-AreShort : (allow : Bool) → Keeps AreShort (get_next_command allow)
unfolding get_next_command
get_next_command-AreShort allow = search (reading, command_of-AreShort) depth 8

-- A world with the same private key.
in_world-IsSteady :
    {A : Type 0} (env : Environment) (m : Exec World A)
    → ((key : Bytes) → Keeps (λ w. w.manager.private_key ≡ key) m)
    → Keeps (IsSteady env) (in_world m)
in_world-IsSteady env m same = keeps (IsSteady env) _ λ c h. record {
  short = h.short;
  own = λ unregistered.
      let (born, e) = h.own unregistered in
      (born, kept _ m (same c.world.manager.private_key) c.world refl ∙ e);
}

pub carry_out-IsSteady :
    (s : Surroundings) (command : UserCommand) → Keeps (IsSteady s.env) (carry_out s command)
unfolding carry_out
carry_out-IsSteady s command =
    >>=-Keeps (IsSteady s.env) (in_world (create_server_request s.env command)) _
      (in_world-IsSteady s.env _
        (λ key. create_server_request-Settled (private_key-Settled key) s.env command))
      (λ request.
        >>=-Keeps (IsSteady s.env) (exchange s request) _
          (keeps (IsSteady s.env) _ (λ c h. record { short = h.short; own = h.own }))
          (λ response.
            in_world-IsSteady s.env _
              (λ key. handle_response-Settled (private_key-Settled key) s.env response)))
