-- ===== src/MessageUClient/Rounds.antt =====
-- What the loop of startClient (client/MessageUClient.cpp) keeps true of the client.
use instant_messaging_progra.Base.{
  Bool, true, false, Result, ok, throw, stuck, ◌≡◌, refl, sym, ap, arith, if◌then◌else◌, text, not,
  ◌||◌,
}
use instant_messaging_progra.Base.Exec.{Exec, Keeps, keeps, kept, >>=-Keeps}
use instant_messaging_progra.ClientInMemoryDataManager.Consistency.{IsConsistent}
use instant_messaging_progra.ServerResponse.{ServerResponse}
use instant_messaging_progra.UserCommand.{UserCommand, is_client_done, create_server_request}
use instant_messaging_progra.UserCommandConsoleParser.{get_next_command}
use instant_messaging_progra.MessageUClient.{
  Client, Outcome, running, finished, broken, Surroundings, in_world, exchange, carry_out, display,
  conclude, obey, round, Reaches, here, later,
}
use instant_messaging_progra.MessageUClient.Agreement.{
  create_server_request-Settled, handle_response-Settled, IsConsistent-Settled,
}
use instant_messaging_progra.World.{World}

abbrev Agrees : World → Type 0
Agrees w = IsConsistent w.manager

abbrev pub client_of : Outcome → Client
client_of (running c) = c
client_of (finished c) = c
client_of (broken c) = c

-- The maps of the data manager agree, and the client is registered if `before` is true.
abbrev IsSound : Bool → Client → Type 0
IsSound before c = IsConsistent c.world.manager × (before ≡ true → c.is_user_registered ≡ true)

in_world-IsSound :
    {A : Type 0} (before : Bool) (m : Exec World A)
    → Keeps Agrees m
    → Keeps (IsSound before) (in_world m)
in_world-IsSound before m h = keeps (IsSound before) _ (λ c p. (kept Agrees m h c.world p.0, p.1))

carry_out-IsSound :
    (s : Surroundings) (before : Bool) (command : UserCommand)
    → Keeps (IsSound before) (carry_out s command)
unfolding carry_out
carry_out-IsSound s before command =
    >>=-Keeps (IsSound before) (in_world (create_server_request s.env command)) _
      (in_world-IsSound before _ (create_server_request-Settled IsConsistent-Settled s.env command))
      (λ request.
        >>=-Keeps (IsSound before) (exchange s request) _ (keeps (IsSound before) _ (λ c p. p))
          (λ response.
            in_world-IsSound before _
              (handle_response-Settled IsConsistent-Settled s.env response)))

conclude-IsSound :
    (s : Surroundings) (before : Bool) (r : Result ServerResponse) (c : Client)
    → IsSound before c
    → IsSound before (client_of (conclude s (r, c)))
unfolding conclude display
conclude-IsSound s before (ok response) c (agrees, stays) = (agrees, λ b. ground (arith, stays b))
conclude-IsSound s before (throw e) c h = h
conclude-IsSound s before (stuck f) c h = h

obey-IsSound :
    (s : Surroundings) (before : Bool) (r : Result UserCommand) (c : Client)
    → IsSound before c
    → IsSound before (client_of (obey s r c))
unfolding obey display
obey-IsSound s before (ok command) c h = go (is_client_done command)
  where
    go :
        (b : Bool)
        → IsSound before (
            client_of (
              if b
              then finished (display s (text "Client finished successfully.\nGoodbye!") c)
              else conclude s (carry_out s command c)))
    go true = h
    go false =
        conclude-IsSound s before (carry_out s command c).0 (carry_out s command c).1
          (kept (IsSound before) (carry_out s command) (carry_out-IsSound s before command) c h)
obey-IsSound s before (throw e) c h = h
obey-IsSound s before (stuck f) c h = h

round-IsSound :
    (s : Surroundings) (before : Bool) (c : Client)
    → IsSound before c
    → IsSound before (client_of (round s c))
unfolding round
round-IsSound s before c h =
    obey-IsSound s before (get_next_command (not c.is_user_registered) c.input).0 _ h

registered_stays :
    (before after : Bool) → (before ≡ true → after ≡ true) → (not before || after) ≡ true
registered_stays true after h = h refl
registered_stays false after h = refl

run-IsSound :
    (s : Surroundings) (before : Bool) (c c' : Client)
    → Reaches s c c'
    → IsSound before c
    → IsSound before c'
run-IsSound s before c c' here p = p
run-IsSound s before c c'' (later {c' = c'} e rest) p =
    run-IsSound s before c' c'' rest (rw (sym (ap client_of e)) (round-IsSound s before c p))

-- Every run of the loop of startClient from a client whose two maps agree leads to one whose maps
-- agree, whatever is typed, and whatever the connections and the cipher do; and if the client was
-- registered it still is.
pub Reaches-IsConsistent :
    (s : Surroundings) (c c' : Client)
    → Reaches s c c'
    → IsConsistent c.world.manager
    → IsConsistent c'.world.manager × ((not c.is_user_registered || c'.is_user_registered) ≡ true)
Reaches-IsConsistent s c c' r h =
    let (agrees, stays) = run-IsSound s c.is_user_registered c c' r (h, λ b. b) in
    (agrees, registered_stays c.is_user_registered c'.is_user_registered stays)
