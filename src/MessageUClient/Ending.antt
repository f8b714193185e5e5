-- ===== src/MessageUClient/Ending.antt =====
-- How the loop of startClient (client/MessageUClient.cpp) uses up standard input, and what it does at
-- its end.
use instant_messaging_progra.Base.{
  ℕ, zero, suc, ◌≤◌, ◌≡◌, refl, sym, ap, ◌∙◌, List, [], ◌∷◌, ◌++◌, Bytes, Bool, true, false, not,
  length, replicate, append_assoc, append-nil, Result, ok, throw, stuck, exception, if◌then◌else◌,
  text, arith, stoi,
}
use instant_messaging_progra.Base.Exec.{
  Exec, lift, ◌>>=◌, ◌>>◌, Keeps, keeps, kept, >>=-Keeps, pure-Keeps, lift-Keeps,
}
use instant_messaging_progra.ServerResponse.{ServerResponse}
use instant_messaging_progra.UserCommand.{UserCommand, is_client_done, create_server_request}
use instant_messaging_progra.UserCommandConsoleParser.{
  getline, read_user_name_from_console, one_name, name_and_line, command_of, assert_code_length,
  code_of, get_next_command,
}
use instant_messaging_progra.MessageUClient.{
  Client, Outcome, running, finished, broken, Surroundings, in_world, exchange, carry_out, display,
  conclude, obey, round, run,
}
use instant_messaging_progra.MessageUClient.Rounds.{client_of}

-- Reading takes lines away and puts none back.
abbrev AtMost : ℕ → List Bytes → Type 0
AtMost k input = length input ≤ k

getline-AtMost : (k : ℕ) → Keeps (AtMost k) getline
unfolding getline
getline-AtMost k = keeps (AtMost k) _ go
  where
    go : (input : List Bytes) → length input ≤ k → length (getline input).1 ≤ k
    go [] h = h
    go (line ∷ rest) h = omega arith

if-AtMost :
    (k : ℕ) (b : Bool) (m n : Exec (List Bytes) UserCommand)
    → Keeps (AtMost k) m
    → Keeps (AtMost k) n
    → Keeps (AtMost k) (if b then m else n)
if-AtMost k true m n hm hn = hm
if-AtMost k false m n hm hn = hn

ruleset reading = (>>=-Keeps, pure-Keeps, lift-Keeps, getline-AtMost)

read_user_name-AtMost : (k : ℕ) → Keeps (AtMost k) read_user_name_from_console
unfolding read_user_name_from_console
read_user_name-AtMost k = search reading

one_name-AtMost : (k : ℕ) (f : Bytes → UserCommand) → Keeps (AtMost k) (one_name f)
one_name-AtMost k f = search (reading, read_user_name-AtMost)

name_and_line-AtMost :
    (k : ℕ) (f : Bytes → Bytes → UserCommand) → Keeps (AtMost k) (name_and_line f)
name_and_line-AtMost k f = search (reading, read_user_name-AtMost)

command_of-AtMost : (k : ℕ) (allow : Bool) (code : ℕ) → Keeps (AtMost k) (command_of allow code)
unfolding command_of
command_of-AtMost k allow code =
    search (if-AtMost, reading, one_name-AtMost, name_and_line-AtMost) depth 14

abbrev behind_line : Bool → Bytes → Exec (List Bytes) UserCommand
behind_line allow line =
    lift (assert_code_length line)
    >> (lift (stoi 10 line) >>= λ code. command_of allow (code_of code))

behind_line-AtMost :
    (k : ℕ) (allow : Bool) (line : Bytes) → Keeps (AtMost k) (behind_line allow line)
behind_line-AtMost k allow line = search (reading, command_of-AtMost)

get_next_command-shorter :
    (allow : Bool) (input : List Bytes) (n : ℕ)
    → length input ≤ suc n
    → length (get_next_command allow input).1 ≤ n
unfolding get_next_command getline
get_next_command-shorter allow [] n h = omega arith
get_next_command-shorter allow (line ∷ rest) n h =
    kept (AtMost n) (behind_line allow line) (behind_line-AtMost n allow line) rest (omega arith)

-- Carrying out a command leaves standard input alone.
abbrev Has : List Bytes → Client → Type 0
Has input c = c.input ≡ input

carry_out-Has :
    (s : Surroundings) (input : List Bytes) (command : UserCommand)
    → Keeps (Has input) (carry_out s command)
unfolding carry_out
carry_out-Has s input command =
    >>=-Keeps (Has input) (in_world (create_server_request s.env command)) _
      (keeps (Has input) _ (λ c p. p))
      (λ request.
        >>=-Keeps (Has input) (exchange s request) _ (keeps (Has input) _ (λ c p. p))
          (λ response. keeps (Has input) _ (λ c p. p)))

conclude-Has :
    (s : Surroundings) (r : Result ServerResponse) (c : Client)
    → (client_of (conclude s (r, c))).input ≡ c.input
unfolding conclude display
conclude-Has s (ok response) c = refl
conclude-Has s (throw e) c = refl
conclude-Has s (stuck f) c = refl

obey-Has :
    (s : Surroundings) (r : Result UserCommand) (c : Client)
    → (client_of (obey s r c)).input ≡ c.input
unfolding obey display
obey-Has s (ok command) c = go (is_client_done command)
  where
    go :
        (b : Bool)
        → (client_of (
            if b
            then finished (display s (text "Client finished successfully.\nGoodbye!") c)
            else conclude s (carry_out s command c))).input
          ≡ c.input
    go true = refl
    go false =
        conclude-Has s _ _
        ∙ kept (Has c.input) (carry_out s command) (carry_out-Has s c.input command) c refl
obey-Has s (throw e) c = refl
obey-Has s (stuck f) c = refl

round-shorter :
    (s : Surroundings) (c : Client) (n : ℕ)
    → length c.input ≤ suc n
    → length (client_of (round s c)).input ≤ n
unfolding round
round-shorter s c n h =
    rw (obey-Has s (get_next_command (not c.is_user_registered) c.input).0 _)
      (get_next_command-shorter (not c.is_user_registered) c.input n h)

-- The loop has been left, or there is nothing more to read.
abbrev pub IsOver : Outcome → Type 0
IsOver (running c) = c.input ≡ []
IsOver (finished c) = Unit
IsOver (broken c) = Unit

no_lines : (input : List Bytes) → length input ≤ 0 → input ≡ []
no_lines [] h = refl
no_lines (line ∷ rest) h = absurd (omega arith)

after_round :
    (s : Surroundings) (n : ℕ) (o : Outcome)
    → ((c : Client) → length c.input ≤ n → IsOver (run s n c))
    → length (client_of o).input ≤ n
    → IsOver (elim o as (λ _. Outcome) [
      | running c' ↦ run s n c'
      | finished c' ↦ finished c'
      | broken c' ↦ broken c'
    ])
after_round s n (running c) over h = over c h
after_round s n (finished c) over h = tt
after_round s n (broken c) over h = tt

-- A run of the loop of startClient with at least as many rounds as there are lines of input has
-- left the loop or has no line of input left.
pub run-IsOver :
    (s : Surroundings) (rounds : ℕ) (c : Client) → length c.input ≤ rounds → IsOver (run s rounds c)
unfolding run
run-IsOver s zero c h = no_lines c.input h
run-IsOver s (suc n) c h = after_round s n (round s c) (run-IsOver s n) (round-shorter s c n h)

round-nothing :
    (s : Surroundings) (c : Client)
    → round s (record c { input = [] })
      ≡ running (record c { input = []; shown = c.shown ++ (text "unknown command" ∷ []) })
unfolding round obey get_next_command getline assert_code_length exception display
round-nothing s c = refl

-- Once the input is used up, every further round of the loop of startClient shows "unknown command"
-- and changes nothing else, however many rounds there are.
pub run-nothing :
    (s : Surroundings) (rounds : ℕ) (c : Client)
    → run s rounds (record c { input = [] })
      ≡ running
          (record c { input = []; shown = c.shown ++ replicate rounds (text "unknown command") })
unfolding run
run-nothing s zero c =
    ap (λ z. running (record c { input = []; shown = z })) (sym (append-nil c.shown))
run-nothing s (suc n) c =
    rw (round-nothing s c, run)
      (run-nothing s n (record c { shown = c.shown ++ (text "unknown command" ∷ []) })
        ∙ ap (λ z. running (record c { input = []; shown = z }))
            (append_assoc c.shown (text "unknown command" ∷ [])
              (replicate n (text "unknown command"))))
