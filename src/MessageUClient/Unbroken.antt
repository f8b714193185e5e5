-- ===== src/MessageUClient/Unbroken.antt =====
-- Rounds of client/MessageUClient.cpp and all that they call: byte buffers and the loops over them.
use instant_messaging_progra.Base.{
  ℕ, zero, suc, ◌^◌, ◌<◌, ◌≤◌, ◌≡◌, refl, List, Bytes, length, Bool, true, false, not, Bool-cases,
  inl, inr, Result, ok, throw, stuck, Yields, IsDefined, if◌then◌else◌, arith,
}
use instant_messaging_progra.Base.Exec.{kept, ◌>>=◌}
use instant_messaging_progra.Base.Exec.Makes.{defined-Yields, made, continue-Yields}
use instant_messaging_progra.RsaWrapper.KeyPair.{RsaLaws, public_of}
use instant_messaging_progra.ServerRequest.Any.{Fits}
use instant_messaging_progra.ServerResponse.{ServerResponse}
use instant_messaging_progra.ServerResponse.Handle.{handle_response}
use instant_messaging_progra.TcpNetworkClientManager.{Connection}
use instant_messaging_progra.TcpNetworkClientManager.Receive.{
  Allocates, Delivers, handle_request-IsDefined,
}
use instant_messaging_progra.TcpNetworkClientManager.Sending.{Writes}
use instant_messaging_progra.UserCommand.{
  UserCommand, is_client_done, create_server_request, register, clients_list, request_public_key,
  request_waiting_messages, send_text, send_request_symmetric_key, send_your_symmetric_key,
  send_file_command, exit_client,
}
use instant_messaging_progra.UserCommandConsoleParser.{get_next_command}
use instant_messaging_progra.UserCommandConsoleParser.Commands.{
  IsAllowed, get_next_command-IsAllowed, All-LineOf,
}
use instant_messaging_progra.MessageUClient.{
  Client, Outcome, running, finished, broken, Surroundings, in_world, exchange, carry_out, display,
  conclude, obey, round, run, started, start_client, is_response_register_success, after_init, init,
}
use instant_messaging_progra.MessageUClient.Defined.{Orderly, handle_response-Safe}
use instant_messaging_progra.MessageUClient.Rounds.{client_of}
use instant_messaging_progra.MessageUClient.Opening.{Owns, init-Owns}
use instant_messaging_progra.MessageUClient.Steady.{
  AreShort, IsSteady, get_next_command-AreShort, carry_out-IsSteady,
}
use instant_messaging_progra.MessageUClient.Fitting.{Ready, create_server_request-Fits}
use instant_messaging_progra.World.{World}

-- A connection whose calls return or throw, and whose reads fill the buffer.
pub record IsWorking (c : Connection) : Type 0 where
  pub connects : IsDefined c.connect
  pub writes : Writes c
  pub delivers : Delivers c

abbrev pub IsUnbroken : Outcome → Type 0
IsUnbroken (running c) = Unit {0}
IsUnbroken (finished c) = Unit {0}
IsUnbroken (broken c) = ⊥

module _ (s : Surroundings) (laws : RsaLaws s.env) (orderly : Orderly s.env)
    (key_size : (born : ℕ) → length (public_of s.env born) ≤ 160) (allocates : Allocates s.alloc)
    (works : (n : ℕ) → IsWorking (s.connections n)) where
  -- What getNextCommand returned is ready to be carried out.
  ready :
      (c : Client) (command : UserCommand)
      → IsSteady s.env c
      → IsAllowed (not c.is_user_registered) c.input command
      → Ready s.env c.world command
  ready c (register name) steady (allowed, fits) =
      let (born, own) = steady.own (unregistered c.is_user_registered allowed) in
      (omega arith, born, own, key_size born)
    where
      unregistered : (b : Bool) → not b ≡ true → b ≡ false
      unregistered true h = absurd (cc)
      unregistered false h = refl
  ready c clients_list steady allowed = tt
  ready c (request_public_key target) steady allowed = tt
  ready c request_waiting_messages steady allowed = tt
  ready c (send_text target message) steady (fits, typed) =
      All-LineOf (λ line. length line < 2 ^ 31) message c.input (omega arith) steady.short typed
  ready c (send_request_symmetric_key target) steady allowed = tt
  ready c (send_your_symmetric_key target) steady allowed = tt
  ready c (send_file_command target path) steady allowed = tt
  ready c exit_client steady allowed = tt

  carry_out-IsDefined :
      (command : UserCommand) (c : Client)
      → Ready s.env c.world command
      → Yields (λ response. Unit {0}) (carry_out s command c).0
  unfolding carry_out
  carry_out-IsDefined command c r =
      continue-Yields (λ response. Unit {0}) Fits
        (in_world (create_server_request s.env command) c).0
        (λ request. exchange s request >>= λ response. in_world (handle_response s.env response))
        (in_world (create_server_request s.env command) c).1
        (create_server_request-Fits s.env orderly laws c.world command r)
        λ request fits.
          continue-Yields (λ response. Unit {0}) (λ response. Unit {0}) _
            (λ response. in_world (handle_response s.env response)) _
            (defined-Yields _ (
              handle_request-IsDefined s.alloc allocates (s.connections c.requests)
                (works c.requests).delivers request fits (works c.requests).connects
                (works c.requests).writes))
            (λ response u. made (λ r. Unit {0}) _ (handle_response-Safe s.env orderly response) _)

  -- The round after a command was read.
  conclude-IsSteady :
      (r : Result ServerResponse) (c : Client)
      → Yields (λ response. Unit {0}) r
      → IsSteady s.env c
      → IsUnbroken (conclude s (r, c)) × IsSteady s.env (client_of (conclude s (r, c)))
  unfolding conclude display
  conclude-IsSteady (ok response) c h steady = (
    tt,
    record { short = steady.short; own = λ off. steady.own (was_off c.is_user_registered off) },
  )
    where
      was_off :
          (b : Bool)
          → (if b then true else is_response_register_success response) ≡ false
          → b ≡ false
      was_off true off = absurd (cc)
      was_off false off = refl
  conclude-IsSteady (throw e) c h steady = (tt, record { short = steady.short; own = steady.own })
  conclude-IsSteady (stuck f) c h steady = absurd h

  obey-IsSteady :
      (r : Result UserCommand) (c : Client)
      → Yields (Ready s.env c.world) r
      → IsSteady s.env c
      → IsUnbroken (obey s r c) × IsSteady s.env (client_of (obey s r c))
  unfolding obey display
  obey-IsSteady (ok command) c h steady = elim (Bool-cases (is_client_done command)) [
    | inl last ↦ rw last (tt, record { short = steady.short; own = steady.own })
    | inr more ↦ rw more (
        conclude-IsSteady (carry_out s command c).0 (carry_out s command c).1
          (carry_out-IsDefined command c h)
          (kept (IsSteady s.env) _ (carry_out-IsSteady s command) c steady))
  ]
  obey-IsSteady (throw e) c h steady = (tt, record { short = steady.short; own = steady.own })
  obey-IsSteady (stuck f) c h steady = absurd h

  round-IsSteady :
      (c : Client)
      → IsSteady s.env c
      → IsUnbroken (round s c) × IsSteady s.env (client_of (round s c))
  unfolding round
  round-IsSteady c steady =
      let allow = not c.is_user_registered in
      obey-IsSteady (get_next_command allow c.input).0
        (record c { input = (get_next_command allow c.input).1 })
        (weaken (get_next_command allow c.input).0 (get_next_command-IsAllowed allow c.input))
        (record {
          short = kept AreShort _ (get_next_command-AreShort allow) c.input steady.short;
          own = steady.own;
        })
    where
      weaken :
          (r : Result UserCommand)
          → Yields (IsAllowed (not c.is_user_registered) c.input) r
          → Yields (Ready s.env c.world) r
      weaken (ok command) h = ready c command steady h
      weaken (throw e) h = tt
      weaken (stuck f) h = h

  run-IsUnbroken : (rounds : ℕ) (c : Client) → IsSteady s.env c → IsUnbroken (run s rounds c)
  unfolding run
  run-IsUnbroken zero c steady = tt
  run-IsUnbroken (suc rounds) c steady =
      by_outcome (round s c) (round-IsSteady c steady) (run-IsUnbroken rounds)
    where
      by_outcome :
          (o : Outcome)
          → IsUnbroken o × IsSteady s.env (client_of o)
          → ((c' : Client) → IsSteady s.env c' → IsUnbroken (run s rounds c'))
          → IsUnbroken (elim o as (λ _. Outcome) [
            | running c' ↦ run s rounds c'
            | finished c' ↦ finished c'
            | broken c' ↦ broken c'
          ])
      by_outcome (running c') h later = later c' h.1
      by_outcome (finished c') h later = tt
      by_outcome (broken c') h later = absurd h.0

  -- However many rounds startClient is followed, every read and write of a byte buffer is in
  -- bounds, and every loop that sends a request, receives a response or parses one ends, whatever
  -- is typed and whatever the server answers. The conditions are that the lines have fewer than
  -- 2^31 bytes, that an allocation has the size that was asked for, that connecting, reading and
  -- writing return or throw and a read fills the buffer, that Crypto++ and the files do what is in
  -- RsaLaws and Orderly, and that a generated public key has at most 160 bytes.
  pub start_client-IsUnbroken :
      (rounds : ℕ) (w : World) (input : List Bytes)
      → AreShort input
      → IsUnbroken (start_client s rounds w input)
  unfolding start_client
  start_client-IsUnbroken rounds w input short = starts (init s.env w) (init-Owns s.env orderly w)
    where
      starts : (p : Result Bool × World) → Owns s.env p → IsUnbroken (after_init s rounds input p)
      starts (ok registered, w') own =
          run-IsUnbroken rounds (started w' registered input) (record { short = short; own = own })
      starts (throw e, w') own = tt
      starts (stuck f, w') own = absurd own
