-- ===== src/Server/Events/Invariant.antt =====
-- What the loop of MessageUServer.start_server (server/message_u_server.py) keeps true, whatever its
-- clients send: the tables are sound, and a connection is served at most once.
use instant_messaging_progra.Base.{
  ℕ, suc, ◌<◌, ◌≡◌, refl, ap, subst, List, [], ◌∷◌, ◌++◌, Bytes, All, All-append, false, Bool-cases,
  inl, inr, Result, arith, ◌==◌,
}
use instant_messaging_progra.Base.Exec.{Keeps, keeps, kept, >>=-Keeps}
use instant_messaging_progra.Server.Storage.{is_in}
use instant_messaging_progra.Server.Soundness.{
  IsSound, soundness, handle_request-IsSound, after_send_process-IsSound,
}
use instant_messaging_progra.Server.Sessions.{respond}
use instant_messaging_progra.Server.Events.{
  MessageUServer, accept, answer, serve, handle_session, in_database, unregister, remove, Step,
  accepts, serves, Reaches, here, later,
}

-- Numbers grow, as the connections were accepted.
unfoldable pub AreGrowing : List ℕ → Type 0
AreGrowing [] = Unit
AreGrowing (c ∷ cs) = All (λ d. c < d) cs × AreGrowing cs

pub record IsRunning (server : MessageUServer) : Type 0 where
  pub sound : IsSound server.database
  pub growing : AreGrowing server.registered
  pub known : All (λ c. c < server.accepted) server.registered

serve-IsSound :
    (rounds : ℕ) (fresh : Bytes) (input : List Bytes) (sends : Result (Unit {0}))
    → Keeps IsSound (serve rounds fresh input sends)
unfolding serve answer respond
serve-IsSound rounds fresh input sends =
    search (soundness, handle_request-IsSound, after_send_process-IsSound) depth 12

AreGrowing-append :
    (cs : List ℕ) (c : ℕ) → AreGrowing cs → All (λ d. d < c) cs → AreGrowing (cs ++ (c ∷ []))
unfolding AreGrowing
AreGrowing-append [] c h below = (tt, tt)
AreGrowing-append (d ∷ cs) c (above, h) (less, below) =
    (All-append (λ e. d < e) cs (c ∷ []) above (less, tt), AreGrowing-append cs c h below)

All-remove : (P : ℕ → Type 0) (conn : ℕ) (cs : List ℕ) → All P cs → All P (remove conn cs)
unfolding remove
All-remove P conn [] h = tt
All-remove P conn (c ∷ cs) (h, hs) = elim (Bool-cases (c == conn)) [
  | inl same ↦ rw same hs
  | inr other ↦ rw other (h, All-remove P conn cs hs)
]

AreGrowing-remove : (conn : ℕ) (cs : List ℕ) → AreGrowing cs → AreGrowing (remove conn cs)
unfolding AreGrowing remove
AreGrowing-remove conn [] h = tt
AreGrowing-remove conn (c ∷ cs) (above, h) = elim (Bool-cases (c == conn)) [
  | inl same ↦ rw same h
  | inr other ↦ rw other (All-remove (λ d. c < d) conn cs above, AreGrowing-remove conn cs h)
]

is_in-above : (conn : ℕ) (cs : List ℕ) → All (λ d. conn < d) cs → is_in cs conn ≡ false
unfolding is_in
is_in-above conn [] h = refl
is_in-above conn (c ∷ cs) (h, hs) =
    let other : (c == conn) ≡ false = ground arith in rw other (is_in-above conn cs hs)

-- A connection is registered once, so it is not registered any more after it was removed.
pub is_in-remove : (conn : ℕ) (cs : List ℕ) → AreGrowing cs → is_in (remove conn cs) conn ≡ false
unfolding AreGrowing remove is_in
is_in-remove conn [] h = refl
is_in-remove conn (c ∷ cs) (above, h) = elim (Bool-cases (c == conn)) [
  | inl same ↦
      (let e : c ≡ conn = ground arith in
        rw same (is_in-above conn cs (subst (λ n. All (λ d. n < d) cs) e above)))
  | inr other ↦ rw (other, other) (is_in-remove conn cs h)
]

-- Removing one connection registers no other.
is_in-remove_other :
    (conn x : ℕ) (cs : List ℕ) → is_in cs x ≡ false → is_in (remove conn cs) x ≡ false
unfolding remove is_in
is_in-remove_other conn x [] h = refl
is_in-remove_other conn x (c ∷ cs) h = ground (arith, is_in-remove_other conn x cs)

is_in-append_new :
    (cs : List ℕ) (x n : ℕ) → x < n → is_in cs x ≡ false → is_in (cs ++ (n ∷ [])) x ≡ false
unfolding is_in
is_in-append_new [] x n h e = ground arith
is_in-append_new (c ∷ cs) x n h e = ground (arith, is_in-append_new cs x n)

unregister-Keeps :
    (P : MessageUServer → Type 0) (conn : ℕ)
    → ((server : MessageUServer)
        → P server
        → P (record server { registered = remove conn server.registered }))
    → Keeps P (unregister conn)
unfolding unregister
unregister-Keeps P conn h = keeps P _ go
  where
    go : (server : MessageUServer) → P server → P (unregister conn server).1
    go server p = elim (Bool-cases (is_in server.registered conn)) [
      | inl there ↦ rw there (h server p)
      | inr missing ↦ rw missing p
    ]

-- What a session keeps true of the server.
session-Keeps :
    (P : MessageUServer → Type 0) (conn rounds : ℕ) (fresh : Bytes) (input : List Bytes)
    (sends : Result (Unit {0}))
    → ((server : MessageUServer)
        → P server
        → P (record server { database = (serve rounds fresh input sends server.database).1 }))
    → ((server : MessageUServer)
        → P server
        → P (record server { registered = remove conn server.registered }))
    → Keeps P (handle_session conn rounds fresh input sends)
unfolding handle_session
session-Keeps P conn rounds fresh input sends served removed =
    >>=-Keeps P (in_database (serve rounds fresh input sends)) _ (keeps P _ served)
      (λ u. unregister-Keeps P conn removed)

IsRunning-Keeps :
    (conn rounds : ℕ) (fresh : Bytes) (input : List Bytes) (sends : Result (Unit {0}))
    → Keeps IsRunning (handle_session conn rounds fresh input sends)
IsRunning-Keeps conn rounds fresh input sends =
    session-Keeps IsRunning conn rounds fresh input sends
      (λ server h. record {
        sound = kept IsSound _ (serve-IsSound rounds fresh input sends) server.database h.sound;
        growing = h.growing;
        known = h.known;
      })
      (λ server h. record {
        sound = h.sound;
        growing = AreGrowing-remove conn server.registered h.growing;
        known = All-remove (λ c. c < server.accepted) conn server.registered h.known;
      })

accept-IsRunning : (server : MessageUServer) → IsRunning server → IsRunning (accept server).1
unfolding accept
accept-IsRunning server h = record {
  sound = h.sound;
  growing = AreGrowing-append server.registered server.accepted h.growing h.known;
  known =
      All-append (λ c. c < suc server.accepted) server.registered (server.accepted ∷ [])
        (raised server.registered h.known) (omega arith, tt);
}
  where
    raised :
        (cs : List ℕ) → All (λ c. c < server.accepted) cs → All (λ c. c < suc server.accepted) cs
    raised [] h = tt
    raised (c ∷ cs) (h, hs) = (omega arith, raised cs hs)

-- A connection that was accepted before and is not registered.
abbrev IsClosed : ℕ → MessageUServer → Type 0
IsClosed conn server = (conn < server.accepted) × (is_in server.registered conn ≡ false)

Step-IsClosed :
    (x : ℕ) (before after : MessageUServer)
    → Step before after
    → IsClosed x before
    → IsClosed x after
unfolding accept
Step-IsClosed x before _ accepts (old, closed) =
    (omega arith, is_in-append_new before.registered x before.accepted old closed)
Step-IsClosed x before after (serves conn rounds fresh input sends there e) h =
    subst (IsClosed x) (ap (λ p. p.1) e) (
      kept (IsClosed x) _
        (session-Keeps (IsClosed x) conn rounds fresh input sends (λ server p. p)
          (λ server p. (p.0, is_in-remove_other conn x server.registered p.1)))
        before h)

Step-IsRunning :
    (before after : MessageUServer) → Step before after → IsRunning before → IsRunning after
Step-IsRunning before _ accepts h = accept-IsRunning before h
Step-IsRunning before after (serves conn rounds fresh input sends there e) h =
    subst IsRunning (ap (λ p. p.1) e)
      (kept IsRunning _ (IsRunning-Keeps conn rounds fresh input sends) before h)

-- Along every run of the server's loop, whatever the clients send and in whatever order they are
-- served, the tables stay sound and the registered connections stay in the order in which they were
-- accepted; and a connection that was served and unregistered is never registered again.
pub Reaches-IsRunning :
    (before after : MessageUServer)
    → Reaches before after
    → IsRunning before
    → IsRunning after
      × ((conn : ℕ)
          → conn < before.accepted
          → is_in before.registered conn ≡ false
          → (conn < after.accepted) × (is_in after.registered conn ≡ false))
Reaches-IsRunning before _ here h = (h, λ conn old closed. (old, closed))
Reaches-IsRunning before after (later {between = between} step rest) h =
    let (running, stays) =
      Reaches-IsRunning between after rest (Step-IsRunning before between step h) in
    (
      running,
      λ conn old closed.
          let p = Step-IsClosed conn before between step (old, closed) in stays conn p.0 p.1,
    )
