-- ===== src/Qemu/Monitor/Handshake.antt =====
-- internal/qemu/monitor.go: the handshake of connectLocked, and its second try.
use qudata_agent.Common.{
  subst, ℕ, zero, suc, refl, sym, inl, inr, Bool, false, Option, none, some, List, [], Bool-cases,
  ◌≡◌, ◌∷◌,
}
use qudata_agent.Qemu.Monitor.{
  Conn, Dial, exchange, Message, QmpClient, exec_once, Peer, refused, exec_on, accepted, retries,
}
use qudata_agent.Domain.{Result, Error, err, ok}
use qudata_agent.Qemu.Monitor.Exec.{
  on_reconnected, on_capabilities, on_tried, on_greeting, on_dial, connect_locked, Reconnect,
  exec_with, capabilities, ensure_connected, on_ensured,
}
use qudata_agent.Common.Text.{Text}
use qudata_agent.Qemu.Monitor.Returns.{drops_after, drops, drops_from}

-- A connection on which a second qmp_capabilities gets an error, as QEMU answers it.
abbrev pub RefusesNext : Option Conn → Type 0
RefusesNext none = ⊥
RefusesNext (some k) = (e : Error) × ((exchange capabilities k).0 ≡ err e)

abbrev RefusesAfter : Result Text × Option Conn → Type 0
RefusesAfter (err e, k) = Unit {0}
RefusesAfter (ok payload, k) = RefusesNext k

abbrev RefusesFrom : Conn → List Message → Type 0
RefusesFrom k [] = Unit {0}
RefusesFrom k (greeting ∷ ms) = RefusesAfter (exchange capabilities (record k { incoming = ms }))

-- The first negotiation on a dial's connection may succeed, a second one does not.
abbrev pub NegotiatesOnce : Dial → Type 0
NegotiatesOnce (refused e) = Unit {0}
NegotiatesOnce (accepted k) = RefusesFrom k k.incoming

-- What a call of connectLocked comes to: on success, the connection is of the first dial, whose
-- handshake did not drop.
abbrev pub IsFirst : ℕ → Bool → Option (Option Error × QmpClient) → Type 0
IsFirst dials dropped none = Unit {0}
IsFirst dials dropped (some (some e, c)) = Unit {0}
IsFirst dials dropped (some (none, c)) =
    (c.dials ≡ suc dials) × (dropped ≡ false) × RefusesNext c.conn

-- The inner call only has to leave a connection that refuses.
abbrev Refuses : Option (Option Error × QmpClient) → Type 0
Refuses none = Unit {0}
Refuses (some (some e, c)) = Unit {0}
Refuses (some (none, c)) = RefusesNext c.conn

IsFirst-Refuses :
    (n : ℕ) (b : Bool) (o : Option (Option Error × QmpClient)) → IsFirst n b o → Refuses o
IsFirst-Refuses n b none h = tt
IsFirst-Refuses n b (some (some e, c)) h = tt
IsFirst-Refuses n b (some (none, c)) (same, kept, r) = r

-- After a reconnect the second try is refused, so that nothing succeeds any more.
abbrev Fails : Option (Result Text × QmpClient) → Type 0
Fails none = Unit {0}
Fails (some (err e, c)) = Unit {0}
Fails (some (ok payload, c)) = ⊥

exec_on-Fails :
    (k : Option Conn) (c : QmpClient) → RefusesNext k → Fails (some (exec_on capabilities k c))
exec_on-Fails none c h = tt
exec_on-Fails (some k) c (e, same) = rw same tt

on_reconnected-Fails :
    (x : Error) (o : Option (Option Error × QmpClient))
    → Refuses o
    → Fails (on_reconnected capabilities x o)
unfolding on_reconnected exec_once
on_reconnected-Fails x none h = tt
on_reconnected-Fails x (some (some e, c)) h = tt
on_reconnected-Fails x (some (none, c)) h = exec_on-Fails c.conn c h

on_capabilities-Fails :
    (n : ℕ) (b : Bool) (o : Option (Result Text × QmpClient))
    → Fails o
    → IsFirst n b (on_capabilities o)
unfolding on_capabilities
on_capabilities-Fails n b none h = tt
on_capabilities-Fails n b (some (err e, c)) h = tt
on_capabilities-Fails n b (some (ok payload, c)) h = absurd h

-- The first try, by the answer on the connection.
on_tried-IsFirst :
    (reconnect : Reconnect) (n : ℕ) (r : Result Text × Option Conn) (c : QmpClient)
    → c.dials ≡ suc n
    → c.conn ≡ r.1
    → RefusesAfter r
    → ((c' : QmpClient) → Refuses (reconnect c'))
    → IsFirst n (drops_after r) (on_capabilities (on_tried reconnect capabilities (r.0, c)))
unfolding on_tried on_capabilities
on_tried-IsFirst reconnect n (ok payload, k) c same there once inner =
    (same, refl, subst RefusesNext (sym there) once)
on_tried-IsFirst reconnect n (err e, k) c same there once inner = elim (Bool-cases (retries c e)) [
  | inr f ↦ rw f tt
  | inl t ↦ rw t (
      on_capabilities-Fails n (drops_after (err e, k)) (on_reconnected capabilities e (reconnect c))
        (on_reconnected-Fails e (reconnect c) (inner c)))
]

on_greeting-IsFirst :
    (reconnect : Reconnect) (n : ℕ) (k : Conn) (ms : List Message) (c : QmpClient)
    → c.dials ≡ suc n
    → RefusesFrom k ms
    → ((c' : QmpClient) → Refuses (reconnect c'))
    → IsFirst n (drops_from k ms) (on_greeting reconnect k ms c)
unfolding on_greeting exec_with ensure_connected on_ensured exec_once
on_greeting-IsFirst reconnect n k [] c same once inner = tt
on_greeting-IsFirst reconnect n k (greeting ∷ ms) c same once inner =
    on_tried-IsFirst reconnect n (exchange capabilities (record k { incoming = ms }))
      (record c {
        conn = (exchange capabilities (record k { incoming = ms })).1;
        sent = capabilities ∷ c.sent;
      })
      same refl once inner

on_dial-IsFirst :
    (reconnect : Reconnect) (n : ℕ) (d : Dial) (c : QmpClient)
    → c.dials ≡ suc n
    → NegotiatesOnce d
    → ((c' : QmpClient) → Refuses (reconnect c'))
    → IsFirst n (drops d) (on_dial reconnect d c)
unfolding on_dial
on_dial-IsFirst reconnect n (refused e) c same once inner = tt
on_dial-IsFirst reconnect n (accepted k) c same once inner =
    on_greeting-IsFirst reconnect n k k.incoming c same once inner

-- With a peer that negotiates once on a connection, as QEMU does, connecting succeeds only on its first
-- dial, and only if the handshake there is not dropped: after a reconnect of its own it always fails,
-- since it then negotiates a second time on the connection that the reconnect has negotiated on.
pub connect_locked-IsFirst :
    (fuel : ℕ) (peer : Peer) (c : QmpClient)
    → ((i : ℕ) → NegotiatesOnce (peer i))
    → IsFirst c.dials (drops (peer c.dials)) (connect_locked fuel peer c)
unfolding connect_locked
connect_locked-IsFirst zero peer c once = tt
connect_locked-IsFirst (suc fuel) peer c once =
    on_dial-IsFirst (connect_locked fuel peer) c.dials (peer c.dials)
      (record c { conn = none; dials = suc c.dials }) refl (once c.dials)
      (λ c'.
        IsFirst-Refuses c'.dials (drops (peer c'.dials)) (connect_locked fuel peer c')
          (connect_locked-IsFirst fuel peer c' once))
