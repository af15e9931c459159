-- ===== src/Qemu/Monitor/Returns.antt =====
-- internal/qemu/monitor.go: when exec and connectLocked return.
use qudata_agent.Common.{
  refl, sym, inl, inr, Bool, false, Option, none, some, List, [], Bool-cases, ◌≡◌, ◌∷◌, ◌||◌, ◌⊎◌,
  ◌∙◌, none-ne-some, true-ne-false, ◌&&◌, ℕ, subst, true, ◌+◌, ◌<◌, not, arith, suc, zero,
}
use qudata_agent.Domain.{Result, Error, ok, err}
use qudata_agent.Qemu.Monitor.{
  Conn, Dial, Message, exchange, QmpClient, is_connection_error, retries, is_closed, refused,
  accepted, exec_once, Peer,
}
use qudata_agent.Qemu.Monitor.Exec.{
  on_capabilities, on_reconnected, on_tried, Reconnect, capabilities, exec_with, on_greeting,
  on_dial, connect_locked, on_ensured, ensure_connected, exec,
}
use qudata_agent.Common.Text.{Text}

-- Whether the handshake on the answer to a dial fails in a way that makes connectLocked call itself.
abbrev pub drops_after : Result Text × Option Conn → Bool
drops_after (ok payload, k) = false
drops_after (err e, k) = is_connection_error e || is_closed k

abbrev pub drops_from : Conn → List Message → Bool
drops_from k [] = false
drops_from k (greeting ∷ ms) = drops_after (exchange capabilities (record k { incoming = ms }))

abbrev pub drops : Dial → Bool
drops (refused e) = false
drops (accepted k) = drops_from k k.incoming

abbrev pub Returned : {A : Type 0} → Option A → Type 0
Returned {A} o = (a : A) × (o ≡ some a)

on_capabilities-Returned :
    (o : Option (Result Text × QmpClient)) → Returned o → Returned (on_capabilities o)
unfolding on_capabilities
on_capabilities-Returned none (a, e) = absurd (none-ne-some a e)
on_capabilities-Returned (some (ok payload, c)) h = (_, refl)
on_capabilities-Returned (some (err e, c)) h = (_, refl)

on_reconnected-Returned :
    (command : Text) (x : Error) (o : Option (Option Error × QmpClient))
    → Returned o
    → Returned (on_reconnected command x o)
unfolding on_reconnected
on_reconnected-Returned command x none (a, e) = absurd (none-ne-some a e)
on_reconnected-Returned command x (some (none, c)) h = (_, refl)
on_reconnected-Returned command x (some (some y, c)) h = (_, refl)

-- A try returns if it is not followed by a reconnect, or if that returns.
on_tried-Returned :
    (reconnect : Reconnect) (command : Text) (r : Result Text) (c : QmpClient)
    → ((e : Error) → r ≡ err e → (retries c e ≡ false) ⊎ Returned (reconnect c))
    → Returned (on_tried reconnect command (r, c))
unfolding on_tried
on_tried-Returned reconnect command (ok payload) c h = (_, refl)
on_tried-Returned reconnect command (err e) c h = elim (Bool-cases (retries c e)) [
  | inr f ↦ rw f (_, refl)
  | inl t ↦ rw t (
      on_reconnected-Returned command e (reconnect c)
        (elim (h e refl) [ inl f ↦ absurd (true-ne-false (sym t ∙ f)) | inr w ↦ w ]))
]

err_only : (x y : Error) → ◌≡◌ {A = Result Text} (err x) (err y) → x ≡ y
err_only x y e = cc

and_false : (a b : Bool) → b ≡ false → (a && b) ≡ false
and_false true b h = h
and_false false b h = refl

settled :
    (a : Bool) (r : Result Text × Option Conn) (e : Error)
    → drops_after r ≡ false
    → r.0 ≡ err e
    → (a && (is_connection_error e || is_closed r.1)) ≡ false
settled a (ok payload, k) e h same = cc
settled a (err x, k) e h same =
    and_false a (is_connection_error e || is_closed k)
      (subst (λ y. (is_connection_error y || is_closed k) ≡ false) (err_only x e same) h)

-- One try at the handshake on a connection that is there.
handshake-Returned :
    (reconnect : Reconnect) (k : Conn) (c : QmpClient)
    → (drops_after (exchange capabilities k) ≡ false)
      ⊎ ((c' : QmpClient) → c'.dials ≡ c.dials → Returned (reconnect c'))
    → Returned (exec_with reconnect capabilities (record c { conn = some k }))
unfolding exec_with ensure_connected on_ensured exec_once
handshake-Returned reconnect k c (inl h) =
    on_tried-Returned reconnect capabilities (exchange capabilities k).0
      (record c { conn = (exchange capabilities k).1; sent = capabilities ∷ c.sent })
      (λ e same. inl (settled c.auto_reconn (exchange capabilities k) e h same))
handshake-Returned reconnect k c (inr h) =
    on_tried-Returned reconnect capabilities (exchange capabilities k).0
      (record c { conn = (exchange capabilities k).1; sent = capabilities ∷ c.sent })
      (λ e same. inr (h _ refl))

on_greeting-Returned :
    (reconnect : Reconnect) (k : Conn) (ms : List Message) (c : QmpClient)
    → (drops_from k ms ≡ false) ⊎ ((c' : QmpClient) → c'.dials ≡ c.dials → Returned (reconnect c'))
    → Returned (on_greeting reconnect k ms c)
unfolding on_greeting
on_greeting-Returned reconnect k [] c h = (_, refl)
on_greeting-Returned reconnect k (greeting ∷ ms) c h =
    on_capabilities-Returned
      (exec_with reconnect capabilities (record c { conn = some (record k { incoming = ms }) }))
      (handshake-Returned reconnect (record k { incoming = ms }) c h)

on_dial-Returned :
    (reconnect : Reconnect) (d : Dial) (c : QmpClient)
    → (drops d ≡ false) ⊎ ((c' : QmpClient) → c'.dials ≡ c.dials → Returned (reconnect c'))
    → Returned (on_dial reconnect d c)
unfolding on_dial
on_dial-Returned reconnect (refused e) c h = (_, refl)
on_dial-Returned reconnect (accepted k) c h = on_greeting-Returned reconnect k k.incoming c h

-- A later dial that does not drop ends the recursion.
connect_locked-Returned :
    (peer : Peer) (n fuel : ℕ) (c : QmpClient)
    → drops (peer (n + c.dials)) ≡ false
    → n < fuel
    → Returned (connect_locked fuel peer c)
unfolding connect_locked
connect_locked-Returned peer n zero c h lt = absurd (omega (arith, lt))
connect_locked-Returned peer zero (suc fuel) c h lt =
    on_dial-Returned (connect_locked fuel peer) (peer c.dials)
      (record c { conn = none; dials = suc c.dials })
      (inl (let e : 0 + c.dials ≡ c.dials = omega arith in subst (λ i. drops (peer i) ≡ false) e h))
connect_locked-Returned peer (suc n) (suc fuel) c h lt =
    on_dial-Returned (connect_locked fuel peer) (peer c.dials)
      (record c { conn = none; dials = suc c.dials })
      (inr (λ c' same.
        connect_locked-Returned peer n fuel c'
          (let e : n + c'.dials ≡ suc n + c.dials = omega (arith, same) in
            subst (λ i. drops (peer i) ≡ false) (sym e) h)
          (omega (arith, lt))))

-- In any `bound` dials in a row there is one that does not drop.
abbrev pub IsFair : ℕ → Peer → Type 0
IsFair bound peer = (i : ℕ) → (n : ℕ) × (n < bound) × (drops (peer (n + i)) ≡ false)

reconnect-Returned :
    (bound : ℕ) (peer : Peer) (c : QmpClient)
    → IsFair bound peer
    → Returned (connect_locked bound peer c)
reconnect-Returned bound peer c fair =
    let (n, lt, h) = fair c.dials in connect_locked-Returned peer n bound c h lt

on_ensured-Returned :
    (bound : ℕ) (peer : Peer) (command : Text) (o : Option (Option Error × QmpClient))
    → IsFair bound peer
    → Returned o
    → Returned (on_ensured (connect_locked bound peer) command o)
unfolding on_ensured
on_ensured-Returned bound peer command none fair (a, e) = absurd (none-ne-some a e)
on_ensured-Returned bound peer command (some (some e, c)) fair h = (_, refl)
on_ensured-Returned bound peer command (some (none, c)) fair h =
    on_tried-Returned (connect_locked bound peer) command (exec_once command c).0
      (exec_once command c).1
      (λ e same. inr (reconnect-Returned bound peer (exec_once command c).1 fair))

ensure_connected-Returned :
    (bound : ℕ) (peer : Peer) (c : QmpClient)
    → IsFair bound peer
    → Returned (ensure_connected (connect_locked bound peer) c)
unfolding ensure_connected
ensure_connected-Returned bound peer c fair = elim (Bool-cases (not (is_closed c.conn))) [
  | inl e ↦ simp e (_, refl)
  | inr e ↦ simp e (elim (Bool-cases (not c.auto_reconn)) [
    | inl off ↦ simp off (_, refl)
    | inr on ↦ simp on (reconnect-Returned bound peer c fair)
  ])
]

-- A command returns, with a result or an error, whatever the connection is at the start and however it
-- fails, if among any `bound` dials in a row there is one that is refused, ends before the greeting,
-- or answers the handshake with a result or with an error that does not read like one of the
-- connection: fuel `bound` is then enough.
pub exec-Returned :
    (bound : ℕ) (peer : Peer) (command : Text) (c : QmpClient)
    → IsFair bound peer
    → Returned (exec bound peer command c)
unfolding exec exec_with
exec-Returned bound peer command c fair =
    on_ensured-Returned bound peer command (ensure_connected (connect_locked bound peer) c) fair
      (ensure_connected-Returned bound peer c fair)
