-- ===== src/Qemu/Monitor/Endless.antt =====
-- internal/qemu/monitor.go: connectLocked against a peer that drops every handshake.
use qudata_agent.Common.{
  ap₂, ℕ, zero, suc, refl, ap, true, Option, none, List, [], ◌≡◌, ◌∷◌, ◌&&◌, ◌||◌, ◌∙◌,
}
use qudata_agent.Qemu.Monitor.Exec.{
  Reconnect, on_tried, on_greeting, on_dial, connect_locked, on_reconnected, exec_with,
  ensure_connected, on_ensured, on_capabilities, capabilities,
}
use qudata_agent.Qemu.Monitor.{
  QmpClient, Dial, Peer, refused, Conn, exec_once, accepted, Message, exchange, retries,
  is_connection_error, is_closed,
}
use qudata_agent.Domain.{Result, ok, err}
use qudata_agent.Qemu.Monitor.Returns.{drops, drops_after, drops_from}
use qudata_agent.Common.Text.{Text}

-- The call that is made behind a dropped handshake.
abbrev Waits : Reconnect → QmpClient → Type 0
Waits reconnect c =
    (c' : QmpClient) → c'.auto_reconn ≡ true → c'.dials ≡ c.dials → reconnect c' ≡ none

on_tried-none :
    (reconnect : Reconnect) (r : Result Text × Option Conn) (c : QmpClient)
    → c.auto_reconn ≡ true
    → c.conn ≡ r.1
    → drops_after r ≡ true
    → Waits reconnect c
    → on_tried reconnect capabilities (r.0, c) ≡ none
unfolding on_tried on_reconnected
on_tried-none reconnect (ok payload, k) c auto there d w = cc
on_tried-none reconnect (err e, k) c auto there d w =
    let again : retries c e ≡ true =
      ap₂ (λ a (o : Option Conn). a && (is_connection_error e || is_closed o)) auto there ∙ d in
    rw (again, w c auto refl) refl

on_greeting-none :
    (reconnect : Reconnect) (k : Conn) (ms : List Message) (c : QmpClient)
    → c.auto_reconn ≡ true
    → drops_from k ms ≡ true
    → Waits reconnect c
    → on_greeting reconnect k ms c ≡ none
unfolding on_greeting exec_with ensure_connected on_ensured exec_once on_capabilities
on_greeting-none reconnect k [] c auto d w = cc
on_greeting-none reconnect k (greeting ∷ ms) c auto d w = ap on_capabilities (
    on_tried-none reconnect (exchange capabilities (record k { incoming = ms }))
      (record c {
        conn = (exchange capabilities (record k { incoming = ms })).1;
        sent = capabilities ∷ c.sent;
      })
      auto refl d w)

on_dial-none :
    (reconnect : Reconnect) (d : Dial) (c : QmpClient)
    → c.auto_reconn ≡ true
    → drops d ≡ true
    → Waits reconnect c
    → on_dial reconnect d c ≡ none
unfolding on_dial
on_dial-none reconnect (refused e) c auto d w = cc
on_dial-none reconnect (accepted k) c auto d w = on_greeting-none reconnect k k.incoming c auto d w

-- Against a peer that takes every dial, greets and then drops the handshake, connecting never returns:
-- no amount of fuel is enough. The client must have automatic reconnection, which is how it is made.
pub connect_locked-none :
    (fuel : ℕ) (peer : Peer) (c : QmpClient)
    → c.auto_reconn ≡ true
    → ((i : ℕ) → drops (peer i) ≡ true)
    → connect_locked fuel peer c ≡ none
unfolding connect_locked
connect_locked-none zero peer c auto d = refl
connect_locked-none (suc fuel) peer c auto d =
    on_dial-none (connect_locked fuel peer) (peer c.dials)
      (record c { conn = none; dials = suc c.dials }) auto (d c.dials)
      (λ c' auto' same. connect_locked-none fuel peer c' auto' d)
