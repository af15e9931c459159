-- ===== src/Qemu/Monitor/Sent.antt =====
-- internal/qemu/monitor.go: how often exec writes its command.
use qudata_agent.Common.{
  ℕ, suc, refl, ap, inl, inr, false, not, Option, none, some, List, [], arith, Bool-cases, ◌≡◌, ◌+◌,
  ◌∷◌, if◌then◌else◌, ◌≤◌, ◌∙◌, subst, zero,
}
use qudata_agent.Common.Text.{Text, text_eq, text_eq_refl}
use qudata_agent.Qemu.Monitor.{
  exec_once, Conn, QmpClient, exec_on, is_closed, exchange, retries, Dial, Peer, Message, refused,
  accepted,
}
use qudata_agent.Qemu.Monitor.Exec.{
  on_reconnected, on_tried, on_ensured, ensure_connected, Reconnect, capabilities, on_capabilities,
  on_greeting, on_dial, connect_locked, exec, exec_with,
}
use qudata_agent.Domain.{Error, Result, ok, err}

abbrev pub count : Text → List Text → ℕ
count t [] = 0
count t (x ∷ xs) = let rest = count t xs in if text_eq t x then suc rest else rest

-- The command has been begun as often as before.
abbrev Same : Text → ℕ → Option (Option Error × QmpClient) → Type 0
Same t n none = Unit {0}
Same t n (some (o, c)) = count t c.sent ≡ n

-- Exec has begun it once or twice on success, and at most twice on an error.
abbrev pub IsBegun : Text → ℕ → Option (Result Text × QmpClient) → Type 0
IsBegun t n none = Unit {0}
IsBegun t n (some (ok payload, c)) = (suc n ≤ count t c.sent) × (count t c.sent ≤ n + 2)
IsBegun t n (some (err e, c)) = (n ≤ count t c.sent) × (count t c.sent ≤ n + 2)

-- A try begins a command once, unless there is no connection.
abbrev OneMore : Text → ℕ → Result Text × QmpClient → Type 0
OneMore t n (ok payload, c) = count t c.sent ≡ suc n
OneMore t n (err e, c) = (n ≤ count t c.sent) × (count t c.sent ≤ suc n)

OneMore-exec :
    (t : Text) (n : ℕ) (r : Result Text) (k : Option Conn) (c : QmpClient)
    → count t c.sent ≡ n
    → OneMore t n (r, record c { conn = k; sent = t ∷ c.sent })
OneMore-exec t n (ok payload) k c e = rw (text_eq_refl t) (ap suc e)
OneMore-exec t n (err x) k c e = rw (text_eq_refl t) (omega (arith, e), omega (arith, e))

exec_on-OneMore :
    (t : Text) (n : ℕ) (k : Option Conn) (c : QmpClient)
    → count t c.sent ≡ n
    → OneMore t n (exec_on t k c)
exec_on-OneMore t n none c e = (omega (arith, e), omega (arith, e))
exec_on-OneMore t n (some k) c e = OneMore-exec t n (exchange t k).0 (exchange t k).1 c e

exec_once-OneMore :
    (t : Text) (n : ℕ) (c : QmpClient) → count t c.sent ≡ n → OneMore t n (exec_once t c)
unfolding exec_once
exec_once-OneMore t n c e = exec_on-OneMore t n c.conn c e

-- A try is followed by one more at most.
OneMore-IsBegun :
    (t : Text) (n m : ℕ) (r : Result Text × QmpClient)
    → m ≤ suc n
    → n ≤ m
    → OneMore t m r
    → IsBegun t n (some r)
OneMore-IsBegun t n m (ok payload, c) le ge h = (omega (arith, h, le, ge), omega (arith, h, le))
OneMore-IsBegun t n m (err e, c) le ge h = (omega (arith, h.0, ge), omega (arith, h.1, le))

on_reconnected-IsBegun :
    (t : Text) (n m : ℕ) (x : Error) (o : Option (Option Error × QmpClient))
    → m ≤ suc n
    → n ≤ m
    → Same t m o
    → IsBegun t n (on_reconnected t x o)
unfolding on_reconnected
on_reconnected-IsBegun t n m x none le ge h = tt
on_reconnected-IsBegun t n m x (some (some e, c)) le ge h =
    (omega (arith, h, ge), omega (arith, h, le))
on_reconnected-IsBegun t n m x (some (none, c)) le ge h =
    OneMore-IsBegun t n m (exec_once t c) le ge (exec_once-OneMore t m c h)

on_tried-IsBegun :
    (reconnect : Reconnect) (t : Text) (n : ℕ) (r : Result Text × QmpClient)
    → ((c : QmpClient) → Same t (count t c.sent) (reconnect c))
    → OneMore t n r
    → IsBegun t n (on_tried reconnect t r)
unfolding on_tried
on_tried-IsBegun reconnect t n (ok payload, c) keeps h = (omega (arith, h), omega (arith, h))
on_tried-IsBegun reconnect t n (err e, c) keeps h = elim (Bool-cases (retries c e)) [
  | inr f ↦ rw f (h.0, omega (arith, h.1))
  | inl again ↦
      rw again (on_reconnected-IsBegun t n (count t c.sent) e (reconnect c) h.1 h.0 (keeps c))
]

on_ensured-IsBegun :
    (reconnect : Reconnect) (t : Text) (n : ℕ) (o : Option (Option Error × QmpClient))
    → ((c : QmpClient) → Same t (count t c.sent) (reconnect c))
    → Same t n o
    → IsBegun t n (on_ensured reconnect t o)
unfolding on_ensured
on_ensured-IsBegun reconnect t n none keeps h = tt
on_ensured-IsBegun reconnect t n (some (some e, c)) keeps h = (omega (arith, h), omega (arith, h))
on_ensured-IsBegun reconnect t n (some (none, c)) keeps h =
    on_tried-IsBegun reconnect t n (exec_once t c) keeps (exec_once-OneMore t n c h)

ensure_connected-Same :
    (reconnect : Reconnect) (t : Text) (c : QmpClient)
    → ((c' : QmpClient) → Same t (count t c'.sent) (reconnect c'))
    → Same t (count t c.sent) (ensure_connected reconnect c)
unfolding ensure_connected
ensure_connected-Same reconnect t c keeps = elim (Bool-cases (not (is_closed c.conn))) [
  | inl e ↦ simp e refl
  | inr e ↦ simp e (elim (Bool-cases (not c.auto_reconn)) [
    | inl off ↦ simp off refl
    | inr on ↦ simp on (keeps c)
  ])
]

-- The handshake begins no command but its own.
module _ (t : Text) (other : text_eq t capabilities ≡ false) where
  exec_on-kept :
      (k : Option Conn) (c : QmpClient) → count t (exec_on capabilities k c).1.sent ≡ count t c.sent
  exec_on-kept none c = refl
  exec_on-kept (some k) c = rw other refl

  Kept : ℕ → Option (Result Text × QmpClient) → Type 0
  Kept n none = Unit {0}
  Kept n (some (r, c)) = count t c.sent ≡ n

  on_reconnected-Kept :
      (n : ℕ) (x : Error) (o : Option (Option Error × QmpClient))
      → Same t n o
      → Kept n (on_reconnected capabilities x o)
  unfolding on_reconnected Kept exec_once
  on_reconnected-Kept n x none h = tt
  on_reconnected-Kept n x (some (some e, c)) h = h
  on_reconnected-Kept n x (some (none, c)) h = exec_on-kept c.conn c ∙ h

  on_tried-Kept :
      (reconnect : Reconnect) (n : ℕ) (r : Result Text) (c : QmpClient)
      → ((c' : QmpClient) → Same t (count t c'.sent) (reconnect c'))
      → count t c.sent ≡ n
      → Kept n (on_tried reconnect capabilities (r, c))
  unfolding on_tried Kept
  on_tried-Kept reconnect n (ok payload) c keeps h = h
  on_tried-Kept reconnect n (err e) c keeps h = elim (Bool-cases (retries c e)) [
    | inr f ↦ rw f h
    | inl again ↦
        rw again
          (on_reconnected-Kept n e (reconnect c) (subst (λ k. Same t k (reconnect c)) h (keeps c)))
  ]

  on_capabilities-Same :
      (n : ℕ) (o : Option (Result Text × QmpClient)) → Kept n o → Same t n (on_capabilities o)
  unfolding on_capabilities Kept
  on_capabilities-Same n none h = tt
  on_capabilities-Same n (some (ok payload, c)) h = h
  on_capabilities-Same n (some (err e, c)) h = h

  on_greeting-Same :
      (reconnect : Reconnect) (k : Conn) (ms : List Message) (c : QmpClient)
      → ((c' : QmpClient) → Same t (count t c'.sent) (reconnect c'))
      → Same t (count t c.sent) (on_greeting reconnect k ms c)
  unfolding on_greeting exec_with ensure_connected on_ensured exec_once
  on_greeting-Same reconnect k [] c keeps = refl
  on_greeting-Same reconnect k (greeting ∷ ms) c keeps =
      let k' = record k { incoming = ms } in
      on_capabilities-Same (count t c.sent)
        (on_tried reconnect capabilities (exec_on capabilities (some k') c))
        (on_tried-Kept reconnect (count t c.sent) (exchange capabilities k').0
          (exec_on capabilities (some k') c).1 keeps (exec_on-kept (some k') c))

  on_dial-Same :
      (reconnect : Reconnect) (d : Dial) (c : QmpClient)
      → ((c' : QmpClient) → Same t (count t c'.sent) (reconnect c'))
      → Same t (count t c.sent) (on_dial reconnect d c)
  unfolding on_dial
  on_dial-Same reconnect (refused e) c keeps = refl
  on_dial-Same reconnect (accepted k) c keeps = on_greeting-Same reconnect k k.incoming c keeps

  connect_locked-Same :
      (fuel : ℕ) (peer : Peer) (c : QmpClient)
      → Same t (count t c.sent) (connect_locked fuel peer c)
  unfolding connect_locked
  connect_locked-Same zero peer c = tt
  connect_locked-Same (suc fuel) peer c =
      on_dial-Same (connect_locked fuel peer) (peer c.dials)
        (record c { conn = none; dials = suc c.dials }) (connect_locked-Same fuel peer)

-- Exec begins to write its command once or twice when it succeeds, and at most twice when it fails,
-- however often the connection is made anew in between. The command is not the one of the handshake.
pub exec-IsBegun :
    (t : Text) (fuel : ℕ) (peer : Peer) (c : QmpClient)
    → text_eq t capabilities ≡ false
    → IsBegun t (count t c.sent) (exec fuel peer t c)
unfolding exec exec_with
exec-IsBegun t fuel peer c other =
    let keeps = connect_locked-Same t other fuel peer in
    on_ensured-IsBegun (connect_locked fuel peer) t (count t c.sent)
      (ensure_connected (connect_locked fuel peer) c) keeps
      (ensure_connected-Same (connect_locked fuel peer) t c keeps)
