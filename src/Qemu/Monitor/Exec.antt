-- ===== src/Qemu/Monitor/Exec.antt =====
-- internal/qemu/monitor.go: exec, connectLocked and the commands.
use qudata_agent.Common.{
  ℕ, zero, suc, Bool, not, Option, none, some, List, [], ◌++◌, ◌∷◌, if◌then◌else◌,
}
use qudata_agent.Qemu.Monitor.{
  QmpClient, exec_once, Conn, Dial, Peer, Message, retries, is_closed, refused, accepted,
}
use qudata_agent.Common.Text.{Text, str}
use qudata_agent.Domain.{Result, Error, ok, err, wrapped, plain}

-- connectLocked calls exec, which calls connectLocked. `none` stands for a call that has not returned
-- with the fuel; `reconnect` is the inner call.
abbrev pub Reconnect : Type 0
Reconnect = QmpClient → Option (Option Error × QmpClient)

-- The second try of exec, by what the reconnect came to; `e` is the error of the first.
unfoldable pub on_reconnected :
    Text → Error → Option (Option Error × QmpClient) → Option (Result Text × QmpClient)
unfolding exec_once
on_reconnected command e none = none
on_reconnected command e (some (some x, c)) = some (err e, c)
on_reconnected command e (some (none, c)) = some (exec_once command c)

unfoldable pub on_tried :
    Reconnect → Text → Result Text × QmpClient → Option (Result Text × QmpClient)
unfolding on_reconnected
on_tried reconnect command (ok payload, c) = some (ok payload, c)
on_tried reconnect command (err e, c) =
    if retries c e then on_reconnected command e (reconnect c) else some (err e, c)

-- What follows ensureConnected, by what it came to.
unfoldable pub on_ensured :
    Reconnect → Text → Option (Option Error × QmpClient) → Option (Result Text × QmpClient)
unfolding on_tried
on_ensured reconnect command none = none
on_ensured reconnect command (some (some e, c)) = some (err e, c)
on_ensured reconnect command (some (none, c)) = on_tried reconnect command (exec_once command c)

unfoldable pub ensure_connected : Reconnect → QmpClient → Option (Option Error × QmpClient)
ensure_connected reconnect c =
    if not (is_closed c.conn)
    then some (none, c)
    else if not c.auto_reconn
    then some (some (plain (str "qmp: not connected")), c)
    else reconnect c

unfoldable pub exec_with : Reconnect → Text → QmpClient → Option (Result Text × QmpClient)
unfolding on_ensured ensure_connected
exec_with reconnect command c = on_ensured reconnect command (ensure_connected reconnect c)

abbrev pub capabilities : Text
capabilities = str "qmp_capabilities"

unfoldable pub on_capabilities :
    Option (Result Text × QmpClient) → Option (Option Error × QmpClient)
on_capabilities none = none
on_capabilities (some (err e, c)) =
    some (some (wrapped (str "negotiate capabilities") e []), record c { conn = none })
on_capabilities (some (ok payload, c)) = some (none, c)

-- The greeting is the first message, whatever it holds.
unfoldable pub on_greeting :
    Reconnect → Conn → List Message → QmpClient → Option (Option Error × QmpClient)
unfolding on_capabilities exec_with
on_greeting reconnect k [] c = some (some (wrapped (str "read greeting") k.broken []), c)
on_greeting reconnect k (greeting ∷ ms) c =
    on_capabilities
      (exec_with reconnect capabilities (record c { conn = some (record k { incoming = ms }) }))

unfoldable pub on_dial : Reconnect → Dial → QmpClient → Option (Option Error × QmpClient)
unfolding on_greeting
on_dial reconnect (refused e) c = some (some (wrapped (str "dial " ++ c.socket_path) e []), c)
on_dial reconnect (accepted k) c = on_greeting reconnect k k.incoming c

unfoldable pub connect_locked : ℕ → Peer → QmpClient → Option (Option Error × QmpClient)
unfolding on_dial
connect_locked zero peer c = none
connect_locked (suc fuel) peer c =
    on_dial (connect_locked fuel peer) (peer c.dials)
      (record c { conn = none; dials = suc c.dials })

unfoldable pub exec : ℕ → Peer → Text → QmpClient → Option (Result Text × QmpClient)
exec fuel peer command c = exec_with (connect_locked fuel peer) command c

-- The commands of Shutdown, Reset, Pause, Resume and Quit, which return exec's error only.
pub data Order : Type 0 where
  shutdown reset pause resume quit : Order

abbrev pub order_command : Order → Text
order_command shutdown = str "system_powerdown"
order_command reset = str "system_reset"
order_command pause = str "stop"
order_command resume = str "cont"
order_command quit = str "quit"

abbrev pub error_of : Option (Result Text × QmpClient) → Option (Option Error × QmpClient)
error_of none = none
error_of (some (ok payload, c)) = some (none, c)
error_of (some (err e, c)) = some (some e, c)

unfoldable pub give_order : ℕ → Peer → Order → QmpClient → Option (Option Error × QmpClient)
give_order fuel peer o c = error_of (exec fuel peer (order_command o) c)

-- The status that json.Unmarshal reads, with the flag `running`.
abbrev status_of :
    (Text → Result (Text × Bool))
    → Option (Result Text × QmpClient)
    → Option (Result (Text × Bool) × QmpClient)
status_of unmarshal none = none
status_of unmarshal (some (err e, c)) = some (err e, c)
status_of unmarshal (some (ok payload, c)) = some (
  (elim (unmarshal payload) [ ok s ↦ ok s | err e ↦ err (wrapped (str "unmarshal status") e []) ]),
  c,
)

unfoldable pub query_status :
    ℕ → Peer → (Text → Result (Text × Bool)) → QmpClient → Option (Result (Text × Bool) × QmpClient)
query_status fuel peer unmarshal c = status_of unmarshal (exec fuel peer (str "query-status") c)
