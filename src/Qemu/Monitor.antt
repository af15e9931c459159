-- ===== src/Qemu/Monitor.antt =====
-- internal/qemu/monitor.go: the QMP client. A connection is what its peer does on it from now on.
pub mod Exec
pub mod Returns
pub mod Handshake
pub mod Endless
pub mod Sent
use qudata_agent.Common.{
  ℕ, zero, suc, refl, sym, ap, fun_ext, inl, inr, Bool, true, false, not, Option, none, some, List,
  [], map, arith, ltb, leb, ltb→lt, lt→ltb, leb→le, ==_iff, ==_refl, ==_ne, Bool-cases,
  Option-cases, length, get_elem?, is_nil, length-append, length-map, All, All-append, All-map, ℤ,
  pos, negsuc, int_eq, is_pos, int_eq_iff, int_eq_refl, take, take-nil, is_nil-eq, is_nil-ne,
  ne_of_is_nil, int_le, to_bits, of_bits, mul64, ◌≡◌, ◌+◌, ◌-◌, ◌++◌, ◌∷◌, ◌≢◌, ◌&&◌, ◌||◌, ◌==◌,
  ◌⊎◌, ◌↔◌, ◌∙◌, if◌then◌else◌, ◌≤◌, ◌<◌,
}
use qudata_agent.Common.Text.{Text, str, contains}
use qudata_agent.Domain.{Error, Result, message, err, plain, wrapped, ok}

-- A line of the peer behind its greeting: an event, an error with its class and text, or a result.
pub data Message : Type 0 where
  event : Text → Message
  failure : Text → Text → Message
  returns : Text → Message

-- The messages that Decode will give and the error behind them, and the errors of the next writes;
-- the writes behind those succeed.
pub record Conn : Type 0 where
  pub incoming : List Message
  pub broken : Error
  pub writes : List (Option Error)

pub data Dial : Type 0 where
  refused : Error → Dial
  accepted : Conn → Dial

-- What net.DialTimeout answers, by the number of dials before.
abbrev pub Peer : Type 0
Peer = ℕ → Dial

-- The decoder lives and dies with the connection. `dials` and `sent` count the dials so far and hold
-- the commands that it has begun to write so far, the last first.
pub record QmpClient : Type 0 where
  pub socket_path : Text
  pub conn : Option Conn
  pub auto_reconn : Bool
  pub dials : ℕ
  pub sent : List Text

unfoldable pub new_qmp_client : Text → QmpClient
new_qmp_client socket_path = record {
  socket_path = socket_path;
  conn = none;
  auto_reconn = true;
  dials = 0;
  sent = [];
}

unfoldable pub set_auto_reconnect : Bool → QmpClient → QmpClient
set_auto_reconnect enabled c = record c { auto_reconn = enabled }

unfoldable pub close : QmpClient → QmpClient
close c = record c { conn = none }

unfoldable pub connected : QmpClient → Bool
connected c = elim c.conn [ none ↦ false | some k ↦ true ]

unfoldable pub is_connection_error : Error → Bool
is_connection_error e =
    let t = message e in
    contains t (str "broken pipe")
    || contains t (str "connection reset")
    || contains t (str "EOF")
    || contains t (str "not connected")

-- The loop of execOnce, which skips events, with the messages left unless the connection broke.
unfoldable pub receive : Text → Error → List Message → Result Text × Option (List Message)
receive command broken [] =
    (err (wrapped (str "read response for \"" ++ (command ++ str "\"")) broken []), none)
receive command broken (event name ∷ ms) = receive command broken ms
receive command broken (failure class desc ∷ ms) = (
  err (plain (str "qmp " ++ (command ++ (str ": " ++ (desc ++ (str " (" ++ (class ++ str ")"))))))),
  some ms,
)
receive command broken (returns payload ∷ ms) = (ok payload, some ms)

abbrev pub with_rest : Conn → Option (List Message) → Option Conn
with_rest k none = none
with_rest k (some ms) = some (record k { incoming = ms })

abbrev pub drop_first : List (Option Error) → List (Option Error)
drop_first [] = []
drop_first (e ∷ es) = es

abbrev pub first_write : List (Option Error) → Option Error
first_write [] = none
first_write (e ∷ es) = e

-- execOnce on a connection, by the error of its write: the answer, and the connection unless it was
-- closed.
unfoldable pub exchange_from : Text → Conn → Option Error → Result Text × Option Conn
unfolding receive
exchange_from command k (some e) =
    (err (wrapped (str "write \"" ++ (command ++ str "\"")) e []), none)
exchange_from command k none =
    let (r, rest) = receive command k.broken k.incoming in
    (r, with_rest (record k { writes = drop_first k.writes }) rest)

unfoldable pub exchange : Text → Conn → Result Text × Option Conn
unfolding exchange_from
exchange command k = exchange_from command k (first_write k.writes)

abbrev pub exec_on : Text → Option Conn → QmpClient → Result Text × QmpClient
exec_on command none c = (err (plain (str "qmp: not connected")), c)
exec_on command (some k) c =
    let (r, k') = exchange command k in (r, record c { conn = k'; sent = command ∷ c.sent })

unfoldable pub exec_once : Text → QmpClient → Result Text × QmpClient
unfolding exchange
exec_once command c = exec_on command c.conn c

abbrev pub is_closed : Option Conn → Bool
is_closed none = true
is_closed (some k) = false

-- The test for a second try.
abbrev pub retries : QmpClient → Error → Bool
retries c e = c.auto_reconn && (is_connection_error e || is_closed c.conn)
