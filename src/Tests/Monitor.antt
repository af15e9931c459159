-- ===== src/Tests/Monitor.antt =====
-- QMP clients against a peer that works, one that drops the first handshake, and one that drops all.
use qudata_agent.Qemu.Monitor.{
  QmpClient, new_qmp_client, Peer, Conn, accepted, event, failure, returns, Message, Dial, exchange,
  is_connection_error,
}
use qudata_agent.Common.{ℕ, zero, suc, refl, true, none, List, [], arith, ◌≡◌, ◌∷◌}
use qudata_agent.Common.Text.{codes, str, text_eq, contains, has_prefix}
use qudata_agent.Domain.{Error, plain, message}
use qudata_agent.Qemu.Monitor.Returns.{Returned, drops, IsFair, exec-Returned}
use qudata_agent.Qemu.Monitor.Sent.{IsBegun, exec-IsBegun}
use qudata_agent.Qemu.Monitor.Handshake.{IsFirst, NegotiatesOnce, connect_locked-IsFirst}
use qudata_agent.Qemu.Monitor.Exec.{connect_locked, exec}
use qudata_agent.Qemu.Monitor.Endless.{connect_locked-none}

abbrev client : QmpClient
client = new_qmp_client (codes "/run/vm.qmp")

abbrev eof : Error
eof = plain (codes "EOF")

abbrev pub line : List Message → Conn
line ms = record { incoming = ms; broken = eof; writes = [] }

-- The greeting, the handshake's answer, and an event before the answer to a command.
abbrev pub working : Peer
working i =
    accepted (line (returns [] ∷ returns [] ∷ event (codes "RESUME") ∷ returns (codes "{}") ∷ []))

abbrev dropping : Dial
dropping = accepted (line (returns [] ∷ []))

abbrev once : Dial
once = accepted (
    line
      (returns [] ∷ returns [] ∷ failure (codes "CommandNotFound") (codes "already complete") ∷ []))

abbrev unlucky : Peer
unlucky zero = dropping
unlucky (suc i) = once

pub working-IsFair : IsFair 1 working
unfolding exchange str
working-IsFair i = (0, omega arith, refl)

exec-Returned_example : Returned (exec 1 working (codes "cont") client)
exec-Returned_example = exec-Returned 1 working (codes "cont") client working-IsFair

exec-IsBegun_example :
    IsBegun (codes "system_reset") 0 (exec 1 working (codes "system_reset") client)
unfolding new_qmp_client text_eq str
exec-IsBegun_example = exec-IsBegun (codes "system_reset") 1 working client (refl)

unlucky_once : (i : ℕ) → NegotiatesOnce (unlucky i)
unfolding exchange
unlucky_once zero = tt
unlucky_once (suc i) = (_, refl)

connect_locked-IsFirst_example : IsFirst 0 (drops (unlucky 0)) (connect_locked 5 unlucky client)
unfolding new_qmp_client
connect_locked-IsFirst_example = connect_locked-IsFirst 5 unlucky client unlucky_once

dropping-drops : drops dropping ≡ true
unfolding exchange is_connection_error contains message str has_prefix
dropping-drops = refl

connect_locked-none_example : connect_locked 40 (λ i. dropping) client ≡ none
unfolding new_qmp_client
connect_locked-none_example =
    connect_locked-none 40 (λ i. dropping) client client_auto (λ i. dropping-drops)
  where
    client_auto : client.auto_reconn ≡ true
    client_auto = refl
