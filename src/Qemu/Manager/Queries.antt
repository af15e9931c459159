-- ===== src/Qemu/Manager/Queries.antt =====
-- internal/qemu/manager.go: Manage, MarkFailed, Invalidate, Status and the lookups.
use qudata_agent.Common.{
  ℕ, Bool, true, false, not, Option, none, some, is_nil, ℤ, ◌∷◌, ◌||◌, if◌then◌else◌,
}
use qudata_agent.Domain.{
  Error, Result, no_instance_running, Status, qemu_error, error, ok, plain, running, destroyed, err,
  unknown_command, paused, pending,
}
use qudata_agent.Qemu.Manager.{Qmp, Vm, pool_get, exited, emit, qmp_command}
use qudata_agent.Common.Text.{Text, text_eq, str}

-- What QEMU answers over QMP: to a command, and to query-status.
pub record QmpEnv : Type 0 where
  pub command : Option Error
  pub query : Result Text

unfoldable pub is_connected : Option Qmp → Bool
is_connected none = false
is_connected (some q) = q.connected

-- The QMP command of an instance command.
unfoldable pub qmp_of_command : Text → Option Text
qmp_of_command cmd =
    if text_eq cmd (str "start")
    then some (str "cont")
    else if text_eq cmd (str "stop")
    then some (str "stop")
    else if text_eq cmd (str "restart")
    then some (str "system_reset")
    else none

unfoldable pub manage : QmpEnv → Text → Vm → Option Error × Vm
unfolding is_connected
manage env cmd s =
    if is_nil s.vm_id
    then (some no_instance_running, s)
    else if not (is_connected s.qmp)
    then (some (qemu_error (str "manage") (plain (str "QMP not connected"))), s)
    else elim (qmp_of_command cmd) [
      | none ↦ (some (unknown_command cmd), s)
      | some c ↦ (env.command, emit (qmp_command c) s)
    ]

unfoldable pub mark_failed : Vm → Vm
mark_failed s = record s { mgr = record s.mgr { failed = true } }

unfoldable pub invalidate : Vm → Vm
invalidate s = record s { mgr = record s.mgr { ssh_client = none } }

unfoldable pub map_qmp_status : Text → Status
map_qmp_status s =
    if text_eq s (str "running")
    then running
    else if text_eq s (str "paused")
    then paused
    else if text_eq s (str "prelaunch") || text_eq s (str "inmigrate")
    then pending
    else if text_eq s (str "shutdown") || text_eq s (str "postmigrate")
    then destroyed
    else error

-- Whether `<-m.done` can be received from.
unfoldable pub has_exited : Option Bool → Bool
has_exited none = false
has_exited (some closed) = closed

unfoldable pub queried : Result Text → Status
queried (ok t) = map_qmp_status t
queried (err e) = running

unfoldable pub status : QmpEnv → Vm → Status
unfolding has_exited is_connected queried
status env s =
    if is_nil s.vm_id
    then (if s.failed then error else destroyed)
    else if has_exited s.done
    then error
    else if is_connected s.qmp
    then queried env.query
    else running

unfoldable pub host_port_for_guest : ℤ → Vm → Option ℕ
host_port_for_guest g s = pool_get g s.port_pool

unfoldable pub exit_with : Option Bool → Vm → Vm
exit_with none s = s
exit_with (some true) s = s
exit_with (some false) s = record {
  mgr = record s.mgr { done = some true };
  effects = exited ∷ s.effects;
}

-- The goroutine that waits for the process: it closes the log file and `done`.
unfoldable pub on_exit : Vm → Vm
unfolding exit_with
on_exit s = exit_with s.done s

abbrev pub set_connected : Bool → Option Qmp → Option Qmp
set_connected b none = none
set_connected b (some q) = some (record q { connected = b })

-- The connection to QEMU is lost in a command, or is there again behind one.
unfoldable pub set_qmp : Bool → Vm → Vm
set_qmp b s = record s { mgr = record s.mgr { qmp = set_connected b s.qmp } }
