-- ===== src/Qemu/Manager/Stop.antt =====
-- internal/qemu/manager.go: Stop, stopLocked, forceKill and cleanup.
use qudata_agent.Common.{
  Bool, true, false, Option, none, some, List, [], is_nil, ◌++◌, ◌∷◌, if◌then◌else◌,
}
use qudata_agent.Qemu.Vfio.{Vfio}
use qudata_agent.Common.Text.{Text, join_path, str}
use qudata_agent.Qemu.Manager.{VmConfig, killed}
use qudata_agent.Qemu.Manager.{
  Qmp, Effect, unbound, Vm, qmp_command, exited, file_removed, disk_removed,
}

-- What the VM does when it is stopped: whether the process ends within 30 seconds.
pub record StopEnv : Type 0 where
  pub exits_in_time : Bool

-- v.Unbind() on each, which does nothing on a device that is not bound; the last effect first.
unfoldable pub unbind_all : List Vfio → List Effect → List Effect
unbind_all [] fx = fx
unbind_all (v ∷ vs) fx = unbind_all vs (if v.bound then unbound v.addr ∷ fx else fx)

abbrev pub unless_empty : Text → Effect → List Effect → List Effect
unless_empty [] e fx = fx
unless_empty (c ∷ s) e fx = e ∷ fx

unfoldable pub log_path : VmConfig → Text → Text
log_path cfg vm_id = join_path cfg.run_dir (vm_id ++ str ".log")

unfoldable pub cleanup : VmConfig → Vm → Vm
unfolding unbind_all
cleanup cfg s = record {
  mgr = record {
    vm_id = [];
    cmd = false;
    log_file = false;
    vfios = [];
    qmp = none;
    ssh_client = none;
    disk_path = [];
    qmp_socket = [];
    gpu_addrs = [];
    ovmf_vars_path = [];
    done = none;
    port_pool = [];
    failed = false;
  };
  effects = unless_empty s.vm_id (file_removed (log_path cfg s.vm_id)) (
      unless_empty s.ovmf_vars_path (file_removed s.ovmf_vars_path) (
        unless_empty s.qmp_socket (file_removed s.qmp_socket)
          (unless_empty s.disk_path (disk_removed s.disk_path) (unbind_all s.vfios s.effects))));
}

unfoldable pub power_down : Option Qmp → List Effect → List Effect
power_down none fx = fx
power_down (some q) fx = if q.connected then qmp_command (str "system_powerdown") ∷ fx else fx

-- The kill, and the wait for `done` after it.
unfoldable pub force_kill : Bool → List Effect → List Effect
force_kill cmd fx = if cmd then exited ∷ killed ∷ fx else fx

-- The select on `done`.
unfoldable pub await_exit : StopEnv → Bool → Option Bool → List Effect → List Effect
await_exit env cmd none fx = fx
await_exit env cmd (some true) fx = fx
await_exit env cmd (some false) fx = if env.exits_in_time then exited ∷ fx else force_kill cmd fx

unfoldable pub stop_locked : VmConfig → StopEnv → Vm → Vm
unfolding cleanup power_down await_exit force_kill
stop_locked cfg env s =
    if is_nil s.vm_id
    then s
    else cleanup cfg
        (record s { effects = await_exit env s.cmd s.done (power_down s.qmp s.effects) })
