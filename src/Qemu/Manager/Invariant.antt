-- ===== src/Qemu/Manager/Invariant.antt =====
-- internal/qemu/manager.go: the manager's invariant, and Stop.
use qudata_agent.Common.{
  ℕ, refl, ap, inl, inr, Bool, true, false, Option, none, some, List, [], arith, Bool-cases, is_nil,
  ◌≡◌, ◌∷◌, ◌≢◌, ◌⊎◌, is_nil-ne,
}
use qudata_agent.Qemu.Manager.{
  Manager, Vm, new_manager, Effect, VmConfig, disk_removed, Qmp, qmp_command, killed,
}
use qudata_agent.Common.Text.{Text, str}
use qudata_agent.Qemu.Manager.Stop.{
  cleanup, unless_empty, power_down, await_exit, StopEnv, force_kill, stop_locked,
}
use qudata_agent.Qemu.Manager.Ledger.{
  Owes, Owes-own, lefts, alive, disk_of, is_bound, is_left, holds, Owes-unless_empty, holds_disk,
  Owes-unbind_all, Owes-disk_removed, Owes-neutral, Owes-exited,
}
use qudata_agent.Qemu.Vfio.{Vfio}

-- All mutable fields but `failed` are as NewManager leaves them.
pub record IsIdle (m : Manager) : Type 0 where
  pub cmd : m.cmd ≡ false
  pub vfios : m.vfios ≡ []
  pub qmp : m.qmp ≡ none
  pub ssh_client : m.ssh_client ≡ none
  pub disk_path : m.disk_path ≡ []
  pub qmp_socket : m.qmp_socket ≡ []
  pub gpu_addrs : m.gpu_addrs ≡ []
  pub ovmf_vars_path : m.ovmf_vars_path ≡ []
  pub done : m.done ≡ none
  pub port_pool : m.port_pool ≡ []

pub record Inv (s : Vm) : Type 0 where
  pub owes : Owes (lefts s.effects) s.effects s.vfios (disk_of s.disk_path) (alive s.done)
  pub idle : s.vm_id ≡ [] → IsIdle s.mgr
  pub running : s.vm_id ≢ [] → s.cmd ≡ true

pub new_manager-Inv : Inv new_manager
unfolding new_manager alive lefts is_bound is_left holds holds_disk
new_manager-Inv = record {
  owes = record { gpus = λ a. refl; disks = λ p. refl; processes = refl; left_over = refl };
  idle = λ e. record {
    cmd = refl;
    vfios = refl;
    qmp = refl;
    ssh_client = refl;
    disk_path = refl;
    qmp_socket = refl;
    gpu_addrs = refl;
    ovmf_vars_path = refl;
    done = refl;
    port_pool = refl;
  };
  running = λ h. absurd (h refl);
}

Owes-power_down :
    (q : Option Qmp) {lost : List Text} {fx : List Effect} {vs : List Vfio} {disk : Option Text}
    {procs : ℕ}
    → Owes lost fx vs disk procs
    → Owes lost (power_down q fx) vs disk procs
unfolding power_down
Owes-power_down none o = o
Owes-power_down (some q) o =
    ground (arith, Owes-neutral (qmp_command (str "system_powerdown")) refl o)

Owes-await_exit :
    (env : StopEnv) (done : Option Bool) {lost : List Text} {fx : List Effect} {vs : List Vfio}
    {disk : Option Text}
    → Owes lost fx vs disk (alive done)
    → Owes lost (await_exit env true done fx) vs disk 0
unfolding await_exit force_kill alive
Owes-await_exit env none o = o
Owes-await_exit env (some true) o = o
Owes-await_exit env (some false) o = elim (Bool-cases env.exits_in_time) [
  | inl e ↦ rw e (Owes-exited o)
  | inr e ↦ rw e (Owes-exited (Owes-neutral killed refl o))
]

-- cleanup's RemoveDisk.
Owes-cleanup_disk :
    (p : Text) {lost : List Text} {fx : List Effect} {vs : List Vfio} {procs : ℕ}
    → Owes lost fx vs (disk_of p) procs
    → Owes lost (unless_empty p (disk_removed p) fx) vs none procs
Owes-cleanup_disk [] o = o
Owes-cleanup_disk (c ∷ s) o = Owes-disk_removed (c ∷ s) o

Owes-cleanup :
    (cfg : VmConfig) (s : Vm) {lost : List Text}
    → Owes lost s.effects s.vfios (disk_of s.disk_path) 0
    → Owes lost (cleanup cfg s).effects [] none 0
unfolding cleanup
Owes-cleanup cfg s o = Owes-unless_empty s.vm_id _ refl (
    Owes-unless_empty s.ovmf_vars_path _ refl (
      Owes-unless_empty s.qmp_socket _ refl
        (Owes-cleanup_disk s.disk_path (Owes-unbind_all s.vfios o))))

-- After Stop of a running VM no GPU, disk or process is held any more, but the devices that a Bind which
-- failed has left bound before, and every field is as at the start.
pub record IsStopped (lost : List Text) (s : Vm) : Type 0 where
  pub no_vm : s.vm_id ≡ []
  pub no_failure : s.failed ≡ false
  pub cleared : IsIdle s.mgr
  pub nothing_owed : Owes lost s.effects [] none 0

cleanup-IsStopped :
    (cfg : VmConfig) (s : Vm) {lost : List Text}
    → Owes lost s.effects s.vfios (disk_of s.disk_path) 0
    → IsStopped lost (cleanup cfg s)
unfolding cleanup
cleanup-IsStopped cfg s o = record {
  no_vm = refl;
  no_failure = refl;
  cleared = record {
    cmd = refl;
    vfios = refl;
    qmp = refl;
    ssh_client = refl;
    disk_path = refl;
    qmp_socket = refl;
    gpu_addrs = refl;
    ovmf_vars_path = refl;
    done = refl;
    port_pool = refl;
  };
  nothing_owed = Owes-cleanup cfg s o;
}

-- Stop of a running VM unbinds every GPU, removes the disk and waits for the process: afterwards the
-- manager holds no GPU, disk or process, but just what a Bind that failed before had left bound, and
-- its fields are as at the start.
pub stop_locked-IsStopped :
    (cfg : VmConfig) (env : StopEnv) (s : Vm)
    → Inv s
    → s.vm_id ≢ []
    → IsStopped (lefts s.effects) (stop_locked cfg env s)
unfolding stop_locked
stop_locked-IsStopped cfg env s v h = rw (is_nil-ne s.vm_id h) (
    cleanup-IsStopped cfg
      (record s { effects = await_exit env s.cmd s.done (power_down s.qmp s.effects) })
      (rw (v.running h) (Owes-await_exit env s.done (Owes-power_down s.qmp v.owes))))

pub stop_locked_none :
    (cfg : VmConfig) (env : StopEnv) (s : Vm) → s.vm_id ≡ [] → stop_locked cfg env s ≡ s
unfolding stop_locked
stop_locked_none cfg env s e = rw (ap is_nil e)

pub IsStopped-Inv : (lost : List Text) (s : Vm) → IsStopped lost s → Inv s
unfolding alive
IsStopped-Inv lost s h = record {
  owes = rw (h.cleared.vfios, h.cleared.disk_path, h.cleared.done) (Owes-own h.nothing_owed);
  idle = λ e. h.cleared;
  running = λ n. absurd (n h.no_vm);
}

pub vm_cases : (t : Text) → (t ≡ []) ⊎ (t ≢ [])
vm_cases [] = inl refl
vm_cases (c ∷ s) = inr (λ e. cc)

-- Stop keeps the invariant; without a VM it does nothing.
pub stop_locked-Inv :
    (cfg : VmConfig) (env : StopEnv) (s : Vm) → Inv s → Inv (stop_locked cfg env s)
stop_locked-Inv cfg env s v = elim (vm_cases s.vm_id) [
  | inl none_there ↦ rw (stop_locked_none cfg env s none_there) v
  | inr there ↦ IsStopped-Inv (lefts s.effects) _ (stop_locked-IsStopped cfg env s v there)
]
