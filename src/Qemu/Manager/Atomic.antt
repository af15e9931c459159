-- ===== src/Qemu/Manager/Atomic.antt =====
-- internal/qemu/manager.go: Create up to its wait for SSH, on its error paths and at its end.
use qudata_agent.Common.{
  subst, sym, ℕ, refl, true, false, none, some, List, [], arith, ℤ, pos, ◌≡◌, ◌++◌, ◌∷◌, ◌≢◌,
  Option, Bool, Bool-cases, ltb, length, inl, ap, inr, is_nil, is_nil-ne,
}
use qudata_agent.Common.Text.{Text, str, join_path}
use qudata_agent.Domain.{Result, ok, err, Error, InstanceSpec, instance_already_running}
use qudata_agent.Qemu.Manager.Parts.{
  prepare_disk, Begun, failed_with, ready, port_map, booting, CreateEnv, guest_ports, bind_all,
}
use qudata_agent.Qemu.Image.{disk_path, create_overlay, create_disk, ImageEnv}
use qudata_agent.Qemu.Manager.{
  Vm, Manager, Effect, VmConfig, pool_get, Qmp, PortPool, started, qemu_img, vars_written,
  or_else_int,
}
use qudata_agent.Qemu.Vfio.{Vfio}
use qudata_agent.Qemu.Manager.Ledger.{
  lefts, Owes-own, disk_of, Owes, Owes-unbind_all, alive, Owes-roll_back, Owes-neutral,
  Owes-disk_made, Owes-started, Owes-unless_empty,
}
use qudata_agent.Qemu.Manager.Invariant.{Inv}
use qudata_agent.Qemu.Manager.Begin.{
  with_qmp, launched, on_start, create_log, with_vars, with_run_dir, with_ports, resize_effects,
  with_disk, start_vm, vars_effects, with_gpus, create_begin,
}
use qudata_agent.Qemu.Manager.Binding.{left_behind, Binds, BindsHonestly, bind_all-Binds}

append_cons-ne : (xs ys : Text) (c : ℕ) → xs ++ c ∷ ys ≢ []
append_cons-ne [] ys c = λ e. cc
append_cons-ne (x ∷ xs) ys c = λ e. cc

disk_path-ne : (dir name : Text) → disk_path dir name ≢ []
unfolding disk_path join_path
disk_path-ne dir name = append_cons-ne dir (name ++ str ".qcow2") b'/'

prepare_disk-ne :
    (cfg : VmConfig) (env : ImageEnv) (vm_id : Text) (size_gb : ℤ) (p : Text)
    → (prepare_disk cfg env vm_id size_gb).0 ≡ ok p
    → p ≢ []
unfolding prepare_disk create_overlay create_disk
prepare_disk-ne cfg env vm_id size_gb p h = ground (arith, disk_path-ne cfg.image_dir vm_id)

disk_of-ne : (p : Text) → p ≢ [] → disk_of p ≡ some p
disk_of-ne [] h = absurd (h refl)
disk_of-ne (c ∷ s) h = refl

-- A VM is up: the manager holds what it started, with a VM's id, and `lost` are the devices that failed
-- Binds have left.
pub record IsUp (lost : List Text) (s : Vm) : Type 0 where
  pub inv : Inv s
  pub named : s.vm_id ≢ []
  pub process : s.done ≡ some false
  pub left_over : lefts s.effects ≡ lost

-- What Create comes to from a manager with no VM, whose fields are then `m`, by the devices that failed
-- Binds have left.
abbrev pub Outcome : List Text → Manager → Begun × Vm → Type 0
Outcome lost m (failed_with e, s) = (s.mgr ≡ m) × Owes lost s.effects [] none 0
Outcome lost m (ready ports, s) = IsUp lost s × (ports ≡ port_map s.port_pool)
Outcome lost m (booting b, s) =
    IsUp lost s × (b.pool ≡ s.port_pool) × (pool_get (pos 22) s.port_pool ≡ some b.client.port)

set_qmp-IsUp :
    {lost : List Text} (s : Vm) (q : Option Qmp)
    → IsUp lost s
    → IsUp lost (record s { mgr = record s.mgr { qmp = q } })
set_qmp-IsUp s q u = record {
  inv = record { owes = u.inv.owes; idle = λ e. absurd (u.named e); running = u.inv.running };
  named = u.named;
  process = u.process;
  left_over = u.left_over;
}

-- The two results, by the port that SSH is forwarded from.
forwarded :
    {lost : List Text} (m : Manager) (cfg : VmConfig) (s : Vm) (o : Option ℕ)
    → IsUp lost s
    → pool_get (pos 22) s.port_pool ≡ o
    → Outcome lost m (elim o [
      | none ↦ (ready (port_map s.port_pool), s)
      | some ssh_port ↦ (
        booting (record {
          client = record { host = str "127.0.0.1"; port = ssh_port; key_path = cfg.ssh_key_path };
          pool = s.port_pool;
        }),
        s,
      )
    ])
forwarded m cfg s none u e = (u, refl)
forwarded m cfg s (some p) u e = (u, refl, e)

with_qmp-Outcome :
    {lost : List Text} (m : Manager) (cfg : VmConfig) (qmp_error : Option Error) (qmp_socket : Text)
    (s : Vm)
    → IsUp lost s
    → Outcome lost m (with_qmp cfg qmp_error qmp_socket s.port_pool s)
unfolding with_qmp
with_qmp-Outcome m cfg none qmp_socket s u = forwarded m cfg _ _ (set_qmp-IsUp s _ u) refl
with_qmp-Outcome m cfg (some e) qmp_socket s u = forwarded m cfg s _ u refl

launched-IsUp :
    {lost : List Text} (s : Vm) (vm_id : Text) (vfios : List Vfio) (pool : PortPool)
    (disk_path qmp_socket : Text) (args gpu_addrs : List Text) (vars_path : Text) (log_ok : Bool)
    → vm_id ≢ []
    → disk_path ≢ []
    → Owes lost s.effects vfios (some disk_path) 0
    → IsUp lost (record {
      mgr = launched s vm_id vfios pool disk_path qmp_socket gpu_addrs vars_path log_ok;
      effects = started args ∷ s.effects;
    })
unfolding launched alive
launched-IsUp s vm_id vfios pool disk_path qmp_socket args gpu_addrs vars_path log_ok n d o =
    record {
      inv = record {
        owes = rw (disk_of-ne disk_path d) (Owes-own (Owes-started args o));
        idle = λ e. absurd (n e);
        running = λ _. refl;
      };
      named = n;
      process = refl;
      left_over = (Owes-started args o).left_over;
    }

vm_name-ne : (u : Text) → str "vm-" ++ u ≢ []
unfolding str
vm_name-ne u = λ e. cc

-- What the steps of Create share: the VM's id, and the fields that the manager had before it.
module _ (m : Manager) (cfg : VmConfig) (env : CreateEnv) (spec : InstanceSpec) (vm_id : Text)
    (named : vm_id ≢ []) {lost : List Text} where
  on_start-Outcome :
      (gpu_addrs : List Text) (vfios : List Vfio) (pool : PortPool) (disk_path vars_path : Text)
      (qmp_socket : Text) (args : List Text) (s : Vm) (o : Option Error)
      → s.mgr ≡ m
      → disk_path ≢ []
      → Owes lost s.effects vfios (some disk_path) 0
      → Outcome lost m
          (on_start cfg env gpu_addrs vfios pool vm_id disk_path vars_path qmp_socket args s o)
  unfolding on_start
  on_start-Outcome gpu_addrs vfios pool disk_path vars_path qmp_socket args s (some x) e d owed =
      (e, Owes-roll_back vfios disk_path owed)
  on_start-Outcome gpu_addrs vfios pool disk_path vars_path qmp_socket args s none e d owed =
      with_qmp-Outcome m cfg env.wait_for_qmp qmp_socket _ (
        launched-IsUp s vm_id vfios pool disk_path qmp_socket args gpu_addrs vars_path env.log_ok
          named d owed)

  create_log-keeps :
      (log_ok : Bool) (s : Vm) (vfios : List Vfio) (disk : Option Text)
      → s.mgr ≡ m
      → Owes lost s.effects vfios disk 0
      → ((create_log cfg log_ok vm_id s).mgr ≡ m)
        × Owes lost (create_log cfg log_ok vm_id s).effects vfios disk 0
  unfolding create_log
  create_log-keeps true s vfios disk e o = (e, Owes-neutral _ refl o)
  create_log-keeps false s vfios disk e o = (e, o)

  with_vars-Outcome :
      (vfios : List Vfio) (pool : PortPool) (disk_path : Text) (s : Vm) (r : Result Text)
      → s.mgr ≡ m
      → disk_path ≢ []
      → Owes lost s.effects vfios (some disk_path) 0
      → Outcome lost m (with_vars cfg env spec vfios pool vm_id disk_path s r)
  unfolding with_vars start_vm
  with_vars-Outcome vfios pool disk_path s (err x) e d o = (e, Owes-roll_back vfios disk_path o)
  with_vars-Outcome vfios pool disk_path s (ok vars_path) e d o =
      let (e', o') =
        create_log-keeps env.log_ok (record s { effects = vars_effects vars_path s.effects }) vfios
          (some disk_path) e (Owes-unless_empty vars_path (vars_written vars_path) refl o) in
      on_start-Outcome _ vfios pool disk_path vars_path _ _ _ _ e' d o'

  with_run_dir-Outcome :
      (vfios : List Vfio) (pool : PortPool) (disk_path : Text) (s : Vm) (r : Option Error)
      → s.mgr ≡ m
      → disk_path ≢ []
      → Owes lost s.effects vfios (some disk_path) 0
      → Outcome lost m (with_run_dir cfg env spec vfios pool vm_id disk_path s r)
  unfolding with_run_dir
  with_run_dir-Outcome vfios pool disk_path s (some x) e d o = (e, Owes-roll_back vfios disk_path o)
  with_run_dir-Outcome vfios pool disk_path s none e d o =
      with_vars-Outcome vfios pool disk_path s _ e d o

  with_ports-Outcome :
      (host_ports : List ℕ) (vfios : List Vfio) (disk_path : Text) (s : Vm)
      → s.mgr ≡ m
      → disk_path ≢ []
      → Owes lost s.effects vfios (some disk_path) 0
      → Outcome lost m (with_ports cfg env spec host_ports vfios vm_id disk_path s)
  unfolding with_ports
  with_ports-Outcome host_ports vfios disk_path s e d o =
      elim (Bool-cases (ltb (length host_ports) (length (guest_ports spec)))) [
        | inl few ↦ rw few (e, Owes-roll_back vfios disk_path o)
        | inr enough ↦ rw enough (with_run_dir-Outcome vfios _ disk_path s _ e d o)
      ]

  Owes-resize_effects :
      (commands : List (List Text)) {fx : List Effect} {vfios : List Vfio} {disk : Option Text}
      → Owes lost fx vfios disk 0
      → Owes lost (resize_effects commands fx) vfios disk 0
  unfolding resize_effects
  Owes-resize_effects [] o = o
  Owes-resize_effects (c ∷ cs) o = Owes-resize_effects cs (Owes-neutral (qemu_img c) refl o)

  with_disk-Outcome :
      (host_ports : List ℕ) (vfios : List Vfio) (s : Vm) (commands : List (List Text))
      (r : Result Text)
      → ((p : Text) → r ≡ ok p → p ≢ [])
      → s.mgr ≡ m
      → Owes lost s.effects vfios none 0
      → Outcome lost m (with_disk cfg env spec host_ports vfios vm_id s commands r)
  unfolding with_disk
  with_disk-Outcome host_ports vfios s commands (err x) d e o = (e, Owes-unbind_all vfios o)
  with_disk-Outcome host_ports vfios s commands (ok p) d e o =
      with_ports-Outcome host_ports vfios p _ e (d p refl)
        (Owes-resize_effects commands (Owes-disk_made p o))

-- The GPUs are bound, or the loop has given back those before the failing one.
with_gpus-Outcome :
    (lost : List Text) (m : Manager) (cfg : VmConfig) (env : CreateEnv) (spec : InstanceSpec)
    (host_ports : List ℕ) (s : Vm) (r : Result (List Vfio) × List Effect)
    → s.mgr ≡ m
    → Binds 0 lost r
    → Outcome lost m (with_gpus cfg env spec host_ports s r)
unfolding with_gpus
with_gpus-Outcome lost m cfg env spec host_ports s (err x, fx) e b = (e, b)
with_gpus-Outcome lost m cfg env spec host_ports s (ok vfios, fx) e b =
    let vm_id = str "vm-" ++ env.uuid8 in
    let size_gb = or_else_int spec.disk_size_gb cfg.disk_size_gb in
    with_disk-Outcome m cfg env spec vm_id (vm_name-ne env.uuid8) host_ports vfios
      (record s { effects = fx }) (prepare_disk cfg env.images vm_id size_gb).1
      (prepare_disk cfg env.images vm_id size_gb).0 (prepare_disk-ne cfg env.images vm_id size_gb) e
      b

left_behind_none :
    (bind : Text → Option Error × Vfio × List Text) (addrs lost : List Text)
    → is_nil addrs ≡ true
    → left_behind bind addrs lost ≡ lost
unfolding left_behind
left_behind_none bind [] lost e = refl
left_behind_none bind (a ∷ addrs) lost e = cc

-- The fields with `failed` reset, as Create leaves them when it fails.
abbrev pub unfailed : Manager → Manager
unfailed m = record m { failed = false }

-- From a manager without a VM, Create fails with every field but `failed` unchanged and with no GPU, disk
-- or process held, or it leaves a VM up with the invariant, its GPUs bound, its disk made and its process
-- running. Either way the devices that it leaves on vfio-pci beside these are just the ones that the
-- first Bind to fail, if any, had bound by then. Bind must bind what it says where it succeeds. The
-- files of firmware variables and logs, which a failed start leaves, are not counted.
pub create_begin-Outcome :
    (cfg : VmConfig) (env : CreateEnv) (spec : InstanceSpec) (host_ports : List ℕ) (s : Vm)
    → BindsHonestly env.bind
    → Inv s
    → s.vm_id ≡ []
    → Outcome
        (left_behind env.bind cfg.default_gpus (lefts s.effects))
        (unfailed s.mgr)
        (create_begin cfg env spec host_ports s)
unfolding create_begin
create_begin-Outcome cfg env spec host_ports s honest v e =
    let idle = v.idle e in
    let nothing : Owes (lefts s.effects) s.effects [] none 0 =
      unfold alive in rw (idle.vfios, idle.disk_path, idle.done) at v.owes in
    rw (ap is_nil e) (elim (Bool-cases (is_nil cfg.default_gpus)) [
      | inl no_gpus ↦ rw no_gpus (
        refl,
        subst (λ l. Owes l s.effects [] none 0)
            (sym (left_behind_none env.bind cfg.default_gpus (lefts s.effects) no_gpus)) nothing,
      )
      | inr gpus ↦ rw gpus (
          with_gpus-Outcome _ (unfailed s.mgr) cfg env spec host_ports
            (record s { mgr = unfailed s.mgr }) (bind_all env.bind cfg.default_gpus [] s.effects)
            refl
            (bind_all-Binds env.bind cfg.default_gpus [] s.effects (lefts s.effects) honest
              nothing))
    ])

-- With a VM there already, Create is refused and changes no more than `failed`.
pub create_begin_refused :
    (cfg : VmConfig) (env : CreateEnv) (spec : InstanceSpec) (host_ports : List ℕ) (s : Vm)
    → s.vm_id ≢ []
    → create_begin cfg env spec host_ports s
      ≡ (failed_with instance_already_running, record s { mgr = unfailed s.mgr })
unfolding create_begin
create_begin_refused cfg env spec host_ports s h = rw (is_nil-ne s.vm_id h)
