-- ===== src/Qemu/Manager/Begin.antt =====
-- internal/qemu/manager.go: Create, up to where it gives up the mutex to wait for SSH.
use qudata_agent.Common.{
  ℕ, Bool, true, false, not, Option, none, some, List, [], ltb, length, is_nil, pos, ◌++◌, ◌∷◌,
  if◌then◌else◌,
}
use qudata_agent.Qemu.Manager.{
  Vm, VmConfig, PortPool, Effect, or_else, Manager, qemu_img, or_else_int, pool_get, vars_written,
  log_made, disk_made, started, emit,
}
use qudata_agent.Common.Text.{Text, str, join_path}
use qudata_agent.Domain.{
  Error, plain, InstanceSpec, Result, instance_already_running, err, qemu_error, ok,
}
use qudata_agent.Qemu.Manager.Parts.{
  guest_ports, prepare_disk, bind_all, CreateEnv, build_pool, Begun, copy_ovmf_vars, failed_with,
  ready, add_forwards, port_map, booting, roll_back,
}
use qudata_agent.Qemu.Vfio.{Vfio}
use qudata_agent.Qemu.Manager.Stop.{unless_empty, unbind_all, log_path}
use qudata_agent.Common.Decimal.{itoa}
use qudata_agent.Qemu.Network.{new_network_config}
use qudata_agent.Qemu.Manager.Args.{build_vm_args}

unfoldable pub launched :
    Vm → Text → List Vfio → PortPool → Text → Text → List Text → Text → Bool → Manager
launched s vm_id vfios pool disk_path qmp_socket gpu_addrs vars_path log_ok = record s.mgr {
  vm_id = vm_id;
  cmd = true;
  log_file = log_ok;
  vfios = vfios;
  port_pool = pool;
  disk_path = disk_path;
  qmp_socket = qmp_socket;
  gpu_addrs = gpu_addrs;
  ovmf_vars_path = vars_path;
  done = some false;
}

-- What stands behind the start of the process: the wait for QMP, and whether SSH is forwarded.
unfoldable pub with_qmp : VmConfig → Option Error → Text → PortPool → Vm → Begun × Vm
with_qmp cfg qmp_error qmp_socket pool s =
    let s' : Vm = elim qmp_error [
      | some e ↦ s
      | none ↦ record s {
        mgr = record s.mgr { qmp = some (record { socket_path = qmp_socket; connected = true }) };
      }
    ] in
    elim (pool_get (pos 22) pool) [
      | none ↦ (ready (port_map pool), s')
      | some ssh_port ↦ (
        booting (record {
          client = record { host = str "127.0.0.1"; port = ssh_port; key_path = cfg.ssh_key_path };
          pool = pool;
        }),
        s',
      )
    ]

-- What follows cmd.Start(), by its error.
unfoldable pub on_start :
    VmConfig
    → CreateEnv
    → List Text
    → List Vfio
    → PortPool
    → Text
    → Text
    → Text
    → Text
    → List Text
    → Vm
    → Option Error
    → Begun × Vm
unfolding launched with_qmp
on_start cfg env gpu_addrs vfios pool vm_id disk_path vars_path qmp_socket args s (some e) = (
  failed_with (qemu_error (str "start") e),
  record s { effects = roll_back disk_path vfios s.effects },
)
on_start cfg env gpu_addrs vfios pool vm_id disk_path vars_path qmp_socket args s none =
    with_qmp cfg env.wait_for_qmp qmp_socket pool (record {
      mgr = launched s vm_id vfios pool disk_path qmp_socket gpu_addrs vars_path env.log_ok;
      effects = started args ∷ s.effects;
    })

unfoldable pub create_log : VmConfig → Bool → Text → Vm → Vm
unfolding log_path
create_log cfg log_ok vm_id s = if log_ok then emit (log_made (log_path cfg vm_id)) s else s

-- exec.Command(…).Start and what follows it.
unfoldable pub start_vm :
    VmConfig
    → CreateEnv
    → InstanceSpec
    → List Text
    → List Vfio
    → PortPool
    → Text
    → Text
    → Text
    → Vm
    → Begun × Vm
unfolding on_start create_log
start_vm cfg env spec gpu_addrs vfios pool vm_id disk_path vars_path s =
    let qmp_socket = join_path cfg.run_dir (vm_id ++ str ".qmp") in
    let net = add_forwards (env.iterate pool) (new_network_config (str "net0") cfg.test_mode) in
    let args =
      build_vm_args cfg disk_path gpu_addrs qmp_socket net (or_else spec.cpus cfg.default_cpu)
        (or_else spec.memory cfg.default_mem) vars_path in
    on_start cfg env gpu_addrs vfios pool vm_id disk_path vars_path qmp_socket args
      (create_log cfg env.log_ok vm_id s) (env.start args)

unfoldable pub vars_effects : Text → List Effect → List Effect
vars_effects vars_path fx = unless_empty vars_path (vars_written vars_path) fx

unfoldable pub with_vars :
    VmConfig
    → CreateEnv
    → InstanceSpec
    → List Vfio
    → PortPool
    → Text
    → Text
    → Vm
    → Result Text
    → Begun × Vm
unfolding start_vm vars_effects
with_vars cfg env spec vfios pool vm_id disk_path s (err e) = (
  failed_with (qemu_error (str "ovmf") e),
  record s { effects = roll_back disk_path vfios s.effects },
)
with_vars cfg env spec vfios pool vm_id disk_path s (ok vars_path) =
    start_vm cfg env spec cfg.default_gpus vfios pool vm_id disk_path vars_path
      (record s { effects = vars_effects vars_path s.effects })

unfoldable pub not_enough_ports : ℕ → ℕ → Error
not_enough_ports need got =
    plain
      (str "not enough host ports: need " ++ (itoa (pos need) ++ (str ", got " ++ itoa (pos got))))

unfoldable pub resize_effects : List (List Text) → List Effect → List Effect
resize_effects [] fx = fx
resize_effects (c ∷ cs) fx = resize_effects cs (qemu_img c ∷ fx)

-- What follows MkdirAll of the run directory, by its error.
unfoldable pub with_run_dir :
    VmConfig
    → CreateEnv
    → InstanceSpec
    → List Vfio
    → PortPool
    → Text
    → Text
    → Vm
    → Option Error
    → Begun × Vm
unfolding with_vars copy_ovmf_vars
with_run_dir cfg env spec vfios pool vm_id disk_path s (some e) = (
  failed_with (qemu_error (str "rundir") e),
  record s { effects = roll_back disk_path vfios s.effects },
)
with_run_dir cfg env spec vfios pool vm_id disk_path s none =
    with_vars cfg env spec vfios pool vm_id disk_path s (copy_ovmf_vars cfg env vm_id)

-- The test for enough host ports, and what follows it.
unfoldable pub with_ports :
    VmConfig → CreateEnv → InstanceSpec → List ℕ → List Vfio → Text → Text → Vm → Begun × Vm
unfolding with_run_dir not_enough_ports guest_ports build_pool
with_ports cfg env spec host_ports vfios vm_id disk_path s =
    let guests = guest_ports spec in
    if ltb (length host_ports) (length guests)
    then (
      failed_with (qemu_error (str "ports") (not_enough_ports (length guests) (length host_ports))),
      record s { effects = roll_back disk_path vfios s.effects },
    )
    else with_run_dir cfg env spec vfios (build_pool guests host_ports []) vm_id disk_path s
        env.mkdir_run

unfoldable pub with_disk :
    VmConfig
    → CreateEnv
    → InstanceSpec
    → List ℕ
    → List Vfio
    → Text
    → Vm
    → List (List Text)
    → Result Text
    → Begun × Vm
unfolding with_ports resize_effects
with_disk cfg env spec host_ports vfios vm_id s commands (err e) =
    (failed_with (qemu_error (str "disk") e), record s { effects = unbind_all vfios s.effects })
with_disk cfg env spec host_ports vfios vm_id s commands (ok disk_path) =
    with_ports cfg env spec host_ports vfios vm_id disk_path
      (record s { effects = resize_effects commands (disk_made disk_path ∷ s.effects) })

unfoldable pub with_gpus :
    VmConfig
    → CreateEnv
    → InstanceSpec
    → List ℕ
    → Vm
    → Result (List Vfio) × List Effect
    → Begun × Vm
unfolding with_disk prepare_disk
with_gpus cfg env spec host_ports s (err e, fx) = (failed_with e, record s { effects = fx })
with_gpus cfg env spec host_ports s (ok vfios, fx) =
    let vm_id = str "vm-" ++ env.uuid8 in
    let (disk, commands) =
      prepare_disk cfg env.images vm_id (or_else_int spec.disk_size_gb cfg.disk_size_gb) in
    with_disk cfg env spec host_ports vfios vm_id (record s { effects = fx }) commands disk

-- Create up to its wait for SSH, or to its end where SSH is not forwarded.
unfoldable pub create_begin : VmConfig → CreateEnv → InstanceSpec → List ℕ → Vm → Begun × Vm
unfolding with_gpus bind_all or_else or_else_int
create_begin cfg env spec host_ports s =
    let s' = record s { mgr = record s.mgr { failed = false } } in
    if not (is_nil s.vm_id)
    then (failed_with instance_already_running, s')
    else if is_nil cfg.default_gpus
    then (failed_with (qemu_error (str "create") (plain (str "no GPU PCI addresses"))), s')
    else with_gpus cfg env spec host_ports s' (bind_all env.bind cfg.default_gpus [] s'.effects)
