-- ===== src/Qemu/Manager/Parts.antt =====
-- internal/qemu/manager.go: what Create is made of, with its surroundings as parameters.
use qudata_agent.Common.{
  ℕ, Bool, not, Option, none, some, List, [], map, is_nil, ℤ, pos, int_eq, is_pos, ◌++◌, ◌∷◌,
  if◌then◌else◌,
}
use qudata_agent.Common.Text.{Text, join_path, str}
use qudata_agent.Qemu.Manager.{
  SshClient, VmConfig, pool_set, PortPool, Effect, disk_removed, bound, left,
}
use qudata_agent.Domain.{
  Error, InstanceSpec, Result, InstancePorts, PortMapping, ok, err, vfio_error, wrapped,
}
use qudata_agent.Qemu.Manager.Stop.{unbind_all}
use qudata_agent.Qemu.Image.{create_overlay, create_disk, ImageEnv, resize_disk}
use qudata_agent.Qemu.Network.{NetworkConfig, add_forward}
use qudata_agent.Qemu.Vfio.{Vfio}
use qudata_agent.Common.Decimal.{itoa}

-- What the calls outside the manager answer while it holds the mutex.
pub record CreateEnv : Type 0 where
  -- NewVFIO and Bind: the error, the receiver as Bind leaves it, and the devices of the group that it
  -- has bound to vfio-pci by then
  pub bind : Text → Option Error × Vfio × List Text
  pub uuid8 : Text
  pub images : ImageEnv
  pub mkdir_run : Option Error
  pub read_vars : Option Error
  pub write_vars : Option Error
  pub log_ok : Bool
  pub start : List Text → Option Error
  pub wait_for_qmp : Option Error
  -- the order of `range pool`
  pub iterate : PortPool → PortPool

-- Create waiting for SSH, with the local variables that it uses afterwards.
pub record Boot : Type 0 where
  pub client : SshClient
  pub pool : PortPool

pub data Begun : Type 0 where
  failed_with : Error → Begun
  ready : InstancePorts → Begun
  booting : Boot → Begun

-- The devices that a Bind has bound before it failed; nothing unbinds them.
unfoldable pub leave_all : List Text → List Effect → List Effect
leave_all [] fx = fx
leave_all (addr ∷ addrs) fx = leave_all addrs (left addr ∷ fx)

-- The loop over the GPUs: on an error those bound before are unbound, but not what the failing Bind
-- has bound of its group.
unfoldable pub bind_all :
    (Text → Option Error × Vfio × List Text)
    → List Text
    → List Vfio
    → List Effect
    → Result (List Vfio) × List Effect
unfolding unbind_all leave_all
bind_all bind [] vfios fx = (ok vfios, fx)
bind_all bind (addr ∷ addrs) vfios fx = elim (bind addr).0 [
  | some e ↦ (err (vfio_error (str "bind") addr e), unbind_all vfios (leave_all (bind addr).2 fx))
  | none ↦ bind_all bind addrs (vfios ++ (bind addr).1 ∷ []) (bound addr ∷ fx)
]

unfoldable pub resize_commands : ImageEnv → Result Text → ℤ → List (List Text)
resize_commands env (err e) size_gb = []
resize_commands env (ok path) size_gb =
    if is_pos size_gb then (resize_disk env path size_gb).1 else []

-- The path of the new disk, and the commands that the resize ran, whose error is only logged.
unfoldable pub prepare_disk : VmConfig → ImageEnv → Text → ℤ → Result Text × List (List Text)
unfolding resize_commands create_overlay create_disk
prepare_disk cfg env vm_id size_gb =
    let overlay = create_overlay env cfg.image_dir vm_id cfg.base_image in
    if not (is_nil cfg.base_image) then (overlay, resize_commands env overlay size_gb) else (
      create_disk env cfg.image_dir vm_id
          (if int_eq size_gb (pos 0) then cfg.disk_size_gb else size_gb),
      [],
    )

unfoldable pub copy_ovmf_vars : VmConfig → CreateEnv → Text → Result Text
copy_ovmf_vars cfg env vm_id =
    let dst = join_path cfg.run_dir (vm_id ++ str "-OVMF_VARS.fd") in
    if is_nil cfg.ovmf_vars_tmpl then ok [] else elim env.read_vars [
      | some e ↦ err (wrapped (str "read OVMF_VARS template " ++ cfg.ovmf_vars_tmpl) e [])
      | none ↦ elim env.write_vars [
        | some e ↦ err (wrapped (str "write OVMF_VARS " ++ dst) e [])
        | none ↦ ok dst
      ]
    ]

unfoldable pub guest_ports : InstanceSpec → List ℤ
guest_ports spec =
    let rest = map (λ (pm : PortMapping). pm.guest_port) spec.ports in
    if spec.ssh_enabled then pos 22 ∷ rest else rest

-- `pool[gp] = hostPorts[i]` for each guest port; the caller has seen that there are enough.
unfoldable pub build_pool : List ℤ → List ℕ → PortPool → PortPool
unfolding pool_set
build_pool [] hs pool = pool
build_pool (g ∷ gs) [] pool = pool
build_pool (g ∷ gs) (h ∷ hs) pool = build_pool gs hs (pool_set g h pool)

unfoldable pub add_forwards : PortPool → NetworkConfig → NetworkConfig
add_forwards [] net = net
add_forwards ((g, h) ∷ pool) net = add_forwards pool (add_forward (str "tcp") h g net)

unfoldable pub port_map : PortPool → InstancePorts
port_map = map (λ (e : ℤ × ℕ). (itoa e.0, itoa (pos e.1)))

-- The rollback of the error paths behind the disk.
unfoldable pub roll_back : Text → List Vfio → List Effect → List Effect
unfolding unbind_all
roll_back disk_path vfios fx = unbind_all vfios (disk_removed disk_path ∷ fx)
