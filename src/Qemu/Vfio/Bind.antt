-- ===== src/Qemu/Vfio/Bind.antt =====
-- internal/qemu/vfio.go: Bind, Unbind and RestoreBinding.
use qudata_agent.Common.{
  Bool, true, false, not, Option, none, some, List, [], ◌++◌, ◌∷◌, ◌&&◌, ◌||◌, if◌then◌else◌,
}
use qudata_agent.Common.Text.{Text, str, text_eq, join_path}
use qudata_agent.Qemu.Vfio.{GroupDevice, Vfio}
use qudata_agent.Qemu.Vfio.Sysfs.{
  Sysfs, driver_link, read_pci_driver, device_dir, read_sysfs_attr, base,
}
use qudata_agent.Qemu.Vfio.Group.{is_nvidia_audio, validate_iommu_group}
use qudata_agent.Domain.{Error, wrapped, Result, plain, err, ok}
use qudata_agent.Qemu.Vfio.Modules.{unload_gpu_modules}

abbrev drivers_probe : Text
drivers_probe = str "/sys/bus/pci/drivers_probe"

-- Which devices of the group Bind passes through.
abbrev pub is_passed : GroupDevice → Bool
is_passed d = not d.is_bridge && (d.is_gpu || is_nvidia_audio d)

-- The driver is noted where the device has one.
unfoldable pub with_driver : Vfio → Option Text → Vfio
with_driver v none = v
with_driver v (some driver) = record v { orig_driver = driver }

module _ {S : Type 0} (sys : Sysfs S) where
  -- A write, and what follows it where it succeeds.
  unfoldable pub then_write : Text → Option Error × S → (S → Option Error × S) → Option Error × S
  then_write what (some e, s) f = (some (wrapped what e []), s)
  then_write what (none, s) f = f s

  -- The device leaves its driver, unless it has none or that is vfio-pci.
  unfoldable pub detach_driver : Text → Option Text → S → (S → Option Error × S) → Option Error × S
  unfolding then_write
  detach_driver addr none s f = f s
  detach_driver addr (some driver) s f =
      if text_eq driver (str "vfio-pci")
      then f s
      else then_write (str "unbind from " ++ driver)
          (sys.write_file (join_path (device_dir addr) (str "driver/unbind")) addr s) f

  unfoldable pub bind_single_device : Text → S → Option Error × S
  unfolding detach_driver
  bind_single_device addr s = detach_driver addr (driver_link sys addr s) s λ s₁.
      then_write (str "set driver_override")
        (sys.write_file (join_path (device_dir addr) (str "driver_override")) (str "vfio-pci") s₁)
        λ s₂.
          then_write (str "drivers_probe") (sys.write_file drivers_probe addr s₂) λ s₃. (none, s₃)

  -- A device of the group behind the attempt to bind it, and the rest of the loop.
  unfoldable pub on_bound :
      GroupDevice
      → Vfio
      → Option Error × S
      → (Vfio → S → Option Error × Vfio × S)
      → Option Error × Vfio × S
  on_bound d v (some e, s) rest = (some (wrapped (str "bind device " ++ d.addr) e []), v, s)
  on_bound d v (none, s) rest =
      if text_eq d.addr v.addr
      then rest v s
      else rest (record v { bound_group_addrs = v.bound_group_addrs ++ d.addr ∷ [] }) s

  -- The loop of bindAllGroupDevices.
  unfoldable pub bind_devices : List GroupDevice → Vfio → S → Option Error × Vfio × S
  unfolding on_bound
  bind_devices [] v s = (none, v, s)
  bind_devices (d ∷ ds) v s =
      if not (is_passed d) || text_eq (read_pci_driver sys d.addr s) (str "vfio-pci")
      then bind_devices ds v s
      else on_bound d v (bind_single_device d.addr s) (bind_devices ds)

  -- The check for the group's device file, by the error of the stat.
  unfoldable pub on_device_file : Vfio → S → Option Error → Option Error × Vfio × S
  on_device_file v s (some e) = (
    some (
        wrapped
          (str "vfio device "
            ++ (join_path (str "/dev/vfio") v.group ++ str " not found after bind"))
          e []),
    v,
    s,
  )
  on_device_file v s none = (none, record v { bound = true }, s)

  unfoldable pub on_devices_bound : Option Error × Vfio × S → Option Error × Vfio × S
  unfolding on_device_file
  on_devices_bound (some e, v, s) = (some e, v, s)
  on_devices_bound (none, v, s) =
      on_device_file v s (sys.stat (join_path (str "/dev/vfio") v.group) s)

  unfoldable pub on_unloaded : Vfio → Option Error × S → Option Error × Vfio × S
  unfolding on_devices_bound
  on_unloaded v (some e, s) = (some e, v, s)
  on_unloaded v (none, s) = on_devices_bound (bind_devices v.group_devices v s)

  -- The device's own driver is known, and must not be nouveau.
  unfoldable pub on_driver : Vfio → S → Option Error × Vfio × S
  unfolding on_unloaded
  on_driver v s =
      if text_eq v.orig_driver (str "nouveau")
      then (
        some (
            plain (
              str "GPU "
              ++ (v.addr
                  ++ str
                      " is bound to nouveau — cannot hot-detach safely (kernel crash risk). Blacklist nouveau and reboot first"))),
        v,
        s,
      )
      else on_unloaded v (unload_gpu_modules sys v s)

  -- Behind the checks of the group.
  unfoldable pub on_validated : Option Error × Vfio → S → Option Error × Vfio × S
  unfolding on_driver with_driver
  on_validated (some e, v) s = (some e, v, s)
  on_validated (none, v) s = on_driver (with_driver v (driver_link sys v.addr s)) s

  unfoldable pub on_group_link : Vfio → S → Result Text → Option Error × Vfio × S
  unfolding on_validated
  on_group_link v s (err e) = (
    some (wrapped (str "read iommu_group") e (str " (is IOMMU enabled in BIOS and kernel?)")),
    v,
    s,
  )
  on_group_link v s (ok link) =
      on_validated (validate_iommu_group sys (record v { group = base link }) s) s

  unfoldable pub on_ids : Vfio → S → Result Text → Result Text → Option Error × Vfio × S
  unfolding on_group_link
  on_ids v s (err e) device = (some (wrapped (str "read vendor") e []), v, s)
  on_ids v s (ok vendor) (err e) = (some (wrapped (str "read device") e []), v, s)
  on_ids v s (ok vendor) (ok device) =
      on_group_link (record v { vendor_id = vendor; device_id = device }) s
        (sys.readlink (join_path (device_dir v.addr) (str "iommu_group")) s)

  unfoldable pub on_found : Vfio → S → Option Error → Option Error × Vfio × S
  unfolding on_ids
  on_found v s (some e) =
      (some (wrapped (str "pci device " ++ (v.addr ++ str " not found")) e []), v, s)
  on_found v s none =
      let dir = device_dir v.addr in
      on_ids v s (read_sysfs_attr sys dir (str "vendor") s)
        (read_sysfs_attr sys dir (str "device") s)

  -- The error, with the changed receiver and the changed host.
  unfoldable pub bind : Vfio → S → Option Error × Vfio × S
  unfolding on_found
  bind v s = on_found v s (sys.stat (device_dir v.addr) s)

  -- The errors of these writes are dropped.
  unfoldable pub unbind_single_device : Text → S → S
  unbind_single_device addr s =
      let s₁ = (sys.write_file (str "/sys/bus/pci/drivers/vfio-pci/unbind") addr s).1 in
      let s₂ =
        (sys.write_file (join_path (device_dir addr) (str "driver_override")) (str "\n") s₁).1 in
      (sys.write_file drivers_probe addr s₂).1

  -- The loop of Unbind, which goes backwards through its list.
  unfoldable pub unbind_devices : List Text → S → S
  unfolding unbind_single_device
  unbind_devices [] s = s
  unbind_devices (addr ∷ rest) s = unbind_single_device addr (unbind_devices rest s)

  unfoldable pub unbind : Vfio → S → Vfio × S
  unfolding unbind_devices
  unbind v s = if not v.bound then (v, s) else (
    record v { bound = false; bound_group_addrs = [] },
    unbind_devices (v.addr ∷ v.bound_group_addrs) s,
  )

  -- Whether a link names vfio-pci.
  unfoldable pub is_vfio_link : Option Text → Bool
  is_vfio_link none = false
  is_vfio_link (some driver) = text_eq driver (str "vfio-pci")

  unfoldable pub restore_binding : Vfio → S → Vfio
  unfolding is_vfio_link
  restore_binding v s =
      if is_vfio_link (driver_link sys v.addr s) then record v { bound = true } else v
