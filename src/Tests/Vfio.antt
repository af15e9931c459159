-- ===== src/Tests/Vfio.antt =====
-- Bind on a host whose state is the list of its writes and commands, the last first.
use qudata_agent.Common.{refl, none, List, [], take, ◌≡◌, ◌∷◌, if◌then◌else◌}
use qudata_agent.Common.Text.{
  Text, codes, text_eq, join_path, str, has_prefix, strip_prefix, trim_space,
}
use qudata_agent.Qemu.Vfio.Sysfs.{
  Sysfs, read_sysfs_attr, device_dir, devices_dir, attr_or_empty, driver_link, read_pci_driver,
  base,
}
use qudata_agent.Qemu.Vfio.{Vfio, new_vfio}
use qudata_agent.Qemu.Vfio.Refusal.{BindOutcome, bind-BindOutcome}
use qudata_agent.Qemu.Vfio.Bind.{bind, bind_devices, bind_single_device}
use qudata_agent.Domain.{ok, err, no_instance_running}
use qudata_agent.Qemu.Vfio.Group.{validate_iommu_group, is_problem, inspect}
use qudata_agent.Qemu.Vfio.Modules.{unload_gpu_modules}

abbrev Log : Type 0
Log = List (Text × Text)

-- A group of two display devices: the one that is asked for has no driver, the other has nouveau.
abbrev second : Text
second = codes "0000:01:00.1"

abbrev driver_path : Text
driver_path = codes "/sys/bus/pci/devices/0000:01:00.1/driver"

abbrev host : Sysfs Log
host = record {
  stat = λ path s. none;
  read_file = λ path s. ok (codes "0x030000");
  readlink = λ path s.
      if text_eq path (codes "/sys/bus/pci/devices/0000:01:00.0/driver")
      then err no_instance_running
      else if text_eq path driver_path
      then ok (codes "/drivers/nouveau")
      else ok (codes "/groups/14");
  read_dir = λ path s. ok (codes "0000:01:00.0" ∷ second ∷ []);
  write_file = λ path t s. (none, (path, t) ∷ s);
  run = λ args s. (record { out = []; failure = none }, s);
}

abbrev gpu : Vfio
gpu = new_vfio (codes "0000:01:00.0")

bind-BindOutcome_example : BindOutcome [] gpu (bind host gpu [])
bind-BindOutcome_example = bind-BindOutcome host gpu []

-- The second device is taken from nouveau while that runs it, though Bind refuses to do so for the
-- first.
takes_from_nouveau :
    take 3 (bind host gpu []).2
    ≡ (codes "/sys/bus/pci/drivers_probe", second)
      ∷ (codes "/sys/bus/pci/devices/0000:01:00.1/driver_override", codes "vfio-pci")
      ∷ (codes "/sys/bus/pci/devices/0000:01:00.1/driver/unbind", second)
      ∷ []
unfolding bind read_sysfs_attr text_eq join_path device_dir devices_dir str new_vfio
    validate_iommu_group is_problem inspect has_prefix strip_prefix attr_or_empty trim_space
    driver_link unload_gpu_modules bind_devices read_pci_driver bind_single_device base
takes_from_nouveau = refl
