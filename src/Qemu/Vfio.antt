-- ===== src/Qemu/Vfio.antt =====
-- internal/qemu/vfio.go: binding of PCI devices to vfio-pci.
pub mod Sysfs
pub mod Group
pub mod Modules
pub mod Bind
pub mod Kept
pub mod Refusal
pub mod Passed
use qudata_agent.Common.{Bool, false, List, []}
use qudata_agent.Common.Text.{Text}

pub record GroupDevice : Type 0 where
  pub addr : Text
  pub vendor : Text
  pub device : Text
  pub class : Text
  pub driver : Text
  pub is_gpu : Bool
  pub is_audio : Bool
  pub is_bridge : Bool

pub record Vfio : Type 0 where
  pub addr : Text
  pub vendor_id : Text
  pub device_id : Text
  pub group : Text
  pub orig_driver : Text
  pub bound : Bool
  pub group_devices : List GroupDevice
  pub bound_group_addrs : List Text

unfoldable pub new_vfio : Text → Vfio
new_vfio addr = record {
  addr = addr;
  vendor_id = [];
  device_id = [];
  group = [];
  orig_driver = [];
  bound = false;
  group_devices = [];
  bound_group_addrs = [];
}
