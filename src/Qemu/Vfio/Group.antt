-- ===== src/Qemu/Vfio/Group.antt =====
-- internal/qemu/vfio.go: validateIOMMUGroup, which reads the devices of the GPU's group.
use qudata_agent.Common.{
  Bool, false, not, Option, none, some, List, [], map, is_nil, ◌++◌, ◌∷◌, ◌&&◌, ◌||◌, if◌then◌else◌,
}
use qudata_agent.Common.Text.{Text, strip_prefix, has_prefix, text_eq, str, join_path, join}
use qudata_agent.Qemu.Vfio.{GroupDevice, Vfio}
use qudata_agent.Qemu.Vfio.Sysfs.{Sysfs, device_dir, attr_or_empty, read_pci_driver}
use qudata_agent.Domain.{Error, plain, Result, err, wrapped, ok}

unfoldable pub trim_prefix : Text → Text → Text
trim_prefix t prefix = elim (strip_prefix t prefix) [ none ↦ t | some rest ↦ rest ]

abbrev is_gpu_class : Text → Bool
is_gpu_class code = has_prefix code (str "0300") || has_prefix code (str "0302")

-- The cases of the switch come in this order.
unfoldable pub classified : Text → Text → Text → Text → Text → Text → GroupDevice
classified addr vendor device class driver code = record {
  addr = addr;
  vendor = vendor;
  device = device;
  class = class;
  driver = driver;
  is_gpu = is_gpu_class code;
  is_audio = not (is_gpu_class code) && has_prefix code (str "0403");
  is_bridge =
      not (is_gpu_class code)
      && (not (has_prefix code (str "0403")) && has_prefix code (str "0604"));
}

abbrev pub is_nvidia_audio : GroupDevice → Bool
is_nvidia_audio d = d.is_audio && has_prefix d.vendor (str "0x10de")

-- Whether a device stands in the way of the passthrough of the GPU at `addr`.
unfoldable pub is_problem : Text → GroupDevice → Bool
is_problem addr d =
    if d.is_bridge || (is_nvidia_audio d || d.is_gpu && text_eq d.addr addr)
    then false
    else not d.is_gpu
      && (not d.is_audio && (not (is_nil d.driver) && not (text_eq d.driver (str "vfio-pci"))))

unfoldable pub problem_text : GroupDevice → Text
problem_text d =
    d.addr ++ (str " (class " ++ (d.class ++ (str ", driver " ++ (d.driver ++ str ")"))))

unfoldable pub problems : Text → List GroupDevice → List Text
problems addr [] = []
problems addr (d ∷ ds) =
    let rest = problems addr ds in if is_problem addr d then problem_text d ∷ rest else rest

-- The error for the devices in the way, if there are any.
unfoldable pub on_problems : Text → List Text → Option Error
on_problems group [] = none
on_problems group (p ∷ ps) = some (
    plain (
      str "IOMMU group "
      ++ (group
          ++ (str " contains devices that may prevent passthrough:\n  "
              ++ (join (p ∷ ps) (str "\n  ")
                  ++ str
                      "\n\nEither:\n1. Bind all devices to vfio-pci manually\n2. Use ACS override patch to isolate the GPU\n3. Use a different PCIe slot")))))

module _ {S : Type 0} (sys : Sysfs S) where
  unfoldable pub inspect : S → Text → GroupDevice
  unfolding classified trim_prefix
  inspect s addr =
      let dir = device_dir addr in
      let class = attr_or_empty sys dir (str "class") s in
      classified addr (attr_or_empty sys dir (str "vendor") s)
        (attr_or_empty sys dir (str "device") s) class (read_pci_driver sys addr s)
        (trim_prefix class (str "0x"))

  -- By the entries of the group's directory.
  unfoldable pub validate_entries : Vfio → S → Result (List Text) → Option Error × Vfio
  unfolding on_problems problems
  validate_entries v s (err e) = (some (wrapped (str "read iommu group devices") e []), v)
  validate_entries v s (ok entries) =
      let devices = map (inspect s) entries in
      (on_problems v.group (problems v.addr devices), record v { group_devices = devices })

  unfoldable pub validate_iommu_group : Vfio → S → Option Error × Vfio
  unfolding validate_entries
  validate_iommu_group v s =
      validate_entries v s
        (sys.read_dir (join_path (device_dir v.addr) (str "iommu_group/devices")) s)
