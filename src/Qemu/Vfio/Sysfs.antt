-- ===== src/Qemu/Vfio/Sysfs.antt =====
-- What internal/qemu/vfio.go uses of the host: files, links and commands, over a state of the host.
use qudata_agent.Common.{
  Bool, Option, none, some, List, [], is_nil, ◌++◌, ◌∷◌, ◌&&◌, ◌==◌, if◌then◌else◌,
}
use qudata_agent.Common.Text.{Text, str, join_path, trim_space}
use qudata_agent.Domain.{Result, Error, err, ok}

-- How a command ended: its output, and its error with whether its time was up.
pub record Ran : Type 0 where
  pub out : Text
  pub failure : Option (Error × Bool)

pub record Sysfs (S : Type 0) : Type 0 where
  pub stat : Text → S → Option Error
  pub read_file : Text → S → Result Text
  pub readlink : Text → S → Result Text
  pub read_dir : Text → S → Result (List Text)
  pub write_file : Text → Text → S → Option Error × S
  pub run : List Text → S → Ran × S

unfoldable pub devices_dir : Text
devices_dir = str "/sys/bus/pci/devices"

unfoldable pub device_dir : Text → Text
device_dir addr = join_path devices_dir addr

drop_slashes : Text → Text
drop_slashes [] = []
drop_slashes (c ∷ t) = let rest = drop_slashes t in if is_nil rest && c == 47 then [] else c ∷ rest

last_part : Text → Text → Text
last_part [] part = part
last_part (c ∷ t) part = if c == 47 then last_part t [] else last_part t (part ++ c ∷ [])

-- filepath.Base
unfoldable pub base : Text → Text
unfolding drop_slashes last_part
base [] = str "."
base (c ∷ t) = let path = drop_slashes (c ∷ t) in if is_nil path then str "/" else last_part path []

trimmed : Result Text → Result Text
trimmed (err e) = err e
trimmed (ok t) = ok (trim_space t)

based : Result Text → Option Text
based (err e) = none
based (ok link) = some (base link)

abbrev or_empty : Result Text → Text
or_empty (err e) = []
or_empty (ok t) = t

abbrev pub or_none : Option Text → Text
or_none none = []
or_none (some t) = t

module _ {S : Type 0} (sys : Sysfs S) where
  unfoldable pub read_sysfs_attr : Text → Text → S → Result Text
  unfolding trimmed
  read_sysfs_attr dir attr s = trimmed (sys.read_file (join_path dir attr) s)

  -- The same where the source drops the error.
  unfoldable pub attr_or_empty : Text → Text → S → Text
  attr_or_empty dir attr s = or_empty (read_sysfs_attr dir attr s)

  -- The driver that a device's link names, if it has one.
  unfoldable pub driver_link : Text → S → Option Text
  unfolding based
  driver_link addr s = based (sys.readlink (join_path (device_dir addr) (str "driver")) s)

  unfoldable pub read_pci_driver : Text → S → Text
  read_pci_driver addr s = or_none (driver_link addr s)
