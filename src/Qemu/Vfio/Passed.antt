-- ===== src/Qemu/Vfio/Passed.antt =====
-- internal/qemu/vfio.go: what has been done to the devices of a group where Bind succeeds.
use qudata_agent.Common.{Bool, true, false, not, Option, none, some, List, [], ◌≡◌, ◌∷◌, ◌||◌}
use qudata_agent.Common.Text.{Text, str, text_eq, join_path}
use qudata_agent.Qemu.Vfio.{GroupDevice, Vfio}
use qudata_agent.Qemu.Vfio.Sysfs.{Sysfs, read_pci_driver}
use qudata_agent.Domain.{Error}
use qudata_agent.Qemu.Vfio.Bind.{is_passed, bind_single_device}

module _ {S : Type 0} (sys : Sysfs S) where
  -- A device that needs nothing: it is not one that is passed, or it is on vfio-pci already.
  abbrev pub needs_none : GroupDevice → S → Bool
  needs_none d s = not (is_passed d) || text_eq (read_pci_driver sys d.addr s) (str "vfio-pci")

  -- From one state of the host to another, each of the devices has been found to need nothing, or has
  -- been bound without an error.
  pub data Passes : List GroupDevice → S → S → Type 0 where
    over : (s : S) → Passes [] s s
    left_alone :
        (d : GroupDevice) (ds : List GroupDevice) (s t : S)
        → needs_none d s ≡ true
        → Passes ds s t
        → Passes (d ∷ ds) s t
    bound_now :
        (d : GroupDevice) (ds : List GroupDevice) (s u t : S)
        → needs_none d s ≡ false
        → bind_single_device sys d.addr s ≡ (none, u)
        → Passes ds u t
        → Passes (d ∷ ds) s t

  abbrev Loops : List GroupDevice → Vfio → S → Option Error × Vfio × S → Type 0
  Loops ds v s (some e, w, t) = Unit {0}
  Loops ds v s (none, w, t) =
      Passes ds s t × (w.group_devices ≡ v.group_devices) × (w.group ≡ v.group)

  -- The devices of the group have been passed through, and the group has its device file.
  pub record IsReady (w : Vfio) (t : S) : Type 0 where
    pub start : S
    pub passes : Passes w.group_devices start t
    pub file : sys.stat (join_path (str "/dev/vfio") w.group) t ≡ none

  abbrev pub Readies : Option Error × Vfio × S → Type 0
  Readies (some e, w, t) = Unit {0}
  Readies (none, w, t) = IsReady w t
