-- ===== src/Qemu/Vfio/Kept.antt =====
-- internal/qemu/vfio.go: what the loop over the group leaves of the receiver.
use mathlib.Core.Option.{none-ne-some}
use qudata_agent.Common.{
  refl, sym, inl, inr, false, not, Option, none, some, List, [], Bool-cases, ◌≡◌, ◌++◌, ◌∷◌, ◌||◌,
}
use qudata_agent.Qemu.Vfio.{Vfio, GroupDevice}
use qudata_agent.Domain.{ok, Error}
use qudata_agent.Qemu.Vfio.Group.{on_problems, problems}
use qudata_agent.Qemu.Vfio.Sysfs.{Sysfs, read_pci_driver}
use qudata_agent.Common.Text.{text_eq, Text, str}
use qudata_agent.Qemu.Vfio.Bind.{on_bound, bind_devices, is_passed, bind_single_device}

-- What a later part of Bind has kept of the receiver.
pub record KeepsVfio (v v' : Vfio) : Type 0 where
  pub bound : v'.bound ≡ v.bound
  pub addr : v'.addr ≡ v.addr
  pub driver : v'.orig_driver ≡ v.orig_driver
  pub devices : v'.group_devices ≡ v.group_devices

pub record IsUnhindered (v : Vfio) : Type 0 where
  pub not_nouveau : text_eq v.orig_driver (str "nouveau") ≡ false
  pub alone : problems v.addr v.group_devices ≡ []

pub KeepsVfio-IsUnhindered : (v v' : Vfio) → KeepsVfio v v' → IsUnhindered v → IsUnhindered v'
KeepsVfio-IsUnhindered v v' k c = record {
  not_nouveau = rw (k.driver) c.not_nouveau;
  alone = rw (k.addr, k.devices) c.alone;
}

pub KeepsVfio-refl : (v : Vfio) → KeepsVfio v v
KeepsVfio-refl v = record { bound = refl; addr = refl; driver = refl; devices = refl }

pub ok_only : {A : Type 0} (x y : A) → ok x ≡ ok y → x ≡ y
ok_only x y e = cc

pub on_problems-none : (group : Text) (ps : List Text) → on_problems group ps ≡ none → ps ≡ []
unfolding on_problems
on_problems-none group [] e = refl
on_problems-none group (p ∷ ps) e = absurd (none-ne-some _ (sym e))

module _ {S : Type 0} (sys : Sysfs S) where
  on_bound-KeepsVfio :
      (d : GroupDevice) (u v : Vfio) (r : Option Error × S)
      (rest : Vfio → S → Option Error × Vfio × S)
      → KeepsVfio u v
      → ((w : Vfio) (s : S) → KeepsVfio u w → KeepsVfio u (rest w s).1)
      → KeepsVfio u (on_bound sys d v r rest).1
  unfolding on_bound
  on_bound-KeepsVfio d u v (some e, s) rest k next = k
  on_bound-KeepsVfio d u v (none, s) rest k next = elim (Bool-cases (text_eq d.addr v.addr)) [
    | inl e ↦ rw e (next v s k)
    | inr e ↦ rw e (
        next (record v { bound_group_addrs = v.bound_group_addrs ++ d.addr ∷ [] }) s
          (record { bound = k.bound; addr = k.addr; driver = k.driver; devices = k.devices }))
  ]

  pub bind_devices-KeepsVfio :
      (ds : List GroupDevice) (u v : Vfio) (s : S)
      → KeepsVfio u v
      → KeepsVfio u (bind_devices sys ds v s).1
  unfolding bind_devices
  bind_devices-KeepsVfio [] u v s k = k
  bind_devices-KeepsVfio (d ∷ ds) u v s k =
      elim (Bool-cases
        (not (is_passed d) || text_eq (read_pci_driver sys d.addr s) (str "vfio-pci"))) [
          | inl e ↦ rw e (bind_devices-KeepsVfio ds u v s k)
          | inr e ↦ rw e (
              on_bound-KeepsVfio d u v (bind_single_device sys d.addr s) (bind_devices sys ds) k
                (λ w s' k'. bind_devices-KeepsVfio ds u w s' k'))
        ]
