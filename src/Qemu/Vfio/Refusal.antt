-- ===== src/Qemu/Vfio/Refusal.antt =====
-- internal/qemu/vfio.go: Bind on each of its branches.
use mathlib.Core.Option.{none-ne-some}
use qudata_agent.Qemu.Vfio.Bind.{
  bind, on_device_file, on_devices_bound, on_unloaded, on_driver, with_driver, on_validated,
  on_group_link, on_ids, on_found, bind_devices,
}
use qudata_agent.Common.{
  refl, sym, inl, inr, true, false, Option, none, some, List, [], map, Bool-cases, ◌≡◌, ◌⊎◌, ◌∙◌,
}
use qudata_agent.Qemu.Vfio.{Vfio, new_vfio}
use qudata_agent.Qemu.Vfio.Sysfs.{Sysfs, device_dir, read_sysfs_attr, driver_link, base}
use qudata_agent.Domain.{Error, Result, ok, err}
use qudata_agent.Common.Text.{text_eq, str, Text, join_path}
use qudata_agent.Qemu.Vfio.Group.{validate_entries, problems, validate_iommu_group, inspect}
use qudata_agent.Qemu.Manager.Binding.{BindsHonestly}
use qudata_agent.Qemu.Vfio.Kept.{
  on_problems-none, KeepsVfio-IsUnhindered, bind_devices-KeepsVfio, KeepsVfio-refl, IsUnhindered,
  KeepsVfio,
}
use qudata_agent.Qemu.Vfio.Modules.{unload_gpu_modules}

-- The GPU of `v` is bound, it was not driven by nouveau, and nothing in its group stands in the way.
pub record IsBound (v v' : Vfio) : Type 0 where
  pub bound : v'.bound ≡ true
  pub addr : v'.addr ≡ v.addr
  pub not_nouveau : text_eq v'.orig_driver (str "nouveau") ≡ false
  pub alone : problems v'.addr v'.group_devices ≡ []

-- The receiver does not count as bound on an error, and the host is as before unless the driver is
-- known not to be nouveau and the group to be clear.
pub record IsUnbound (S : Type 0) (s : S) (v v' : Vfio) (s' : S) : Type 0 where
  pub bound : v'.bound ≡ v.bound
  pub addr : v'.addr ≡ v.addr
  pub untouched :
      (s' ≡ s)
      ⊎ ((text_eq v'.orig_driver (str "nouveau") ≡ false)
          × (problems v'.addr v'.group_devices ≡ []))

abbrev pub BindOutcome : {S : Type 0} → S → Vfio → Option Error × Vfio × S → Type 0
BindOutcome s v (none, v', s') = IsBound v v'
BindOutcome s v (some e, v', s') = IsUnbound _ s v v' s'

module _ {S : Type 0} (sys : Sysfs S) where
  on_device_file-BindOutcome :
      (s₀ : S) (v₀ v : Vfio) (s : S) (o : Option Error)
      → v.bound ≡ v₀.bound
      → v.addr ≡ v₀.addr
      → IsUnhindered v
      → BindOutcome s₀ v₀ (on_device_file sys v s o)
  unfolding on_device_file
  on_device_file-BindOutcome s₀ v₀ v s (some e) b a c = record {
    bound = b;
    addr = a;
    untouched = inr (c.not_nouveau, c.alone);
  }
  on_device_file-BindOutcome s₀ v₀ v s none b a c = record {
    bound = refl;
    addr = a;
    not_nouveau = c.not_nouveau;
    alone = c.alone;
  }

  on_devices_bound-BindOutcome :
      (s₀ : S) (v₀ v : Vfio) (r : Option Error × Vfio × S)
      → v.bound ≡ v₀.bound
      → v.addr ≡ v₀.addr
      → IsUnhindered v
      → KeepsVfio v r.1
      → BindOutcome s₀ v₀ (on_devices_bound sys r)
  unfolding on_devices_bound
  on_devices_bound-BindOutcome s₀ v₀ v (some e, v', s) b a c k =
      let c' = KeepsVfio-IsUnhindered v v' k c in
      record { bound = k.bound ∙ b; addr = k.addr ∙ a; untouched = inr (c'.not_nouveau, c'.alone) }
  on_devices_bound-BindOutcome s₀ v₀ v (none, v', s) b a c k =
      on_device_file-BindOutcome s₀ v₀ v' s (sys.stat (join_path (str "/dev/vfio") v'.group) s)
        (k.bound ∙ b) (k.addr ∙ a) (KeepsVfio-IsUnhindered v v' k c)

  on_unloaded-BindOutcome :
      (s₀ : S) (v₀ v : Vfio) (r : Option Error × S)
      → v.bound ≡ v₀.bound
      → v.addr ≡ v₀.addr
      → IsUnhindered v
      → BindOutcome s₀ v₀ (on_unloaded sys v r)
  unfolding on_unloaded
  on_unloaded-BindOutcome s₀ v₀ v (some e, s) b a c = record {
    bound = b;
    addr = a;
    untouched = inr (c.not_nouveau, c.alone);
  }
  on_unloaded-BindOutcome s₀ v₀ v (none, s) b a c =
      on_devices_bound-BindOutcome s₀ v₀ v (bind_devices sys v.group_devices v s) b a c
        (bind_devices-KeepsVfio sys v.group_devices v v s (KeepsVfio-refl v))

  on_driver-BindOutcome :
      (s : S) (v₀ v : Vfio)
      → v.bound ≡ v₀.bound
      → v.addr ≡ v₀.addr
      → problems v.addr v.group_devices ≡ []
      → BindOutcome s v₀ (on_driver sys v s)
  unfolding on_driver
  on_driver-BindOutcome s v₀ v b a p = elim (Bool-cases (text_eq v.orig_driver (str "nouveau"))) [
    | inl e ↦ rw e (record { bound = b; addr = a; untouched = inl refl })
    | inr e ↦ rw e (
        on_unloaded-BindOutcome s v₀ v (unload_gpu_modules sys v s) b a
          (record { not_nouveau = e; alone = p }))
  ]

  with_driver-BindOutcome :
      (s : S) (v₀ v : Vfio) (o : Option Text)
      → v.bound ≡ v₀.bound
      → v.addr ≡ v₀.addr
      → problems v.addr v.group_devices ≡ []
      → BindOutcome s v₀ (on_driver sys (with_driver v o) s)
  unfolding with_driver
  with_driver-BindOutcome s v₀ v none b a p = on_driver-BindOutcome s v₀ v b a p
  with_driver-BindOutcome s v₀ v (some driver) b a p =
      on_driver-BindOutcome s v₀ (record v { orig_driver = driver }) b a p

  on_validated-BindOutcome :
      (s : S) (v₀ : Vfio) (r : Option Error × Vfio)
      → r.1.bound ≡ v₀.bound
      → r.1.addr ≡ v₀.addr
      → (r.0 ≡ none → problems r.1.addr r.1.group_devices ≡ [])
      → BindOutcome s v₀ (on_validated sys r s)
  unfolding on_validated
  on_validated-BindOutcome s v₀ (some e, v) b a p = record {
    bound = b;
    addr = a;
    untouched = inl refl;
  }
  on_validated-BindOutcome s v₀ (none, v) b a p =
      with_driver-BindOutcome s v₀ v (driver_link sys v.addr s) b a (p refl)

  validate_entries-kept :
      (v : Vfio) (s : S) (r : Result (List Text))
      → let (o, v') = validate_entries sys v s r in
        (v'.bound ≡ v.bound)
        × (v'.addr ≡ v.addr)
        × (o ≡ none → problems v'.addr v'.group_devices ≡ [])
  unfolding validate_entries
  validate_entries-kept v s (err e) = (refl, refl, λ h. absurd (none-ne-some _ (sym h)))
  validate_entries-kept v s (ok entries) =
      (refl, refl, λ h. on_problems-none v.group (problems v.addr (map (inspect sys s) entries)) h)

  on_group_link-BindOutcome :
      (s : S) (v₀ v : Vfio) (r : Result Text)
      → v.bound ≡ v₀.bound
      → v.addr ≡ v₀.addr
      → BindOutcome s v₀ (on_group_link sys v s r)
  unfolding on_group_link validate_iommu_group
  on_group_link-BindOutcome s v₀ v (err e) b a = record {
    bound = b;
    addr = a;
    untouched = inl refl;
  }
  on_group_link-BindOutcome s v₀ v (ok link) b a =
      let u : Vfio = record v { group = base link } in
      let (kept_bound, kept_addr, clear) =
        validate_entries-kept u s
          (sys.read_dir (join_path (device_dir v.addr) (str "iommu_group/devices")) s) in
      on_validated-BindOutcome s v₀ (validate_iommu_group sys u s) (kept_bound ∙ b) (kept_addr ∙ a)
        clear

  on_ids-BindOutcome :
      (s : S) (v : Vfio) (vendor device : Result Text)
      → BindOutcome s v (on_ids sys v s vendor device)
  unfolding on_ids
  on_ids-BindOutcome s v (err e) device = record { bound = refl; addr = refl; untouched = inl refl }
  on_ids-BindOutcome s v (ok vendor) (err e) = record {
    bound = refl;
    addr = refl;
    untouched = inl refl;
  }
  on_ids-BindOutcome s v (ok vendor) (ok device) =
      on_group_link-BindOutcome s v (record v { vendor_id = vendor; device_id = device })
        (sys.readlink (join_path (device_dir v.addr) (str "iommu_group")) s) refl refl

  on_found-BindOutcome :
      (s : S) (v : Vfio) (o : Option Error) → BindOutcome s v (on_found sys v s o)
  unfolding on_found
  on_found-BindOutcome s v (some e) = record { bound = refl; addr = refl; untouched = inl refl }
  on_found-BindOutcome s v none =
      on_ids-BindOutcome s v (read_sysfs_attr sys (device_dir v.addr) (str "vendor") s)
        (read_sysfs_attr sys (device_dir v.addr) (str "device") s)

-- Bind on any host: where it succeeds, the receiver is bound with its address, the driver noted for
-- the GPU is not nouveau, and no device of the group that was read stands in the way. Where it fails,
-- the receiver's address and its mark as bound are as before, and so is the whole host, unless the
-- group was read and is clear and the driver noted is not nouveau.
pub bind-BindOutcome :
    {S : Type 0} (sys : Sysfs S) (v : Vfio) (s : S) → BindOutcome s v (bind sys v s)
unfolding bind
bind-BindOutcome sys v s = on_found-BindOutcome sys s v (sys.stat (device_dir v.addr) s)

-- NewVFIO and Bind as the manager calls them, from a state of the host, in which `on_vfio` are the
-- devices that are on vfio-pci.
unfoldable pub bound_vfio :
    {S : Type 0} → (S → List Text) → Option Error × Vfio × S → Option Error × Vfio × List Text
bound_vfio on_vfio (e, v, s) = (e, v, on_vfio s)

bound_vfio-honest :
    {S : Type 0} (on_vfio : S → List Text) (s : S) (v : Vfio) (r : Option Error × Vfio × S)
    → BindOutcome s v r
    → (bound_vfio on_vfio r).0 ≡ none
    → ((bound_vfio on_vfio r).1.bound ≡ true) × ((bound_vfio on_vfio r).1.addr ≡ v.addr)
unfolding bound_vfio
bound_vfio-honest on_vfio s v (some e, u, s') h same = cc
bound_vfio-honest on_vfio s v (none, u, s') h same = (h.bound, h.addr)

-- The code of VFIO meets what the manager assumes of it, on any host: where Bind of a new VFIO
-- succeeds, it is bound, and its address is the one asked for.
bind-BindsHonestly :
    {S : Type 0} (sys : Sysfs S) (on_vfio : S → List Text) (s : S)
    → BindsHonestly (λ a. bound_vfio on_vfio (bind sys (new_vfio a) s))
unfolding new_vfio
bind-BindsHonestly sys on_vfio s a same =
    bound_vfio-honest on_vfio s (new_vfio a) (bind sys (new_vfio a) s)
      (bind-BindOutcome sys (new_vfio a) s) same
