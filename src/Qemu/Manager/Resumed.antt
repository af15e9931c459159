-- ===== src/Qemu/Manager/Resumed.antt =====
-- internal/qemu/manager.go: Create after its wait for SSH, also with another Create before its end.
use qudata_agent.Common.{
  ℕ, refl, ap, inl, inr, Option, none, some, List, [], is_nil, is_nil-ne, ◌≡◌, ◌∷◌, ◌≢◌, ◌⊎◌,
}
use qudata_agent.Qemu.Manager.Resume.{create_resume, on_booted, BootEnv, boot_effects, key_effects}
use qudata_agent.Qemu.Manager.{VmConfig, Vm, Effect}
use qudata_agent.Qemu.Manager.Parts.{Boot, port_map}
use qudata_agent.Qemu.Manager.Invariant.{Inv, vm_cases, stop_locked-IsStopped, IsStopped}
use qudata_agent.Domain.{Result, Error, InstancePorts, ok, err, wrapped}
use qudata_agent.Qemu.Vfio.{Vfio}
use qudata_agent.Common.Text.{Text, str}
use qudata_agent.Qemu.Manager.Ledger.{lefts, Owes-own, Owes, Owes-neutral}

Owes-boot_effects :
    (cfg : VmConfig) (env : BootEnv) {lost : List Text} {fx : List Effect} {vs : List Vfio}
    {disk : Option Text} {procs : ℕ}
    → Owes lost fx vs disk procs
    → Owes lost (boot_effects cfg env fx) vs disk procs
unfolding boot_effects
Owes-boot_effects cfg env o =
    Owes-neutral _ refl (Owes-neutral _ refl (keys cfg.ssh_key_path env.pub_key o))
  where
    keys :
        (path : Text) (k : Option Text) {lost : List Text} {fx : List Effect} {vs : List Vfio}
        {disk : Option Text} {procs : ℕ}
        → Owes lost fx vs disk procs
        → Owes lost (key_effects path k fx) vs disk procs
    keys [] k o = o
    keys (c ∷ s) none o = o
    keys (c ∷ s) (some k) o = Owes-neutral _ refl o

-- SSH did not answer, and the error of Create has that of the wait.
pub record IsUnready (waited : Option Error) (e : Error) : Type 0 where
  pub cause : Error
  pub failed : waited ≡ some cause
  pub same : e ≡ wrapped (str "VM SSH not ready") cause []

-- What the second half of Create comes to, by what the wait for SSH came to.
abbrev pub Resumes : Option Error → Boot → Vm → Result InstancePorts × Vm → Type 0
Resumes waited b s (ok ports, s') =
    (waited ≡ none)
    × (s.vm_id ≢ [])
    × (ports ≡ port_map b.pool)
    × (s'.mgr ≡ record s.mgr { ssh_client = some b.client })
    × Inv s'
Resumes waited b s (err e, s') =
    ((s.vm_id ≡ []) × (s' ≡ s))
    ⊎ ((s.vm_id ≢ []) × IsUnready waited e × IsStopped (lefts s.effects) s')

on_booted-Resumes :
    (cfg : VmConfig) (env : BootEnv) (b : Boot) (s : Vm) (o : Option Error)
    → Inv s
    → s.vm_id ≢ []
    → Resumes o b s (on_booted cfg env b s o)
unfolding on_booted
on_booted-Resumes cfg env b s (some e) v h =
    inr (
      h,
      record { cause = e; failed = refl; same = refl },
      stop_locked-IsStopped cfg env.stop s v h,
    )
on_booted-Resumes cfg env b s none v h = (
  refl,
  h,
  refl,
  refl,
  record {
    owes = Owes-own (Owes-boot_effects cfg env v.owes);
    idle = λ e. absurd (h e);
    running = v.running;
  },
)

-- Create after its wait: with no VM any more it fails and changes nothing; with one, it succeeds exactly
-- where the wait for SSH did. If SSH did not answer, it fails with the error of the wait and the VM is
-- stopped; else it returns the port map of its pool, sets the SSH client and no other field, and keeps
-- the invariant.
pub create_resume-Resumes :
    (cfg : VmConfig) (env : BootEnv) (b : Boot) (s : Vm)
    → Inv s
    → Resumes env.wait_for_boot b s (create_resume cfg env b s)
unfolding create_resume
create_resume-Resumes cfg env b s v = elim (vm_cases s.vm_id) [
  | inl gone ↦ rw (ap is_nil gone) (inl (gone, refl))
  | inr there ↦
      rw (is_nil-ne s.vm_id there) (on_booted-Resumes cfg env b s env.wait_for_boot v there)
]

-- A Create whose wait for SSH fails stops whatever VM the manager then has, and it does not matter
-- whether that is the VM that it started.
pub create_resume_stops_any :
    (cfg : VmConfig) (env : BootEnv) (b : Boot) (s : Vm) (e : Error)
    → Inv s
    → s.vm_id ≢ []
    → env.wait_for_boot ≡ some e
    → IsStopped (lefts s.effects) (create_resume cfg env b s).1
unfolding create_resume on_booted
create_resume_stops_any cfg env b s e v there failed =
    rw (is_nil-ne s.vm_id there, failed) (stop_locked-IsStopped cfg env.stop s v there)
