-- ===== src/Qemu/Recovery/Cleared.antt =====
-- internal/qemu/recovery.go: only artifacts go from the run directory.
use qudata_agent.Common.{
  refl, inl, inr, Bool, true, false, Option, none, some, List, [], Bool-cases, ℤ, pos, int_eq, ◌≡◌,
  ◌++◌, ◌∷◌,
}
use qudata_agent.Qemu.Recovery.{
  remove_vm_artifacts, remove_vm, on_search, on_entry, scan, kill_all, OrphanEnv, clean,
  ProcessInfo, has_name, vm_of_artifact, remove_name, qmp_suffix, clean_artifact,
  find_qemu_process_by_socket, log_suffix, kill_process, vars_suffix,
}
use qudata_agent.Common.Text.{Text, strip_suffix, join_path}
use qudata_agent.Qemu.Recovery.Names.{
  Cleans, is_artifact, Cleans-trans, Cleans-refl, remove_name-Cleans, has_name-remove_same,
}
use qudata_agent.Domain.{Result, err, ok}
use qudata_agent.Qemu.Recovery.Suffixes.{
  is_artifact-qmp, strip_suffix-append, is_artifact-vm, is_artifact-log, is_artifact-vars,
}

remove_vm_artifacts-Cleans :
    (r : Text → Bool) (v : Text) (names : List Text) → Cleans names (remove_vm_artifacts r v names)
unfolding remove_vm_artifacts
remove_vm_artifacts-Cleans r v names =
    Cleans-trans (remove_name-Cleans r (v ++ log_suffix) names (is_artifact-log v)) (
      remove_name-Cleans r (v ++ vars_suffix) (remove_name r (v ++ log_suffix) names)
        (is_artifact-vars v))

remove_vm-Cleans :
    (r : Text → Bool) (n v : Text) (names : List Text)
    → is_artifact n ≡ true
    → Cleans names (remove_vm r n v names)
unfolding remove_vm
remove_vm-Cleans r n v names h =
    Cleans-trans (remove_name-Cleans r n names h)
      (remove_vm_artifacts-Cleans r v (remove_name r n names))

-- The names behind the removal of a socket that can be removed.
pub remove_vm-gone :
    (r : Text → Bool) (n v : Text) (names : List Text)
    → r n ≡ true
    → has_name n (remove_vm r n v names) ≡ false
unfolding remove_vm
remove_vm-gone r n v names h =
    (remove_vm_artifacts-Cleans r v (remove_name r n names)).fewer n
      (has_name-remove_same r n names h)

pub on_search-Cleans :
    (env : OrphanEnv) (dir n v : Text) (pid : Result ℤ) (os : List ProcessInfo) (names : List Text)
    → is_artifact n ≡ true
    → Cleans names (on_search env dir n v pid (os, names)).1
unfolding on_search
on_search-Cleans env dir n v (err e) os names h = Cleans-refl names
on_search-Cleans env dir n v (ok pid) os names h = elim (Bool-cases (int_eq pid (pos 0))) [
  | inl e ↦ rw e (remove_vm-Cleans env.removable n v names h)
  | inr e ↦ rw e (Cleans-refl names)
]

on_entry-Cleans :
    (env : OrphanEnv) (dir n : Text) (o : Option Text) (os : List ProcessInfo) (names : List Text)
    → strip_suffix n qmp_suffix ≡ o
    → Cleans names (on_entry env dir n o (os, names)).1
unfolding on_entry
on_entry-Cleans env dir n none os names e = Cleans-refl names
on_entry-Cleans env dir n (some v) os names e =
    on_search-Cleans env dir n v (find_qemu_process_by_socket env.procs (join_path dir n)) os names
      (is_artifact-qmp n v e)

pub scan-Cleans :
    (env : OrphanEnv) (dir : Text) (entries : List Text) (s : List ProcessInfo × List Text)
    → Cleans s.1 (scan env dir entries s).1
unfolding scan
scan-Cleans env dir [] s = Cleans-refl s.1
scan-Cleans env dir (n ∷ entries) (os, names) =
    Cleans-trans (on_entry-Cleans env dir n (strip_suffix n qmp_suffix) os names refl)
      (scan-Cleans env dir entries (on_entry env dir n (strip_suffix n qmp_suffix) (os, names)))

pub kill_all-Cleans :
    (env : OrphanEnv) (os : List ProcessInfo) (s : List ℤ × List Text)
    → Cleans s.1 (kill_all env os s).1
unfolding kill_all
kill_all-Cleans env [] s = Cleans-refl s.1
kill_all-Cleans env (o ∷ os) (killed, names) =
    Cleans-trans
      (remove_vm-Cleans env.removable (o.vm_id ++ qmp_suffix) o.vm_id names
        (is_artifact-qmp (o.vm_id ++ qmp_suffix) o.vm_id (strip_suffix-append o.vm_id qmp_suffix)))
      (kill_all-Cleans env os
        (kill_process o.pid killed, remove_vm env.removable (o.vm_id ++ qmp_suffix) o.vm_id names))

pub clean_artifact-Cleans :
    (env : OrphanEnv) (n : Text) (o : Option Text) (names : List Text)
    → vm_of_artifact n ≡ o
    → Cleans names (clean_artifact env n o names)
clean_artifact-Cleans env n none names e = Cleans-refl names
clean_artifact-Cleans env n (some v) names e =
    elim (Bool-cases (has_name (v ++ qmp_suffix) names)) [
      | inl h ↦ rw h (Cleans-refl names)
      | inr h ↦ rw h (remove_name-Cleans env.removable n names (is_artifact-vm n v e))
    ]

pub clean-Cleans :
    (env : OrphanEnv) (entries names : List Text) → Cleans names (clean env entries names)
unfolding clean
clean-Cleans env [] names = Cleans-refl names
clean-Cleans env (n ∷ entries) names =
    Cleans-trans (clean_artifact-Cleans env n (vm_of_artifact n) names refl)
      (clean-Cleans env entries (clean_artifact env n (vm_of_artifact n) names))
