-- ===== src/Qemu/Recovery/Killed.antt =====
-- internal/qemu/manager.go: which processes KillOrphans kills.
use qudata_agent.Common.{
  subst, true-ne-false, refl, sym, ap, inl, inr, Bool, true, false, Option, none, some, List, [],
  Bool-cases, All, All-append, ℤ, pos, int_eq, int_eq_refl, int_le, ◌≡◌, ◌++◌, ◌∷◌, ◌||◌, ◌⊎◌, ◌∙◌,
  if◌then◌else◌,
}
use qudata_agent.Domain.{Result, Error, err, ok}
use qudata_agent.Common.Text.{Text, strip_suffix, join_path, text_eq, text_eq_refl}
use qudata_agent.Qemu.Recovery.{
  first_user, OrphanEnv, kill_orphans, Proc, ProcessInfo, on_search, on_entry, scan, kill_process,
  kill_all, find_orphan_vms, has_name, uses_socket, find_qemu_process_by_socket, remove_vm,
  qmp_suffix, found_pid, on_orphans,
}
use qudata_agent.Common.Decimal.{atoi}
use qudata_agent.Qemu.Recovery.Names.{strip_suffix-some}
use qudata_agent.Qemu.Recovery.Suffixes.{or_true}

abbrev procs_of : Result (List Proc) → List Proc
procs_of (err e) = []
procs_of (ok procs) = procs

-- One of the processes has this pid, is of QEMU and names the socket.
abbrev IsUser : Text → ℤ → List Proc → Type 0
IsUser qmp_socket pid [] = ⊥
IsUser qmp_socket pid (p ∷ ps) =
    ((atoi p.entry ≡ some pid) × (uses_socket qmp_socket p.cmdline ≡ true))
    ⊎ IsUser qmp_socket pid ps

-- A pid above zero, of a process that uses a socket of the run directory.
pub record IsOrphan (dir : Text) (names : List Text) (procs : List Proc) (pid : ℤ) : Type 0 where
  pub above : int_le pid (pos 0) ≡ false
  pub vm :
      (v : Text) × (has_name (v ++ qmp_suffix) names ≡ true)
      × IsUser (join_path dir (v ++ qmp_suffix)) pid procs

-- The pid of a search is 0, or one of a user of the socket.
abbrev Finds : Text → ℤ → List Proc → Type 0
Finds qmp_socket pid procs = (pid ≡ pos 0) ⊎ IsUser qmp_socket pid procs

Finds-later :
    (s : Text) (pid : ℤ) (p : Proc) (ps : List Proc) → Finds s pid ps → Finds s pid (p ∷ ps)
Finds-later s pid p ps (inl z) = inl z
Finds-later s pid p ps (inr u) = inr (inr u)

found_pid-Finds :
    (s : Text) (p : Proc) (ps : List Proc) (o : Option ℤ) (rest : ℤ)
    → atoi p.entry ≡ o
    → uses_socket s p.cmdline ≡ true
    → Finds s rest ps
    → Finds s (found_pid o rest) (p ∷ ps)
found_pid-Finds s p ps none rest e u h = Finds-later s rest p ps h
found_pid-Finds s p ps (some pid) rest e u h = inr (inl (e, u))

pick-Finds :
    (b : Bool) (s : Text) (pid rest : ℤ) (procs : List Proc)
    → (b ≡ true → Finds s pid procs)
    → Finds s rest procs
    → Finds s (if b then pid else rest) procs
pick-Finds true s pid rest procs h k = h refl
pick-Finds false s pid rest procs h k = k

first_user-Finds : (s : Text) (procs : List Proc) → Finds s (first_user s procs) procs
unfolding first_user
first_user-Finds s [] = inl refl
first_user-Finds s (p ∷ ps) =
    pick-Finds (uses_socket s p.cmdline) s (found_pid (atoi p.entry) (first_user s ps))
      (first_user s ps) (p ∷ ps)
      (λ u. found_pid-Finds s p ps (atoi p.entry) (first_user s ps) refl u (first_user-Finds s ps))
      (Finds-later s (first_user s ps) p ps (first_user-Finds s ps))

int_eq_zero : (n : ℤ) → n ≡ pos 0 → int_eq n (pos 0) ≡ true
int_eq_zero n e = rw e (int_eq_refl (pos 0))

found-IsUser :
    (s : Text) (pid : ℤ) (procs : List Proc)
    → int_eq pid (pos 0) ≡ false
    → Finds s pid procs
    → IsUser s pid procs
found-IsUser s pid procs f (inr u) = u
found-IsUser s pid procs f (inl z) = absurd (true-ne-false (sym (int_eq_zero pid z) ∙ f))

module _ (env : OrphanEnv) (dir : Text) (names : List Text) where
  -- A VM of the scan.
  IsFound : ProcessInfo → Type 0
  IsFound o =
      (has_name (o.vm_id ++ qmp_suffix) names ≡ true)
      × IsUser (join_path dir (o.vm_id ++ qmp_suffix)) o.pid (procs_of env.procs)

  on_search-IsFound :
      (n v : Text) (r : Result (List Proc)) (os : List ProcessInfo) (left : List Text)
      → env.procs ≡ r
      → n ≡ v ++ qmp_suffix
      → has_name n names ≡ true
      → All IsFound os
      → All IsFound
          (on_search env dir n v (find_qemu_process_by_socket r (join_path dir n)) (os, left)).0
  unfolding on_search find_qemu_process_by_socket IsFound
  on_search-IsFound n v (err e) os left same suffix there h = h
  on_search-IsFound n v (ok procs) os left same suffix there h =
      elim (Bool-cases (int_eq (first_user (join_path dir n) procs) (pos 0))) [
        | inl z ↦ rw z h
        | inr f ↦ rw f (
            All-append IsFound os (_ ∷ []) h (
              (
                subst (λ x. has_name x names ≡ true) suffix there,
                subst
                    (λ x.
                      IsUser (join_path dir x) (first_user (join_path dir n) procs)
                        (procs_of env.procs))
                    suffix
                    (subst (λ ps. IsUser (join_path dir n) (first_user (join_path dir n) procs) ps)
                      (sym (ap procs_of same))
                      (found-IsUser (join_path dir n) (first_user (join_path dir n) procs) procs f
                        (first_user-Finds (join_path dir n) procs))),
              ),
              tt,
            ))
      ]

  on_entry-IsFound :
      (n : Text) (o : Option Text) (os : List ProcessInfo) (left : List Text)
      → strip_suffix n qmp_suffix ≡ o
      → has_name n names ≡ true
      → All IsFound os
      → All IsFound (on_entry env dir n o (os, left)).0
  unfolding on_entry
  on_entry-IsFound n none os left e there h = h
  on_entry-IsFound n (some v) os left e there h =
      on_search-IsFound n v env.procs os left refl (strip_suffix-some n qmp_suffix v e) there h

  scan-IsFound :
      (entries : List Text) (s : List ProcessInfo × List Text)
      → ((x : Text) → has_name x entries ≡ true → has_name x names ≡ true)
      → All IsFound s.0
      → All IsFound (scan env dir entries s).0
  unfolding scan has_name
  scan-IsFound [] s sub h = h
  scan-IsFound (n ∷ entries) (os, left) sub h =
      scan-IsFound entries (on_entry env dir n (strip_suffix n qmp_suffix) (os, left))
        (λ x there. sub x (ap (λ b. text_eq x n || b) there ∙ or_true (text_eq x n)))
        (on_entry-IsFound n (strip_suffix n qmp_suffix) os left refl
          (sub n (ap (λ b. b || has_name n entries) (text_eq_refl n))) h)

  kill_process-IsOrphan :
      (o : ProcessInfo) (killed : List ℤ)
      → IsFound o
      → All (IsOrphan dir names (procs_of env.procs)) killed
      → All (IsOrphan dir names (procs_of env.procs)) (kill_process o.pid killed)
  unfolding kill_process IsFound
  kill_process-IsOrphan o killed (there, user) h = elim (Bool-cases (int_le o.pid (pos 0))) [
    | inl z ↦ rw z h
    | inr f ↦ rw f (record { above = f; vm = (o.vm_id, there, user) }, h)
  ]

  kill_all-IsOrphan :
      (os : List ProcessInfo) (killed : List ℤ) (left : List Text)
      → All IsFound os
      → All (IsOrphan dir names (procs_of env.procs)) killed
      → All (IsOrphan dir names (procs_of env.procs)) (kill_all env os (killed, left)).0
  unfolding kill_all
  kill_all-IsOrphan [] killed left found h = h
  kill_all-IsOrphan (o ∷ os) killed left (f, found) h =
      kill_all-IsOrphan os (kill_process o.pid killed)
        (remove_vm env.removable (o.vm_id ++ qmp_suffix) o.vm_id left) found
        (kill_process-IsOrphan o killed f h)

  on_orphans-IsOrphan :
      (d : Option (Error × Bool))
      → All
          (IsOrphan dir names (procs_of env.procs))
          (on_orphans env (find_orphan_vms env d dir names)).0
  unfolding find_orphan_vms kill_all
  on_orphans-IsOrphan (some (e, true)) = tt
  on_orphans-IsOrphan (some (e, false)) = tt
  on_orphans-IsOrphan none =
      let s = scan env dir names ([], names) in
      kill_all-IsOrphan s.0 [] s.1 (scan-IsFound names ([], names) (λ x h. h) tt) tt

-- KillOrphans kills only what /proc shows as a process of QEMU, with a pid above zero, whose command line
-- holds the path of a socket that the run directory has; whatever the host answers.
pub kill_orphans-IsOrphan :
    (env : OrphanEnv) (dir : Text) (names : List Text)
    → All (IsOrphan dir names (procs_of env.procs)) (kill_orphans env dir names).0
unfolding kill_orphans
kill_orphans-IsOrphan env dir names = on_orphans-IsOrphan env dir names env.read_dir
