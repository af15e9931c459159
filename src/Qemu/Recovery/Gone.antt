-- ===== src/Qemu/Recovery/Gone.antt =====
-- internal/qemu/recovery.go: every artifact goes from the run directory.
use qudata_agent.Common.{
  subst, none-ne-some, true-ne-false, refl, sym, ap, inl, inr, Bool, true, false, Option, none,
  some, List, [], Bool-cases, ℤ, pos, int_eq, ◌≡◌, ◌++◌, ◌∷◌, ◌||◌, ◌⊎◌, ◌∙◌,
}
use qudata_agent.Common.Text.{Text, text_eq, join_path, strip_suffix, text_eq_refl, text_eq_iff}
use qudata_agent.Qemu.Recovery.{
  on_search, OrphanEnv, ProcessInfo, Proc, has_name, on_entry, scan, kill_all,
  find_qemu_process_by_socket, qmp_suffix, first_user, remove_vm, kill_process,
}
use qudata_agent.Domain.{Result, ok, err}
use qudata_agent.Qemu.Recovery.Names.{is_artifact}
use qudata_agent.Qemu.Recovery.Suffixes.{or_true, is_artifact-qmp}
use qudata_agent.Qemu.Recovery.Cleared.{on_search-Cleans, remove_vm-gone, kill_all-Cleans}

-- Whether a VM is among the orphans.
abbrev has_vm : Text → List ProcessInfo → Bool
has_vm v [] = false
has_vm v (o ∷ os) = text_eq v o.vm_id || has_vm v os

-- A socket that the scan has seen is gone, or its VM is among the orphans.
abbrev IsSeen : Text → Text → List ProcessInfo × List Text → Type 0
IsSeen n v (os, names) = (has_name n names ≡ false) ⊎ (has_vm v os ≡ true)

has_vm-snoc :
    (v : Text) (os : List ProcessInfo) (o : ProcessInfo)
    → text_eq v o.vm_id ≡ true
    → has_vm v (os ++ o ∷ []) ≡ true
has_vm-snoc v [] o h = rw h refl
has_vm-snoc v (x ∷ os) o h =
    ap (λ b. text_eq v x.vm_id || b) (has_vm-snoc v os o h) ∙ or_true (text_eq v x.vm_id)

has_vm-append :
    (v : Text) (os more : List ProcessInfo) → has_vm v os ≡ true → has_vm v (os ++ more) ≡ true
has_vm-append v [] more h = absurd (true-ne-false (sym h))
has_vm-append v (x ∷ os) more h = elim (Bool-cases (text_eq v x.vm_id)) [
  | inl e ↦ rw e refl
  | inr e ↦ rw e (has_vm-append v os more (rw e at (h)))
]

on_search-has_vm :
    (env : OrphanEnv) (dir m w : Text) (pid : Result ℤ) (os : List ProcessInfo) (names : List Text)
    (v : Text)
    → has_vm v os ≡ true
    → has_vm v (on_search env dir m w pid (os, names)).0 ≡ true
unfolding on_search
on_search-has_vm env dir m w (err e) os names v h = h
on_search-has_vm env dir m w (ok pid) os names v h = elim (Bool-cases (int_eq pid (pos 0))) [
  | inl e ↦ rw e h
  | inr e ↦ rw e (has_vm-append v os (_ ∷ []) h)
]

on_search-keeps :
    (env : OrphanEnv) (dir m w : Text) (pid : Result ℤ) (os : List ProcessInfo) (names : List Text)
    (n v : Text)
    → is_artifact m ≡ true
    → IsSeen n v (os, names)
    → IsSeen n v (on_search env dir m w pid (os, names))
on_search-keeps env dir m w pid os names n v art (inl gone) =
    inl ((on_search-Cleans env dir m w pid os names art).fewer n gone)
on_search-keeps env dir m w pid os names n v art (inr there) =
    inr (on_search-has_vm env dir m w pid os names v there)

on_search-sees :
    (env : OrphanEnv) (dir n v : Text) (pid : ℤ) (os : List ProcessInfo) (names : List Text)
    → env.removable n ≡ true
    → IsSeen n v (on_search env dir n v (ok pid) (os, names))
unfolding on_search
on_search-sees env dir n v pid os names h = elim (Bool-cases (int_eq pid (pos 0))) [
  | inl e ↦ rw e (inl (remove_vm-gone env.removable n v names h))
  | inr e ↦ rw e (
      inr (
        has_vm-snoc v os (record { pid = pid; qmp_socket = join_path dir n; vm_id = v })
          (text_eq_refl v)))
]

some_eq : (a b : Text) → some a ≡ some b → a ≡ b
some_eq a b h = cc

module _ (env : OrphanEnv) (dir : Text) (procs : List Proc) (listed : env.procs ≡ ok procs)
    (all : (x : Text) → env.removable x ≡ true) where
  on_entry-keeps :
      (m : Text) (o : Option Text) (s : List ProcessInfo × List Text) (n v : Text)
      → strip_suffix m qmp_suffix ≡ o
      → IsSeen n v s
      → IsSeen n v (on_entry env dir m o s)
  unfolding on_entry
  on_entry-keeps m none s n v e h = h
  on_entry-keeps m (some w) (os, names) n v e h =
      on_search-keeps env dir m w (find_qemu_process_by_socket env.procs (join_path dir m)) os names
        n v (is_artifact-qmp m w e) h

  scan-keeps :
      (entries : List Text) (s : List ProcessInfo × List Text) (n v : Text)
      → IsSeen n v s
      → IsSeen n v (scan env dir entries s)
  unfolding scan
  scan-keeps [] s n v h = h
  scan-keeps (m ∷ entries) s n v h =
      scan-keeps entries (on_entry env dir m (strip_suffix m qmp_suffix) s) n v
        (on_entry-keeps m (strip_suffix m qmp_suffix) s n v refl h)

  on_entry-sees :
      (n v : Text) (o : Option Text) (s : List ProcessInfo × List Text)
      → o ≡ some v
      → IsSeen n v (on_entry env dir n o s)
  unfolding on_entry find_qemu_process_by_socket
  on_entry-sees n v none s e = absurd (none-ne-some v e)
  on_entry-sees n v (some w) (os, names) e =
      subst
        (λ r.
          IsSeen n v
            (on_search env dir n w (find_qemu_process_by_socket r (join_path dir n)) (os, names)))
        (sym listed)
        (subst
          (λ x.
            IsSeen n x
              (on_search env dir n w (ok (first_user (join_path dir n) procs)) (os, names)))
          (some_eq w v e)
          (on_search-sees env dir n w (first_user (join_path dir n) procs) os names (all n)))

  -- Every socket among the entries is seen.
  pub scan-sees :
      (entries : List Text) (s : List ProcessInfo × List Text) (n v : Text)
      → strip_suffix n qmp_suffix ≡ some v
      → has_name n entries ≡ true
      → IsSeen n v (scan env dir entries s)
  unfolding scan has_name
  scan-sees [] s n v e h = absurd (true-ne-false (sym h))
  scan-sees (m ∷ entries) s n v e h = elim (Bool-cases (text_eq n m)) [
    | inr other ↦
        scan-sees entries (on_entry env dir m (strip_suffix m qmp_suffix) s) n v e (rw other at (h))
    | inl same ↦
        let e' = subst (λ x. strip_suffix x qmp_suffix ≡ some v) ((text_eq_iff n m).0 same) e in
        scan-keeps entries (on_entry env dir m (strip_suffix m qmp_suffix) s) n v (
          subst (λ x. IsSeen x v (on_entry env dir m (strip_suffix m qmp_suffix) s))
            (sym ((text_eq_iff n m).0 same)) (on_entry-sees m v (strip_suffix m qmp_suffix) s e'))
  ]

  pub kill_all-gone :
      (os : List ProcessInfo) (killed : List ℤ) (names : List Text) (n v : Text)
      → n ≡ v ++ qmp_suffix
      → IsSeen n v (os, names)
      → has_name n (kill_all env os (killed, names)).1 ≡ false
  unfolding kill_all
  kill_all-gone os killed names n v e (inl gone) =
      (kill_all-Cleans env os (killed, names)).fewer n gone
  kill_all-gone [] killed names n v e (inr there) = absurd (true-ne-false (sym there))
  kill_all-gone (o ∷ os) killed names n v e (inr there) =
      let names' = remove_vm env.removable (o.vm_id ++ qmp_suffix) o.vm_id names in
      elim (Bool-cases (text_eq v o.vm_id)) [
        | inr other ↦
            kill_all-gone os (kill_process o.pid killed) names' n v e (inr (rw other at (there)))
        | inl same ↦ (kill_all-Cleans env os (kill_process o.pid killed, names')).fewer n (
            subst (λ x. has_name x names' ≡ false)
              (sym (e ∙ ap (λ t. t ++ qmp_suffix) ((text_eq_iff v o.vm_id).0 same)))
              (remove_vm-gone env.removable (o.vm_id ++ qmp_suffix) o.vm_id names
                (all (o.vm_id ++ qmp_suffix))))
      ]
