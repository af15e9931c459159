-- ===== src/Qemu/Recovery/Orphans.antt =====
-- internal/qemu/manager.go: what KillOrphans leaves of the run directory.
use qudata_agent.Qemu.Recovery.Gone.{scan-sees, kill_all-gone}
use qudata_agent.Common.{
  subst, none-ne-some, true-ne-false, refl, sym, inl, inr, Bool, true, false, not, Option, none,
  some, List, [], Bool-cases, Option-cases, ◌≡◌, ◌++◌, ◌∷◌, ◌&&◌, ◌⊎◌, ◌∙◌,
}
use qudata_agent.Common.Text.{Text, strip_suffix, text_eq, text_eq_iff}
use qudata_agent.Qemu.Recovery.{
  OrphanEnv, clean, kill_orphans, has_name, Proc, find_orphan_vms, qmp_suffix, clean_artifact,
  vm_of_artifact, clean_orphan_artifacts, ProcessInfo, kill_all, scan,
}
use qudata_agent.Qemu.Recovery.Names.{
  Cleans, is_artifact, Cleans-trans, has_name-remove_same, strip_suffix-some,
}
use qudata_agent.Qemu.Recovery.Cleared.{
  clean-Cleans, clean_artifact-Cleans, scan-Cleans, kill_all-Cleans,
}
use qudata_agent.Domain.{ok}
use qudata_agent.Qemu.Recovery.Suffixes.{strip_suffix-append}

abbrev HasNoSocket : List Text → Type 0
HasNoSocket names = (n v : Text) → strip_suffix n qmp_suffix ≡ some v → has_name n names ≡ false

HasNoSocket-Cleans : {a b : List Text} → Cleans a b → HasNoSocket a → HasNoSocket b
HasNoSocket-Cleans c h n v e = c.fewer n (h n v e)

-- An artifact without a socket is removed.
clean_artifact-gone :
    (env : OrphanEnv) (n v : Text) (o : Option Text) (names : List Text)
    → env.removable n ≡ true
    → HasNoSocket names
    → o ≡ some v
    → has_name n (clean_artifact env n o names) ≡ false
clean_artifact-gone env n v none names r h e = absurd (none-ne-some v e)
clean_artifact-gone env n v (some w) names r h e =
    rw (h (w ++ qmp_suffix) w (strip_suffix-append w qmp_suffix))
      (has_name-remove_same env.removable n names r)

clean-gone :
    (env : OrphanEnv) (entries names : List Text) (n v : Text)
    → ((x : Text) → env.removable x ≡ true)
    → HasNoSocket names
    → vm_of_artifact n ≡ some v
    → has_name n entries ≡ true
    → has_name n (clean env entries names) ≡ false
unfolding clean has_name
clean-gone env [] names n v r h e there = absurd (true-ne-false (sym there))
clean-gone env (m ∷ entries) names n v r h e there =
    let names' = clean_artifact env m (vm_of_artifact m) names in
    elim (Bool-cases (text_eq n m)) [
      | inr other ↦
          clean-gone env entries names' n v r
            (HasNoSocket-Cleans (clean_artifact-Cleans env m (vm_of_artifact m) names refl) h) e
            (rw other at (there))
      | inl same ↦ (clean-Cleans env entries names').fewer n (
          subst (λ x. has_name x names' ≡ false) (sym ((text_eq_iff n m).0 same))
            (clean_artifact-gone env m v (vm_of_artifact m) names (r m) h
              (subst (λ x. vm_of_artifact x ≡ some v) ((text_eq_iff n m).0 same) e)))
    ]

artifact_cases :
    (n : Text)
    → is_artifact n ≡ true
    → ((v : Text) × (strip_suffix n qmp_suffix ≡ some v))
      ⊎ ((v : Text) × (vm_of_artifact n ≡ some v))
artifact_cases n h = elim (Option-cases (strip_suffix n qmp_suffix)) [
  | inr (v, e) ↦ inl (v, e)
  | inl e ↦ elim (Option-cases (vm_of_artifact n)) [
    | inr (v, f) ↦ inr (v, f)
    | inl f ↦ absurd (true-ne-false (sym (rw (e, f) at (h))))
  ]
]

-- Cleaning up where no socket is left removes the other artifacts.
clean-artifacts :
    (env : OrphanEnv) (names : List Text) (n : Text)
    → ((x : Text) → env.removable x ≡ true)
    → HasNoSocket names
    → is_artifact n ≡ true
    → has_name n (clean env names names) ≡ false
clean-artifacts env names n r h art = elim (artifact_cases n art) [
  | inl (v, e) ↦ (clean-Cleans env names names).fewer n (h n v e)
  | inr (v, e) ↦ elim (Bool-cases (has_name n names)) [
    | inl there ↦ clean-gone env names names n v r h e there
    | inr gone ↦ (clean-Cleans env names names).fewer n gone
  ]
]

and_true : (b : Bool) → b && true ≡ b
and_true true = refl
and_true false = refl

and_false : (b : Bool) → b && false ≡ false
and_false true = refl
and_false false = refl

module _ (env : OrphanEnv) (dir : Text) (procs : List Proc) (listed : env.procs ≡ ok procs)
    (all : (x : Text) → env.removable x ≡ true) (names : List Text) where
  scanned : List ProcessInfo × List Text
  scanned = scan env dir names ([], names)

  left : List Text
  left = (kill_all env scanned.0 ([], scanned.1)).1

  left-Cleans : Cleans names left
  unfolding left scanned
  left-Cleans =
      Cleans-trans (scan-Cleans env dir names ([], names))
        (kill_all-Cleans env scanned.0 ([], scanned.1))

  left-HasNoSocket : HasNoSocket left
  unfolding left scanned
  left-HasNoSocket n v e = elim (Bool-cases (has_name n names)) [
    | inr gone ↦ left-Cleans.fewer n gone
    | inl there ↦
        kill_all-gone env dir procs listed all scanned.0 [] scanned.1 n v
          (strip_suffix-some n qmp_suffix v e)
          (scan-sees env dir procs listed all names ([], names) n v e there)
  ]

  left-clean :
      (n : Text) → has_name n (clean env left left) ≡ has_name n names && not (is_artifact n)
  left-clean n = elim (Bool-cases (is_artifact n)) [
    | inl art ↦
        rw art
          (clean-artifacts env left n all left-HasNoSocket art ∙ sym (and_false (has_name n names)))
    | inr other ↦ rw other (
        (clean-Cleans env left left).kept n other
        ∙ left-Cleans.kept n other
        ∙ sym (and_true (has_name n names)))
  ]

-- KillOrphans clears the run directory: behind it, the names left are those that were there and are not
-- of a socket (.qmp), a log (.log) or firmware variables (-OVMF_VARS.fd), whatever processes run. The
-- directory and /proc must be readable and every file removable.
pub kill_orphans-Cleared :
    (env : OrphanEnv) (dir : Text) (procs : List Proc) (names : List Text)
    → env.read_dir ≡ none
    → env.procs ≡ ok procs
    → ((x : Text) → env.removable x ≡ true)
    → (n : Text)
    → has_name n (kill_orphans env dir names).1 ≡ has_name n names && not (is_artifact n)
unfolding kill_orphans find_orphan_vms clean_orphan_artifacts left scanned
kill_orphans-Cleared env dir procs names readable listed all n =
    rw readable (left-clean env dir procs listed all names n)
