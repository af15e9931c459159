-- ===== src/Qemu/Recovery/Suffixes.antt =====
-- internal/qemu/recovery.go: names with the suffixes of artifacts.
use mathlib.Core.List.{reverse, reverse-append, reverse-reverse}
use qudata_agent.Common.{
  refl, ap, inl, inr, Bool, true, false, some, [], ==_refl, Option-cases, ◌≡◌, ◌++◌, ◌∷◌, ◌||◌, ◌∙◌,
}
use qudata_agent.Common.Text.{strip_prefix, strip_suffix, Text, reversed}
use qudata_agent.Qemu.Recovery.{vm_of_artifact, qmp_suffix, log_suffix, vars_suffix}
use qudata_agent.Qemu.Recovery.Names.{is_artifact, is_some}

strip_prefix-append : (p t : Text) → strip_prefix (p ++ t) p ≡ some t
unfolding strip_prefix
strip_prefix-append [] t = refl
strip_prefix-append (x ∷ p) t = rw (==_refl x) (strip_prefix-append p t)

pub strip_suffix-append : (v s : Text) → strip_suffix (v ++ s) s ≡ some v
unfolding strip_suffix
strip_suffix-append v s =
    ap (λ t. reversed (strip_prefix t (reverse s))) (reverse-append v s)
    ∙ ap reversed (strip_prefix-append (reverse s) (reverse v))
    ∙ ap some (reverse-reverse v)

pub is_artifact-qmp : (n v : Text) → strip_suffix n qmp_suffix ≡ some v → is_artifact n ≡ true
is_artifact-qmp n v e = rw e refl

pub or_true : (b : Bool) → b || true ≡ true
or_true true = refl
or_true false = refl

pub is_artifact-vm : (n v : Text) → vm_of_artifact n ≡ some v → is_artifact n ≡ true
is_artifact-vm n v e = rw e (or_true (is_some (strip_suffix n qmp_suffix)))

pub is_artifact-log : (v : Text) → is_artifact (v ++ log_suffix) ≡ true
unfolding vm_of_artifact
is_artifact-log v = is_artifact-vm (v ++ log_suffix) v (rw (strip_suffix-append v log_suffix) refl)

pub is_artifact-vars : (v : Text) → is_artifact (v ++ vars_suffix) ≡ true
unfolding vm_of_artifact
is_artifact-vars v = elim (Option-cases (strip_suffix (v ++ vars_suffix) log_suffix)) [
  | inl e ↦ is_artifact-vm (v ++ vars_suffix) v (rw (e, strip_suffix-append v vars_suffix) refl)
  | inr (t, e) ↦ is_artifact-vm (v ++ vars_suffix) t (rw e refl)
]
