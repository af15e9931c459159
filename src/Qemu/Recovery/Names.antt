-- ===== src/Qemu/Recovery/Names.antt =====
-- internal/qemu/recovery.go: the names of the run directory, and what a removal does to them.
use mathlib.Core.List.{reverse, reverse-append, reverse-reverse}
use qudata_agent.Common.{
  ap₂, none-ne-some, true-ne-false, refl, sym, ap, inl, inr, Bool, true, false, Option, none, some,
  List, [], ==_iff, Bool-cases, ◌≡◌, ◌++◌, ◌∷◌, ◌&&◌, ◌||◌, ◌==◌, ◌∙◌,
}
use qudata_agent.Common.Text.{strip_prefix, Text, strip_suffix, text_eq, text_eq_iff, reversed}
use qudata_agent.Qemu.Recovery.{has_name, qmp_suffix, remove_name, vm_of_artifact}

strip_prefix-some : (t p r : Text) → strip_prefix t p ≡ some r → t ≡ p ++ r
unfolding strip_prefix
strip_prefix-some t [] r e = cc
strip_prefix-some [] (y ∷ p) r e = absurd (none-ne-some r e)
strip_prefix-some (x ∷ t) (y ∷ p) r e = elim (Bool-cases (x == y)) [
  | inl same ↦ ap₂ (λ a l. a ∷ l) ((==_iff x y).0 same) (strip_prefix-some t p r (rw same at (e)))
  | inr other ↦ absurd (none-ne-some r (rw other at (e)))
]

reversed-some :
    (o : Option Text) (t s v : Text)
    → ((r : Text) → o ≡ some r → reverse t ≡ reverse s ++ r)
    → reversed o ≡ some v
    → t ≡ v ++ s
reversed-some none t s v h e = absurd (none-ne-some v e)
reversed-some (some r) t s v h e =
    sym (reverse-reverse t)
    ∙ ap reverse (h r refl)
    ∙ reverse-append (reverse s) r
    ∙ ap₂ (λ a b. a ++ b) (some_eq (reverse r) v e) (reverse-reverse s)
  where
    some_eq : (a b : Text) → some a ≡ some b → a ≡ b
    some_eq a b h = cc

pub strip_suffix-some : (t s v : Text) → strip_suffix t s ≡ some v → t ≡ v ++ s
unfolding strip_suffix
strip_suffix-some t s v e =
    reversed-some (strip_prefix (reverse t) (reverse s)) t s v
      (strip_prefix-some (reverse t) (reverse s)) e

-- A socket, a log or the variables of the firmware.
abbrev pub is_some : Option Text → Bool
is_some none = false
is_some (some t) = true

abbrev pub is_artifact : Text → Bool
is_artifact n = is_some (strip_suffix n qmp_suffix) || is_some (vm_of_artifact n)

-- Only artifacts go.
pub record Cleans (before after : List Text) : Type 0 where
  pub kept : (n : Text) → is_artifact n ≡ false → has_name n after ≡ has_name n before
  pub fewer : (n : Text) → has_name n before ≡ false → has_name n after ≡ false

pub Cleans-refl : (l : List Text) → Cleans l l
Cleans-refl l = record { kept = λ n h. refl; fewer = λ n h. h }

pub Cleans-trans : {a b c : List Text} → Cleans a b → Cleans b c → Cleans a c
Cleans-trans p q = record {
  kept = λ n h. q.kept n h ∙ p.kept n h;
  fewer = λ n h. q.fewer n (p.fewer n h);
}

text_eq-other : (n m x : Text) → text_eq n x ≡ false → text_eq m x ≡ true → text_eq n m ≡ false
text_eq-other n m x d s = rw ((text_eq_iff m x).0 s) d

has_name-remove_other :
    (r : Text → Bool) (n x : Text) (names : List Text)
    → text_eq n x ≡ false
    → has_name n (remove_name r x names) ≡ has_name n names
unfolding has_name remove_name
has_name-remove_other r n x [] d = refl
has_name-remove_other r n x (m ∷ names) d = elim (Bool-cases (text_eq m x)) [
  | inr keep ↦ rw keep (ap (λ b. text_eq n m || b) (has_name-remove_other r n x names d))
  | inl same ↦ elim (Bool-cases (r x)) [
    | inr keep ↦ rw (same, keep) (ap (λ b. text_eq n m || b) (has_name-remove_other r n x names d))
    | inl gone ↦ rw (same, gone, text_eq-other n m x d same) (has_name-remove_other r n x names d)
  ]
]

has_name-remove_fewer :
    (r : Text → Bool) (n x : Text) (names : List Text)
    → has_name n names ≡ false
    → has_name n (remove_name r x names) ≡ false
unfolding has_name remove_name
has_name-remove_fewer r n x [] h = refl
has_name-remove_fewer r n x (m ∷ names) h = elim (Bool-cases (text_eq n m)) [
  | inl e ↦ absurd (true-ne-false (rw e at (h)))
  | inr e ↦ elim (Bool-cases (text_eq m x && r x)) [
    | inl gone ↦ rw gone (has_name-remove_fewer r n x names (rw e at (h)))
    | inr keep ↦ rw (keep, e) (has_name-remove_fewer r n x names (rw e at (h)))
  ]
]

text_eq-sym : (m x : Text) → text_eq m x ≡ false → text_eq x m ≡ false
text_eq-sym m x d = elim (Bool-cases (text_eq x m)) [
  | inl e ↦ absurd (true-ne-false (sym ((text_eq_iff m x).1 (sym ((text_eq_iff x m).0 e))) ∙ d))
  | inr e ↦ e
]

-- A name that can be removed is gone.
pub has_name-remove_same :
    (r : Text → Bool) (x : Text) (names : List Text)
    → r x ≡ true
    → has_name x (remove_name r x names) ≡ false
unfolding has_name remove_name
has_name-remove_same r x [] h = refl
has_name-remove_same r x (m ∷ names) h = elim (Bool-cases (text_eq m x)) [
  | inl e ↦ rw (e, h) (has_name-remove_same r x names h)
  | inr e ↦ rw (e, text_eq-sym m x e) (has_name-remove_same r x names h)
]

artifact_ne : (n x : Text) → is_artifact n ≡ false → is_artifact x ≡ true → text_eq n x ≡ false
artifact_ne n x p q = elim (Bool-cases (text_eq n x)) [
  | inl e ↦ absurd (true-ne-false (sym q ∙ ap is_artifact (sym ((text_eq_iff n x).0 e)) ∙ p))
  | inr e ↦ e
]

pub remove_name-Cleans :
    (r : Text → Bool) (x : Text) (names : List Text)
    → is_artifact x ≡ true
    → Cleans names (remove_name r x names)
remove_name-Cleans r x names h = record {
  kept = λ n p. has_name-remove_other r n x names (artifact_ne n x p h);
  fewer = λ n p. has_name-remove_fewer r n x names p;
}
