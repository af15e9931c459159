-- ===== src/Qemu/Ssh/Quoting.antt =====
-- internal/qemu/ssh.go: shellQuote against a reader of shell words.
use qudata_agent.Common.{
  ℕ, refl, inl, inr, Bool, true, false, Option, none, some, [], arith, leb, ==_iff, Bool-cases, ◌≡◌,
  ◌++◌, ◌∷◌, ◌&&◌, ◌||◌, ◌==◌, if◌then◌else◌, ◌≢◌,
}
use qudata_agent.Common.Text.{Text}
use qudata_agent.Qemu.Ssh.{all_safe, escape, is_safe, shell_quote}

-- A POSIX shell outside quotes, inside single quotes and inside double quotes.
pub data Mode : Type 0 where
  bare single_quoted double_quoted : Mode

-- Characters that mean themselves outside quotes, wherever they stand in a word.
abbrev pub is_literal : ℕ → Bool
is_literal c =
    (leb 97 c && leb c 122)
    || (leb 65 c && leb c 90)
    || (leb 48 c && leb c 57)
    || c == 43
    || (leb 44 c && leb c 47)
    || c == 58
    || c == 64
    || c == 95

abbrev pub map_word : ℕ → Option Text → Option Text
map_word c none = none
map_word c (some w) = some (c ∷ w)

-- The word that a shell reads from a whole text, if that is one word without expansions.
abbrev pub read_word : Mode → Text → Option Text
read_word bare [] = some []
read_word single_quoted [] = none
read_word double_quoted [] = none
read_word bare (c ∷ t) =
    if c == 39
    then read_word single_quoted t
    else if c == 34
    then read_word double_quoted t
    else if is_literal c
    then map_word c (read_word bare t)
    else none
read_word single_quoted (c ∷ t) =
    if c == 39 then read_word bare t else map_word c (read_word single_quoted t)
read_word double_quoted (c ∷ t) =
    if c == 34
    then read_word bare t
    else if c == 36 || (c == 96 || c == 92)
    then none
    else map_word c (read_word double_quoted t)

is_safe-is_literal : (c : ℕ) → is_safe c ≡ true → is_literal c ≡ true
unfolding is_safe
is_safe-is_literal c h = ground arith

is_safe-is_quote : (c : ℕ) → is_safe c ≡ true → ((c == 39) ≡ false) × ((c == 34) ≡ false)
unfolding is_safe
is_safe-is_quote c h = (ground arith, ground arith)

and_both : (a b : Bool) → (a && b) ≡ true → (a ≡ true) × (b ≡ true)
and_both true b h = (refl, h)
and_both false b h = cc

all_safe-read : (s : Text) → all_safe s ≡ true → read_word bare s ≡ some s
unfolding all_safe
all_safe-read [] h = refl
all_safe-read (c ∷ t) h =
    let (safe, rest) = and_both (is_safe c) (all_safe t) h in
    let (not_single, not_double) = is_safe-is_quote c safe in
    rw (not_single, not_double, is_safe-is_literal c safe, all_safe-read t rest) refl

escape-read : (s : Text) → read_word single_quoted (escape s ++ 39 ∷ []) ≡ some s
unfolding escape
escape-read [] = refl
escape-read (c ∷ t) = elim (Bool-cases (c == 39)) [
  | inl e ↦ rw ((==_iff c 39).0 e) (rw (escape-read t) refl)
  | inr e ↦ rw e (rw e (rw (escape-read t) refl))
]

-- Nothing at all is no word.
abbrev pub shell_word : Text → Option Text
shell_word [] = none
shell_word (c ∷ t) = read_word bare (c ∷ t)

-- A shell reads what shellQuote gives for a text that is not empty as one word, and that word is the
-- text, whatever characters it has.
pub shell_word-shell_quote : (s : Text) → s ≢ [] → shell_word (shell_quote s) ≡ some s
unfolding shell_quote
shell_word-shell_quote [] n = absurd (n refl)
shell_word-shell_quote (c ∷ t) n = elim (Bool-cases (all_safe (c ∷ t))) [
  | inl e ↦ rw e (all_safe-read (c ∷ t) e)
  | inr e ↦ rw e (escape-read (c ∷ t))
]
