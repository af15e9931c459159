-- ===== src/Qemu/Ssh/WriteCommand.antt =====
-- internal/qemu/ssh.go: what a shell makes of the command of WriteFile.
use qudata_agent.Common.{
  append_assoc, ℕ, refl, ap, inl, inr, true, false, Option, none, some, List, [], ==_iff, ==_refl,
  Bool-cases, All, arith, ◌≡◌, ◌≢◌, ◌++◌, ◌∷◌, ◌==◌, ◌||◌, ◌∙◌, if◌then◌else◌,
}
use qudata_agent.Common.Text.{Text, text_eq, str, split}
use qudata_agent.Qemu.Ssh.{shell_quote, escape, is_safe, all_safe}
use qudata_agent.Qemu.Ssh.Quoting.{Mode, bare, single_quoted, double_quoted, is_literal}
use qudata_agent.Qemu.Ssh.Remote.{write_command, here_doc, delimiter}
use qudata_agent.Qemu.Ssh.HereDoc.{read_here_doc, read_here_doc-here_doc}

-- What is left of a text behind a prefix.
abbrev pub strip : Text → Text → Option Text
strip [] t = some t
strip (p ∷ ps) [] = none
strip (p ∷ ps) (c ∷ t) = if c == p then strip ps t else none

abbrev onto_word : ℕ → Option (Text × Text) → Option (Text × Text)
onto_word c none = none
onto_word c (some (w, t)) = some (c ∷ w, t)

-- A word without expansions, up to the space that ends it, and what is left.
abbrev pub read_until_space : Mode → Text → Option (Text × Text)
read_until_space m [] = none
read_until_space bare (c ∷ t) =
    if c == 32
    then some ([], c ∷ t)
    else if c == 39
    then read_until_space single_quoted t
    else if c == 34
    then read_until_space double_quoted t
    else if is_literal c
    then onto_word c (read_until_space bare t)
    else none
read_until_space single_quoted (c ∷ t) =
    if c == 39 then read_until_space bare t else onto_word c (read_until_space single_quoted t)
read_until_space double_quoted (c ∷ t) =
    if c == 34
    then read_until_space bare t
    else if c == 36 || (c == 96 || c == 92)
    then none
    else onto_word c (read_until_space double_quoted t)

-- The target of a redirection is not empty.
abbrev pub read_target : Text → Option (Text × Text)
read_target [] = none
read_target (c ∷ t) = if c == 32 then none else read_until_space bare (c ∷ t)

-- What stands before a single quote, and what stands behind it.
abbrev pub read_until_quote : Text → Option (Text × Text)
read_until_quote [] = none
read_until_quote (c ∷ t) = if c == 39 then some ([], t) else onto_word c (read_until_quote t)

-- A write: the file, the content, and the lines left to run.
abbrev pub Write : Type 0
Write = Text × Text × List Text

abbrev on_document : Text → Option (Text × List Text) → Option Write
on_document path none = none
on_document path (some (content, rest)) = some (path, content, rest)

abbrev on_newline : Text → Text → Option Text → Option Write
on_newline path d none = none
on_newline path d (some t) = on_document path (read_here_doc d t)

abbrev on_delimiter : Text → Option (Text × Text) → Option Write
on_delimiter path none = none
on_delimiter path (some (d, t)) = on_newline path d (strip (10 ∷ []) t)

abbrev on_operator : Text → Option Text → Option Write
on_operator path none = none
on_operator path (some t) = on_delimiter path (read_until_quote t)

abbrev on_target : Option (Text × Text) → Option Write
on_target none = none
on_target (some (path, t)) = on_operator path (strip (str " << '") t)

abbrev on_cat : Option Text → Option Write
on_cat none = none
on_cat (some t) = on_target (read_target t)

-- How a shell reads a `cat` into a file from a here-document whose delimiter is quoted, so that nothing
-- in the document is expanded.
abbrev pub read_write : Text → Option Write
read_write t = on_cat (strip (str "cat > ") t)

strip-append : (p t : Text) → strip p (p ++ t) ≡ some t
strip-append [] t = refl
strip-append (c ∷ p) t = rw (==_refl c) (strip-append p t)

is_safe-plain :
    (c : ℕ)
    → is_safe c ≡ true
    → ((c == 32) ≡ false) × ((c == 39) ≡ false) × ((c == 34) ≡ false) × (is_literal c ≡ true)
unfolding is_safe
is_safe-plain c h = (ground arith, ground arith, ground arith, ground arith)

all_safe-parts :
    (c : ℕ) (t : Text) → all_safe (c ∷ t) ≡ true → (is_safe c ≡ true) × (all_safe t ≡ true)
unfolding all_safe
all_safe-parts c t h = (ground arith, ground arith)

all_safe-until_space :
    (s r : Text) → all_safe s ≡ true → read_until_space bare (s ++ 32 ∷ r) ≡ some (s, 32 ∷ r)
all_safe-until_space [] r h = refl
all_safe-until_space (c ∷ t) r h =
    let (safe, rest) = all_safe-parts c t h in
    let (no_space, not_single, not_double, literal) = is_safe-plain c safe in
    rw (no_space, not_single, not_double, literal, all_safe-until_space t r rest) refl

escape-until_space :
    (s r : Text) → read_until_space single_quoted (escape s ++ 39 ∷ 32 ∷ r) ≡ some (s, 32 ∷ r)
unfolding escape
escape-until_space [] r = refl
escape-until_space (c ∷ t) r = elim (Bool-cases (c == 39)) [
  | inl e ↦ rw ((==_iff c 39).0 e) (rw (escape-until_space t r) refl)
  | inr e ↦ rw e (rw e (rw (escape-until_space t r) refl))
]

read_target-word :
    (c : ℕ) (t : Text) → (c == 32) ≡ false → read_target (c ∷ t) ≡ read_until_space bare (c ∷ t)
read_target-word c t e = ap (λ b. if b then none else read_until_space bare (c ∷ t)) e

-- The quoted path is the target of the redirection.
read_target-shell_quote :
    (path r : Text) → path ≢ [] → read_target (shell_quote path ++ 32 ∷ r) ≡ some (path, 32 ∷ r)
unfolding shell_quote
read_target-shell_quote [] r n = absurd (n refl)
read_target-shell_quote (c ∷ t) r n = elim (Bool-cases (all_safe (c ∷ t))) [
  | inl e ↦
      let (safe, rest) = all_safe-parts c t e in
      rw e (
        read_target-word c (t ++ 32 ∷ r) (is_safe-plain c safe).0
        ∙ all_safe-until_space (c ∷ t) r e)
  | inr e ↦ rw (e, append_assoc (escape (c ∷ t)) (39 ∷ []) (32 ∷ r)) (escape-until_space (c ∷ t) r)
]

behind_target :
    (path content : Text)
    → on_target (some (path, str " << 'QUDATA_EOF'" ++ 10 ∷ here_doc content))
      ≡ on_document path (read_here_doc delimiter (here_doc content))
unfolding str
behind_target path content = refl

write_target :
    (path document : Text)
    → path ≢ []
    → read_target (shell_quote path ++ (str " << 'QUDATA_EOF'" ++ 10 ∷ document))
      ≡ some (path, str " << 'QUDATA_EOF'" ++ 10 ∷ document)
unfolding str
write_target path document n = read_target-shell_quote path _ n

-- The command of WriteFile, as a shell reads it: it writes the content and one line end to the file of
-- that path, with nothing expanded in either, and has nothing left to run, if no line of the content is the
-- delimiter QUDATA_EOF. The path must not be empty.
pub read_write-write_command :
    (path content : Text)
    → path ≢ []
    → All (λ l. text_eq l delimiter ≡ false) (split 10 content)
    → read_write (write_command path content) ≡ some (path, content ++ 10 ∷ [], [])
unfolding write_command
read_write-write_command path content n h =
    ap on_cat (
      strip-append (str "cat > ")
        (shell_quote path ++ (str " << 'QUDATA_EOF'" ++ 10 ∷ here_doc content)))
    ∙ ap on_target (write_target path (here_doc content) n)
    ∙ behind_target path content
    ∙ ap (on_document path) (read_here_doc-here_doc content h)
