-- ===== src/Qemu/Ssh/HereDoc.antt =====
-- internal/qemu/ssh.go: what a shell writes for WriteFile's here-document.
use qudata_agent.Common.{
  append_assoc, ℕ, refl, sym, ap, inl, inr, false, Option, none, some, List, [], ==_iff, ==_refl,
  Bool-cases, All, ◌≡◌, ◌++◌, ◌∷◌, ◌==◌, ◌∙◌, if◌then◌else◌,
}
use qudata_agent.Common.Text.{Text, split_from, text_eq, str, split, text_eq_refl}
use qudata_agent.Qemu.Ssh.Remote.{here_doc, delimiter}

abbrev add_line : Text → Option (List Text × List Text) → Option (List Text × List Text)
add_line l none = none
add_line l (some (before, behind)) = some (l ∷ before, behind)

-- The lines before the first one that is the delimiter, and those behind it.
abbrev pub until : Text → List Text → Option (List Text × List Text)
until d [] = none
until d (l ∷ ls) = if text_eq l d then some ([], ls) else add_line l (until d ls)

-- Lines, each with its end.
abbrev pub unlines : List Text → Text
unlines [] = []
unlines (l ∷ ls) = l ++ 10 ∷ unlines ls

abbrev joined : Option (List Text × List Text) → Option (Text × List Text)
joined none = none
joined (some (before, behind)) = some (unlines before, behind)

-- The document that the shell reads, if it is delimited, with the lines left for it to run.
abbrev pub read_here_doc : Text → Text → Option (Text × List Text)
read_here_doc d t = joined (until d (split 10 t))

split_from-append :
    (sep : ℕ) (part t d : Text)
    → split_from sep part (t ++ sep ∷ d) ≡ split_from sep part t ++ split_from sep [] d
unfolding split_from
split_from-append sep part [] d = rw (==_refl sep) refl
split_from-append sep part (c ∷ t) d = elim (Bool-cases (c == sep)) [
  | inl e ↦ rw e (ap (λ l. part ∷ l) (split_from-append sep [] t d))
  | inr e ↦ rw e (split_from-append sep (part ++ c ∷ []) t d)
]

unlines-split_from : (part t : Text) → unlines (split_from 10 part t) ≡ part ++ (t ++ 10 ∷ [])
unfolding split_from
unlines-split_from part [] = refl
unlines-split_from part (c ∷ t) = elim (Bool-cases (c == 10)) [
  | inl e ↦ rw e (
      ap (λ l. part ++ 10 ∷ l) (unlines-split_from [] t)
      ∙ ap (λ x. part ++ x ∷ (t ++ 10 ∷ [])) (sym ((==_iff c 10).0 e)))
  | inr e ↦ rw e (unlines-split_from (part ++ c ∷ []) t ∙ append_assoc part (c ∷ []) (t ++ 10 ∷ []))
]

until-append :
    (d : Text) (ls : List Text)
    → All (λ l. text_eq l d ≡ false) ls
    → until d (ls ++ d ∷ []) ≡ some (ls, [])
until-append d [] h = rw (text_eq_refl d) refl
until-append d (l ∷ ls) (h, hs) = rw (h, until-append d ls hs) refl

delimiter_line : split_from 10 [] delimiter ≡ delimiter ∷ []
unfolding split_from str
delimiter_line = refl

-- The shell writes the content and one line end to the file, and has nothing left to run, if no line of
-- the content is the delimiter QUDATA_EOF.
pub read_here_doc-here_doc :
    (content : Text)
    → All (λ l. text_eq l delimiter ≡ false) (split 10 content)
    → read_here_doc delimiter (here_doc content) ≡ some (content ++ 10 ∷ [], [])
unfolding here_doc split
read_here_doc-here_doc content h =
    ap (λ ls. joined (until delimiter ls))
      (split_from-append 10 [] content delimiter
        ∙ ap (λ l. split_from 10 [] content ++ l) delimiter_line)
    ∙ ap joined (until-append delimiter (split_from 10 [] content) h)
    ∙ ap (λ t. some (t, [])) (unlines-split_from [] content)
