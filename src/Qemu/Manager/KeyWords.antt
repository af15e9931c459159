-- ===== src/Qemu/Manager/KeyWords.antt =====
-- internal/qemu/manager.go: what a shell reads of the key in AddSSHKey's command.
use qudata_agent.Common.{
  none-ne-some, ℕ, true-ne-false, suc, refl, sym, inl, inr, Bool, true, false, Option, none, some,
  [], arith, Bool-cases, length, ◌≡◌, ◌++◌, ◌∷◌, ◌||◌, ◌==◌, ◌↔◌, ◌≤◌, ◌<◌,
}
use qudata_agent.Common.Text.{Text}
use qudata_agent.Qemu.Ssh.Quoting.{
  Mode, read_word, map_word, single_quoted, bare, double_quoted, is_literal,
}
use qudata_agent.Qemu.Manager.SshKeys.{quoted_key}

pub has_quote : Text → Bool
has_quote [] = false
has_quote (c ∷ t) = c == 39 || has_quote t

quoted-read : (t : Text) → has_quote t ≡ false → read_word single_quoted (t ++ 39 ∷ []) ≡ some t
unfolding has_quote
quoted-read [] h = refl
quoted-read (c ∷ t) h = elim (Bool-cases (c == 39)) [
  | inl e ↦ absurd (true-ne-false (rw e at (h)))
  | inr e ↦ rw (e, quoted-read t (rw e at (h))) refl
]

map_word-some :
    (c : ℕ) (o : Option Text) (w : Text)
    → map_word c o ≡ some w
    → (v : Text) × (o ≡ some v) × (w ≡ c ∷ v)
map_word-some c none w e = absurd (none-ne-some w e)
map_word-some c (some v) w e = (v, refl, cc)

length_empty : (w : Text) → some [] ≡ some w → length w ≤ 0
length_empty [] e = omega arith
length_empty (c ∷ w) e = cc

up : (t w : Text) → length w ≤ length t → length w ≤ suc (length t)
up t w h = omega arith

below : (t w : Text) → length w ≤ length t → length w < suc (length t)
below t w h = omega arith

shorter : (c : ℕ) (t v w : Text) → w ≡ c ∷ v → length v < length t → length w < suc (length t)
shorter c t v w e h = rw e (omega arith)

more :
    (c : ℕ) (t w : Text) (o : Option Text)
    → ((v : Text) → o ≡ some v → length v ≤ length t)
    → map_word c o ≡ some w
    → length w ≤ suc (length t)
more c t w o h e = let (v, f, g) = map_word-some c o w e in let le = h v f in rw g (omega arith)

-- A word that ends with a quote is shorter than its text by one at least.
length-read : (m : Mode) (t w : Text) → read_word m (t ++ 39 ∷ []) ≡ some w → length w ≤ length t
length-read bare [] w e = absurd (none-ne-some w e)
length-read double_quoted [] w e = absurd (none-ne-some w e)
length-read single_quoted [] w e = length_empty w e
length-read bare (c ∷ t) w e = elim (Bool-cases (c == 39)) [
  | inl q ↦ up t w (length-read single_quoted t w (rw q at (e)))
  | inr q ↦ elim (Bool-cases (c == 34)) [
    | inl d ↦ up t w (length-read double_quoted t w (rw (q, d) at (e)))
    | inr d ↦ elim (Bool-cases (is_literal c)) [
      | inl l ↦
          more c t w (read_word bare (t ++ 39 ∷ [])) (length-read bare t) (rw (q, d, l) at (e))
      | inr l ↦ absurd (none-ne-some w (rw (q, d, l) at (e)))
    ]
  ]
]
length-read single_quoted (c ∷ t) w e = elim (Bool-cases (c == 39)) [
  | inl q ↦ up t w (length-read bare t w (rw q at (e)))
  | inr q ↦
      more c t w (read_word single_quoted (t ++ 39 ∷ [])) (length-read single_quoted t)
        (rw q at (e))
]
length-read double_quoted (c ∷ t) w e = elim (Bool-cases (c == 34)) [
  | inl q ↦ up t w (length-read bare t w (rw q at (e)))
  | inr q ↦ elim (Bool-cases (c == 36 || (c == 96 || c == 92))) [
    | inl x ↦ absurd (none-ne-some w (rw (q, x) at (e)))
    | inr x ↦
        more c t w (read_word double_quoted (t ++ 39 ∷ [])) (length-read double_quoted t)
          (rw (q, x) at (e))
  ]
]

-- A key with a quote is not what is read: what is read is shorter.
quote-shortens :
    (t w : Text)
    → has_quote t ≡ true
    → read_word single_quoted (t ++ 39 ∷ []) ≡ some w
    → length w < length t
unfolding has_quote
quote-shortens [] w h e = absurd (true-ne-false (sym h))
quote-shortens (c ∷ t) w h e = elim (Bool-cases (c == 39)) [
  | inl q ↦ below t w (length-read bare t w (rw q at (e)))
  | inr q ↦
      let (v, f, g) = map_word-some c (read_word single_quoted (t ++ 39 ∷ [])) w (rw q at (e)) in
      shorter c t v w g (quote-shortens t v (rw q at (h)) f)
]

no_quote :
    (key : Text) → read_word single_quoted (key ++ 39 ∷ []) ≡ some key → has_quote key ≡ false
no_quote key e = elim (Bool-cases (has_quote key)) [
  | inl q ↦ let lt = quote-shortens key key q e in absurd (omega arith)
  | inr n ↦ n
]

-- A shell that runs the command of AddSSHKey reads the key in it as one word, the key, if and only if the
-- key has no single quote.
pub read_word-quoted_key :
    (key : Text) → (read_word bare (quoted_key key) ≡ some key) ↔ (has_quote key ≡ false)
unfolding quoted_key
read_word-quoted_key key = (λ e. no_quote key e, λ h. quoted-read key h)
