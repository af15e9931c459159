-- ===== src/Keys/Kept.antt =====
-- internal/ssh/keygen.go: EnsureManagementKey called again.
use qudata_agent.Common.{
  subst, some-ne-none, refl, sym, ap, inl, inr, true, false, Option, none, some, [], ==_refl,
  Bool-cases, ◌≡◌, ◌++◌, ◌∷◌, ◌&&◌, ◌∙◌,
}
use qudata_agent.Keys.{
  KeyParser, validate_from, on_validated, validate_key_pair, ensure_pair, ensure_management_key,
  KeyPair, or_next, KeyEnv, file_exists, public_line, on_generated, write_pair, on_key_dir, pair_in,
  on_public_written, on_private_written, generate_ed25519_key_pair, no_pair, default_key_dir,
}
use qudata_agent.Common.Text.{Text, text_eq, join_path, str, codes, text_eq_refl}
use qudata_agent.Domain.{Error, Result, ok, err}
use qudata_agent.Qudata.{prefixed}
use qudata_agent.Storage.{read_at, Files, write_at, put_file}
use qudata_agent.Qemu.Manager.{or_else}

-- Both files are there and are parsed.
pub record HasPair (parser : KeyParser) (pair : KeyPair) (files : Files) : Type 0 where
  pub private :
      (t : Text) × (files pair.private_key_path ≡ some t) × (parser.parse_private_key t ≡ none)
  pub public :
      (t : Text) × (files pair.public_key_path ≡ some t) × (parser.parse_authorized_key t ≡ none)

-- The pair that a call returns is there.
abbrev pub Ensures : KeyParser → KeyPair → Result KeyPair × Files → Type 0
Ensures parser pair (err e, files) = Unit {0}
Ensures parser pair (ok p, files) = (p ≡ pair) × HasPair parser pair files

prefixed-none : (t : Text) (o : Option Error) → prefixed t o ≡ none → o ≡ none
prefixed-none t none e = refl
prefixed-none t (some x) e = absurd (some-ne-none _ e)

-- The file that validateKeyPair accepts.
validate_from-some :
    (what : Text) (parse : Text → Option Error) (u : Option Error) (n : Error) (o : Option Text)
    → validate_from what parse (read_at u n o) ≡ none
    → (t : Text) × (o ≡ some t) × (parse t ≡ none)
unfolding validate_from read_at
validate_from-some what parse (some x) n o e = absurd (some-ne-none _ e)
validate_from-some what parse none n none e = absurd (some-ne-none _ e)
validate_from-some what parse none n (some t) e =
    (t, refl, prefixed-none (str "parse " ++ what) (parse t) e)

or_next-none : (o p : Option Error) → or_next o p ≡ none → (o ≡ none) × (p ≡ none)
or_next-none none p e = (refl, e)
or_next-none (some x) p e = absurd (some-ne-none x e)

on_validated-Ensures :
    (parser : KeyParser) (pair : KeyPair) (o : Option Error) (files : Files)
    → (o ≡ none → HasPair parser pair files)
    → Ensures parser pair (on_validated pair o files)
unfolding on_validated
on_validated-Ensures parser pair none files h = (refl, h refl)
on_validated-Ensures parser pair (some e) files h = tt

validate_key_pair-HasPair :
    (parser : KeyParser) (env : KeyEnv) (pair : KeyPair) (files : Files)
    → validate_key_pair parser env pair files ≡ none
    → HasPair parser pair files
unfolding validate_key_pair
validate_key_pair-HasPair parser env pair files e =
    let (p, q) =
      or_next-none
        (validate_from (str "private key") parser.parse_private_key
          (read_at env.unread_private env.not_exist (files pair.private_key_path)))
        (validate_from (str "public key") parser.parse_authorized_key
          (read_at env.unread_public env.not_exist (files pair.public_key_path)))
        e in
    record {
      private =
          validate_from-some (str "private key") parser.parse_private_key env.unread_private
            env.not_exist (files pair.private_key_path) p;
      public =
          validate_from-some (str "public key") parser.parse_authorized_key env.unread_public
            env.not_exist (files pair.public_key_path) q;
    }

-- A new pair is one that the parsers accept.
pub record Parses (parser : KeyParser) (env : KeyEnv) : Type 0 where
  pub private : parser.parse_private_key env.private_pem ≡ none
  pub public : parser.parse_authorized_key (public_line env.authorized) ≡ none

module _ (parser : KeyParser) (env : KeyEnv) (pair : KeyPair) (valid : Parses parser env)
    (apart : text_eq pair.public_key_path pair.private_key_path ≡ false) where
  on_public_written-Ensures :
      (w : Option (Error × Option Text)) (files : Files)
      → files pair.private_key_path ≡ some env.private_pem
      → Ensures parser pair (
          on_generated pair (
            on_public_written env pair
              (write_at w pair.public_key_path (public_line env.authorized) files)))
  unfolding on_generated on_public_written write_at
  on_public_written-Ensures (some (e, left)) files there = tt
  on_public_written-Ensures none files there = (
    refl,
    record {
      private = (env.private_pem, rw apart there, valid.private);
      public =
          (public_line env.authorized, rw (text_eq_refl pair.public_key_path) refl, valid.public);
    },
  )

  on_private_written-Ensures :
      (w : Option (Error × Option Text)) (files : Files)
      → Ensures parser pair (
          on_generated pair
            (on_private_written env pair (write_at w pair.private_key_path env.private_pem files)))
  unfolding on_generated on_private_written write_at
  on_private_written-Ensures (some (e, left)) files = tt
  on_private_written-Ensures none files =
      on_public_written-Ensures env.write_public
        (put_file pair.private_key_path (some env.private_pem) files)
        (rw (text_eq_refl pair.private_key_path) refl)

  write_pair-Ensures :
      (o : Option Error) (files : Files)
      → Ensures parser pair (on_generated pair (write_pair env pair o files))
  unfolding write_pair on_generated
  write_pair-Ensures (some e) files = tt
  write_pair-Ensures none files = on_private_written-Ensures env.write_private files

  on_key_dir-Ensures :
      (o : Option Error) (files : Files) → Ensures parser pair (on_key_dir env pair o files)
  unfolding on_key_dir generate_ed25519_key_pair
  on_key_dir-Ensures (some e) files = tt
  on_key_dir-Ensures none files = write_pair-Ensures (no_pair env) files

  ensure_pair-Ensures : (files : Files) → Ensures parser pair (ensure_pair parser env pair files)
  unfolding ensure_pair
  ensure_pair-Ensures files =
      elim (Bool-cases
        (file_exists pair.private_key_path files && file_exists pair.public_key_path files)) [
          | inl e ↦ rw e (
              on_validated-Ensures parser pair (validate_key_pair parser env pair files) files
                (validate_key_pair-HasPair parser env pair files))
          | inr e ↦ rw e (on_key_dir-Ensures env.mkdir files)
        ]

text_eq-append : (d s t : Text) → text_eq (d ++ s) (d ++ t) ≡ text_eq s t
unfolding text_eq
text_eq-append [] s t = refl
text_eq-append (c ∷ d) s t = rw (==_refl c) (text_eq-append d s t)

pair_in-apart :
    (dir : Text) → text_eq (pair_in dir).public_key_path (pair_in dir).private_key_path ≡ false
unfolding join_path text_eq str
pair_in-apart dir =
    text_eq-append dir (codes "/" ++ str "management_key.pub") (codes "/" ++ str "management_key")

file_exists-some :
    (path t : Text) (files : Files) → files path ≡ some t → file_exists path files ≡ true
unfolding file_exists
file_exists-some path t files e = rw e refl

-- A pair that is there is accepted again, where its files can be read.
HasPair-ensure_pair :
    (parser : KeyParser) (env : KeyEnv) (pair : KeyPair) (files : Files)
    → HasPair parser pair files
    → env.unread_private ≡ none
    → env.unread_public ≡ none
    → ensure_pair parser env pair files ≡ (ok pair, files)
unfolding ensure_pair validate_key_pair validate_from read_at on_validated
HasPair-ensure_pair parser env pair files h e f =
    let (t, at_t, parse_t) = h.private in
    let (u, at_u, parse_u) = h.public in simp (at_t, at_u, e, f, parse_t, parse_u)

-- Once EnsureManagementKey has returned a pair of paths, it returns the same ones again and touches no
-- file, whatever a new pair would be, as long as the files can be read then: it never replaces a pair
-- that it has returned. The new pair of the first call must be one that the parsers accept.
pub ensure_management_key-again :
    (parser : KeyParser) (env later : KeyEnv) (dir : Text) (files files' : Files) (pair : KeyPair)
    → Parses parser env
    → ensure_management_key parser env dir files ≡ (ok pair, files')
    → later.unread_private ≡ none
    → later.unread_public ≡ none
    → ensure_management_key parser later dir files' ≡ (ok pair, files')
unfolding ensure_management_key
ensure_management_key-again parser env later dir files files' pair valid e f g =
    let p = pair_in (or_else dir default_key_dir) in
    let (same, has) = subst (Ensures parser p) e (
      ensure_pair-Ensures parser env p valid (pair_in-apart (or_else dir default_key_dir)) files) in
    HasPair-ensure_pair parser later p files' has f g ∙ ap (λ x. (ok x, files')) (sym same)
