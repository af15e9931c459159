-- ===== src/Keys.antt =====
-- internal/ssh/keygen.go: the key pair that the agent logs in to its VMs with. The files are those of
-- the host, by their paths; no directory stands at the path of a key.
pub mod Kept
use qudata_agent.Common.{
  ap₂, subst, none-ne-some, some-ne-none, append-nil, append_assoc, map-append, ℕ, true-ne-false,
  zero, suc, refl, sym, ap, fun_ext, inl, inr, Bool, true, false, not, Option, none, some, List, [],
  map, arith, ltb, leb, ltb→lt, lt→ltb, leb→le, ==_iff, ==_refl, ==_ne, Bool-cases, Option-cases,
  length, get_elem?, is_nil, length-append, length-map, All, All-append, All-map, ℤ, pos, negsuc,
  int_eq, is_pos, int_eq_iff, int_eq_refl, take, take-nil, is_nil-eq, is_nil-ne, ne_of_is_nil,
  int_le, to_bits, of_bits, mul64, ◌≡◌, ◌+◌, ◌*◌, ◌%◌, ◌/◌, ◌^◌, ◌-◌, ◌++◌, ◌∷◌, ◌≢◌, ◌&&◌, ◌||◌,
  ◌==◌, ◌⊎◌, ◌↔◌, ◌∙◌, if◌then◌else◌, ◌≤◌, ◌<◌,
}
use qudata_agent.Common.Text.{Text, str, trim_space, join_path}
use qudata_agent.Domain.{Error, Result, wrapped, ok, err}
use qudata_agent.Storage.{read_at, remove_at, write_at, Files, Read, missing, unread, content}
use qudata_agent.Qemu.Manager.{or_else}
use qudata_agent.Qudata.{prefixed}

pub record KeyPair : Type 0 where
  pub private_key_path : Text
  pub public_key_path : Text

-- golang.org/x/crypto/ssh on the text of a private and of a public key: the error, if any.
pub record KeyParser : Type 0 where
  pub parse_private_key : Text → Option Error
  pub parse_authorized_key : Text → Option Error

-- What the calls outside the program answer: the errors of reads of files that are there, those on
-- the way to a new pair, with the texts of the pair, and those of writes with what they leave.
pub record KeyEnv : Type 0 where
  pub unread_private : Option Error
  pub unread_public : Option Error
  pub mkdir : Option Error
  pub generate_key : Option Error
  pub new_public_key : Option Error
  pub marshal_private_key : Option Error
  pub private_pem : Text
  pub authorized : Text
  pub write_private : Option (Error × Option Text)
  pub write_public : Option (Error × Option Text)
  pub remove : Option Error
  pub not_exist : Error

abbrev pub default_key_dir : Text
default_key_dir = str "/var/lib/qudata/.ssh"

abbrev pub is_there : Option Text → Bool
is_there none = false
is_there (some t) = true

unfoldable pub file_exists : Text → Files → Bool
file_exists path files = is_there (files path)

-- One half of validateKeyPair: a file that is read and parsed.
unfoldable pub validate_from : Text → (Text → Option Error) → Read → Option Error
validate_from what parse (missing e) = some (wrapped (str "read " ++ what) e [])
validate_from what parse (unread e) = some (wrapped (str "read " ++ what) e [])
validate_from what parse (content t) = prefixed (str "parse " ++ what) (parse t)

abbrev pub or_next : Option Error → Option Error → Option Error
or_next none e = e
or_next (some x) e = some x

unfoldable pub validate_key_pair : KeyParser → KeyEnv → KeyPair → Files → Option Error
unfolding validate_from read_at
validate_key_pair parser env pair files =
    or_next
      (validate_from (str "private key") parser.parse_private_key
        (read_at env.unread_private env.not_exist (files pair.private_key_path)))
      (validate_from (str "public key") parser.parse_authorized_key
        (read_at env.unread_public env.not_exist (files pair.public_key_path)))

-- The line of the public key, with its comment.
unfoldable pub public_line : Text → Text
public_line authorized = trim_space authorized ++ str " qudata-management\n"

-- The public key is written behind the private one, which goes if that fails.
unfoldable pub on_public_written : KeyEnv → KeyPair → Option Error × Files → Option Error × Files
unfolding remove_at
on_public_written env pair (none, files) = (none, files)
on_public_written env pair (some e, files) = (
  some (wrapped (str "write public key") e []),
  (remove_at env.remove pair.private_key_path files).1,
)

unfoldable pub on_private_written : KeyEnv → KeyPair → Option Error × Files → Option Error × Files
unfolding on_public_written public_line write_at
on_private_written env pair (some e, files) = (some (wrapped (str "write private key") e []), files)
on_private_written env pair (none, files) =
    on_public_written env pair
      (write_at env.write_public pair.public_key_path (public_line env.authorized) files)

-- The first error on the way to a new pair.
unfoldable pub no_pair : KeyEnv → Option Error
no_pair env = or_next (prefixed (str "generate ed25519 key") env.generate_key) (
    or_next (prefixed (str "convert public key to ssh format") env.new_public_key)
      (prefixed (str "marshal private key") env.marshal_private_key))

unfoldable pub write_pair : KeyEnv → KeyPair → Option Error → Files → Option Error × Files
unfolding on_private_written
write_pair env pair (some e) files = (some e, files)
write_pair env pair none files =
    on_private_written env pair
      (write_at env.write_private pair.private_key_path env.private_pem files)

unfoldable pub generate_ed25519_key_pair : KeyEnv → KeyPair → Files → Option Error × Files
unfolding write_pair no_pair
generate_ed25519_key_pair env pair files = write_pair env pair (no_pair env) files

unfoldable pub on_validated : KeyPair → Option Error → Files → Result KeyPair × Files
on_validated pair none files = (ok pair, files)
on_validated pair (some e) files =
    (err (wrapped (str "existing keys are invalid") e (str " (remove them to regenerate)")), files)

unfoldable pub on_generated : KeyPair → Option Error × Files → Result KeyPair × Files
on_generated pair (none, files) = (ok pair, files)
on_generated pair (some e, files) = (err (wrapped (str "generate key pair") e []), files)

unfoldable pub on_key_dir : KeyEnv → KeyPair → Option Error → Files → Result KeyPair × Files
unfolding on_generated generate_ed25519_key_pair
on_key_dir env pair (some e) files = (err (wrapped (str "create key directory") e []), files)
on_key_dir env pair none files = on_generated pair (generate_ed25519_key_pair env pair files)

unfoldable pub ensure_pair : KeyParser → KeyEnv → KeyPair → Files → Result KeyPair × Files
unfolding on_key_dir on_validated validate_key_pair file_exists
ensure_pair parser env pair files =
    if file_exists pair.private_key_path files && file_exists pair.public_key_path files
    then on_validated pair (validate_key_pair parser env pair files) files
    else on_key_dir env pair env.mkdir files

abbrev pub pair_in : Text → KeyPair
pair_in dir = record {
  private_key_path = join_path dir (str "management_key");
  public_key_path = join_path dir (str "management_key.pub");
}

unfoldable pub ensure_management_key : KeyParser → KeyEnv → Text → Files → Result KeyPair × Files
unfolding ensure_pair or_else
ensure_management_key parser env key_dir files =
    ensure_pair parser env (pair_in (or_else key_dir default_key_dir)) files

unfoldable pub read_public_key : Result Text → Result Text
read_public_key (err e) = err (wrapped (str "read public key") e [])
read_public_key (ok t) = ok (trim_space t)
