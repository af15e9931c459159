-- ===== src/Qemu/Ssh.antt =====
-- internal/qemu/ssh.go: the arguments of ssh and scp, and what is written into remote commands.
pub mod Quoting
pub mod Remote
pub mod HereDoc
pub mod WriteCommand
use qudata_agent.Common.{
  ℕ, zero, suc, refl, sym, ap, fun_ext, inl, inr, Bool, true, false, not, Option, none, some, List,
  [], map, arith, ltb, leb, ltb→lt, lt→ltb, leb→le, ==_iff, ==_refl, ==_ne, Bool-cases,
  Option-cases, length, get_elem?, is_nil, length-append, length-map, All, All-append, All-map, ℤ,
  pos, negsuc, int_eq, is_pos, int_eq_iff, int_eq_refl, take, take-nil, is_nil-eq, is_nil-ne,
  ne_of_is_nil, int_le, to_bits, of_bits, mul64, ◌≡◌, ◌+◌, ◌-◌, ◌++◌, ◌∷◌, ◌≢◌, ◌&&◌, ◌||◌, ◌==◌,
  ◌⊎◌, ◌↔◌, ◌∙◌, if◌then◌else◌, ◌≤◌, ◌<◌,
}
use qudata_agent.Common.Text.{Text, str}
use qudata_agent.Qemu.Manager.{SshClient}
use qudata_agent.Common.Decimal.{atoi, itoa}

unfoldable pub is_safe : ℕ → Bool
is_safe c =
    (leb 97 c && leb c 122)
    || (leb 65 c && leb c 90)
    || (leb 48 c && leb c 57)
    || c == 45
    || c == 95
    || c == 46
    || c == 58
    || c == 47
    || c == 64

unfoldable pub all_safe : Text → Bool
unfolding is_safe
all_safe [] = true
all_safe (c ∷ t) = is_safe c && all_safe t

-- strings.ReplaceAll(s, "'", "'\"'\"'")
unfoldable pub escape : Text → Text
escape [] = []
escape (c ∷ t) = let rest = escape t in if c == 39 then 39 ∷ 34 ∷ 39 ∷ 34 ∷ 39 ∷ rest else c ∷ rest

unfoldable pub shell_quote : Text → Text
unfolding all_safe escape
shell_quote s = if all_safe s then s else 39 ∷ (escape s ++ 39 ∷ [])

abbrev key_args : Text → List Text
key_args [] = []
key_args (c ∷ path) = str "-i" ∷ (c ∷ path) ∷ []

-- NewSSHClient sets the user to root and the file of known hosts to /dev/null.
unfoldable pub build_args : SshClient → Text → List Text
build_args c command =
    str "-o"
    ∷ str "StrictHostKeyChecking=no"
    ∷ str "-o"
    ∷ str "UserKnownHostsFile=/dev/null"
    ∷ str "-o"
    ∷ str "ConnectTimeout=10"
    ∷ str "-o"
    ∷ str "BatchMode=yes"
    ∷ str "-o"
    ∷ str "LogLevel=ERROR"
    ∷ str "-p"
    ∷ itoa (pos c.port)
    ∷ (key_args c.key_path ++ (str "root@" ++ c.host) ∷ command ∷ [])

unfoldable pub copy_args : SshClient → Text → Text → List Text
copy_args c local_path remote_path =
    str "-o"
    ∷ str "StrictHostKeyChecking=no"
    ∷ str "-o"
    ∷ str "UserKnownHostsFile=/dev/null"
    ∷ str "-o"
    ∷ str "ConnectTimeout=10"
    ∷ str "-o"
    ∷ str "BatchMode=yes"
    ∷ str "-P"
    ∷ itoa (pos c.port)
    ∷ (key_args c.key_path
        ++ local_path ∷ (str "root@" ++ (c.host ++ (str ":" ++ remote_path))) ∷ [])

-- driverVersionToMaxCUDA's switch, in tenths.
unfoldable pub max_cuda : ℕ → ℕ
max_cuda major =
    if leb 570 major
    then 128
    else if leb 560 major
    then 126
    else if leb 550 major
    then 124
    else if leb 545 major
    then 123
    else if leb 535 major
    then 122
    else if leb 530 major
    then 121
    else if leb 525 major
    then 120
    else if leb 520 major
    then 118
    else if leb 515 major
    then 117
    else if leb 510 major
    then 116
    else if leb 470 major
    then 114
    else if leb 460 major
    then 112
    else if leb 450 major
    then 110
    else 0

unfoldable pub before_dot : Text → Text
before_dot [] = []
before_dot (c ∷ t) = if c == 46 then [] else c ∷ before_dot t

abbrev cuda_of : Option ℤ → ℕ
cuda_of none = 0
cuda_of (some (pos major)) = max_cuda major
cuda_of (some (negsuc n)) = 0

unfoldable pub driver_version_to_max_cuda : Text → ℕ
driver_version_to_max_cuda version = cuda_of (atoi (before_dot version))
