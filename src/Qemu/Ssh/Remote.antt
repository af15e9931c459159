-- ===== src/Qemu/Ssh/Remote.antt =====
-- internal/qemu/ssh.go: WriteFile, CheckNVIDIA and WaitForBoot over the answers of the VM.
use qudata_agent.Qemu.Manager.SshKeys.{Remote}
use qudata_agent.Common.{
  ℕ, zero, suc, Bool, false, Option, none, some, [], ltb, ◌+◌, ◌%◌, ◌/◌, ◌++◌, ◌∷◌, ◌==◌,
  if◌then◌else◌, List,
}
use qudata_agent.Common.Text.{Text, str, text_eq, trim_space}
use qudata_agent.Domain.{Error, wrapped, plain}
use qudata_agent.Qemu.Ssh.{shell_quote}

-- strings.LastIndex of a slash: what stands before it.
unfoldable pub before_last_slash : Text → Option Text
before_last_slash [] = none
before_last_slash (c ∷ t) = elim (before_last_slash t) [
  | some dir ↦ some (c ∷ dir)
  | none ↦ if c == b'/' then some [] else none
]

unfoldable pub octal_onto : ℕ → ℕ → Text → Text
octal_onto zero n out = out
octal_onto (suc fuel) n out =
    let rest = octal_onto fuel (n / 8) ((b'0' + n % 8) ∷ out) in
    if ltb n 8 then (b'0' + n) ∷ out else rest

-- fmt's %o; each round divides by eight.
unfoldable pub format_octal : ℕ → Text
unfolding octal_onto
format_octal n = octal_onto (suc n) n []

abbrev pub delimiter : Text
delimiter = str "QUDATA_EOF"

-- What the shell reads behind the first line of the command.
unfoldable pub here_doc : Text → Text
here_doc content = content ++ 10 ∷ delimiter

unfoldable pub write_command : Text → Text → Text
unfolding here_doc
write_command remote_path content =
    str "cat > " ++ (shell_quote remote_path ++ (str " << 'QUDATA_EOF'" ++ 10 ∷ here_doc content))

unfoldable pub chmod_command : Text → ℕ → Text
unfolding format_octal
chmod_command remote_path mode =
    str "chmod " ++ (format_octal mode ++ (str " " ++ shell_quote remote_path))

abbrev pub mkdir_command : Text → Text
mkdir_command dir = str "mkdir -p " ++ shell_quote dir

-- The error of a command, with its output.
abbrev pub with_output : Text → Text × Option Error → Option Error
with_output op (out, none) = none
with_output op (out, some e) = some (wrapped op e (str ": " ++ trim_space out))

abbrev pub without_output : Text → Text × Option Error → Option Error
without_output op (out, none) = none
without_output op (out, some e) = some (wrapped op e [])

-- The last step, for a mode that is not 0.
unfoldable pub set_mode : Remote → Text → ℕ → Option Error
unfolding chmod_command
set_mode remote path zero = none
set_mode remote path (suc mode) = with_output (str "chmod") (remote (chmod_command path (suc mode)))

abbrev pub unless_failed : Option Error → Option Error → Option Error
unless_failed (some e) next = some e
unless_failed none next = next

unfoldable pub make_dir : Remote → Text → Option Error
make_dir remote [] = none
make_dir remote (c ∷ dir) =
    without_output (str "create directory") (remote (mkdir_command (c ∷ dir)))

-- WriteFile; it panics on a path without a slash.
unfoldable pub write_remote_file : Remote → Text → Text → ℕ → Option (Option Error)
unfolding make_dir set_mode write_command before_last_slash
write_remote_file remote path content mode = elim (before_last_slash path) [
  | none ↦ none
  | some dir ↦ some (
      unless_failed (make_dir remote dir) (
        unless_failed (with_output (str "write file") (remote (write_command path content)))
          (set_mode remote path mode)))
]

abbrev pub is_ok : Text × Option Error → Bool
is_ok (out, some e) = false
is_ok (out, none) = text_eq (trim_space out) (str "ok")

unfoldable pub check_nvidia : Remote → Option Error
check_nvidia remote =
    if is_ok (remote (str "nvidia-smi >/dev/null 2>&1 && echo ok"))
    then none
    else some (plain (str "nvidia driver not available in VM"))

-- What one round of WaitForBoot sees: the end of its context, a tick behind the deadline, or the error
-- of `true` in the VM.
pub data BootPoll : Type 0 where
  context_done : Error → BootPoll
  past_deadline : BootPoll
  tried : Option Error → BootPoll

-- The loop of WaitForBoot over the rounds that have been so far; `none` while it waits.
unfoldable pub wait_for_boot : Text → List BootPoll → Option (Option Error)
wait_for_boot max_wait [] = none
wait_for_boot max_wait (context_done e ∷ polls) = some (some e)
wait_for_boot max_wait (past_deadline ∷ polls) =
    some (some (plain (str "timeout waiting for VM SSH after " ++ max_wait)))
wait_for_boot max_wait (tried none ∷ polls) = some none
wait_for_boot max_wait (tried (some e) ∷ polls) = wait_for_boot max_wait polls
