-- ===== src/Server/Manage.antt =====
-- internal/server/handler.go: GetInstance, ManageInstance, AddSSH and RemoveSSH.
pub mod Coded
use qudata_agent.Common.{
  ap₂, subst, none-ne-some, some-ne-none, append-nil, append_assoc, map-append, ℕ, true-ne-false,
  zero, suc, refl, sym, ap, fun_ext, inl, inr, Bool, true, false, not, Option, none, some, List, [],
  map, arith, ltb, leb, ltb→lt, lt→ltb, leb→le, ==_iff, ==_refl, ==_ne, Bool-cases, Option-cases,
  length, get_elem?, is_nil, length-append, length-map, All, All-append, All-map, ℤ, pos, negsuc,
  int_eq, is_pos, int_eq_iff, int_eq_refl, take, take-nil, is_nil-eq, is_nil-ne, ne_of_is_nil,
  int_le, to_bits, of_bits, mul64, ◌≡◌, ◌+◌, ◌*◌, ◌%◌, ◌/◌, ◌^◌, ◌-◌, ◌++◌, ◌∷◌, ◌≢◌, ◌&&◌, ◌||◌,
  ◌==◌, ◌⊎◌, ◌↔◌, ◌∙◌, if◌then◌else◌, ◌≤◌, ◌<◌,
}
use qudata_agent.Common.Text.{Text, str}
use qudata_agent.Domain.{
  Status, Error, message, unknown_command, Result, vfio_error, destroyed, qemu_error, err, pending,
  plain, ok, running, wrapped, paused, rebooting, instance_already_running, error,
  no_instance_running,
}
use qudata_agent.Qemu.Manager.Queries.{status, manage, QmpEnv}
use qudata_agent.Qemu.Manager.SshKeys.{add_ssh_key, remove_ssh_key, Remote}
use qudata_agent.Qemu.Manager.{Vm, SshClient}

-- A response's status, with the error that its body has unless it is 200.
abbrev pub Response : Type 0
Response = ℕ × Option Text

unfoldable pub status_text : Status → Text
status_text destroyed = str "destroyed"
status_text pending = str "pending"
status_text running = str "running"
status_text paused = str "paused"
status_text rebooting = str "rebooting"
status_text error = str "error"

-- GetInstance answers 200 with the status.
unfoldable pub get_instance : QmpEnv → Vm → ℕ × Text
unfolding status status_text
get_instance env s = (200, status_text (status env s))

-- errors.As along the chain of an error.
unfoldable pub is_no_instance : Error → Bool
is_no_instance instance_already_running = false
is_no_instance no_instance_running = true
is_no_instance (unknown_command c) = false
is_no_instance (vfio_error op addr e) = is_no_instance e
is_no_instance (qemu_error op e) = is_no_instance e
is_no_instance (plain t) = false
is_no_instance (wrapped prefix e suffix) = is_no_instance e

unfoldable pub is_unknown_command : Error → Bool
is_unknown_command instance_already_running = false
is_unknown_command no_instance_running = false
is_unknown_command (unknown_command c) = true
is_unknown_command (vfio_error op addr e) = is_unknown_command e
is_unknown_command (qemu_error op e) = is_unknown_command e
is_unknown_command (plain t) = false
is_unknown_command (wrapped prefix e suffix) = is_unknown_command e

unfoldable pub code_of : Error → ℕ
unfolding is_no_instance is_unknown_command
code_of e = if is_unknown_command e then 400 else if is_no_instance e then 404 else 500

abbrev pub respond : (Error → ℕ) → Option Error → Response
respond code none = (200, none)
respond code (some e) = (code e, some (message e))

abbrev pub on_managed : Option Error × Vm → Response × Vm
on_managed (e, s) = (respond code_of e, s)

-- ManageInstance of the command that the body names, or the error of its binding.
unfoldable pub manage_instance : QmpEnv → Result Text → Vm → Response × Vm
unfolding manage code_of
manage_instance env (err e) s = ((400, some (message e)), s)
manage_instance env (ok cmd) s = on_managed (manage env cmd s)

abbrev pub server_error : Error → ℕ
server_error e = 500

unfoldable pub add_ssh :
    Remote → Error → List (Option SshClient) → Result Text → Response × List Text
unfolding add_ssh_key
add_ssh remote timeout polls (err e) = ((400, some (message e)), [])
add_ssh remote timeout polls (ok pubkey) =
    let (e, commands) = add_ssh_key remote timeout polls pubkey in
    (respond server_error e, commands)

unfoldable pub remove_ssh :
    Remote → Error → List (Option SshClient) → Result Text → Response × List Text
unfolding remove_ssh_key
remove_ssh remote timeout polls (err e) = ((400, some (message e)), [])
remove_ssh remote timeout polls (ok pubkey) =
    let (e, commands) = remove_ssh_key remote timeout polls pubkey in
    (respond server_error e, commands)
