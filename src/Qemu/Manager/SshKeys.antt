-- ===== src/Qemu/Manager/SshKeys.antt =====
-- internal/qemu/manager.go: the calls that reach into the VM by SSH, and the wait for QMP.
use qudata_agent.Common.{
  Bool, true, false, Option, none, some, List, [], ◌++◌, ◌∷◌, ◌&&◌, ◌==◌, if◌then◌else◌,
}
use qudata_agent.Common.Text.{Text, str, trim_space}
use qudata_agent.Domain.{Error, wrapped, Result, plain, err, ok}
use qudata_agent.Qemu.Manager.{SshClient}

-- What the VM answers to a remote command: its output, and the error of ssh.
abbrev pub Remote : Type 0
Remote = Text → Text × Option Error

-- The loop of awaitSSH over what its polls see until the context ends with an error.
unfoldable pub await_ssh : Error → List (Option SshClient) → Result SshClient
await_ssh timeout [] = err (wrapped (str "VM SSH not ready") timeout [])
await_ssh timeout (none ∷ polls) = await_ssh timeout polls
await_ssh timeout (some c ∷ polls) = ok c

-- The key as the command has it, between single quotes.
unfoldable pub quoted_key : Text → Text
quoted_key pubkey = 39 ∷ (pubkey ++ 39 ∷ [])

unfoldable pub add_key_command : Text → Text
unfolding quoted_key
add_key_command pubkey =
    str "mkdir -p /root/.ssh && chmod 700 /root/.ssh && echo "
    ++ (quoted_key pubkey
        ++ str " >> /root/.ssh/authorized_keys && chmod 600 /root/.ssh/authorized_keys")

abbrev pub count_keys_command : Text
count_keys_command = str "wc -l /root/.ssh/authorized_keys"

abbrev pub failed_remote : Text → Text × Option Error → Option Error
failed_remote op (out, none) = none
failed_remote op (out, some e) = some (wrapped op e (str ": " ++ out))

-- The commands that are run, in order: the check of the result is run behind a success only.
abbrev pub then_count : Option Error → List Text → List Text
then_count none commands = commands ++ count_keys_command ∷ []
then_count (some e) commands = commands

unfoldable pub on_add_client : Remote → Text → Result SshClient → Option Error × List Text
unfolding add_key_command
on_add_client remote pubkey (err e) = (some e, [])
on_add_client remote pubkey (ok c) =
    let e = failed_remote (str "add ssh key") (remote (add_key_command pubkey)) in
    (e, then_count e (add_key_command pubkey ∷ []))

-- AddSSHKey of a key that is trimmed.
unfoldable pub add_trimmed :
    Remote → Error → List (Option SshClient) → Text → Option Error × List Text
unfolding on_add_client await_ssh
add_trimmed remote timeout polls [] = (some (plain (str "empty SSH public key")), [])
add_trimmed remote timeout polls (c ∷ key) =
    on_add_client remote (c ∷ key) (await_ssh timeout polls)

unfoldable pub add_ssh_key :
    Remote → Error → List (Option SshClient) → Text → Option Error × List Text
unfolding add_trimmed
add_ssh_key remote timeout polls pubkey = add_trimmed remote timeout polls (trim_space pubkey)

-- strings.ReplaceAll(pubkey, "/", `\/`)
unfoldable pub escape_slashes : Text → Text
escape_slashes [] = []
escape_slashes (c ∷ t) =
    let rest = escape_slashes t in if c == b'/' then 92 ∷ b'/' ∷ rest else c ∷ rest

unfoldable pub remove_key_command : Text → Text
unfolding escape_slashes
remove_key_command pubkey =
    str "sed -i '/" ++ (escape_slashes pubkey ++ str "/d' /root/.ssh/authorized_keys")

unfoldable pub on_remove_client : Remote → Text → Result SshClient → Option Error × List Text
unfolding remove_key_command
on_remove_client remote pubkey (err e) = (some e, [])
on_remove_client remote pubkey (ok c) = (
  failed_remote (str "remove ssh key") (remote (remove_key_command pubkey)),
  remove_key_command pubkey ∷ [],
)

unfoldable pub remove_trimmed :
    Remote → Error → List (Option SshClient) → Text → Option Error × List Text
unfolding on_remove_client await_ssh
remove_trimmed remote timeout polls [] = (some (plain (str "empty SSH public key")), [])
remove_trimmed remote timeout polls (c ∷ key) =
    on_remove_client remote (c ∷ key) (await_ssh timeout polls)

unfoldable pub remove_ssh_key :
    Remote → Error → List (Option SshClient) → Text → Option Error × List Text
unfolding remove_trimmed
remove_ssh_key remote timeout polls pubkey = remove_trimmed remote timeout polls (trim_space pubkey)

-- One round of waitForQMP: whether QEMU has exited, whether the socket is there, and what Connect
-- answers if it is.
pub record QmpPoll : Type 0 where
  pub exited : Bool
  pub socket : Bool
  pub connect : Option Error

abbrev pub is_ready : QmpPoll → Bool
is_ready p = p.socket && (elim p.connect [ none ↦ true | some e ↦ false ])

-- The rounds of waitForQMP before its deadline.
unfoldable pub wait_for_qmp : Text → List QmpPoll → Option Error
wait_for_qmp qmp_socket [] = some (plain (str "timeout waiting for QMP socket " ++ qmp_socket))
wait_for_qmp qmp_socket (p ∷ polls) =
    let rest = wait_for_qmp qmp_socket polls in
    if p.exited
    then some (plain (str "QEMU exited before QMP ready"))
    else if is_ready p
    then none
    else rest
