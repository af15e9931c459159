-- ===== src/Tests/Calls.antt =====
-- The calls that reach the VM over QMP and SSH at concrete inputs.
use qudata_agent.Tests.Monitor.{line, working, working-IsFair}
use qudata_agent.Qemu.Manager.{new_manager, Vm}
use qudata_agent.Common.{refl, true, false, some, [], All, ◌≡◌, ◌↔◌}
use qudata_agent.Qemu.Manager.Queries.{QmpEnv, qmp_of_command, is_connected}
use qudata_agent.Server.Manage.Coded.{Codes, manage_instance-Codes}
use qudata_agent.Qemu.Ssh.Quoting.{read_word, bare}
use qudata_agent.Qemu.Manager.SshKeys.{add_key_command, quoted_key}
use qudata_agent.Common.Text.{split, codes, text_eq, str}
use qudata_agent.Qemu.Ssh.WriteCommand.{read_write, read_write-write_command}
use qudata_agent.Domain.{plain, ok}
use qudata_agent.Qemu.Ssh.Remote.{write_command, delimiter}
use qudata_agent.Server.Manage.{manage_instance, is_no_instance, is_unknown_command}
use qudata_agent.Qemu.Manager.KeyWords.{has_quote, read_word-quoted_key}
use qudata_agent.Server.Router.{Guards, dispatch, dispatch-Guards, reaches, drop_instance}
use qudata_agent.Qemu.Monitor.{QmpClient, new_qmp_client}
use qudata_agent.Qemu.Manager.Client.{seen, Refines, manage_client, manage_client-Refines}

abbrev running_vm : Vm
running_vm = record new_manager {
  mgr = record new_manager.mgr {
    vm_id = codes "vm";
    qmp = some (record { socket_path = codes "/r/vm.qmp"; connected = true });
  };
}

abbrev qmp_env : QmpEnv
qmp_env = record { command = some (plain (codes "EOF")); query = ok (codes "running") }

-- The manager behind a client whose connection breaks in a command, and is made anew.
abbrev lost : QmpClient
lost = record (new_qmp_client (codes "/r/vm.qmp")) { conn = some (line []) }

abbrev seeing : Vm
seeing = record running_vm { mgr = record running_vm.mgr { qmp = some (seen lost) } }

manage_client-Refines_example :
    Refines 1 working
      (codes "restart")
      seeing
      lost
      (manage_client 1 working (codes "restart") seeing lost)
manage_client-Refines_example =
    manage_client-Refines 1 working (codes "restart") seeing lost working-IsFair refl

manage_instance-Codes_example :
    Codes qmp_env
      (codes "restart")
      running_vm
      false
      true
      (qmp_of_command (codes "restart"))
      (manage_instance qmp_env (ok (codes "restart")) running_vm)
unfolding is_no_instance is_unknown_command qmp_of_command is_connected
manage_instance-Codes_example =
    manage_instance-Codes qmp_env (codes "restart") running_vm (refl, refl)

read_word-quoted_key_example :
    (read_word bare (quoted_key (codes "ssh-rsa A'B")) ≡ some (codes "ssh-rsa A'B"))
    ↔ (has_quote (codes "ssh-rsa A'B") ≡ false)
read_word-quoted_key_example = read_word-quoted_key (codes "ssh-rsa A'B")

-- A key that makes the shell run a command.
injected :
    add_key_command (codes "k'; reboot; '")
    ≡ codes
        "mkdir -p /root/.ssh && chmod 700 /root/.ssh && echo 'k'; reboot; '' >> /root/.ssh/authorized_keys && chmod 600 /root/.ssh/authorized_keys"
unfolding add_key_command str
injected = refl

lines_apart : All (λ l. text_eq l delimiter ≡ false) (split 10 (codes "a\nb"))
unfolding split text_eq str
lines_apart = (refl, (refl, tt))

read_write-write_command_example :
    read_write (write_command (codes "/root/a'b c") (codes "a\nb"))
    ≡ some (codes "/root/a'b c", codes "a\nb\n", [])
read_write-write_command_example =
    read_write-write_command (codes "/root/a'b c") (codes "a\nb") (λ e. cc) lines_apart

dispatch-Guards_example :
    Guards
      (codes "key")
      (codes "key")
      (dispatch (codes "key") (codes "DELETE") (codes "/instances") (codes "key"))
dispatch-Guards_example =
    dispatch-Guards (codes "key") (codes "DELETE") (codes "/instances") (codes "key")

dropped :
    dispatch (codes "key") (codes "DELETE") (codes "/instances") (codes "key")
    ≡ reaches drop_instance
unfolding dispatch text_eq str
dropped = refl
