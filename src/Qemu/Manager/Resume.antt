-- ===== src/Qemu/Manager/Resume.antt =====
-- internal/qemu/manager.go: Create, from where it has the mutex again after its wait for SSH.
use qudata_agent.Common.{Option, none, some, List, [], is_nil, ◌++◌, ◌∷◌, if◌then◌else◌}
use qudata_agent.Domain.{Error, Result, InstancePorts, err, wrapped, plain, ok}
use qudata_agent.Common.Text.{Text, str, trim_space}
use qudata_agent.Qemu.Manager.{VmConfig, Effect, ran, Vm}
use qudata_agent.Qemu.Manager.Stop.{StopEnv, stop_locked}
use qudata_agent.Qemu.Manager.Parts.{Boot, port_map}

-- What the wait and the commands after it come to: the error of WaitForBoot, the public key file
-- if it could be read, and the new root password. The results of the commands are only logged.
pub record BootEnv : Type 0 where
  pub wait_for_boot : Option Error
  pub stop : StopEnv
  pub pub_key : Option Text
  pub password : Text

unfoldable pub setup_cmd : Text → Text
setup_cmd pub_key =
    str "echo '"
    ++ (pub_key
        ++ (str
              "' > /etc/ssh/management_keys && chmod 600 /etc/ssh/management_keys && mkdir -p /root/.ssh && chmod 700 /root/.ssh && grep -qF '"
            ++ (pub_key
                ++ (str "' /root/.ssh/authorized_keys 2>/dev/null || echo '"
                    ++ (pub_key
                        ++ str
                            "' >> /root/.ssh/authorized_keys && chmod 600 /root/.ssh/authorized_keys && grep -q 'management_keys' /etc/ssh/sshd_config || sed -i 's|^#*AuthorizedKeysFile.*|AuthorizedKeysFile .ssh/authorized_keys /etc/ssh/management_keys|' /etc/ssh/sshd_config")))))

unfoldable pub harden_ssh : Text
harden_ssh =
    str
      "sed -i 's/^#*PasswordAuthentication.*/PasswordAuthentication yes/' /etc/ssh/sshd_config && sed -i 's/^#*ClientAliveInterval.*/ClientAliveInterval 30/' /etc/ssh/sshd_config && grep -q '^ClientAliveInterval' /etc/ssh/sshd_config || echo 'ClientAliveInterval 30' >> /etc/ssh/sshd_config && sed -i 's/^#*ClientAliveCountMax.*/ClientAliveCountMax 3/' /etc/ssh/sshd_config && grep -q '^ClientAliveCountMax' /etc/ssh/sshd_config || echo 'ClientAliveCountMax 3' >> /etc/ssh/sshd_config && systemctl reload sshd 2>/dev/null || systemctl reload ssh 2>/dev/null; true"

unfoldable pub key_effects : Text → Option Text → List Effect → List Effect
key_effects [] pub_key fx = fx
key_effects (c ∷ s) none fx = fx
key_effects (c ∷ s) (some k) fx = ran (setup_cmd (trim_space k)) ∷ fx

-- The commands that are run in the VM once SSH answers, the last first.
unfoldable pub boot_effects : VmConfig → BootEnv → List Effect → List Effect
unfolding key_effects harden_ssh
boot_effects cfg env fx =
    ran harden_ssh
    ∷ ran (str "echo 'root:" ++ (env.password ++ str "' | chpasswd"))
    ∷ key_effects cfg.ssh_key_path env.pub_key fx

unfoldable pub on_booted : VmConfig → BootEnv → Boot → Vm → Option Error → Result InstancePorts × Vm
unfolding boot_effects
on_booted cfg env b s (some e) =
    (err (wrapped (str "VM SSH not ready") e []), stop_locked cfg env.stop s)
on_booted cfg env b s none = (
  ok (port_map b.pool),
  record {
    mgr = record s.mgr { ssh_client = some b.client };
    effects = boot_effects cfg env s.effects;
  },
)

unfoldable pub create_resume : VmConfig → BootEnv → Boot → Vm → Result InstancePorts × Vm
unfolding on_booted
create_resume cfg env b s =
    if is_nil s.vm_id
    then (err (plain (str "VM destroyed while waiting for SSH")), s)
    else on_booted cfg env b s env.wait_for_boot
