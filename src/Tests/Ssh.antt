-- ===== src/Tests/Ssh.antt =====
-- A quote and a space in a remote path.
use qudata_agent.Common.{refl, some, ◌≡◌}
use qudata_agent.Qemu.Ssh.Quoting.{shell_word, shell_word-shell_quote}
use qudata_agent.Qemu.Ssh.{shell_quote, driver_version_to_max_cuda, max_cuda, before_dot}
use qudata_agent.Common.Text.{codes}
use qudata_agent.Common.Decimal.{atoi}

shell_word-shell_quote_example :
    shell_word (shell_quote (codes "/tmp/it's here")) ≡ some (codes "/tmp/it's here")
shell_word-shell_quote_example = shell_word-shell_quote (codes "/tmp/it's here") (λ e. cc)

quoted_path : shell_quote (codes "it's") ≡ codes "'it'\"'\"'s'"
unfolding shell_quote
quoted_path = refl

cuda_of_driver : driver_version_to_max_cuda (codes "545.23.08") ≡ 123
unfolding driver_version_to_max_cuda atoi max_cuda before_dot
cuda_of_driver = refl
