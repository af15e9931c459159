-- ===== src/Tests/Recovery.antt =====
-- A run directory with a VM that runs, one that does not, and a file of another kind.
use qudata_agent.Common.{refl, true, not, none, some, List, [], All, pos, ◌≡◌, ◌∷◌, ◌&&◌}
use qudata_agent.Common.Text.{Text, codes, str, contains, has_prefix, join_path, text_eq}
use qudata_agent.Qemu.Recovery.{Proc, OrphanEnv, kill_orphans, has_name}
use qudata_agent.Qemu.Recovery.Killed.{IsOrphan, kill_orphans-IsOrphan}
use qudata_agent.Domain.{ok}
use qudata_agent.Qemu.Recovery.Names.{is_artifact}
use qudata_agent.Qemu.Recovery.Orphans.{kill_orphans-Cleared}
use qudata_agent.Common.Decimal.{atoi}

abbrev names : List Text
names =
    codes "a.log"
    ∷ codes "a.qmp"
    ∷ codes "b-OVMF_VARS.fd"
    ∷ codes "b.qmp"
    ∷ codes "c.log"
    ∷ codes "notes"
    ∷ []

abbrev procs : List Proc
procs =
    record { entry = codes "self"; cmdline = none }
    ∷ record { entry = codes "17"; cmdline = some (codes "qemu-system-x86_64 -qmp unix:/r/a.qmp") }
    ∷ []

abbrev host : OrphanEnv
host = record { procs = ok procs; read_dir = none; removable = λ n. true }

left : kill_orphans host (codes "/r") names ≡ (pos 17 ∷ [], codes "notes" ∷ [])
unfolding kill_orphans str contains has_prefix join_path atoi text_eq
left = refl

kill_orphans-Cleared_example :
    has_name (codes "c.log") (kill_orphans host (codes "/r") names).1
    ≡ has_name (codes "c.log") names && not (is_artifact (codes "c.log"))
kill_orphans-Cleared_example =
    kill_orphans-Cleared host (codes "/r") procs names refl refl (λ x. refl) (codes "c.log")

kill_orphans-IsOrphan_example :
    All (IsOrphan (codes "/r") names procs) (kill_orphans host (codes "/r") names).0
kill_orphans-IsOrphan_example = kill_orphans-IsOrphan host (codes "/r") names
