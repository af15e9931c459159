-- ===== src/Server/Twice.antt =====
-- internal/server/handler.go: two deletions that load the saved state before either has cleared it.
use qudata_agent.Common.{ℕ, refl, true, false, ◌≡◌, ◌∙◌}
use qudata_agent.Server.Lifecycle.{World, LifeEnv, delete_instance, destroy_instance, state_ports}
use qudata_agent.Qemu.Manager.{VmConfig}
use qudata_agent.Qemu.Manager.Stop.{StopEnv}
use qudata_agent.Network.Batch.{member, release-eq}

-- A second deletion that comes before the first has cleared the saved state loads it too, and when its
-- own turn comes it frees every port of that state, also one that an instance made in between holds:
-- `u` is whatever world the handlers and jobs have made of it by then.
pub destroy_instance-delete_instance :
    (cfg : VmConfig) (host : StopEnv) (env : LifeEnv) (w u : World) (q : ℕ)
    → member q (state_ports (delete_instance env w).0) ≡ true
    → let second = (delete_instance env (delete_instance env w).1).0 in
      (destroy_instance cfg host env second u).taken q ≡ false
unfolding delete_instance destroy_instance
destroy_instance-delete_instance cfg host env w u q m =
    release-eq (state_ports (delete_instance env w).0) u.taken q ∙ rw m refl
