-- ===== src/Agent/Publish.antt =====
-- internal/agent/agent.go: publishStats.
pub mod Quiet
use qudata_agent.Common.{
  ℕ, suc, Bool, true, false, Option, none, some, List, [], ◌%◌, ◌∷◌, ◌==◌, if◌then◌else◌,
}
use qudata_agent.Qemu.Manager.Queries.{QmpEnv, status}
use qudata_agent.Domain.{
  Error, Status, Result, destroyed, pending, running, paused, rebooting, error,
}
use qudata_agent.Qudata.{send_stats, ApiClient, Service}
use qudata_agent.Qemu.Manager.{Vm}
use qudata_agent.Common.Text.{Text}

-- What one tick sees: QEMU's answers, the report as json.Marshal writes it for a status, with the
-- statistics of that time, and the service.
pub record Tick : Type 0 where
  pub qmp : QmpEnv
  pub body : Status → Result Text
  pub service : Service

-- Whether the failure is logged, and the count of failures in a row.
unfoldable pub on_sent : Option Error → ℕ → Bool × ℕ
on_sent none n = (false, 0)
on_sent (some e) n = (n % 40 == 0, suc n)

abbrev pub is_destroyed : Status → Bool
is_destroyed destroyed = true
is_destroyed pending = false
is_destroyed running = false
is_destroyed paused = false
is_destroyed rebooting = false
is_destroyed error = false

unfoldable pub publish : Tick → ApiClient → Status → ℕ → Bool × ℕ
unfolding on_sent send_stats
publish t api st n =
    if is_destroyed st then (false, n) else on_sent (send_stats t.service api (t.body st)) n

-- One tick of the loop.
unfoldable pub on_tick : ApiClient → Vm → Tick → ℕ → Bool × ℕ
unfolding publish status
on_tick api vm t n = publish t api (status t.qmp vm) n

-- The ticks until the context is done, each with the VM as it then is: the logged failures.
unfoldable pub publish_stats : ApiClient → List (Vm × Tick) → ℕ → ℕ
unfolding on_tick
publish_stats api [] n = 0
publish_stats api ((vm, t) ∷ ticks) n =
    let (logged, n') = on_tick api vm t n in
    let rest = publish_stats api ticks n' in if logged then suc rest else rest
