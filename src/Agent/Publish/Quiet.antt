-- ===== src/Agent/Publish/Quiet.antt =====
-- internal/agent/agent.go: how often publishStats logs a failure.
use qudata_agent.Common.{
  none-ne-some, ℕ, suc, refl, inl, inr, Bool, true, false, Option, none, some, List, [], arith,
  ==_iff, Bool-cases, length, All, ◌≡◌, ◌+◌, ◌%◌, ◌/◌, ◌∷◌, ◌==◌, ◌⊎◌, if◌then◌else◌, ◌≤◌,
}
use qudata_agent.Qudata.{ApiClient, send_stats}
use qudata_agent.Agent.Publish.{on_sent, on_tick, publish_stats, publish, Tick, is_destroyed}
use qudata_agent.Qemu.Manager.{Vm}
use qudata_agent.Domain.{Error}
use qudata_agent.Qemu.Manager.Queries.{status}

-- A report of this tick does not get to the service.
abbrev pub IsLost : ApiClient → Vm × Tick → Type 0
IsLost api (vm, t) = (e : Error) × (send_stats t.service api (t.body (status t.qmp vm)) ≡ some e)

-- One tick whose report is lost: it counts if there is a report, and is logged if the count was a
-- multiple of 40.
abbrev Counts : ℕ → Bool × ℕ → Type 0
Counts n (true, n') = (n % 40 ≡ 0) × (n' ≡ suc n)
Counts n (false, n') = (n' ≡ n) ⊎ (n' ≡ suc n)

on_sent-Counts : (o : Option Error) (e : Error) (n : ℕ) → o ≡ some e → Counts n (on_sent o n)
unfolding on_sent
on_sent-Counts none e n h = absurd (none-ne-some e h)
on_sent-Counts (some x) e n h = elim (Bool-cases (n % 40 == 0)) [
  | inl m ↦ rw m ((==_iff (n % 40) 0).0 m, refl)
  | inr m ↦ rw m (inr refl)
]

on_tick-Counts :
    (api : ApiClient) (vm : Vm) (t : Tick) (n : ℕ)
    → IsLost api (vm, t)
    → Counts n (on_tick api vm t n)
unfolding on_tick publish
on_tick-Counts api vm t n (e, h) = elim (Bool-cases (is_destroyed (status t.qmp vm))) [
  | inl d ↦ rw d (inl refl)
  | inr d ↦ rw d (on_sent-Counts (send_stats t.service api (t.body (status t.qmp vm))) e n h)
]

-- The ticks' logs fit between the counts at the start and at the end.
publish_stats-fits :
    (api : ApiClient) (ticks : List (Vm × Tick)) (n : ℕ)
    → All (IsLost api) ticks
    → publish_stats api ticks n + (n + 39) / 40 ≤ (n + length ticks + 39) / 40
unfolding publish_stats
publish_stats-fits api [] n h = omega arith
publish_stats-fits api ((vm, t) ∷ ticks) n (h, hs) =
    fits (on_tick api vm t n) (on_tick-Counts api vm t n h)
      (publish_stats-fits api ticks (on_tick api vm t n).1 hs)
  where
    fits :
        (r : Bool × ℕ)
        → Counts n r
        → publish_stats api ticks r.1 + (r.1 + 39) / 40 ≤ (r.1 + length ticks + 39) / 40
        → (if r.0 then suc (publish_stats api ticks r.1) else publish_stats api ticks r.1)
            + (n + 39) / 40
          ≤ (n + suc (length ticks) + 39) / 40
    fits (true, n') (m, same) le = omega arith
    fits (false, n') (inl same) le = omega arith
    fits (false, n') (inr same) le = omega arith

-- While the service gets no report, however the ticks see the VM, of any k ticks in a row from the start
-- at most one in forty, rounded up, logs the failure.
pub publish_stats-Quiet :
    (api : ApiClient) (ticks : List (Vm × Tick))
    → All (IsLost api) ticks
    → publish_stats api ticks 0 ≤ (length ticks + 39) / 40
publish_stats-Quiet api ticks h = let le = publish_stats-fits api ticks 0 h in omega arith
