-- ===== src/Agent/Down.antt =====
-- internal/agent/agent.go: the whole of Run, from a new agent to its end.
use qudata_agent.Server.Serving.{IsSound}
use qudata_agent.Common.{
  ap, if◌then◌else◌, subst, refl, sym, inl, inr, Bool, true, false, Option, none, some, [],
  Bool-cases, ◌≡◌, ◌∷◌, ◌∙◌,
}
use qudata_agent.Qemu.Manager.{Vm, VmConfig, new_manager}
use qudata_agent.Qemu.Manager.Ledger.{lefts, Owes-own, alive, Owes}
use qudata_agent.Server.Lifecycle.{World}
use qudata_agent.Domain.{Error, Result, err, ok}
use qudata_agent.Agent.Run.{
  Beside, tunnel_stopped, vm_stopped, shutdown, run_down, on_registered, on_opened, start_tunnel,
  on_boot, run_up, on_up, run_agent, cleared, open_tunnel, RunEnv, register, on_tunnel, Ending,
  server_failed, signalled,
}
use qudata_agent.Agent.{Agent, BootstrapEnv, AgentMetadata, bootstrap}
use qudata_agent.AgentConfig.{AgentConfig}
use qudata_agent.Frpc.Process.Runs.{Reaches, IsStill, stop_process-IsStill, unstarted, started}
use qudata_agent.Frpc.Process.{stop_process, Tunnel, ProcessEnv, new_process, start}
use qudata_agent.Qemu.Manager.Stop.{StopEnv, stop_locked}
use qudata_agent.Common.Text.{Text}
use qudata_agent.Agent.Booted.{Boots, bootstrap-Boots}
use qudata_agent.Agent.Up.{Starts, run_up-Starts}
use qudata_agent.Qemu.Manager.Invariant.{
  Inv, vm_cases, stop_locked-IsStopped, new_manager-Inv, stop_locked_none,
}

-- No GPU, disk or process is held any more but the devices that a failed Bind left.
pub record IsReleased (s : Vm) : Type 0 where
  pub no_vm : s.vm_id ≡ []
  pub nothing_owed : Owes (lefts s.effects) s.effects [] none 0

stop_locked-IsReleased :
    (cfg : VmConfig) (host : StopEnv) (s : Vm) → Inv s → IsReleased (stop_locked cfg host s)
unfolding alive
stop_locked-IsReleased cfg host s v = elim (vm_cases s.vm_id) [
  | inr there ↦
      let h = stop_locked-IsStopped cfg host s v there in
      record { no_vm = h.no_vm; nothing_owed = Owes-own h.nothing_owed }
  | inl gone ↦
      let idle = v.idle gone in
      rw (stop_locked_none cfg host s gone) (record {
        no_vm = gone;
        nothing_owed = rw (idle.vfios, idle.disk_path, idle.done) at (v.owes);
      })
]

-- What the jobs do that no longer touch the tunnel and the VM, as where all have come to their end.
pub record IsQuiet (jobs : Beside) : Type 0 where
  pub tunnel_kept : (w : World) → (jobs.behind_tunnel w).tunnel ≡ w.tunnel
  pub vm_kept : (w : World) → (jobs.behind_tunnel w).vm ≡ w.vm
  pub tunnel_left : (w : World) → (jobs.behind_vm w).tunnel ≡ w.tunnel
  pub vm_left : (w : World) → (jobs.behind_vm w).vm ≡ w.vm

-- No job starts frpc or a VM, or stops one, beside the shutdown.
abbrev pub IsOver : Ending → Type 0
IsOver (signalled jobs) = IsQuiet jobs
IsOver (server_failed e) = Unit {0}

-- An end without an error leaves no frpc process and no monitor that starts one, and outside of the
-- debug mode no GPU, disk or process held but the devices that a failed Bind left; one with an error may leave both running.
abbrev pub Ends : Bool → Option Error × World → Type 0
Ends debug (some e, w) = IsSound w
Ends true (none, w) = IsStill w.tunnel × Inv w.vm
Ends false (none, w) = IsStill w.tunnel × IsReleased w.vm

-- The tunnel and the VM behind the shutdown are those behind their stops.
module _ (cfg : AgentConfig) (vm_cfg : VmConfig) (host : StopEnv) (jobs : Beside) (w : World)
    (quiet : IsQuiet jobs) where
  shutdown-tunnel : (shutdown cfg vm_cfg host jobs w).tunnel ≡ stop_process w.tunnel
  unfolding shutdown
  shutdown-tunnel =
      let t = jobs.behind_tunnel (tunnel_stopped w) in
      quiet.tunnel_left (vm_stopped cfg vm_cfg host t) ∙ quiet.tunnel_kept (tunnel_stopped w)

  shutdown-vm :
      (shutdown cfg vm_cfg host jobs w).vm
      ≡ (if cfg.debug then w.vm else stop_locked vm_cfg host w.vm)
  unfolding shutdown
  shutdown-vm =
      let t = jobs.behind_tunnel (tunnel_stopped w) in
      quiet.vm_left (vm_stopped cfg vm_cfg host t)
      ∙ ap (λ (s : Vm). if cfg.debug then s else stop_locked vm_cfg host s)
          (quiet.vm_kept (tunnel_stopped w))

shutdown-Ends :
    (cfg : AgentConfig) (vm_cfg : VmConfig) (host : StopEnv) (jobs : Beside) (debug : Bool)
    (w : World)
    → cfg.debug ≡ debug
    → IsQuiet jobs
    → IsSound w
    → Ends debug (none, shutdown cfg vm_cfg host jobs w)
shutdown-Ends cfg vm_cfg host jobs true w e quiet v = (
  subst IsStill (sym (shutdown-tunnel cfg vm_cfg host jobs w quiet))
      (stop_process-IsStill w.tunnel v.tunnel),
  subst Inv (sym (shutdown-vm cfg vm_cfg host jobs w quiet)) (rw e v.vm),
)
shutdown-Ends cfg vm_cfg host jobs false w e quiet v = (
  subst IsStill (sym (shutdown-tunnel cfg vm_cfg host jobs w quiet))
      (stop_process-IsStill w.tunnel v.tunnel),
  subst IsReleased (sym (shutdown-vm cfg vm_cfg host jobs w quiet))
      (rw e (stop_locked-IsReleased vm_cfg host w.vm v.vm)),
)

run_down-Ends :
    (cfg : AgentConfig) (vm_cfg : VmConfig) (host : StopEnv) (ending : Ending) (w : World)
    → IsOver ending
    → IsSound w
    → Ends cfg.debug (run_down cfg vm_cfg host ending w)
unfolding run_down
run_down-Ends cfg vm_cfg host (signalled jobs) w quiet v =
    shutdown-Ends cfg vm_cfg host jobs cfg.debug w refl quiet v
run_down-Ends cfg vm_cfg host (server_failed e) w quiet v = v

-- The tunnel of a start is one that Start has been called on at most once.
abbrev ReachesAfter : Result AgentMetadata × Agent → Type 0
ReachesAfter (r, b) = Reaches b.world.tunnel

on_registered-Reaches :
    (m : AgentMetadata) (b : Agent) (o : Option Error)
    → Reaches b.world.tunnel
    → ReachesAfter (on_registered m b o)
unfolding on_registered
on_registered-Reaches m b (some e) h = h
on_registered-Reaches m b none h = h

on_opened-Reaches :
    (cfg : AgentConfig) (env : RunEnv) (m : AgentMetadata) (r : Option Error × Agent)
    → Reaches r.1.world.tunnel
    → ReachesAfter (on_opened cfg env m r)
unfolding on_opened cleared
on_opened-Reaches cfg env m (some e, b) h = h
on_opened-Reaches cfg env m (none, b) h =
    on_registered-Reaches m (cleared env.boot.store b) (register cfg env m.host_exists b.api) h

on_tunnel-Reaches :
    (a : Agent) (r : Option Error × Tunnel) → Reaches r.1 → Reaches (on_tunnel a r).1.world.tunnel
on_tunnel-Reaches a (none, t) h = h
on_tunnel-Reaches a (some e, t) h = h

start_tunnel-Reaches :
    (cfg : AgentConfig) (env : ProcessEnv) (m : AgentMetadata) (token : Text) (a : Agent)
    → a.world.tunnel ≡ new_process
    → Reaches (start_tunnel cfg env m token a).1.world.tunnel
unfolding start_tunnel
start_tunnel-Reaches cfg env m [] a e = rw e unstarted
start_tunnel-Reaches cfg env m (c ∷ token) a e =
    on_tunnel-Reaches a (start env cfg.frpc_binary m.id (c ∷ token) m.agent_port a.world.tunnel)
      (rw e (started env cfg.frpc_binary m.id (c ∷ token) m.agent_port))

open_tunnel-Reaches :
    (cfg : AgentConfig) (env : ProcessEnv) (m : AgentMetadata) (a : Agent)
    → a.world.tunnel ≡ new_process
    → Reaches (open_tunnel cfg env m a).1.world.tunnel
unfolding open_tunnel
open_tunnel-Reaches cfg env m a e = elim (Bool-cases cfg.test_mode) [
  | inl on ↦ simp on (subst Reaches (sym e) unstarted)
  | inr off ↦ simp off (start_tunnel-Reaches cfg env m m.tunnel_token a e)
]

on_boot-Reaches :
    (cfg : AgentConfig) (env : RunEnv) (r : Result AgentMetadata × Agent)
    → r.1.world.tunnel ≡ new_process
    → ReachesAfter (on_boot cfg env r)
unfolding on_boot
on_boot-Reaches cfg env (err e, b) h = subst Reaches (sym h) unstarted
on_boot-Reaches cfg env (ok m, b) h =
    on_opened-Reaches cfg env m (open_tunnel cfg env.tunnel m b)
      (open_tunnel-Reaches cfg env.tunnel m b h)

Boots-tunnel :
    (env : BootstrapEnv) (a : Agent) (r : Result AgentMetadata × Agent)
    → Boots env a r
    → r.1.world.tunnel ≡ a.world.tunnel
Boots-tunnel env a (err e, b) (apart, h) = apart.tunnel
Boots-tunnel env a (ok m, b) (apart, h) = apart.tunnel

Starts-vm :
    (cfg : AgentConfig) (env : RunEnv) (a : Agent) (r : Result AgentMetadata × Agent)
    → Starts cfg env a r
    → r.1.world.vm ≡ a.world.vm
Starts-vm cfg env a (err e, b) h = h
Starts-vm cfg env a (ok m, b) h = h.vm

run_up-Reaches :
    (cfg : AgentConfig) (env : RunEnv) (a : Agent)
    → a.api.secret ≡ []
    → a.world.tunnel ≡ new_process
    → Reaches (run_up cfg env a).1.world.tunnel
unfolding run_up
run_up-Reaches cfg env a unset fresh = on_boot-Reaches cfg env (bootstrap cfg env.boot a) (
    Boots-tunnel env.boot a (bootstrap cfg env.boot a) (bootstrap-Boots cfg env.boot a unset)
    ∙ fresh)

run_up-IsSound :
    (cfg : AgentConfig) (env : RunEnv) (a : Agent)
    → a.api.secret ≡ []
    → a.world.tunnel ≡ new_process
    → a.world.vm ≡ new_manager
    → IsSound (run_up cfg env a).1.world
run_up-IsSound cfg env a unset fresh idle = record {
  tunnel = run_up-Reaches cfg env a unset fresh;
  vm =
      subst Inv
        (sym (Starts-vm cfg env a (run_up cfg env a) (run_up-Starts cfg env a unset) ∙ idle))
        new_manager-Inv;
}

on_up-Ends :
    (cfg : AgentConfig) (vm_cfg : VmConfig) (host : StopEnv) (ending : Ending)
    (handle : World → World) (r : Result AgentMetadata × Agent)
    → IsOver ending
    → IsSound r.1.world
    → ((w : World) → IsSound w → IsSound (handle w))
    → Ends cfg.debug (on_up cfg vm_cfg host ending handle r)
unfolding on_up
on_up-Ends cfg vm_cfg host ending handle (err e, b) over v keeps = v
on_up-Ends cfg vm_cfg host ending handle (ok m, b) over v keeps =
    run_down-Ends cfg vm_cfg host ending (handle b.world) over (keeps b.world v)

-- The whole of Run behind KillOrphans, from a new agent: when it returns without an error, no frpc
-- process runs and no monitor starts one, and outside of the debug mode no VM runs and no GPU, disk or
-- process is held but what a failed Bind left. When it returns with an error, only the invariants hold: frpc and a VM may still run.
-- No job may go on beside the shutdown. What the requests do in between must keep the process of frpc among its reachable states and the
-- manager's invariant.
pub run_agent-Ends :
    (cfg : AgentConfig) (env : RunEnv) (vm_cfg : VmConfig) (host : StopEnv) (ending : Ending)
    (handle : World → World) (a : Agent)
    → a.api.secret ≡ []
    → a.world.tunnel ≡ new_process
    → a.world.vm ≡ new_manager
    → IsOver ending
    → ((w : World) → IsSound w → IsSound (handle w))
    → Ends cfg.debug (run_agent cfg env vm_cfg host ending handle a)
unfolding run_agent
run_agent-Ends cfg env vm_cfg host ending handle a unset fresh idle over keeps =
    on_up-Ends cfg vm_cfg host ending handle (run_up cfg env a) over
      (run_up-IsSound cfg env a unset fresh idle) keeps
