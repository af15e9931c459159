-- ===== src/Agent/Up.antt =====
-- internal/agent/agent.go: the agent where its server listens.
use qudata_agent.Common.{
  subst, ℕ, refl, sym, ap, inl, inr, Bool, true, false, Option, none, some, [], Bool-cases, is_nil,
  ◌≡◌, ◌∷◌, ◌∙◌,
}
use qudata_agent.Agent.{AgentMetadata, Agent, bootstrap}
use qudata_agent.AgentConfig.{AgentConfig}
use qudata_agent.Agent.Run.{
  start_tunnel, on_registered, on_opened, on_boot, run_up, RunEnv, open_tunnel, cleared, register,
  on_tunnel,
}
use qudata_agent.Frpc.Process.{Tunnel, start, ProcessEnv, on_stat}
use qudata_agent.Frpc.Config.{render, new_config}
use qudata_agent.Agent.Booted.{IsBooted, IsApart, Boots, bootstrap-Boots}
use qudata_agent.Domain.{Result, Error, err, ok}
use qudata_agent.Common.Text.{str, Text}
use qudata_agent.Frpc.Process.Started.{Runs, on_stat-Runs}
use qudata_agent.Network.Allocate.{Allocates}
use qudata_agent.Network.{app_port_min, app_port_max}
use qudata_agent.Qudata.{ApiClient}
use qudata_agent.Storage.RoundTrip.{clear_instance_state-gone}

-- The process of frpc that runs with the proxies of the agent alone.
abbrev pub Tunnels : AgentMetadata → Tunnel → Type 0
Tunnels m t =
    (n : ℕ) × (t.cmd ≡ some (some n))
    × (t.live n ≡ some (render (new_config m.id m.tunnel_token m.agent_port)))

-- The tunnel as it was in test mode, and otherwise one for a token that is not empty.
abbrev pub Opens : Bool → AgentMetadata → Tunnel → Tunnel → Type 0
Opens true m t t' = t' ≡ t
Opens false m t t' = (is_nil m.tunnel_token ≡ false) × Tunnels m t'

pub record IsUp (cfg : AgentConfig) (env : RunEnv) (a b : Agent) (m : AgentMetadata) : Type 0 where
  pub booted : IsBooted env.boot a b m
  pub vm : b.world.vm ≡ a.world.vm
  pub tunnel : Opens cfg.test_mode m a.world.tunnel b.world.tunnel
  pub forgotten : env.boot.store.remove ≡ none → b.world.files (str "instance_state.json") ≡ none
  pub registered : register cfg env m.host_exists b.api ≡ none

-- Where it does not get so far, the VM is as it was.
abbrev pub Starts : AgentConfig → RunEnv → Agent → Result AgentMetadata × Agent → Type 0
Starts cfg env a (err e, b) = b.world.vm ≡ a.world.vm
Starts cfg env a (ok m, b) = IsUp cfg env a b m

-- What opening the tunnel comes to: nothing else of the agent changes.
record IsOpened (cfg : AgentConfig) (m : AgentMetadata) (a b : Agent) : Type 0 where
  pub tunnel : Opens cfg.test_mode m a.world.tunnel b.world.tunnel
  pub api : b.api ≡ a.api
  pub taken : b.world.taken ≡ a.world.taken
  pub vm : b.world.vm ≡ a.world.vm

abbrev OpensOrFails : AgentConfig → AgentMetadata → Agent → Option Error × Agent → Type 0
OpensOrFails cfg m a (some e, b) = b.world.vm ≡ a.world.vm
OpensOrFails cfg m a (none, b) = IsOpened cfg m a b

on_tunnel-Opens :
    (cfg : AgentConfig) (m : AgentMetadata) (a : Agent) (r : Option Error × Tunnel)
    → cfg.test_mode ≡ false
    → is_nil m.tunnel_token ≡ false
    → Runs (render (new_config m.id m.tunnel_token m.agent_port)) r
    → OpensOrFails cfg m a (on_tunnel a r)
on_tunnel-Opens cfg m a (some e, t) off full h = refl
on_tunnel-Opens cfg m a (none, t) off full h = record {
  tunnel = rw off (full, h);
  api = refl;
  taken = refl;
  vm = refl;
}

start_tunnel-Opens :
    (cfg : AgentConfig) (env : ProcessEnv) (m : AgentMetadata) (token : Text) (a : Agent)
    → cfg.test_mode ≡ false
    → m.tunnel_token ≡ token
    → OpensOrFails cfg m a (start_tunnel cfg env m token a)
unfolding start_tunnel start
start_tunnel-Opens cfg env m [] a off same = refl
start_tunnel-Opens cfg env m (c ∷ token) a off same =
    on_tunnel-Opens cfg m a
      (on_stat env.stat env cfg.frpc_binary m.id (c ∷ token) m.agent_port a.world.tunnel) off
      (ap is_nil same)
      (subst
        (λ t.
          Runs (render (new_config m.id t m.agent_port))
            (on_stat env.stat env cfg.frpc_binary m.id (c ∷ token) m.agent_port a.world.tunnel))
        (sym same)
        (on_stat-Runs env.stat env cfg.frpc_binary m.id (c ∷ token) m.agent_port a.world.tunnel))

open_tunnel-Opens :
    (cfg : AgentConfig) (env : ProcessEnv) (m : AgentMetadata) (a : Agent)
    → OpensOrFails cfg m a (open_tunnel cfg env m a)
unfolding open_tunnel
open_tunnel-Opens cfg env m a = elim (Bool-cases cfg.test_mode) [
  | inl on ↦ simp on (record { tunnel = rw on refl; api = refl; taken = refl; vm = refl })
  | inr off ↦ simp off (start_tunnel-Opens cfg env m m.tunnel_token a off refl)
]

on_registered-Starts :
    (cfg : AgentConfig) (env : RunEnv) (m : AgentMetadata) (a b : Agent) (o : Option Error)
    → b.world.vm ≡ a.world.vm
    → (o ≡ none → IsUp cfg env a b m)
    → Starts cfg env a (on_registered m b o)
unfolding on_registered
on_registered-Starts cfg env m a b (some e) vm h = vm
on_registered-Starts cfg env m a b none vm h = h refl

on_opened-Starts :
    (cfg : AgentConfig) (env : RunEnv) (m : AgentMetadata) (a b : Agent) (r : Option Error × Agent)
    → IsApart a b
    → IsBooted env.boot a b m
    → OpensOrFails cfg m b r
    → Starts cfg env a (on_opened cfg env m r)
unfolding on_opened cleared
on_opened-Starts cfg env m a b (some e, c) apart booted h = h ∙ apart.vm
on_opened-Starts cfg env m a b (none, c) apart booted h =
    on_registered-Starts cfg env m a (cleared env.boot.store c)
      (register cfg env m.host_exists c.api) (h.vm ∙ apart.vm)
      (λ e. record {
        booted = record {
          port =
              subst
                (λ t.
                  Allocates app_port_min app_port_max env.boot.probe a.world.taken
                    (ok m.agent_port, t))
                (sym h.taken) booted.port;
          sender = ap (λ (x : ApiClient). x.secret) h.api ∙ booted.sender;
        };
        vm = h.vm ∙ apart.vm;
        tunnel = subst (λ t. Opens cfg.test_mode m t c.world.tunnel) apart.tunnel h.tunnel;
        forgotten = clear_instance_state-gone env.boot.store c.world.files;
        registered = e;
      })

on_boot-Starts :
    (cfg : AgentConfig) (env : RunEnv) (a : Agent) (r : Result AgentMetadata × Agent)
    → Boots env.boot a r
    → Starts cfg env a (on_boot cfg env r)
unfolding on_boot
on_boot-Starts cfg env a (err e, b) (apart, h) = apart.vm
on_boot-Starts cfg env a (ok m, b) (apart, h) =
    on_opened-Starts cfg env m a b (open_tunnel cfg env.tunnel m b) apart h
      (open_tunnel-Opens cfg env.tunnel m b)

-- The server of the agent listens only once all is in place: its port is a fresh, free port of the range
-- for applications that is now taken, the client sends the secret of the metadata, the host is known to
-- the service or has just been registered, an instance's state of an earlier run is gone if it can be
-- removed, and, but in test mode, there is a tunnel token and frpc runs with the proxy of the agent's
-- port. The VM is as it was, also where the start fails. The client must have no secret before.
pub run_up-Starts :
    (cfg : AgentConfig) (env : RunEnv) (a : Agent)
    → a.api.secret ≡ []
    → Starts cfg env a (run_up cfg env a)
unfolding run_up
run_up-Starts cfg env a unset =
    on_boot-Starts cfg env a (bootstrap cfg env.boot a) (bootstrap-Boots cfg env.boot a unset)
