-- ===== src/Agent/Run.antt =====
-- internal/agent/agent.go: Run and shutdown.
use qudata_agent.Common.{
  ℕ, Bool, true, false, Option, none, some, [], pos, ◌++◌, ◌∷◌, if◌then◌else◌,
}
use qudata_agent.Agent.{BootstrapEnv, Agent, AgentMetadata, bootstrap, with_files}
use qudata_agent.AgentConfig.{AgentConfig}
use qudata_agent.Domain.{Result, Error, err, wrapped, plain, ok}
use qudata_agent.System.{file_gpu_info, GpuInfo, mock_gpu_info}
use qudata_agent.Qudata.{register_host, ApiClient, prefixed}
use qudata_agent.Storage.{clear_instance_state, StoreEnv}
use qudata_agent.Common.Text.{Text, str}
use qudata_agent.Frpc.Process.{stop_process, ProcessEnv, Tunnel, start}
use qudata_agent.Qemu.Manager.Stop.{stop_locked, StopEnv}
use qudata_agent.Qemu.Manager.{VmConfig}
use qudata_agent.Common.Decimal.{itoa}
use qudata_agent.Server.Lifecycle.{World}

-- What a run asks for behind bootstrap: the host's file of GPUs, the JSON of the registration by the
-- GPUs that it names, and the answers to frpc.
pub record RunEnv : Type 0 where
  pub boot : BootstrapEnv
  pub tunnel : ProcessEnv
  pub gpu_file : Result Text
  pub gpu_json : Text → Result GpuInfo
  pub host_body : GpuInfo → Result Text

abbrev pub with_tunnel : Agent → Tunnel → Agent
with_tunnel a t = record a { world = record a.world { tunnel = t } }

abbrev pub on_tunnel : Agent → Option Error × Tunnel → Option Error × Agent
on_tunnel a (none, t) = (none, with_tunnel a t)
on_tunnel a (some e, t) = (some (wrapped (str "start frpc") e []), with_tunnel a t)

-- The tunnel outside the test mode, by the token of the response.
unfoldable pub start_tunnel :
    AgentConfig → ProcessEnv → AgentMetadata → Text → Agent → Option Error × Agent
start_tunnel cfg env meta [] a =
    (some (plain (str "tunnel_token not received from API — cannot start FRPC tunnel")), a)
start_tunnel cfg env meta (c ∷ token) a =
    on_tunnel a (start env cfg.frpc_binary meta.id (c ∷ token) meta.agent_port a.world.tunnel)

unfoldable pub open_tunnel : AgentConfig → ProcessEnv → AgentMetadata → Agent → Option Error × Agent
unfolding start_tunnel
open_tunnel cfg env meta a =
    if cfg.test_mode then (none, a) else start_tunnel cfg env meta meta.tunnel_token a

-- The GPUs that HostRegistration reports: none where the provider fails.
abbrev pub gpu_or_zero : Result GpuInfo → GpuInfo
gpu_or_zero (ok info) = info
gpu_or_zero (err e) = record { name = []; count = pos 0 }

unfoldable pub gpu_info : AgentConfig → RunEnv → GpuInfo
unfolding file_gpu_info mock_gpu_info
gpu_info cfg env =
    if cfg.debug
    then mock_gpu_info
    else gpu_or_zero
        (file_gpu_info (cfg.data_dir ++ str "/gpu-info.json") env.gpu_json env.gpu_file)

-- The registration of a host that the service does not know.
unfoldable pub register : AgentConfig → RunEnv → Bool → ApiClient → Option Error
unfolding register_host gpu_info
register cfg env true api = none
register cfg env false api =
    prefixed (str "register host")
      (register_host env.boot.service api (env.host_body (gpu_info cfg env)))

unfoldable pub on_registered : AgentMetadata → Agent → Option Error → Result AgentMetadata × Agent
on_registered meta a (some e) = (err e, a)
on_registered meta a none = (ok meta, a)

-- The state file of an instance is removed before the host is registered.
unfoldable pub cleared : StoreEnv → Agent → Agent
unfolding clear_instance_state
cleared store a = with_files a (clear_instance_state store a.world.files).1

unfoldable pub on_opened :
    AgentConfig → RunEnv → AgentMetadata → Option Error × Agent → Result AgentMetadata × Agent
unfolding register on_registered cleared
on_opened cfg env meta (some e, a) = (err e, a)
on_opened cfg env meta (none, a) =
    on_registered meta (cleared env.boot.store a) (register cfg env meta.host_exists a.api)

unfoldable pub on_boot :
    AgentConfig → RunEnv → Result AgentMetadata × Agent → Result AgentMetadata × Agent
unfolding on_opened open_tunnel
on_boot cfg env (err e, a) = (err (wrapped (str "bootstrap") e []), a)
on_boot cfg env (ok meta, a) = on_opened cfg env meta (open_tunnel cfg env.tunnel meta a)

-- Run from bootstrap up to where the server listens.
unfoldable pub run_up : AgentConfig → RunEnv → Agent → Result AgentMetadata × Agent
unfolding on_boot bootstrap
run_up cfg env a = on_boot cfg env (bootstrap cfg env.boot a)

-- The address of server.New.
unfoldable pub bind_addr : Bool → ℕ → Text
bind_addr test_mode port =
    (if test_mode then str "0.0.0.0" else str "127.0.0.1") ++ (str ":" ++ itoa (pos port))

-- What the jobs that shutdown does not wait for do beside it, behind the stop of the tunnel and behind
-- that of the VM, before the program exits.
pub record Beside : Type 0 where
  pub behind_tunnel : World → World
  pub behind_vm : World → World

abbrev pub tunnel_stopped : World → World
tunnel_stopped w = record w { tunnel = stop_process w.tunnel }

abbrev pub vm_stopped : AgentConfig → VmConfig → StopEnv → World → World
vm_stopped cfg vm_cfg host w = record w {
  vm = if cfg.debug then w.vm else stop_locked vm_cfg host w.vm;
}

-- Shutdown of the tunnel and then of the VM, behind that of the server. The errors are only logged.
unfoldable pub shutdown : AgentConfig → VmConfig → StopEnv → Beside → World → World
unfolding stop_process stop_locked
shutdown cfg vm_cfg host jobs w =
    jobs.behind_vm (vm_stopped cfg vm_cfg host (jobs.behind_tunnel (tunnel_stopped w)))

-- How the select at the end of Run goes on: by a signal, or by an error of the server.
pub data Ending : Type 0 where
  signalled : Beside → Ending
  server_failed : Error → Ending

unfoldable pub run_down : AgentConfig → VmConfig → StopEnv → Ending → World → Option Error × World
unfolding shutdown
run_down cfg vm_cfg host (signalled jobs) w = (none, shutdown cfg vm_cfg host jobs w)
run_down cfg vm_cfg host (server_failed e) w = (some (wrapped (str "http server") e []), w)

unfoldable pub on_up :
    AgentConfig
    → VmConfig
    → StopEnv
    → Ending
    → (World → World)
    → Result AgentMetadata × Agent
    → Option Error × World
unfolding run_down
on_up cfg vm_cfg host ending handle (err e, a) = (some e, a.world)
on_up cfg vm_cfg host ending handle (ok meta, a) = run_down cfg vm_cfg host ending (handle a.world)

-- Run behind KillOrphans; `handle` is what the requests and their jobs do until the signal.
unfoldable pub run_agent :
    AgentConfig
    → RunEnv
    → VmConfig
    → StopEnv
    → Ending
    → (World → World)
    → Agent
    → Option Error × World
unfolding on_up run_up
run_agent cfg env vm_cfg host ending handle a =
    on_up cfg vm_cfg host ending handle (run_up cfg env a)
