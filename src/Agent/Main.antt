-- ===== src/Agent/Main.antt =====
-- cmd/agent/main.go and internal/agent/agent.go: New, and the program from its environment to its end.
use qudata_agent.Common.{Bool, true, Option, none, some, List, [], ◌++◌, ◌∷◌, false}
use qudata_agent.Common.Text.{Text, text_eq, str}
use qudata_agent.Qemu.Manager.{new_manager_config, VmConfig, new_manager}
use qudata_agent.Qudata.{new_client}
use qudata_agent.Domain.{Result, Error, ok, err, wrapped}
use qudata_agent.Keys.{ensure_management_key, KeyParser, KeyPair, KeyEnv}
use qudata_agent.AgentConfig.{AgentConfig, load, Environ}
use qudata_agent.Agent.Run.{RunEnv, run_agent, Ending}
use qudata_agent.Frpc.Process.{new_process}
use qudata_agent.Storage.{Files}
use qudata_agent.Qemu.Manager.Stop.{StopEnv}
use qudata_agent.Server.Lifecycle.{World}
use qudata_agent.Agent.{Agent}
use qudata_agent.Network.{new_port_allocator}

-- What the calls outside the program answer before Run: to os.MkdirAll for the data directory, in
-- EnsureManagementKey, and to the opening of the log.
pub record MainEnv : Type 0 where
  pub ovmf_exists : Text → Bool
  pub log : Option Error
  pub data_dir : Option Error
  pub parser : KeyParser
  pub keys : KeyEnv

abbrev pub with_arg : Bool → AgentConfig → AgentConfig
with_arg true cfg = record cfg { test_mode = true }
with_arg false cfg = cfg

-- The loop over os.Args behind the program's name.
unfoldable pub with_args : List Text → AgentConfig → AgentConfig
with_args [] cfg = cfg
with_args (arg ∷ args) cfg = with_args args (with_arg (text_eq arg (str "--test")) cfg)

-- The configuration of the manager, which NewManager completes.
unfoldable pub vm_config : AgentConfig → Text → VmConfig
unfolding new_manager_config
vm_config cfg ssh_key_path = new_manager_config (record {
  image_dir = cfg.image_dir;
  base_image = cfg.base_image_path;
  ovmf_code = cfg.ovmf_code_path;
  ovmf_vars_tmpl = cfg.ovmf_vars_path;
  default_gpus = cfg.gpu_pci_addrs;
  run_dir = cfg.vm_run_dir;
  ssh_key_path = ssh_key_path;
  default_cpu = cfg.vm_default_cpus;
  default_mem = cfg.vm_default_memory;
  disk_size_gb = cfg.vm_disk_size_gb;
  test_mode = cfg.test_mode;
})

-- The components of a new agent; `files` is what the data directory holds.
unfoldable pub new_agent_of : AgentConfig → Files → Agent
unfolding new_client new_process new_manager new_port_allocator
new_agent_of cfg files = record {
  world = record {
    vm = new_manager;
    taken = new_port_allocator;
    tunnel = new_process;
    files = files;
  };
  api = new_client cfg.api_key cfg.service_url;
}

abbrev pub on_key_pair : Result KeyPair → Result Text
on_key_pair (ok pair) = ok pair.private_key_path
on_key_pair (err e) = err (wrapped (str "ensure management key") e [])

-- The path of the management key: the configured one, or that of the agent's own pair.
unfoldable pub management_key : MainEnv → Text → Text → Files → Result Text
unfolding ensure_management_key
management_key env (c ∷ path) data_dir host = ok (c ∷ path)
management_key env [] data_dir host =
    on_key_pair (ensure_management_key env.parser env.keys (data_dir ++ str "/.ssh") host).0

abbrev pub on_management_key : AgentConfig → Files → Result Text → Result (VmConfig × Agent)
on_management_key cfg files (err e) = err e
on_management_key cfg files (ok path) = ok (vm_config cfg path, new_agent_of cfg files)

-- New, by the error of NewStore; `host` is the files of the host by their paths.
unfoldable pub new_agent :
    MainEnv → Option Error → AgentConfig → Files → Files → Result (VmConfig × Agent)
unfolding management_key vm_config new_agent_of
new_agent env (some e) cfg host files =
    err (wrapped (str "init storage") (wrapped (str "create data dir " ++ cfg.data_dir) e []) [])
new_agent env none cfg host files =
    on_management_key cfg files (management_key env cfg.management_key_path cfg.data_dir host)

-- What may be known of the run only once there is an agent: the answers to it, and how it ends.
pub record Surroundings : Type 0 where
  pub run : RunEnv
  pub host : StopEnv
  pub ending : Ending
  pub handle : World → World

-- A start that fails before Run has touched none of the shared states.
pub data Exit : Type 0 where
  unstarted : Error → Exit
  finished : Option Error → World → Exit

unfoldable pub on_new : Surroundings → AgentConfig → Result (VmConfig × Agent) → Exit
unfolding run_agent
on_new s cfg (err e) = unstarted e
on_new s cfg (ok (vm_cfg, a)) =
    let (o, w) = run_agent cfg s.run vm_cfg s.host s.ending s.handle a in finished o w

unfoldable pub on_log : MainEnv → Surroundings → AgentConfig → Option Error → Files → Files → Exit
unfolding on_new new_agent
on_log env s cfg (some e) host files = unstarted e
on_log env s cfg none host files = on_new s cfg (new_agent env env.data_dir cfg host files)

unfoldable pub on_config :
    MainEnv → Surroundings → List Text → Result AgentConfig → Files → Files → Exit
unfolding on_log with_args
on_config env s args (err e) host files = unstarted e
on_config env s args (ok cfg) host files = on_log env s (with_args args cfg) env.log host files

-- Main: the program exits with status 0 if and only if it is finished without an error.
unfoldable pub main : MainEnv → Surroundings → Environ → List Text → Files → Files → Exit
unfolding on_config load
main env s environ args host files = on_config env s args (load env.ovmf_exists environ) host files
