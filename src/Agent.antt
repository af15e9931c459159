-- ===== src/Agent.antt =====
-- internal/agent/agent.go: the agent, from its start to its end.
pub mod Run
pub mod Restart
pub mod Up
pub mod Down
pub mod Main
pub mod Publish
pub mod Exits
pub mod Booted
pub mod Identity
use qudata_agent.Common.{ℕ, Bool, Option, none, some, [], is_nil, ◌∷◌, if◌then◌else◌}
use qudata_agent.Common.Text.{Text, str}
use qudata_agent.Server.Lifecycle.{World}
use qudata_agent.Storage.{StoreEnv, Files, secret, save_secret, agent_id, save_api_key}
use qudata_agent.Network.{PortSet, Probe, allocate_one}
use qudata_agent.Domain.{Result, Error, ok, err, wrapped}
use qudata_agent.AgentConfig.{AgentConfig}
use qudata_agent.Qudata.{
  ApiClient, InitAgentRequest, InitAgentRespData, InitJson, use_secret, Service, init_agent, ping,
}
use qudata_agent.System.{public_ip, machine_fingerprint}

-- The record that bootstrap returns.
pub record AgentMetadata : Type 0 where
  pub id : Text
  pub agent_port : ℕ
  pub address : Text
  pub secret_key : Text
  pub tunnel_token : Text
  pub host_exists : Bool

-- The state of the agent: what its handlers share, and its client.
pub record Agent : Type 0 where
  pub world : World
  pub api : ApiClient

-- What a start asks of its surroundings: a new uuid, one look for a port, the bodies of the three
-- address services, /etc/machine-id, the process id, the version of the program, and the service.
pub record BootstrapEnv : Type 0 where
  pub store : StoreEnv
  pub uuid : Text
  pub probe : Probe
  pub ipify : Option Text
  pub ifconfig : Option Text
  pub icanhazip : Option Text
  pub machine_id : Option Text
  pub pid : ℕ
  pub version : Text
  pub json : InitJson
  pub service : Service

abbrev pub with_files : Agent → Files → Agent
with_files a files = record a { world = record a.world { files = files } }

abbrev pub with_taken : Agent → PortSet → Agent
with_taken a taken = record a { world = record a.world { taken = taken } }

abbrev pub read_secret : Result Text → Text
read_secret (ok t) = t
read_secret (err e) = []

-- What bootstrap does with the secret of the response; a stored one is used where it has none.
unfoldable pub keep_secret : StoreEnv → Text → Agent → Text × Agent
unfolding secret save_secret use_secret
keep_secret store (c ∷ s) a = (
  c ∷ s,
  record (with_files a (save_secret store (c ∷ s) a.world.files).1) {
    api = use_secret (c ∷ s) a.api;
  },
)
keep_secret store [] a =
    let stored = read_secret (secret store a.world.files) in
    (stored, if is_nil stored then a else record a { api = use_secret stored a.api })

unfoldable pub init_request : AgentConfig → BootstrapEnv → Text → ℕ → InitAgentRequest
init_request cfg env id agent_port = record {
  agent_id = id;
  agent_port = agent_port;
  address = public_ip env.ipify env.ifconfig env.icanhazip;
  fingerprint = machine_fingerprint env.machine_id;
  pid = env.pid;
  version = env.version;
  test_mode = cfg.test_mode;
}

-- The end of bootstrap behind the secret.
unfoldable pub finish_boot :
    AgentConfig
    → BootstrapEnv
    → Text
    → ℕ
    → InitAgentRespData
    → Text × Agent
    → Result AgentMetadata × Agent
finish_boot cfg env id agent_port d (secret_key, a) = (
  ok (record {
    id = id;
    agent_port = agent_port;
    address = public_ip env.ipify env.ifconfig env.icanhazip;
    secret_key = secret_key;
    tunnel_token = d.tunnel_token;
    host_exists = d.host_exists;
  }),
  with_files a (save_api_key env.store cfg.api_key a.world.files).1,
)

unfoldable pub on_init :
    AgentConfig
    → BootstrapEnv
    → Text
    → ℕ
    → Result InitAgentRespData
    → Agent
    → Result AgentMetadata × Agent
unfolding keep_secret finish_boot
on_init cfg env id agent_port (err e) a = (err (wrapped (str "init agent") e []), a)
on_init cfg env id agent_port (ok d) a =
    finish_boot cfg env id agent_port d (keep_secret env.store d.secret_key a)

unfoldable pub on_ping :
    AgentConfig → BootstrapEnv → Text → ℕ → Option Error → Agent → Result AgentMetadata × Agent
unfolding on_init init_request
on_ping cfg env id agent_port (some e) a = (err (wrapped (str "api ping") e []), a)
on_ping cfg env id agent_port none a =
    on_init cfg env id agent_port
      (init_agent env.json env.service a.api (init_request cfg env id agent_port)) a

unfoldable pub on_agent_port :
    AgentConfig → BootstrapEnv → Text → Result ℕ × PortSet → Agent → Result AgentMetadata × Agent
unfolding on_ping
on_agent_port cfg env id (err e, taken) a =
    (err (wrapped (str "allocate agent port") e []), with_taken a taken)
on_agent_port cfg env id (ok agent_port, taken) a =
    on_ping cfg env id agent_port (ping env.service a.api) (with_taken a taken)

unfoldable pub on_agent_id :
    AgentConfig → BootstrapEnv → Result Text × Files → Agent → Result AgentMetadata × Agent
unfolding on_agent_port
on_agent_id cfg env (err e, files) a = (err (wrapped (str "agent id") e []), with_files a files)
on_agent_id cfg env (ok id, files) a =
    on_agent_port cfg env id (allocate_one env.probe a.world.taken) (with_files a files)

unfoldable pub bootstrap : AgentConfig → BootstrapEnv → Agent → Result AgentMetadata × Agent
unfolding on_agent_id
bootstrap cfg env a = on_agent_id cfg env (agent_id env.store env.uuid a.world.files) a
