-- ===== src/Tests/Agent.antt =====
-- The start of the agent, its second start, its whole life and its reports at concrete inputs.
use qudata_agent.Tests.Manager.{host_config, create_env, stop_env, bind-honest}
use qudata_agent.Tests.Server.{life, job}
use qudata_agent.Server.Serving.{destroys, begins_job, rests, goes_on, world_of}
use qudata_agent.Qemu.Manager.{new_manager, Vm}
use qudata_agent.Common.{
  refl, sym, ap, Bool, true, false, none, some, [], pos, ◌≡◌, ◌/◌, ◌∷◌, if◌then◌else◌, ◌≤◌,
}
use qudata_agent.Qudata.{
  Service, answered, InitAgentRespData, ping, init_agent, unanswered, send_stats,
}
use qudata_agent.Common.Text.{Text, trim_space, codes, text_eq, str}
use qudata_agent.Agent.Run.{RunEnv, run_up, signalled}
use qudata_agent.AgentConfig.{AgentConfig, default_config, Environ}
use qudata_agent.Agent.{Agent, AgentMetadata, bootstrap, BootstrapEnv}
use qudata_agent.Agent.Identity.{GivesNoSecret, Knows, bootstrap-bootstrap}
use qudata_agent.Agent.Booted.{Boots, bootstrap-Boots}
use qudata_agent.Agent.Up.{Starts, run_up-Starts}
use qudata_agent.Frpc.Process.{new_process}
use qudata_agent.Domain.{ok, no_instance_running, Result, err}
use qudata_agent.Storage.{agent_id, read_file, write_file}
use qudata_agent.Network.{allocate_one, allocate_from_range, scan_range}
use qudata_agent.System.{public_ip}
use qudata_agent.Agent.Main.{Surroundings, MainEnv, main}
use qudata_agent.Keys.{KeyEnv}
use qudata_agent.Agent.Down.{IsOver}
use qudata_agent.Agent.Exits.{Exits, main-Exits, IsServing}
use qudata_agent.Agent.Publish.{Tick, publish_stats}
use qudata_agent.Agent.Publish.Quiet.{publish_stats-Quiet}
use qudata_agent.Server.Lifecycle.{World, begin_vm, destroy_instance}

-- A service that answers every request, and JSON that gives a secret once.
abbrev service : Service
service req = answered 200 []

abbrev response : Text → InitAgentRespData
response secret = record {
  agent_created = true;
  emergency_reinit = false;
  host_exists = false;
  secret_key = secret;
  tunnel_token = codes "tok";
  instance_running = false;
}

abbrev boot_env : Text → Text → BootstrapEnv
boot_env secret uuid = record {
  store = record {
    unreadable = none;
    not_exist = no_instance_running;
    write = none;
    remove = none;
  };
  uuid = uuid;
  probe = record { draw = 7; is_port_free = λ q. true };
  ipify = none;
  ifconfig = some (codes "192.0.2.1");
  icanhazip = none;
  machine_id = some (codes "6f2c");
  pid = 4;
  version = codes "1.0";
  json = record { marshal = λ r. []; unmarshal = λ t. ok (true, response secret) };
  service = service;
}

abbrev run_env : RunEnv
run_env = record {
  boot = boot_env (codes "s3") (codes "0b-1c");
  tunnel = record { stat = none; mkdir = none; write = none; start = none; exits_at_once = none };
  gpu_file = ok [];
  gpu_json = λ t. ok (record { name = codes "NVIDIA Tesla T4"; count = pos 0 });
  host_body = λ g. ok g.name;
}

abbrev cfg : AgentConfig
cfg = default_config (λ f. true)

abbrev fresh_agent : Agent
fresh_agent = record {
  world = record { vm = new_manager; taken = λ q. false; tunnel = new_process; files = λ n. none };
  api = record { base_url = codes "https://x"; key = codes "ak-1"; secret = [] };
}

-- What the first start knows.
abbrev meta : AgentMetadata
meta = record {
  id = codes "0b-1c";
  agent_port = 15008;
  address = codes "192.0.2.1";
  secret_key = codes "s3";
  tunnel_token = codes "tok";
  host_exists = false;
}

abbrev booted : Agent
booted = (bootstrap cfg run_env.boot fresh_agent).1

booted_meta : (bootstrap cfg run_env.boot fresh_agent).0 ≡ ok meta
unfolding bootstrap agent_id read_file write_file allocate_one allocate_from_range scan_range ping
    init_agent public_ip trim_space
booted_meta = refl

-- The files of the first start in the hands of a new agent.
abbrev next_agent : Agent
next_agent = record fresh_agent { world = record fresh_agent.world { files = booted.world.files } }

uuid_trimmed : trim_space (codes "0b-1c") ≡ codes "0b-1c"
unfolding trim_space
uuid_trimmed = refl

secret_trimmed : trim_space (codes "s3") ≡ codes "s3"
unfolding trim_space
secret_trimmed = refl

abbrev secret_of : Result (Bool × InitAgentRespData) → Text
secret_of (err e) = []
secret_of (ok (flag, d)) = d.secret_key

response-silent : GivesNoSecret (boot_env [] []).json
response-silent t d e = sym (ap secret_of e)

bootstrap-bootstrap_example :
    Knows (codes "0b-1c") (codes "s3") (bootstrap cfg (boot_env [] (codes "new")) next_agent)
bootstrap-bootstrap_example =
    bootstrap-bootstrap cfg cfg run_env.boot (boot_env [] (codes "new")) fresh_agent booted
      next_agent meta refl refl uuid_trimmed refl (ap (λ r. (r, booted)) booted_meta) secret_trimmed
      refl refl refl response-silent

bootstrap-Boots_example : Boots run_env.boot fresh_agent (bootstrap cfg run_env.boot fresh_agent)
bootstrap-Boots_example = bootstrap-Boots cfg run_env.boot fresh_agent refl

run_up-Starts_example : Starts cfg run_env fresh_agent (run_up cfg run_env fresh_agent)
run_up-Starts_example = run_up-Starts cfg run_env fresh_agent refl

-- A run that serves a job and its deletion, and that is then stopped by a signal.
abbrev jobbed : World → World
jobbed w = world_of (begin_vm host_config create_env false life job w)

abbrev served : World → World
served w = destroy_instance host_config stop_env life none (jobbed w)

abbrev around : Surroundings
around = record {
  run = run_env;
  host = record { exits_in_time = true };
  ending = signalled (record { behind_tunnel = λ w. w; behind_vm = λ w. w });
  handle = served;
}

around-IsServing : IsServing around
around-IsServing w =
    goes_on w (jobbed w) (served w) (begins_job host_config create_env false life job w bind-honest)
      (goes_on (jobbed w) (served w) (served w) (destroys host_config stop_env life none (jobbed w))
        (rests (served w)))

around-IsOver : IsOver around.ending
around-IsOver = record {
  tunnel_kept = λ w. refl;
  vm_kept = λ w. refl;
  tunnel_left = λ w. refl;
  vm_left = λ w. refl;
}

abbrev environ : Environ
environ v = if text_eq v (codes "QUDATA_API_KEY") then codes "ak-1" else []

abbrev pub keys : KeyEnv
keys = record {
  unread_private = none;
  unread_public = none;
  mkdir = none;
  generate_key = none;
  new_public_key = none;
  marshal_private_key = none;
  private_pem = codes "pem";
  authorized = codes "ssh-ed25519 AAAA";
  write_private = none;
  write_public = none;
  remove = none;
  not_exist = no_instance_running;
}

abbrev main_env : MainEnv
main_env = record {
  ovmf_exists = λ f. true;
  log = none;
  data_dir = none;
  parser = record { parse_private_key = λ t. none; parse_authorized_key = λ t. none };
  keys = keys;
}

main-Exits_example :
    Exits
      (text_eq (environ (str "QUDATA_DEBUG")) (str "true"))
      (main main_env around environ (codes "--test" ∷ []) (λ p. none) (λ n. none))
main-Exits_example =
    main-Exits main_env around environ (codes "--test" ∷ []) (λ p. none) (λ n. none)
      around-IsServing around-IsOver

-- Reports of a VM that is up to a service that does not answer.
abbrev lost : Tick
lost = record {
  qmp = record { command = none; query = ok (codes "running") };
  body = λ st. ok [];
  service = λ req. unanswered no_instance_running;
}

abbrev up : Vm
up = record new_manager { mgr = record new_manager.mgr { vm_id = codes "vm" } }

publish_stats-Quiet_example :
    publish_stats fresh_agent.api ((up, lost) ∷ (up, lost) ∷ []) 0 ≤ 41 / 40
unfolding send_stats
publish_stats-Quiet_example =
    publish_stats-Quiet fresh_agent.api ((up, lost) ∷ (up, lost) ∷ []) ((_, refl), ((_, refl), tt))
