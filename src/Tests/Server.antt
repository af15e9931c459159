-- ===== src/Tests/Server.antt =====
-- The theorems about the handlers and the storage at concrete inputs.
use qudata_agent.Qemu.Manager.Invariant.{new_manager-Inv}
use qudata_agent.Common.{
  refl, ap, true, false, none, some, List, [], pos, ◌≡◌, ◌∷◌, ◌↔◌, ◌==◌, subst,
}
use qudata_agent.Network.{
  Probes, new_port_allocator, allocate_ssh_port, allocate_from_range, scan_range, finish,
  allocate_one, PortSet,
}
use qudata_agent.Server.Create.{
  Request, Job, create_instance, spec_of, create_frpc_instance, accepted, allocate_remote,
  response_ports, Reply,
}
use qudata_agent.Storage.{
  Json, StoreEnv, agent_id, put_file, read_file, write_file, load_instance_state,
}
use qudata_agent.Storage.RoundTrip.{KeepsPorts, agent_id-agent_id}
use qudata_agent.Server.Lifecycle.{
  LifeEnv, World, delete_all, run_job, on_create_failed, delete_instance, destroy_instance,
}
use qudata_agent.Common.Text.{codes, str, trim_space, Text, text_eq}
use qudata_agent.Domain.{InstanceState, no_instance_running, ok}
use qudata_agent.Qemu.Manager.{new_manager, pool_set}
use qudata_agent.Frpc.Process.{new_process}
use qudata_agent.Server.Conserved.{IsClear, run_job-delete_all}
use qudata_agent.Server.Requested.{Answers, create_frpc_instance-Answers}
use qudata_agent.Common.Decimal.{atoi, itoa}
use qudata_agent.Tests.Manager.{host_config, stop_env, create_env, boot_env, bind-honest}
use qudata_agent.Qemu.Manager.Parts.{guest_ports, build_pool}
use qudata_agent.Server.Routes.{IsReachable, Distinct, create_frpc_instance-IsReachable}
use qudata_agent.Server.Auth.{authorize, IsAllowed, authorize-IsAllowed}
use qudata_agent.Server.Exclusive.{
  Lives, IsExclusive, fails, joined_by, Lives-IsExclusive, asks, starts, here,
}
use qudata_agent.Server.Twice.{destroy_instance-delete_instance}

abbrev probes : Probes
probes i = record { draw = 7; is_port_free = λ q. true }

abbrev request : Request
request = record {
  tunnel_token = codes "tok";
  ssh_enabled = true;
  ports = codes "22" ∷ codes "8080" ∷ [];
  storage_gb = pos 0;
  cpus = [];
  memory = [];
}

abbrev pub job : Job
job = record {
  spec = spec_of request true (
      record {
        name = codes "port-8080";
        guest_port = pos 8080;
        remote_port = 15010;
        proto = codes "http";
      }
      ∷ []);
  host_ports = 15008 ∷ 15009 ∷ [];
  ssh_remote = 10007;
  allocated = 10007 ∷ 15008 ∷ 15009 ∷ 15010 ∷ [];
}

-- JSON that writes the ports of a state only.
abbrev json : Json
json = record {
  marshal = λ (s : InstanceState). s.allocated_ports;
  unmarshal = λ t. ok (record {
    vm_id = [];
    ports = [];
    ssh_enabled = true;
    gpu_addr = [];
    tunnel_token = [];
    allocated_ports = t;
  });
}

json-KeepsPorts : KeepsPorts json
json-KeepsPorts state = (_, refl, refl)

abbrev store : StoreEnv
store = record { unreadable = none; not_exist = no_instance_running; write = none; remove = none }

abbrev pub life : LifeEnv
life = record {
  tunnel = record { stat = none; mkdir = none; write = none; start = none; exits_at_once = none };
  store = store;
  json = json;
}

abbrev world : World
world = record {
  vm = new_manager;
  taken = (create_instance probes false (ok request) new_port_allocator).1;
  tunnel = new_process;
  files = λ n. none;
}

id_trimmed : trim_space (codes "0b-1c") ≡ codes "0b-1c"
unfolding trim_space
id_trimmed = refl

id_given :
    agent_id store (codes "0b-1c") (λ n. none)
    ≡ (ok (codes "0b-1c"), put_file (codes "agent_id") (some (codes "0b-1c")) (λ n. none))
unfolding agent_id read_file write_file str
id_given = refl

abbrev response : List (Text × Text)
response = (codes "22", codes "10007") ∷ (codes "8080", codes "15010") ∷ []

answered : (create_instance probes false (ok request) new_port_allocator).0 ≡ accepted response job
unfolding create_instance create_frpc_instance str new_port_allocator allocate_ssh_port
    allocate_from_range scan_range finish allocate_one text_eq atoi allocate_remote response_ports
    itoa
answered = refl

run_job-delete_all_example : IsClear new_port_allocator (
    delete_all host_config stop_env life
      (run_job host_config create_env (boot_env none) false life job world))
run_job-delete_all_example =
    run_job-delete_all probes (ok request) new_port_allocator response host_config create_env
      (boot_env none) stop_env false life job world (ap (λ r. (r, world.taken)) answered)
      new_manager-Inv refl bind-honest refl refl refl json-KeepsPorts

create_frpc_instance-Answers_example :
    Answers request new_port_allocator (create_frpc_instance probes request new_port_allocator)
create_frpc_instance-Answers_example =
    create_frpc_instance-Answers probes request new_port_allocator

agent_id-agent_id_example :
    agent_id store (codes "other") (put_file (codes "agent_id") (some (codes "0b-1c")) (λ n. none))
    ≡ (ok (codes "0b-1c"), put_file (codes "agent_id") (some (codes "0b-1c")) (λ n. none))
agent_id-agent_id_example =
    agent_id-agent_id store store (codes "0b-1c") (codes "other") (codes "0b-1c") (λ n. none)
      (put_file (codes "agent_id") (some (codes "0b-1c")) (λ n. none)) id_trimmed refl id_given refl

frpc_answered :
    create_frpc_instance probes request new_port_allocator ≡ (accepted response job, world.taken)
unfolding create_instance
frpc_answered = ap (λ r. (r, world.taken)) answered

guests-Distinct : Distinct (guest_ports job.spec)
unfolding guest_ports
guests-Distinct = ((refl, tt), (tt, tt))

create_frpc_instance-IsReachable_example : IsReachable request job
create_frpc_instance-IsReachable_example =
    create_frpc_instance-IsReachable probes request new_port_allocator world.taken response job
      frpc_answered guests-Distinct

authorize-IsAllowed_example :
    (authorize (codes "key") (codes "/instances") (codes "kez") ≡ none)
    ↔ IsAllowed (codes "key") (codes "/instances") (codes "kez")
authorize-IsAllowed_example = authorize-IsAllowed (codes "key") (codes "/instances") (codes "kez")

-- A guest port that comes twice keeps its last local port only.
repeated_guest :
    build_pool (pos 22 ∷ pos 8080 ∷ pos 22 ∷ []) (15001 ∷ 15002 ∷ 15003 ∷ []) []
    ≡ (pos 22, 15003) ∷ (pos 8080, 15002) ∷ []
unfolding build_pool pool_set
repeated_guest = refl

-- Two requests while an agent has port 15001, the second of them behind the release of the first's.
abbrev agent_only : PortSet
agent_only q = 15001 == q

abbrev asked : Reply × PortSet
asked = create_instance probes false (ok request) agent_only

abbrev asked_world : World
asked_world = record world { taken = asked.1 }

abbrev freed : PortSet
freed = (on_create_failed job asked_world).taken

asked_job : asked.0 ≡ accepted response job
unfolding create_instance create_frpc_instance str allocate_ssh_port allocate_from_range scan_range
    finish allocate_one text_eq atoi allocate_remote response_ports itoa
asked_job = refl

freed-Lives : Lives 15001 freed []
freed-Lives =
    fails job asked_world (job.allocated ∷ []) []
      (subst (λ r. Lives 15001 asked.1 (joined_by r [])) asked_job
        (asks probes false (ok request) agent_only [] (starts agent_only refl)))
      (here job.allocated [])

Lives-IsExclusive_example :
    IsExclusive 15001
      (create_instance probes true (ok request) freed).1
      (joined_by (create_instance probes true (ok request) freed).0 [])
Lives-IsExclusive_example =
    Lives-IsExclusive 15001 (create_instance probes true (ok request) freed).1
      (joined_by (create_instance probes true (ok request) freed).0 [])
      (asks probes true (ok request) freed [] freed-Lives)

-- A saved state with the ports of the job, which a second deletion finds as well.
abbrev kept_world : World
kept_world = record asked_world {
  files = put_file (codes "instance_state.json") (some job.allocated) (λ n. none);
}

destroy_instance-delete_instance_example :
    (destroy_instance host_config stop_env life
        (delete_instance life (delete_instance life kept_world).1).0
        asked_world).taken
      10007
    ≡ false
unfolding load_instance_state read_file str delete_instance text_eq
destroy_instance-delete_instance_example =
    destroy_instance-delete_instance host_config stop_env life kept_world asked_world 10007 refl
