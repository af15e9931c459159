-- ===== src/Server/Lifecycle.antt =====
-- internal/server/handler.go: the background work, which is startVM, startVMWithFRPC, saveState and
-- destroyInstance.
use qudata_agent.Common.{ℕ, Bool, true, false, Option, none, some, List, [], map}
use qudata_agent.Qemu.Manager.{Vm, VmConfig}
use qudata_agent.Frpc.Process.{ProcessEnv, Tunnel, update_instance_proxies, clear_proxies}
use qudata_agent.Server.Create.{Job}
use qudata_agent.Domain.{PortMapping, InstanceState, Result, InstancePorts, err, ok}
use qudata_agent.Qemu.Manager.Parts.{Boot, Begun, CreateEnv, failed_with, ready, booting}
use qudata_agent.Network.{PortSet, release}
use qudata_agent.Storage.{
  StoreEnv, load_instance_state, Json, save_instance_state, Files, clear_instance_state,
}
use qudata_agent.Frpc.Config.{PortSpec, Proxy, build_instance_proxies}
use qudata_agent.Qemu.Manager.Resume.{BootEnv, create_resume}
use qudata_agent.Qemu.Manager.Stop.{StopEnv, stop_locked}
use qudata_agent.Qemu.Manager.Queries.{mark_failed, invalidate}
use qudata_agent.Qemu.Manager.Begin.{create_begin}

-- What the handlers share.
pub record World : Type 0 where
  pub vm : Vm
  pub taken : PortSet
  pub tunnel : Tunnel
  pub files : Files

-- What the calls outside the program answer to one job.
pub record LifeEnv : Type 0 where
  pub tunnel : ProcessEnv
  pub store : StoreEnv
  pub json : Json

unfoldable pub on_create_failed : Job → World → World
on_create_failed job w = record w { taken = release job.allocated w.taken; vm = mark_failed w.vm }

-- The error of the save is only logged.
unfoldable pub save_state : LifeEnv → Job → InstancePorts → World → World
save_state env job ports w = record w {
  files =
      (save_instance_state env.store env.json
        (record {
          vm_id = w.vm.vm_id;
          ports = ports;
          ssh_enabled = job.spec.ssh_enabled;
          gpu_addr = job.spec.gpu_addr;
          tunnel_token = job.spec.tunnel_token;
          allocated_ports = job.allocated;
        })
        w.files).1;
}

abbrev pub port_specs : List PortMapping → List PortSpec
port_specs = map (λ (pm : PortMapping). record {
  guest_port = pm.guest_port;
  remote_port = pm.remote_port;
  proto = pm.proto;
})

abbrev pub job_proxies : Job → List Proxy
job_proxies job =
    build_instance_proxies job.spec.tunnel_token job.host_ports job.ssh_remote job.spec.ssh_enabled
      (port_specs job.spec.ports)

-- What follows a Create that succeeded: startVM only saves, startVMWithFRPC first updates the tunnel,
-- whose error is only logged.
unfoldable pub on_vm_created : Bool → LifeEnv → Job → InstancePorts → World → World
unfolding save_state
on_vm_created true env job ports w = save_state env job ports w
on_vm_created false env job ports w =
    save_state env job ports
      (record w { tunnel = (update_instance_proxies env.tunnel (job_proxies job) w.tunnel).1 })

-- A job has come to its end, or waits for SSH without the manager's mutex.
pub data Stage : Type 0 where
  ended : World → Stage
  waits : Boot → World → Stage

unfoldable pub on_begun : Bool → LifeEnv → Job → Begun → World → Stage
unfolding on_create_failed on_vm_created
on_begun test_mode env job (failed_with e) w = ended (on_create_failed job w)
on_begun test_mode env job (ready ports) w = ended (on_vm_created test_mode env job ports w)
on_begun test_mode env job (booting b) w = waits b w

unfoldable pub begin_vm : VmConfig → CreateEnv → Bool → LifeEnv → Job → World → Stage
unfolding on_begun
begin_vm cfg host test_mode env job w =
    let (begun, vm) = create_begin cfg host job.spec job.host_ports w.vm in
    on_begun test_mode env job begun (record w { vm = vm })

unfoldable pub on_resumed : Bool → LifeEnv → Job → Result InstancePorts → World → World
unfolding on_create_failed on_vm_created
on_resumed test_mode env job (err e) w = on_create_failed job w
on_resumed test_mode env job (ok ports) w = on_vm_created test_mode env job ports w

unfoldable pub resume_vm : VmConfig → BootEnv → Bool → LifeEnv → Job → Boot → World → World
unfolding on_resumed
resume_vm cfg host test_mode env job b w =
    let (r, vm) = create_resume cfg host b w.vm in
    on_resumed test_mode env job r (record w { vm = vm })

abbrev pub state_ports : Option InstanceState → List ℕ
state_ports none = []
state_ports (some state) = state.allocated_ports

-- What DeleteInstance makes of the result of the load: an error counts as no state.
abbrev pub known_state : Result (Option InstanceState) → Option InstanceState
known_state (err e) = none
known_state (ok state) = state

-- DeleteInstance up to its response.
unfoldable pub delete_instance : LifeEnv → World → Option InstanceState × World
delete_instance env w = (
  known_state (load_instance_state env.store env.json w.files),
  record w { vm = invalidate w.vm },
)

unfoldable pub destroy_instance :
    VmConfig → StopEnv → LifeEnv → Option InstanceState → World → World
destroy_instance cfg host env state w = record {
  vm = stop_locked cfg host w.vm;
  tunnel = (clear_proxies env.tunnel w.tunnel).1;
  taken = release (state_ports state) w.taken;
  files = (clear_instance_state env.store w.files).1;
}

unfoldable pub on_stage : VmConfig → BootEnv → Bool → LifeEnv → Job → Stage → World
unfolding resume_vm
on_stage cfg boot test_mode env job (ended w) = w
on_stage cfg boot test_mode env job (waits b w) = resume_vm cfg boot test_mode env job b w

-- The goroutine of one job as a whole, where no other call comes between its two halves.
unfoldable pub run_job : VmConfig → CreateEnv → BootEnv → Bool → LifeEnv → Job → World → World
unfolding on_stage begin_vm
run_job cfg host boot test_mode env job w =
    on_stage cfg boot test_mode env job (begin_vm cfg host test_mode env job w)

-- DeleteInstance with the goroutine that it starts.
unfoldable pub delete_all : VmConfig → StopEnv → LifeEnv → World → World
unfolding destroy_instance delete_instance
delete_all cfg host env w =
    let (state, w') = delete_instance env w in destroy_instance cfg host env state w'
