-- ===== src/Server/Serving.antt =====
-- internal/server/handler.go: any order of the handlers' steps, of the exits of frpc and QEMU and of the
-- restarts of frpc. A job is two steps, and so is a deletion.
use qudata_agent.Common.{ℕ, Bool, true, false, Option, ◌<◌}
use qudata_agent.Server.Lifecycle.{
  Stage, World, on_vm_created, on_create_failed, on_begun, on_resumed, begin_vm, save_state,
  LifeEnv, resume_vm, ended, delete_instance, waits, destroy_instance, job_proxies,
}
use qudata_agent.Server.Manage.{manage_instance}
use qudata_agent.Network.{Probes}
use qudata_agent.Frpc.Process.Runs.{dies, restarts, Reaches, stepped, updates, clears}
use qudata_agent.Server.Create.{Job, Request, create_instance}
use qudata_agent.Qemu.Manager.Queries.{QmpEnv, on_exit, set_qmp}
use qudata_agent.Domain.{Result, InstancePorts, err, ok, InstanceState}
use qudata_agent.Qemu.Manager.Runs.{
  mark_failed-Inv, manage-Inv, step-Inv, begins, resumes, invalidate-Inv, on_exit-Inv, step,
  set_qmp-Inv,
}
use qudata_agent.Qemu.Manager.Parts.{Begun, failed_with, ready, booting, CreateEnv, Boot}
use qudata_agent.Common.Text.{Text}
use qudata_agent.Qemu.Manager.{Vm, VmConfig}
use qudata_agent.Frpc.Process.{ProcessEnv, clear_proxies, on_process_exit, monitor}
use qudata_agent.Qemu.Manager.Begin.{create_begin}
use qudata_agent.Qemu.Manager.Binding.{BindsHonestly}
use qudata_agent.Qemu.Manager.Resume.{BootEnv, create_resume}
use qudata_agent.Qemu.Manager.Stop.{StopEnv}
use qudata_agent.Qemu.Manager.Invariant.{Inv, stop_locked-Inv}

abbrev pub world_of : Stage → World
world_of (ended w) = w
world_of (waits b w) = w

pub data Serve : World → World → Type 0 where
  creates :
      (ps : Probes) (test_mode : Bool) (r : Result Request) (w : World)
      → Serve w (record w { taken = (create_instance ps test_mode r w.taken).1 })
  begins_job :
      (cfg : VmConfig) (host : CreateEnv) (test_mode : Bool) (env : LifeEnv) (job : Job) (w : World)
      → BindsHonestly host.bind
      → Serve w (world_of (begin_vm cfg host test_mode env job w))
  resumes_job :
      (cfg : VmConfig) (host : BootEnv) (test_mode : Bool) (env : LifeEnv) (job : Job) (b : Boot)
      (w : World)
      → Serve w (resume_vm cfg host test_mode env job b w)
  deletes : (env : LifeEnv) (w : World) → Serve w (delete_instance env w).1
  destroys :
      (cfg : VmConfig) (host : StopEnv) (env : LifeEnv) (state : Option InstanceState) (w : World)
      → Serve w (destroy_instance cfg host env state w)
  commands :
      (env : QmpEnv) (r : Result Text) (w : World)
      → Serve w (record w { vm = (manage_instance env r w.vm).1 })
  frpc_dies : (c : ℕ) (w : World) → Serve w (record w { tunnel = on_process_exit c w.tunnel })
  frpc_restarts :
      (env : ProcessEnv) (c : ℕ) (w : World)
      → c < w.tunnel.next
      → Serve w (record w { tunnel = monitor env c w.tunnel })
  qemu_exits : (w : World) → Serve w (record w { vm = on_exit w.vm })
  qmp_changes : (b : Bool) (w : World) → Serve w (record w { vm = set_qmp b w.vm })

pub data Serves : World → World → Type 0 where
  rests : (w : World) → Serves w w
  goes_on : (w v u : World) → Serve w v → Serves v u → Serves w u

-- The tunnel is one that Start, updates, stops, exits and restarts lead to, and the manager meets its
-- invariant.
pub record IsSound (w : World) : Type 0 where
  pub tunnel : Reaches w.tunnel
  pub vm : Inv w.vm

-- A job that ends: its tunnel is updated where the VM came up.
on_vm_created-IsSound :
    (test_mode : Bool) (env : LifeEnv) (job : Job) (ports : InstancePorts) (w : World)
    → IsSound w
    → IsSound (on_vm_created test_mode env job ports w)
unfolding on_vm_created save_state
on_vm_created-IsSound true env job ports w v = record { tunnel = v.tunnel; vm = v.vm }
on_vm_created-IsSound false env job ports w v = record {
  tunnel = stepped w.tunnel _ v.tunnel (updates env.tunnel (job_proxies job) w.tunnel);
  vm = v.vm;
}

on_create_failed-IsSound : (job : Job) (w : World) → IsSound w → IsSound (on_create_failed job w)
unfolding on_create_failed
on_create_failed-IsSound job w v = record { tunnel = v.tunnel; vm = mark_failed-Inv w.vm v.vm }

on_begun-IsSound :
    (test_mode : Bool) (env : LifeEnv) (job : Job) (begun : Begun) (w : World)
    → IsSound w
    → IsSound (world_of (on_begun test_mode env job begun w))
unfolding on_begun
on_begun-IsSound test_mode env job (failed_with e) w v = on_create_failed-IsSound job w v
on_begun-IsSound test_mode env job (ready ports) w v =
    on_vm_created-IsSound test_mode env job ports w v
on_begun-IsSound test_mode env job (booting b) w v = v

on_resumed-IsSound :
    (test_mode : Bool) (env : LifeEnv) (job : Job) (r : Result InstancePorts) (w : World)
    → IsSound w
    → IsSound (on_resumed test_mode env job r w)
unfolding on_resumed
on_resumed-IsSound test_mode env job (err e) w v = on_create_failed-IsSound job w v
on_resumed-IsSound test_mode env job (ok ports) w v =
    on_vm_created-IsSound test_mode env job ports w v

manage_instance-Inv :
    (env : QmpEnv) (r : Result Text) (s : Vm) → Inv s → Inv (manage_instance env r s).1
unfolding manage_instance
manage_instance-Inv env (err e) s v = v
manage_instance-Inv env (ok cmd) s v = manage-Inv env cmd s v

Serve-IsSound : (w v : World) → Serve w v → IsSound w → IsSound v
unfolding begin_vm resume_vm delete_instance destroy_instance clear_proxies create_begin step
Serve-IsSound w _ (creates ps test_mode r _) v = record { tunnel = v.tunnel; vm = v.vm }
Serve-IsSound w _ (begins_job cfg host test_mode env job _ honest) v =
    let s = create_begin cfg host job.spec job.host_ports w.vm in
    on_begun-IsSound test_mode env job s.0 (record w { vm = s.1 })
      (record {
        tunnel = v.tunnel;
        vm = step-Inv cfg w.vm (begins host job.spec job.host_ports) honest v.vm;
      })
Serve-IsSound w _ (resumes_job cfg host test_mode env job b _) v =
    let s = create_resume cfg host b w.vm in
    on_resumed-IsSound test_mode env job s.0 (record w { vm = s.1 })
      (record { tunnel = v.tunnel; vm = step-Inv cfg w.vm (resumes host b) tt v.vm })
Serve-IsSound w _ (deletes env _) v = record { tunnel = v.tunnel; vm = invalidate-Inv w.vm v.vm }
Serve-IsSound w _ (destroys cfg host env state _) v = record {
  tunnel = stepped w.tunnel _ v.tunnel (clears env.tunnel w.tunnel);
  vm = stop_locked-Inv cfg host w.vm v.vm;
}
Serve-IsSound w _ (commands env r _) v = record {
  tunnel = v.tunnel;
  vm = manage_instance-Inv env r w.vm v.vm;
}
Serve-IsSound w _ (frpc_dies c _) v = record {
  tunnel = stepped w.tunnel _ v.tunnel (dies c w.tunnel);
  vm = v.vm;
}
Serve-IsSound w _ (frpc_restarts env c _ h) v = record {
  tunnel = stepped w.tunnel _ v.tunnel (restarts env c w.tunnel h);
  vm = v.vm;
}
Serve-IsSound w _ (qemu_exits _) v = record { tunnel = v.tunnel; vm = on_exit-Inv w.vm v.vm }
Serve-IsSound w _ (qmp_changes b _) v = record { tunnel = v.tunnel; vm = set_qmp-Inv b w.vm v.vm }

-- Whatever the handlers, their jobs and the processes do, in whatever order, from a state where this
-- holds: the process of frpc stays in a state that Start and then updates, clears, stops, exits and
-- restarts lead to, and the manager keeps its invariant. Bind must bind what it says.
pub Serves-IsSound : (w u : World) → Serves w u → IsSound w → IsSound u
Serves-IsSound w _ (rests _) v = v
Serves-IsSound w u (goes_on _ v _ first rest) s =
    Serves-IsSound v u rest (Serve-IsSound w v first s)
