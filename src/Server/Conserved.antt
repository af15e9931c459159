-- ===== src/Server/Conserved.antt =====
-- internal/server/handler.go: the ports of an instance from its request to its deletion.
use mathlib.Core.Path.{subst, ap₂}
use qudata_agent.Qemu.Manager.Invariant.{
  Inv, IsIdle, vm_cases, stop_locked_none, stop_locked-IsStopped,
}
use qudata_agent.Common.{ap, inl, inr, Bool, true, false, none, some, [], ◌≡◌, ◌⊎◌, ◌∙◌, List}
use qudata_agent.Common.Text.{Text, str}
use qudata_agent.Network.{PortSet, release, Probes}
use qudata_agent.Server.Lifecycle.{
  on_create_failed, save_state, on_vm_created, on_resumed, resume_vm, on_stage, run_job, LifeEnv,
  on_begun, begin_vm, World, job_proxies, state_ports, delete_all, known_state, delete_instance,
  destroy_instance,
}
use qudata_agent.Server.Create.{Job, Request, create_instance, accepted}
use qudata_agent.Qemu.Manager.Runs.{
  step, mark_failed-Inv, step-Inv, resumes, begins, invalidate-Inv,
}
use qudata_agent.Storage.{save_instance_state, load_instance_state}
use qudata_agent.Domain.{InstancePorts, Result, InstanceState, err, ok}
use qudata_agent.Qemu.Manager.{VmConfig, Vm}
use qudata_agent.Frpc.Process.{update_instance_proxies}
use qudata_agent.Qemu.Manager.Resume.{BootEnv, create_resume}
use qudata_agent.Qemu.Manager.Parts.{CreateEnv, Boot, Begun, failed_with, ready, booting}
use qudata_agent.Server.Ports.{Owns}
use qudata_agent.Qemu.Manager.Binding.{BindsHonestly}
use qudata_agent.Network.Batch.{release-insert_all}
use qudata_agent.Storage.RoundTrip.{
  write_file-same, load_instance_state-none, load_instance_state-some, clear_instance_state-gone,
  KeepsPorts,
}
use qudata_agent.Qemu.Manager.Begin.{create_begin}
use qudata_agent.Qemu.Manager.Ledger.{lefts, Owes-own, Owes, alive}
use qudata_agent.Qemu.Manager.Stop.{StopEnv, stop_locked}
use qudata_agent.Qemu.Manager.Queries.{invalidate}
use qudata_agent.Server.Answered.{Keeps, create_instance-Keeps}

abbrev state_file : Text
state_file = str "instance_state.json"

-- Before the job has ended: its ports are taken, and no state is saved.
record Starts (a : PortSet) (job : Job) (w : World) : Type 0 where
  vm : Inv w.vm
  owned : Owns a job.allocated w.taken
  unsaved : w.files state_file ≡ none

-- The job has failed and its ports are given back, or the state that is saved names them.
Settled : PortSet → LifeEnv → World → Type 0
Settled a env w =
    ((w.taken ≡ a) × (w.files state_file ≡ none))
    ⊎ ((state : InstanceState) × Owns a state.allocated_ports w.taken
        × (w.files state_file ≡ some (env.json.marshal state)))

record Ends (a : PortSet) (env : LifeEnv) (w : World) : Type 0 where
  vm : Inv w.vm
  settled : Settled a env w

on_create_failed-Ends :
    (a : PortSet) (env : LifeEnv) (job : Job) (w : World)
    → Starts a job w
    → Ends a env (on_create_failed job w)
unfolding on_create_failed Settled step
on_create_failed-Ends a env job w v = record {
  vm = mark_failed-Inv w.vm v.vm;
  settled = inl (
    ap (release job.allocated) v.owned.same ∙ release-insert_all job.allocated a v.owned.fresh,
    v.unsaved,
  );
}

save_state-Ends :
    (a : PortSet) (env : LifeEnv) (job : Job) (ports : InstancePorts) (w : World)
    → env.store.write ≡ none
    → Inv w.vm
    → Owns a job.allocated w.taken
    → Ends a env (save_state env job ports w)
unfolding save_state save_instance_state Settled
save_state-Ends a env job ports w writes v o = record {
  vm = v;
  settled = inr (_, o, write_file-same env.store state_file _ w.files writes);
}

on_vm_created-Ends :
    (a : PortSet) (test_mode : Bool) (env : LifeEnv) (job : Job) (ports : InstancePorts) (w : World)
    → env.store.write ≡ none
    → Starts a job w
    → Ends a env (on_vm_created test_mode env job ports w)
unfolding on_vm_created
on_vm_created-Ends a true env job ports w writes v =
    save_state-Ends a env job ports w writes v.vm v.owned
on_vm_created-Ends a false env job ports w writes v =
    save_state-Ends a env job ports
      (record w { tunnel = (update_instance_proxies env.tunnel (job_proxies job) w.tunnel).1 })
      writes v.vm v.owned

on_resumed-Ends :
    (a : PortSet) (test_mode : Bool) (env : LifeEnv) (job : Job) (r : Result InstancePorts)
    (w : World)
    → env.store.write ≡ none
    → Starts a job w
    → Ends a env (on_resumed test_mode env job r w)
unfolding on_resumed
on_resumed-Ends a test_mode env job (err e) w writes v = on_create_failed-Ends a env job w v
on_resumed-Ends a test_mode env job (ok ports) w writes v =
    on_vm_created-Ends a test_mode env job ports w writes v

resume_vm-Ends :
    (a : PortSet) (cfg : VmConfig) (host : BootEnv) (test_mode : Bool) (env : LifeEnv) (job : Job)
    (b : Boot) (w : World)
    → env.store.write ≡ none
    → Starts a job w
    → Ends a env (resume_vm cfg host test_mode env job b w)
unfolding resume_vm step
resume_vm-Ends a cfg host test_mode env job b w writes v =
    on_resumed-Ends a test_mode env job (create_resume cfg host b w.vm).0
      (record w { vm = (create_resume cfg host b w.vm).1 }) writes
      (record {
        vm = step-Inv cfg w.vm (resumes host b) tt v.vm;
        owned = v.owned;
        unsaved = v.unsaved;
      })

on_stage-Ends :
    (a : PortSet) (cfg : VmConfig) (boot : BootEnv) (test_mode : Bool) (env : LifeEnv) (job : Job)
    (begun : Begun) (w : World)
    → env.store.write ≡ none
    → Starts a job w
    → Ends a env (on_stage cfg boot test_mode env job (on_begun test_mode env job begun w))
unfolding on_stage on_begun
on_stage-Ends a cfg boot test_mode env job (failed_with e) w writes v =
    on_create_failed-Ends a env job w v
on_stage-Ends a cfg boot test_mode env job (ready ports) w writes v =
    on_vm_created-Ends a test_mode env job ports w writes v
on_stage-Ends a cfg boot test_mode env job (booting b) w writes v =
    resume_vm-Ends a cfg boot test_mode env job b w writes v

run_job-Ends :
    (a : PortSet) (cfg : VmConfig) (host : CreateEnv) (boot : BootEnv) (test_mode : Bool)
    (env : LifeEnv) (job : Job) (w : World)
    → BindsHonestly host.bind
    → env.store.write ≡ none
    → Starts a job w
    → Ends a env (run_job cfg host boot test_mode env job w)
unfolding run_job begin_vm step
run_job-Ends a cfg host boot test_mode env job w honest writes v =
    on_stage-Ends a cfg boot test_mode env job
      (create_begin cfg host job.spec job.host_ports w.vm).0
      (record w { vm = (create_begin cfg host job.spec job.host_ports w.vm).1 }) writes
      (record {
        vm = step-Inv cfg w.vm (begins host job.spec job.host_ports) honest v.vm;
        owned = v.owned;
        unsaved = v.unsaved;
      })

-- What a deletion leaves: the ports are those that were taken before, no VM runs and the manager holds
-- no GPU, disk or process but what a Bind that failed has left, and no state is saved.
pub record IsClear (a : PortSet) (w : World) : Type 0 where
  pub ports : w.taken ≡ a
  pub no_vm : w.vm.vm_id ≡ []
  pub nothing_owed : Owes (lefts w.vm.effects) w.vm.effects [] none 0
  pub idle : IsIdle w.vm.mgr
  pub unsaved : w.files (str "instance_state.json") ≡ none

stop_locked-clears :
    (cfg : VmConfig) (host : StopEnv) (s : Vm)
    → Inv s
    → let s' = stop_locked cfg host s in
      (s'.vm_id ≡ []) × Owes (lefts s'.effects) s'.effects [] none 0 × IsIdle s'.mgr
unfolding alive
stop_locked-clears cfg host s v = elim (vm_cases s.vm_id) [
  | inl e ↦
      rw (stop_locked_none cfg host s e)
        (let i = v.idle e in (e, rw (i.vfios, i.disk_path, i.done) at (v.owes), i))
  | inr n ↦
      let h = stop_locked-IsStopped cfg host s v n in (h.no_vm, Owes-own h.nothing_owed, h.cleared)
]

-- The ports that a deletion releases are the ones of the job.
released :
    (a : PortSet) (env : LifeEnv) (w : World)
    → env.store.unreadable ≡ none
    → KeepsPorts env.json
    → Settled a env w
    → release (state_ports (known_state (load_instance_state env.store env.json w.files))) w.taken
      ≡ a
unfolding Settled release
released a env w readable back (inl (e, f)) =
    rw (load_instance_state-none env.store env.json w.files readable f) e
released a env w readable keeps (inr (state, o, f)) =
    let (back, same, ports) = keeps state in
    rw
      (load_instance_state-some env.store env.json (env.json.marshal state) back w.files readable
        same f)
      (ap₂ release ports o.same ∙ release-insert_all state.allocated_ports a o.fresh)

delete_all-IsClear :
    (a : PortSet) (cfg : VmConfig) (host : StopEnv) (env : LifeEnv) (w : World)
    → env.store.unreadable ≡ none
    → env.store.remove ≡ none
    → KeepsPorts env.json
    → Ends a env w
    → IsClear a (delete_all cfg host env w)
unfolding delete_all delete_instance destroy_instance
delete_all-IsClear a cfg host env w readable removes back v =
    let (none_left, owed, idle) =
      stop_locked-clears cfg host (invalidate w.vm) (invalidate-Inv w.vm v.vm) in
    record {
      ports = released a env w readable back v.settled;
      no_vm = none_left;
      nothing_owed = owed;
      idle = idle;
      unsaved = clear_instance_state-gone env.store w.files removes;
    }

-- The whole life of an instance, in either mode: a job that CreateInstance has started from the set
-- `a` of taken ports, with no saved state, and the deletion behind it leave that set as it was
-- before the request, no VM, no saved state, and no GPU, disk or process but the devices that a Bind
-- which failed has left bound, wherever the creation of the VM or its boot may have failed, and
-- whatever became of the tunnel. Bind must bind what it says, the state file must be readable,
-- writable and removable, and JSON must read back the ports that it wrote.
pub run_job-delete_all :
    (ps : Probes) (request : Result Request) (a : PortSet) (response : List (Text × Text))
    (cfg : VmConfig) (host : CreateEnv) (boot : BootEnv) (stop : StopEnv) (test_mode : Bool)
    (env : LifeEnv) (job : Job) (w : World)
    → create_instance ps test_mode request a ≡ (accepted response job, w.taken)
    → Inv w.vm
    → w.files (str "instance_state.json") ≡ none
    → BindsHonestly host.bind
    → env.store.write ≡ none
    → env.store.unreadable ≡ none
    → env.store.remove ≡ none
    → KeepsPorts env.json
    → IsClear a (delete_all cfg stop env (run_job cfg host boot test_mode env job w))
run_job-delete_all ps request a response cfg host boot stop test_mode env job w e v unsaved honest
      writes readable removes keeps =
    let owned : Owns a job.allocated w.taken =
      subst (Keeps a) e (create_instance-Keeps ps test_mode request a) in
    delete_all-IsClear a cfg stop env (run_job cfg host boot test_mode env job w) readable removes
      keeps
      (run_job-Ends a cfg host boot test_mode env job w honest writes
        (record { vm = v; owned = owned; unsaved = unsaved }))
