-- ===== src/Qemu/Manager/Runs.antt =====
-- internal/qemu/manager.go: any interleaving of the manager's steps: each takes the mutex for itself, and Create is two.
use qudata_agent.Common.{
  ℕ, refl, sym, inl, inr, Bool, true, false, Option, none, some, List, [], Bool-cases, Option-cases,
  is_nil, All, ◌≡◌, ◌∷◌, ◌∙◌, ap,
}
use qudata_agent.Qemu.Manager.Parts.{CreateEnv, Boot, Begun, failed_with, ready, booting}
use qudata_agent.Qemu.Manager.{
  VmConfig, Vm, Manager, Effect, new_manager, SshClient, emit, qmp_command,
}
use qudata_agent.Qemu.Manager.Binding.{BindsHonestly}
use qudata_agent.Qemu.Manager.Ledger.{Owes-own, alive, Owes-exited, is_neutral, Owes-neutral}
use qudata_agent.Qemu.Manager.Queries.{
  on_exit, manage, invalidate, mark_failed, QmpEnv, exit_with, is_connected, qmp_of_command,
  set_qmp, set_connected,
}
use qudata_agent.Domain.{Error, InstanceSpec, Result, InstancePorts, ok, err}
use qudata_agent.Qemu.Manager.Resume.{BootEnv, create_resume}
use qudata_agent.Qemu.Manager.Begin.{create_begin}
use qudata_agent.Qemu.Manager.Invariant.{
  Inv, vm_cases, IsStopped-Inv, stop_locked-Inv, new_manager-Inv, IsIdle,
}
use qudata_agent.Common.Text.{Text}
use qudata_agent.Qemu.Manager.Stop.{StopEnv, stop_locked}
use qudata_agent.Qemu.Manager.Atomic.{Outcome, unfailed, create_begin-Outcome, create_begin_refused}
use qudata_agent.Qemu.Manager.Resumed.{Resumes, create_resume-Resumes}
use mathlib.Core.Option.{some-ne-none}

pub data Call : Type 0 where
  begins : CreateEnv → InstanceSpec → List ℕ → Call
  resumes : BootEnv → Boot → Call
  stops : StopEnv → Call
  exits : Call
  fails : Call
  invalidates : Call
  manages : QmpEnv → Text → Call
  reconnects : Bool → Call

unfoldable pub step : VmConfig → Vm → Call → Vm
step cfg s (begins env spec host_ports) = (create_begin cfg env spec host_ports s).1
step cfg s (resumes env b) = (create_resume cfg env b s).1
step cfg s (stops env) = stop_locked cfg env s
step cfg s exits = on_exit s
step cfg s fails = mark_failed s
step cfg s invalidates = invalidate s
step cfg s (manages env cmd) = (manage env cmd s).1
step cfg s (reconnects b) = set_qmp b s

unfoldable pub run : VmConfig → Vm → List Call → Vm
unfolding step
run cfg s [] = s
run cfg s (c ∷ cs) = run cfg (step cfg s c) cs

abbrev pub IsHonest : Call → Type 0
IsHonest (begins env spec host_ports) = BindsHonestly env.bind
IsHonest (resumes env b) = Unit
IsHonest (stops env) = Unit
IsHonest exits = Unit
IsHonest fails = Unit
IsHonest invalidates = Unit
IsHonest (manages env cmd) = Unit
IsHonest (reconnects b) = Unit

-- The fields of an idle manager, with another SSH client and another failure mark.
IsIdle-set :
    (m : Manager) (c : Option SshClient) (f : Bool)
    → c ≡ none
    → IsIdle m
    → IsIdle (record m { ssh_client = c; failed = f })
IsIdle-set m c f e i = record {
  cmd = i.cmd;
  vfios = i.vfios;
  qmp = i.qmp;
  ssh_client = e;
  disk_path = i.disk_path;
  qmp_socket = i.qmp_socket;
  gpu_addrs = i.gpu_addrs;
  ovmf_vars_path = i.ovmf_vars_path;
  done = i.done;
  port_pool = i.port_pool;
}

Outcome-Inv :
    (lost : List Text) (s : Vm) (r : Begun × Vm)
    → Inv s
    → s.vm_id ≡ []
    → Outcome lost (unfailed s.mgr) r
    → Inv r.1
unfolding alive
Outcome-Inv lost s (failed_with e, s') v none_there (same, owed) =
    let idle = v.idle none_there in
    record {
      owes = rw (same, idle.vfios, idle.disk_path, idle.done) (Owes-own owed);
      idle = λ _. rw same (IsIdle-set s.mgr s.ssh_client false idle.ssh_client idle);
      running = λ h. absurd (h (rw same none_there));
    }
Outcome-Inv lost s (ready ports, s') v e o = o.0.inv
Outcome-Inv lost s (booting b, s') v e o = o.0.inv

create_begin-Inv :
    (cfg : VmConfig) (env : CreateEnv) (spec : InstanceSpec) (host_ports : List ℕ) (s : Vm)
    → BindsHonestly env.bind
    → Inv s
    → Inv (create_begin cfg env spec host_ports s).1
create_begin-Inv cfg env spec host_ports s honest v = elim (vm_cases s.vm_id) [
  | inl e ↦ Outcome-Inv _ s _ v e (create_begin-Outcome cfg env spec host_ports s honest v e)
  | inr h ↦
      rw (create_begin_refused cfg env spec host_ports s h)
        (record { owes = v.owes; idle = λ e. absurd (h e); running = v.running })
]

Resumes-Inv :
    (o : Option Error) (b : Boot) (s : Vm) (r : Result InstancePorts × Vm)
    → Inv s
    → Resumes o b s r
    → Inv r.1
Resumes-Inv o b s (ok ports, s') v h = h.4
Resumes-Inv o b s (err e, s') v (inl (_, same)) = rw same v
Resumes-Inv o b s (err e, s') v (inr (_, _, stopped)) = IsStopped-Inv _ s' stopped

exit_with-Inv : (o : Option Bool) (s : Vm) → s.done ≡ o → Inv s → Inv (exit_with o s)
unfolding exit_with alive
exit_with-Inv none s e v = v
exit_with-Inv (some true) s e v = v
exit_with-Inv (some false) s e v = record {
  owes = Owes-own (Owes-exited (rw e at v.owes));
  idle = λ n. absurd (some-ne-none false (sym e ∙ (v.idle n).done));
  running = v.running;
}

pub on_exit-Inv : (s : Vm) → Inv s → Inv (on_exit s)
unfolding on_exit
on_exit-Inv s v = exit_with-Inv s.done s refl v

emit-Inv : (e : Effect) (s : Vm) → is_neutral e ≡ true → Inv s → Inv (emit e s)
emit-Inv e s n v = record {
  owes = Owes-own (Owes-neutral e n v.owes);
  idle = v.idle;
  running = v.running;
}

pub manage-Inv : (env : QmpEnv) (cmd : Text) (s : Vm) → Inv s → Inv (manage env cmd s).1
unfolding manage
manage-Inv env cmd s v = elim (Bool-cases (is_nil s.vm_id)) [
  | inl e ↦ rw e v
  | inr e ↦ rw e (elim (Bool-cases (is_connected s.qmp)) [
    | inr off ↦ rw off v
    | inl on ↦ rw on (elim (Option-cases (qmp_of_command cmd)) [
      | inl unknown ↦ rw unknown v
      | inr (c, known) ↦ rw known (emit-Inv (qmp_command c) s refl v)
    ])
  ])
]

pub invalidate-Inv : (s : Vm) → Inv s → Inv (invalidate s)
unfolding invalidate
invalidate-Inv s v = record {
  owes = v.owes;
  idle = λ e. IsIdle-set s.mgr none s.failed refl (v.idle e);
  running = v.running;
}

pub mark_failed-Inv : (s : Vm) → Inv s → Inv (mark_failed s)
unfolding mark_failed
mark_failed-Inv s v = record {
  owes = v.owes;
  idle = λ e. IsIdle-set s.mgr s.ssh_client true (v.idle e).ssh_client (v.idle e);
  running = v.running;
}

pub set_qmp-Inv : (b : Bool) (s : Vm) → Inv s → Inv (set_qmp b s)
unfolding set_qmp
set_qmp-Inv b s v = record {
  owes = v.owes;
  idle = λ e.
      let i = v.idle e in
      record {
        cmd = i.cmd;
        vfios = i.vfios;
        qmp = ap (set_connected b) i.qmp;
        ssh_client = i.ssh_client;
        disk_path = i.disk_path;
        qmp_socket = i.qmp_socket;
        gpu_addrs = i.gpu_addrs;
        ovmf_vars_path = i.ovmf_vars_path;
        done = i.done;
        port_pool = i.port_pool;
      };
  running = v.running;
}

pub step-Inv : (cfg : VmConfig) (s : Vm) (c : Call) → IsHonest c → Inv s → Inv (step cfg s c)
unfolding step
step-Inv cfg s (begins env spec host_ports) h v = create_begin-Inv cfg env spec host_ports s h v
step-Inv cfg s (resumes env b) h v =
    Resumes-Inv env.wait_for_boot b s (create_resume cfg env b s) v
      (create_resume-Resumes cfg env b s v)
step-Inv cfg s (stops env) h v = stop_locked-Inv cfg env s v
step-Inv cfg s exits h v = on_exit-Inv s v
step-Inv cfg s fails h v = mark_failed-Inv s v
step-Inv cfg s invalidates h v = invalidate-Inv s v
step-Inv cfg s (manages env cmd) h v = manage-Inv env cmd s v
step-Inv cfg s (reconnects b) h v = set_qmp-Inv b s v

run-Inv : (cfg : VmConfig) (s : Vm) (cs : List Call) → All IsHonest cs → Inv s → Inv (run cfg s cs)
unfolding run
run-Inv cfg s [] h v = v
run-Inv cfg s (c ∷ cs) h v = run-Inv cfg (step cfg s c) cs h.1 (step-Inv cfg s c h.0 v)

-- Whatever calls a new manager gets, in whatever order, also where one Create runs between the two
-- halves of another: of each disk and of processes it has taken exactly as many as it has given back and
-- now holds in its fields, and of each GPU as many as these and those that a Bind which failed has left
-- bound; without a VM every field but `failed` is as at the start. Bind must bind what it says where it
-- succeeds. The files of firmware variables and logs are not counted.
pub run-new_manager-Inv :
    (cfg : VmConfig) (cs : List Call) → All IsHonest cs → Inv (run cfg new_manager cs)
run-new_manager-Inv cfg cs h = run-Inv cfg new_manager cs h new_manager-Inv
