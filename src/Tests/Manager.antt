-- ===== src/Tests/Manager.antt =====
-- A host with one GPU on which all calls succeed, and the theorems about the manager on it.
use qudata_agent.Common.{refl, true, false, Option, none, some, List, [], pos, ◌≡◌, ◌∷◌, ◌≢◌}
use qudata_agent.Qemu.Manager.{VmConfig, Vm, new_manager, pool_get}
use qudata_agent.Qemu.Image.{ImageEnv, succeeds}
use qudata_agent.Common.Text.{Text, codes, str}
use qudata_agent.Qemu.Manager.Parts.{CreateEnv, Boot}
use qudata_agent.Domain.{InstanceSpec, Error, ok, instance_already_running}
use qudata_agent.Qemu.Manager.Binding.{BindsHonestly, left_behind}
use qudata_agent.Qemu.Manager.Stop.{StopEnv, stop_locked}
use qudata_agent.Qemu.Manager.Begin.{create_begin}
use qudata_agent.Qemu.Manager.Resume.{BootEnv, create_resume}
use qudata_agent.Qemu.Vfio.{Vfio, new_vfio}
use qudata_agent.Qemu.Manager.Runs.{run, Call, step, begins, run-new_manager-Inv, stops, resumes}
use qudata_agent.Qemu.Manager.Invariant.{Inv, IsStopped, stop_locked-IsStopped, new_manager-Inv}
use qudata_agent.Qemu.Manager.Atomic.{Outcome, unfailed, create_begin-Outcome}
use qudata_agent.Qemu.Manager.Resumed.{Resumes, create_resume-Resumes, create_resume_stops_any}
use qudata_agent.Qemu.Manager.Ledger.{lefts}

abbrev pub host_config : VmConfig
host_config = record {
  image_dir = codes "/img";
  base_image = codes "/base.qcow2";
  ovmf_code = [];
  ovmf_vars_tmpl = codes "/vars.fd";
  default_gpus = codes "0000:01:00.0" ∷ [];
  run_dir = codes "/run";
  ssh_key_path = codes "/key";
  default_cpu = codes "4";
  default_mem = codes "8G";
  disk_size_gb = pos 50;
  test_mode = false;
}

abbrev images : ImageEnv
images = record {
  mkdir_all = none;
  stat_base = none;
  qemu_img = λ args. succeeds [];
  parse_info = λ out. ok (pos 2147483648);
  remove = none;
  is_not_exist = λ e. false;
}

abbrev pub bind : Text → Option Error × Vfio × List Text
bind a = (
  none,
  record {
    addr = a;
    vendor_id = [];
    device_id = [];
    group = [];
    orig_driver = [];
    bound = true;
    group_devices = [];
    bound_group_addrs = [];
  },
  [],
)

abbrev pub create_env : CreateEnv
create_env = record {
  bind = bind;
  uuid8 = codes "0badcafe";
  images = images;
  mkdir_run = none;
  read_vars = none;
  write_vars = none;
  log_ok = true;
  start = λ args. none;
  wait_for_qmp = none;
  iterate = λ pool. pool;
}

abbrev spec : InstanceSpec
spec = record {
  ports = [];
  ssh_enabled = true;
  tunnel_token = codes "tok";
  gpu_addr = [];
  disk_size_gb = pos 0;
  cpus = [];
  memory = [];
}

pub bind-honest : BindsHonestly bind
bind-honest a e = (refl, refl)

abbrev pub stop_env : StopEnv
stop_env = record { exits_in_time = false }

abbrev pub boot_env : Option Error → BootEnv
boot_env e = record { wait_for_boot = e; stop = stop_env; pub_key = none; password = codes "pw" }

abbrev boot : Boot
boot = record {
  client = record { host = codes "127.0.0.1"; port = 15001; key_path = codes "/key" };
  pool = (pos 22, 15001) ∷ [];
}

abbrev up : Vm
up = (create_begin host_config create_env spec (15001 ∷ []) new_manager).1

up_named : up.vm_id ≡ codes "vm-0badcafe"
unfolding create_begin new_manager str pool_get
up_named = refl

up_there : up.vm_id ≢ []
up_there = rw up_named (λ e. cc)

up-Inv : Inv up
unfolding run step
up-Inv =
    run-new_manager-Inv host_config (begins create_env spec (15001 ∷ []) ∷ []) (bind-honest, tt)

-- The VM boots, is stopped meanwhile, another is started, and the first wait ends.
abbrev script : List Call
script =
    begins create_env spec (15001 ∷ [])
    ∷ stops stop_env
    ∷ begins create_env spec (15002 ∷ [])
    ∷ resumes (boot_env none) boot
    ∷ []

run-new_manager-Inv_example : Inv (run host_config new_manager script)
run-new_manager-Inv_example =
    run-new_manager-Inv host_config script (bind-honest, (tt, (bind-honest, (tt, tt))))

-- A Bind that fails behind the first device of the group.
abbrev failing_env : CreateEnv
failing_env = record create_env {
  bind = λ a. (some instance_already_running, new_vfio a, codes "0000:01:00.0" ∷ []);
}

failing-honest : BindsHonestly failing_env.bind
failing-honest a e = cc

create_begin-Outcome_example :
    Outcome
      (left_behind failing_env.bind host_config.default_gpus (lefts new_manager.effects))
      (unfailed new_manager.mgr)
      (create_begin host_config failing_env spec (15001 ∷ []) new_manager)
unfolding new_manager
create_begin-Outcome_example =
    create_begin-Outcome host_config failing_env spec (15001 ∷ []) new_manager failing-honest
      new_manager-Inv refl

create_resume-Resumes_example :
    Resumes none boot up (create_resume host_config (boot_env none) boot up)
create_resume-Resumes_example = create_resume-Resumes host_config (boot_env none) boot up up-Inv

stop_locked-IsStopped_example : IsStopped (lefts up.effects) (stop_locked host_config stop_env up)
stop_locked-IsStopped_example = stop_locked-IsStopped host_config stop_env up up-Inv up_there

-- `boot` waits for SSH on a port that is not the one of the VM there.
abbrev other : Vm
other = run host_config new_manager (begins create_env spec (15002 ∷ []) ∷ [])

other_there : other.vm_id ≢ []
unfolding run create_begin new_manager str pool_get
other_there = λ e. cc

other_port : pool_get (pos 22) other.port_pool ≡ some 15002
unfolding run create_begin new_manager str pool_get
other_port = refl

create_resume_stops_any_example :
    IsStopped
      (lefts other.effects)
      (create_resume host_config (boot_env (some instance_already_running)) boot other).1
create_resume_stops_any_example =
    create_resume_stops_any host_config (boot_env (some instance_already_running)) boot other
      instance_already_running
      (run-new_manager-Inv host_config (begins create_env spec (15002 ∷ []) ∷ []) (bind-honest, tt))
      other_there refl
