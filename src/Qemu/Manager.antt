-- ===== src/Qemu/Manager.antt =====
-- internal/qemu/manager.go: the state of the manager and the steps that change it. A call that
-- releases the mutex while it waits, Create, is two steps.
pub mod Args
pub mod Stop
pub mod Parts
pub mod Begin
pub mod Resume
pub mod Queries
pub mod SshKeys
pub mod KeyWords
pub mod Client
pub mod Ledger
pub mod Invariant
pub mod Binding
pub mod Atomic
pub mod Resumed
pub mod Runs
use qudata_agent.Common.{
  ℕ, Bool, false, Option, none, some, List, [], ℤ, pos, int_eq, ◌∷◌, if◌then◌else◌,
}
use qudata_agent.Common.Text.{Text, str}
use qudata_agent.Qemu.Vfio.{Vfio}

pub record VmConfig : Type 0 where
  pub image_dir : Text
  pub base_image : Text
  pub ovmf_code : Text
  pub ovmf_vars_tmpl : Text
  pub default_gpus : List Text
  pub run_dir : Text
  pub ssh_key_path : Text
  pub default_cpu : Text
  pub default_mem : Text
  pub disk_size_gb : ℤ
  pub test_mode : Bool

unfoldable pub or_else : Text → Text → Text
or_else [] default = default
or_else (c ∷ s) default = c ∷ s

unfoldable pub or_else_int : ℤ → ℤ → ℤ
or_else_int n default = if int_eq n (pos 0) then default else n

-- The defaults that NewManager fills in.
unfoldable pub new_manager_config : VmConfig → VmConfig
unfolding or_else or_else_int
new_manager_config cfg = record cfg {
  default_cpu = or_else cfg.default_cpu (str "4");
  default_mem = or_else cfg.default_mem (str "8G");
  disk_size_gb = or_else_int cfg.disk_size_gb (pos 50);
}

pub record Qmp : Type 0 where
  pub socket_path : Text
  pub connected : Bool

pub record SshClient : Type 0 where
  pub host : Text
  pub port : ℕ
  pub key_path : Text

-- A Go map from guest port to host port, as the list of its entries; a key stands once.
abbrev pub PortPool : Type 0
PortPool = List (ℤ × ℕ)

unfoldable pub pool_get : ℤ → PortPool → Option ℕ
pool_get g [] = none
pool_get g ((k, h) ∷ pool) = if int_eq k g then some h else pool_get g pool

unfoldable pub pool_set : ℤ → ℕ → PortPool → PortPool
pool_set g h [] = (g, h) ∷ []
pool_set g h ((k, h') ∷ pool) = if int_eq k g then (g, h) ∷ pool else (k, h') ∷ pool_set g h pool

-- The mutable fields. Of `cmd` and the log file the program keeps handles only; `done` is the
-- channel, with whether it is closed, and the log file is closed when it closes.
pub record Manager : Type 0 where
  pub vm_id : Text
  pub cmd : Bool
  pub log_file : Bool
  pub vfios : List Vfio
  pub qmp : Option Qmp
  pub ssh_client : Option SshClient
  pub disk_path : Text
  pub qmp_socket : Text
  pub gpu_addrs : List Text
  pub ovmf_vars_path : Text
  pub done : Option Bool
  pub port_pool : PortPool
  pub failed : Bool

-- What the manager does to the host, in order.
pub data Effect : Type 0 where
  bound : Text → Effect
  unbound : Text → Effect
  -- a device that a Bind which failed then has bound
  left : Text → Effect
  disk_made : Text → Effect
  disk_removed : Text → Effect
  vars_written : Text → Effect
  file_removed : Text → Effect
  log_made : Text → Effect
  started : List Text → Effect
  exited : Effect
  killed : Effect
  qmp_command : Text → Effect
  qemu_img : List Text → Effect
  ran : Text → Effect

-- The manager with all that it has done so far, the last first.
pub record Vm : Type 0 where
  pub mgr : Manager
  pub open mgr use *
  pub effects : List Effect

abbrev pub emit : Effect → Vm → Vm
emit e s = record s { effects = e ∷ s.effects }

unfoldable pub new_manager : Vm
new_manager = record {
  mgr = record {
    vm_id = [];
    cmd = false;
    log_file = false;
    vfios = [];
    qmp = none;
    ssh_client = none;
    disk_path = [];
    qmp_socket = [];
    gpu_addrs = [];
    ovmf_vars_path = [];
    done = none;
    port_pool = [];
    failed = false;
  };
  effects = [];
}
