-- ===== src/AgentConfig.antt =====
-- internal/config/config.go: the agent's configuration, from defaults and the environment.
pub mod Valid
use qudata_agent.Common.{
  ap₂, subst, none-ne-some, some-ne-none, append-nil, append_assoc, map-append, ℕ, true-ne-false,
  zero, suc, refl, sym, ap, fun_ext, inl, inr, Bool, true, false, not, Option, none, some, List, [],
  map, arith, ltb, leb, ltb→lt, lt→ltb, leb→le, ==_iff, ==_refl, ==_ne, Bool-cases, Option-cases,
  length, get_elem?, is_nil, length-append, length-map, All, All-append, All-map, ℤ, pos, negsuc,
  int_eq, is_pos, int_eq_iff, int_eq_refl, take, take-nil, is_nil-eq, is_nil-ne, ne_of_is_nil,
  int_le, to_bits, of_bits, mul64, ◌≡◌, ◌+◌, ◌*◌, ◌%◌, ◌/◌, ◌^◌, ◌-◌, ◌++◌, ◌∷◌, ◌≢◌, ◌&&◌, ◌||◌,
  ◌==◌, ◌⊎◌, ◌↔◌, ◌∙◌, if◌then◌else◌, ◌≤◌, ◌<◌,
}
use qudata_agent.Common.Text.{Text, split, str, trim_space, text_eq, has_prefix}
use qudata_agent.Domain.{Result, err, plain, ok}

pub record AgentConfig : Type 0 where
  pub api_key : Text
  pub service_url : Text
  pub debug : Bool
  pub test_mode : Bool
  pub data_dir : Text
  pub log_dir : Text
  pub frpc_binary : Text
  pub frpc_config_path : Text
  pub qemu_binary : Text
  pub ovmf_code_path : Text
  pub ovmf_vars_path : Text
  pub base_image_path : Text
  pub image_dir : Text
  pub vm_run_dir : Text
  pub gpu_pci_addrs : List Text
  pub management_key_path : Text
  pub vm_default_cpus : Text
  pub vm_default_memory : Text
  pub vm_disk_size_gb : ℤ

-- os.Getenv, empty for a variable that is not set.
abbrev pub Environ : Type 0
Environ = Text → Text

abbrev pub ovmf_pairs : List (Text × Text)
ovmf_pairs =
    (str "/usr/share/OVMF/OVMF_CODE_4M.fd", str "/usr/share/OVMF/OVMF_VARS_4M.fd")
    ∷ (str "/usr/share/OVMF/OVMF_CODE.fd", str "/usr/share/OVMF/OVMF_VARS.fd")
    ∷ (str "/usr/share/edk2/ovmf/OVMF_CODE.fd", str "/usr/share/edk2/ovmf/OVMF_VARS.fd")
    ∷ []

-- The loop of findOVMF; `exists` is whether os.Stat succeeds.
unfoldable pub first_pair : (Text → Bool) → List (Text × Text) → Text × Text
first_pair exists [] =
    (str "/usr/share/OVMF/OVMF_CODE_4M.fd", str "/usr/share/OVMF/OVMF_VARS_4M.fd")
first_pair exists ((code, vars) ∷ rest) =
    let next = first_pair exists rest in if exists code && exists vars then (code, vars) else next

unfoldable pub find_ovmf : (Text → Bool) → Text × Text
unfolding first_pair
find_ovmf exists = first_pair exists ovmf_pairs

unfoldable pub default_config : (Text → Bool) → AgentConfig
default_config exists = record {
  api_key = [];
  service_url = str "https://internal.qudata.ai/v0";
  debug = false;
  test_mode = false;
  data_dir = str "/var/lib/qudata";
  log_dir = str "/var/log/qudata";
  frpc_binary = str "/usr/local/bin/frpc";
  frpc_config_path = str "/etc/qudata/frpc.toml";
  qemu_binary = str "/usr/bin/qemu-system-x86_64";
  ovmf_code_path = (find_ovmf exists).0;
  ovmf_vars_path = (find_ovmf exists).1;
  base_image_path = [];
  image_dir = str "/var/lib/qudata/images";
  vm_run_dir = str "/var/run/qudata";
  gpu_pci_addrs = [];
  management_key_path = [];
  vm_default_cpus = str "4";
  vm_default_memory = str "8G";
  vm_disk_size_gb = pos 50;
}

-- `if v := os.Getenv(…); v != ""`
abbrev pub unless_set : Text → Text → Text
unless_set [] default = default
unless_set (c ∷ v) default = c ∷ v

-- The loop over the comma-separated addresses.
unfoldable pub keep_addrs : List Text → List Text
keep_addrs [] = []
keep_addrs (a ∷ rest) =
    let others = keep_addrs rest in if is_nil (trim_space a) then others else trim_space a ∷ others

abbrev pub or_addrs : List Text → List Text → List Text
or_addrs [] before = before
or_addrs (a ∷ addrs) before = a ∷ addrs

abbrev pub single_addr : Text → List Text → List Text
single_addr [] before = before
single_addr (c ∷ v) before = trim_space (c ∷ v) ∷ []

-- Both variables for the GPUs; the list wins where it names one.
unfoldable pub gpu_addrs_of : Text → Text → List Text
unfolding keep_addrs split
gpu_addrs_of single several = or_addrs (keep_addrs (split 44 several)) (single_addr single [])

-- Load behind the checks of the key.
unfoldable pub with_environ : Environ → Text → AgentConfig → AgentConfig
unfolding gpu_addrs_of
with_environ env key d = record {
  api_key = key;
  service_url = unless_set (env (str "QUDATA_SERVICE_URL")) d.service_url;
  debug = text_eq (env (str "QUDATA_DEBUG")) (str "true");
  test_mode = d.test_mode;
  data_dir = unless_set (env (str "QUDATA_DATA_DIR")) d.data_dir;
  log_dir = unless_set (env (str "QUDATA_LOG_DIR")) d.log_dir;
  frpc_binary = unless_set (env (str "QUDATA_FRPC_BINARY")) d.frpc_binary;
  frpc_config_path = unless_set (env (str "QUDATA_FRPC_CONFIG")) d.frpc_config_path;
  qemu_binary = unless_set (env (str "QUDATA_QEMU_BINARY")) d.qemu_binary;
  ovmf_code_path = unless_set (env (str "QUDATA_OVMF_CODE")) d.ovmf_code_path;
  ovmf_vars_path = unless_set (env (str "QUDATA_OVMF_VARS")) d.ovmf_vars_path;
  base_image_path = unless_set (env (str "QUDATA_BASE_IMAGE")) d.base_image_path;
  image_dir = unless_set (env (str "QUDATA_IMAGE_DIR")) d.image_dir;
  vm_run_dir = unless_set (env (str "QUDATA_VM_RUN_DIR")) d.vm_run_dir;
  gpu_pci_addrs = gpu_addrs_of (env (str "QUDATA_GPU_PCI_ADDR")) (env (str "QUDATA_GPU_PCI_ADDRS"));
  management_key_path = unless_set (env (str "QUDATA_MANAGEMENT_KEY")) d.management_key_path;
  vm_default_cpus = unless_set (env (str "QUDATA_VM_CPUS")) d.vm_default_cpus;
  vm_default_memory = unless_set (env (str "QUDATA_VM_MEMORY")) d.vm_default_memory;
  vm_disk_size_gb = d.vm_disk_size_gb;
}

-- The checks of the key, trimmed, and what follows them.
unfoldable pub load_with : (Text → Bool) → Environ → Text → Result AgentConfig
unfolding with_environ default_config
load_with exists env key =
    if is_nil key
    then err (plain (str "QUDATA_API_KEY is required"))
    else if not (has_prefix key (str "ak-"))
    then err (plain (str "QUDATA_API_KEY must start with 'ak-'"))
    else ok (with_environ env key (default_config exists))

unfoldable pub load : (Text → Bool) → Environ → Result AgentConfig
unfolding load_with
load exists env = load_with exists env (trim_space (env (str "QUDATA_API_KEY")))
