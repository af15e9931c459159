-- ===== src/Domain.antt =====
-- internal/domain: the error types, the instance's types and the statuses.
use qudata_agent.Common.{ℕ, Bool, Option, none, some, List, ◌++◌, ℤ}
use qudata_agent.Common.Text.{Text, str}

-- `plain` is errors.New or fmt.Errorf without %w; `wrapped` is fmt.Errorf("<prefix>: %w<suffix>").
pub data Error : Type 0 where
  instance_already_running : Error
  no_instance_running : Error
  unknown_command : Text → Error
  vfio_error : Text → Text → Error → Error
  qemu_error : Text → Error → Error
  plain : Text → Error
  wrapped : Text → Error → Text → Error

-- The methods `Error() string`.
unfoldable pub message : Error → Text
message instance_already_running = str "instance is already running"
message no_instance_running = str "no instance is currently running"
message (unknown_command c) = str "unknown command: " ++ c
message (vfio_error op addr e) =
    str "vfio " ++ (op ++ (str " [" ++ (addr ++ (str "]: " ++ message e))))
message (qemu_error op e) = str "qemu " ++ (op ++ (str ": " ++ message e))
message (plain t) = t
message (wrapped prefix e suffix) = prefix ++ (str ": " ++ (message e ++ suffix))

-- The methods `Unwrap() error`.
unfoldable pub unwrap : Error → Option Error
unwrap (vfio_error op addr e) = some e
unwrap (qemu_error op e) = some e
unwrap (wrapped prefix e suffix) = some e
unwrap instance_already_running = none
unwrap no_instance_running = none
unwrap (unknown_command c) = none
unwrap (plain t) = none

-- A call that returns `(A, error)`.
pub data Result {ℓ} (A : Type ℓ) : Type ℓ where
  ok : A → Result A
  err : Error → Result A

pub data Status : Type 0 where
  destroyed pending running paused rebooting error : Status

pub record PortMapping : Type 0 where
  pub name : Text
  pub guest_port : ℤ
  pub remote_port : ℕ
  pub proto : Text

pub record InstanceSpec : Type 0 where
  pub ports : List PortMapping
  pub ssh_enabled : Bool
  pub tunnel_token : Text
  pub gpu_addr : Text
  pub disk_size_gb : ℤ
  pub cpus : Text
  pub memory : Text

-- InstancePorts, a Go map from guest port to host port, as the list of its entries.
abbrev pub InstancePorts : Type 0
InstancePorts = List (Text × Text)

pub record InstanceState : Type 0 where
  pub vm_id : Text
  pub ports : InstancePorts
  pub ssh_enabled : Bool
  pub gpu_addr : Text
  pub tunnel_token : Text
  pub allocated_ports : List ℕ
