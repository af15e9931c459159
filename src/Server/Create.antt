-- ===== src/Server/Create.antt =====
-- internal/server/handler.go: createTestInstance and createFRPCInstance, up to where they start the background work.
use qudata_agent.Common.{
  ℕ, suc, Bool, true, false, Option, none, some, List, [], is_nil, ℤ, pos, int_eq, ◌++◌, ◌∷◌, ◌&&◌,
  if◌then◌else◌,
}
use qudata_agent.Common.Text.{Text, text_eq, str}
use qudata_agent.Domain.{InstanceSpec, Result, PortMapping, err, message, ok}
use qudata_agent.Network.{PortSet, Probes, allocate_ssh_port, Probe, allocate_one, release}
use qudata_agent.Common.Decimal.{atoi, itoa}

pub record Request : Type 0 where
  pub tunnel_token : Text
  pub ssh_enabled : Bool
  pub ports : List Text
  pub storage_gb : ℤ
  pub cpus : Text
  pub memory : Text

-- The arguments of the goroutine that a handler starts.
pub record Job : Type 0 where
  pub spec : InstanceSpec
  pub host_ports : List ℕ
  pub ssh_remote : ℕ
  pub allocated : List ℕ

-- The response: an HTTP status with the error's text, or the map from guest port to public port,
-- with the work that goes on behind it.
pub data Reply : Type 0 where
  refused : ℕ → Text → Reply
  accepted : List (Text × Text) → Job → Reply

-- The local variables of createFRPCInstance, with the allocator and the number of calls made of it.
pub record Draft : Type 0 where
  pub taken : PortSet
  pub calls : ℕ
  pub host_ports : List ℕ
  pub allocated : List ℕ
  pub port_mappings : List PortMapping
  pub ssh_remote : ℕ

-- A part of the handler goes on, or has answered.
pub data Attempt : Type 0 where
  goes : Draft → Attempt
  fails : ℕ → Text → PortSet → Attempt

-- A write to a Go map, as the list of its entries.
abbrev pub put : Text → Text → List (Text × Text) → List (Text × Text)
put k v [] = (k, v) ∷ []
put k v ((k', v') ∷ m) = if text_eq k k' then (k, v) ∷ m else (k', v') ∷ put k v m

-- The local port for SSH, by the allocator's answer.
unfoldable pub on_ssh_local : Result ℕ × PortSet → ℕ → Draft → Attempt
on_ssh_local (err e, a) remote d = fails 500 (message e) (release d.allocated a)
on_ssh_local (ok local, a) remote d = goes (record d {
  taken = a;
  calls = suc d.calls;
  allocated = d.allocated ++ local ∷ [];
  ssh_remote = remote;
  host_ports = d.host_ports ++ local ∷ [];
})

-- The remote port for SSH; there is nothing to roll back yet.
unfoldable pub on_ssh_remote : Probes → Result ℕ × PortSet → Draft → Attempt
unfolding on_ssh_local
on_ssh_remote ps (err e, a) d = fails 500 (message e) a
on_ssh_remote ps (ok remote, a) d =
    on_ssh_local (allocate_one (ps (suc d.calls)) a) remote
      (record d { taken = a; calls = suc d.calls; allocated = d.allocated ++ remote ∷ [] })

unfoldable pub reserve_ssh : Probes → Bool → Draft → Attempt
unfolding on_ssh_remote
reserve_ssh ps true d = on_ssh_remote ps (allocate_ssh_port (ps d.calls) d.taken) d
reserve_ssh ps false d = goes d

abbrev pub proto_of : ℤ → Text
proto_of guest_port = if int_eq guest_port (pos 22) then str "tcp" else str "http"

unfoldable pub allocate_remote : Text → Probe → PortSet → Result ℕ × PortSet
allocate_remote proto p a =
    if text_eq proto (str "tcp") then allocate_ssh_port p a else allocate_one p a

-- The remote port of a mapping, by the allocator's answer.
unfoldable pub on_remote : Text → ℤ → ℕ → Result ℕ × PortSet → Draft → Attempt
on_remote port_str guest_port local (err e, a) d = fails 500 (message e) (release d.allocated a)
on_remote port_str guest_port local (ok remote, a) d = goes (record d {
  taken = a;
  calls = suc d.calls;
  allocated = d.allocated ++ remote ∷ [];
  host_ports = d.host_ports ++ local ∷ [];
  port_mappings =
      d.port_mappings
      ++ record {
        name = str "port-" ++ port_str;
        guest_port = guest_port;
        remote_port = remote;
        proto = proto_of guest_port;
      }
        ∷ [];
})

-- The local port of a mapping, by the allocator's answer.
unfoldable pub on_local : Probes → Text → ℤ → Result ℕ × PortSet → Draft → Attempt
unfolding on_remote
on_local ps port_str guest_port (err e, a) d = fails 500 (message e) (release d.allocated a)
on_local ps port_str guest_port (ok local, a) d =
    on_remote port_str guest_port local (allocate_remote (proto_of guest_port) (ps (suc d.calls)) a)
      (record d { taken = a; calls = suc d.calls; allocated = d.allocated ++ local ∷ [] })

-- A requested port, by what strconv.Atoi makes of it.
unfoldable pub on_guest_port : Probes → Text → Option ℤ → Draft → Attempt
unfolding on_local
on_guest_port ps port_str none d =
    fails 400 (str "invalid port: " ++ port_str) (release d.allocated d.taken)
on_guest_port ps port_str (some guest_port) d =
    on_local ps port_str guest_port (allocate_one (ps d.calls) d.taken) d

-- Whether a requested port is passed over: SSH has been given its ports already.
abbrev pub is_skipped : Bool → Text → Bool
is_skipped ssh_enabled port_str = text_eq port_str (str "22") && ssh_enabled

-- `then` runs unless the part before has answered.
unfoldable pub and_go : Attempt → (Draft → Attempt) → Attempt
and_go (goes d) f = f d
and_go (fails code text a) f = fails code text a

-- The loop over req.Ports.
unfoldable pub reserve_ports : Probes → Bool → List Text → Draft → Attempt
unfolding on_guest_port and_go
reserve_ports ps ssh_enabled [] d = goes d
reserve_ports ps ssh_enabled (s ∷ rest) d =
    if is_skipped ssh_enabled s
    then reserve_ports ps ssh_enabled rest d
    else and_go (on_guest_port ps s (atoi s) d) (reserve_ports ps ssh_enabled rest)

unfoldable pub response_ports : Bool → ℕ → List PortMapping → List (Text × Text)
response_ports ssh_enabled ssh_remote ms =
    put_all ms (if ssh_enabled then (str "22", itoa (pos ssh_remote)) ∷ [] else [])
  where
    put_all : List PortMapping → List (Text × Text) → List (Text × Text)
    put_all [] m = m
    put_all (pm ∷ ms) m = put_all ms (put (itoa pm.guest_port) (itoa (pos pm.remote_port)) m)

abbrev pub spec_of : Request → Bool → List PortMapping → InstanceSpec
spec_of req ssh_enabled ms = record {
  ports = ms;
  ssh_enabled = ssh_enabled;
  tunnel_token = req.tunnel_token;
  gpu_addr = [];
  disk_size_gb = req.storage_gb;
  cpus = req.cpus;
  memory = req.memory;
}

-- The end of the handler.
unfoldable pub answer : Request → Attempt → Reply × PortSet
answer req (fails code text a) = (refused code text, a)
answer req (goes d) = (
  accepted (response_ports req.ssh_enabled d.ssh_remote d.port_mappings) (record {
    spec = spec_of req req.ssh_enabled d.port_mappings;
    host_ports = d.host_ports;
    ssh_remote = d.ssh_remote;
    allocated = d.allocated;
  }),
  d.taken,
)

abbrev pub new_draft : PortSet → Draft
new_draft a = record {
  taken = a;
  calls = 0;
  host_ports = [];
  allocated = [];
  port_mappings = [];
  ssh_remote = 0;
}

unfoldable pub create_frpc_instance : Probes → Request → PortSet → Reply × PortSet
unfolding answer and_go reserve_ssh reserve_ports
create_frpc_instance ps req a =
    if is_nil req.tunnel_token
    then (refused 400 (str "tunnel_token is required"), a)
    else answer req (
        and_go (reserve_ssh ps req.ssh_enabled (new_draft a))
          (reserve_ports ps req.ssh_enabled req.ports))

-- The test mode's second port, by the allocator's answer.
unfoldable pub on_ollama_port : Request → ℕ → Result ℕ × PortSet → Reply × PortSet
on_ollama_port req ssh_port (err e, a) = (refused 500 (message e), release (ssh_port ∷ []) a)
on_ollama_port req ssh_port (ok ollama_port, a) = (
  accepted ((str "22", itoa (pos ssh_port)) ∷ (str "11434", itoa (pos ollama_port)) ∷ []) (record {
    spec = spec_of req true (
        record { name = str "ollama"; guest_port = pos 11434; remote_port = 0; proto = str "http" }
        ∷ []);
    host_ports = ssh_port ∷ ollama_port ∷ [];
    ssh_remote = 0;
    allocated = ssh_port ∷ ollama_port ∷ [];
  }),
  a,
)

unfoldable pub on_ssh_port : Probes → Request → Result ℕ × PortSet → Reply × PortSet
unfolding on_ollama_port
on_ssh_port ps req (err e, a) = (refused 500 (message e), a)
on_ssh_port ps req (ok ssh_port, a) = on_ollama_port req ssh_port (allocate_one (ps 1) a)

unfoldable pub create_test_instance : Probes → Request → PortSet → Reply × PortSet
unfolding on_ssh_port
create_test_instance ps req a = on_ssh_port ps req (allocate_ssh_port (ps 0) a)

-- CreateInstance behind the JSON reader, which has its own answer for a body it cannot read.
unfoldable pub create_instance : Probes → Bool → Result Request → PortSet → Reply × PortSet
create_instance ps test_mode (err e) a = (refused 400 (message e), a)
create_instance ps true (ok req) a = create_test_instance ps req a
create_instance ps false (ok req) a = create_frpc_instance ps req a
