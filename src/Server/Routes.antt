-- ===== src/Server/Routes.antt =====
-- internal/server/handler.go with internal/frpc/config.go and internal/qemu/manager.go: the way from
-- a public port over the tunnel and the local port to the guest.
use mathlib.Core.Path.{subst, ap₂}
use mathlib.Core.List.{append-nil, append_assoc}
use qudata_agent.Common.{
  ℕ, suc, refl, sym, ap, inl, inr, Bool, true, false, List, [], map, arith, ltb, lt→ltb, Bool-cases,
  length, length-map, All, All-append, ℤ, pos, int_eq, ◌≡◌, ◌++◌, ◌∷◌, ◌∙◌, if◌then◌else◌, ◌≤◌,
}
use qudata_agent.Server.Forwards.{tcp_forward, forwarding_args, net_args-add_forwards}
use qudata_agent.Qemu.Manager.{PortPool, pool_set}
use qudata_agent.Qemu.Manager.Parts.{build_pool, guest_ports, add_forwards}
use qudata_agent.Common.Text.{Text, text_eq, str}
use qudata_agent.Domain.{PortMapping, InstanceSpec}
use qudata_agent.Frpc.Proxies.{
  Endpoint, tcp_port, http_domain, public_endpoint, endpoints, target,
  target-build_instance_proxies, zip_ports,
}
use qudata_agent.Frpc.Config.{PortSpec}
use qudata_agent.Server.Ports.{IsRouted, remote_min, ports_wanted}
use qudata_agent.Common.Decimal.{itoa}
use qudata_agent.Server.Create.{proto_of, Request, Job, create_frpc_instance, accepted}
use qudata_agent.Server.Lifecycle.{port_specs, job_proxies}
use qudata_agent.Network.{Probes, PortSet}
use qudata_agent.Server.Requested.{Accepts, Answers, create_frpc_instance-Answers}
use qudata_agent.Qemu.Network.{net_args, new_network_config}

abbrev pub zip_guests : List ℤ → List ℕ → PortPool
zip_guests [] hs = []
zip_guests (g ∷ gs) [] = []
zip_guests (g ∷ gs) (h ∷ hs) = (g, h) ∷ zip_guests gs hs

abbrev pub IsNoKey : PortPool → ℤ → Type 0
IsNoKey pool g = All (λ (e : ℤ × ℕ). int_eq e.0 g ≡ false) pool

-- No guest port comes twice.
abbrev pub Distinct : List ℤ → Type 0
Distinct [] = Unit {0}
Distinct (g ∷ gs) = All (λ k. int_eq g k ≡ false) gs × Distinct gs

pool_set-new :
    (g : ℤ) (h : ℕ) (pool : PortPool) → IsNoKey pool g → pool_set g h pool ≡ pool ++ (g, h) ∷ []
unfolding pool_set
pool_set-new g h [] n = refl
pool_set-new g h ((k, j) ∷ pool) n =
    rw n.0 (ap (λ (p : PortPool). (k, j) ∷ p) (pool_set-new g h pool n.1))

no_keys-snoc :
    (g : ℤ) (h : ℕ) (gs : List ℤ) (pool : PortPool)
    → All (λ k. int_eq g k ≡ false) gs
    → All (IsNoKey pool) gs
    → All (IsNoKey (pool ++ (g, h) ∷ [])) gs
no_keys-snoc g h [] pool d n = tt
no_keys-snoc g h (k ∷ gs) pool d n = (
  All-append (λ (e : ℤ × ℕ). int_eq e.0 k ≡ false) pool ((g, h) ∷ []) n.0 (d.0, tt),
  no_keys-snoc g h gs pool d.1 n.1,
)

build_pool-zip_guests :
    (gs : List ℤ) (hs : List ℕ) (pool : PortPool)
    → Distinct gs
    → All (IsNoKey pool) gs
    → build_pool gs hs pool ≡ pool ++ zip_guests gs hs
unfolding build_pool
build_pool-zip_guests [] hs pool d n = sym (append-nil pool)
build_pool-zip_guests (g ∷ gs) [] pool d n = sym (append-nil pool)
build_pool-zip_guests (g ∷ gs) (h ∷ hs) pool d n = rw (pool_set-new g h pool n.0) (
    build_pool-zip_guests gs hs (pool ++ (g, h) ∷ []) d.1 (no_keys-snoc g h gs pool d.0 n.1)
    ∙ append_assoc pool ((g, h) ∷ []) (zip_guests gs hs))

no_keys_of_empty : (gs : List ℤ) → All (IsNoKey []) gs
no_keys_of_empty [] = tt
no_keys_of_empty (g ∷ gs) = (tt, no_keys_of_empty gs)

-- Where a mapping is to be reached: guest port 22 at a port of the tunnel's server, any other port
-- under a name made of the token and the public port.
abbrev pub expected_endpoint : Text → PortMapping → Endpoint
expected_endpoint token m =
    if int_eq m.guest_port (pos 22)
    then tcp_port m.remote_port
    else http_domain (token ++ (str "-" ++ itoa (pos m.remote_port)))

abbrev pub expected_endpoints : Text → ℕ → Bool → List PortMapping → List Endpoint
expected_endpoints token ssh_remote true ms = tcp_port ssh_remote ∷ map (expected_endpoint token) ms
expected_endpoints token ssh_remote false ms = map (expected_endpoint token) ms

abbrev port_spec : PortMapping → PortSpec
port_spec m = record { guest_port = m.guest_port; remote_port = m.remote_port; proto = m.proto }

is_open : (g : ℤ) (r : ℕ) → remote_min g ≤ r → ltb 0 r ≡ true
is_open g r lo = elim (Bool-cases (int_eq g (pos 22))) [
  | inl b ↦ lt→ltb 0 r (omega (arith, rw b at (lo)))
  | inr b ↦ lt→ltb 0 r (omega (arith, rw b at (lo)))
]

public_endpoint-proto_of :
    (token proto : Text) (g : ℤ) (r : ℕ)
    → proto ≡ proto_of g
    → ltb 0 r ≡ true
    → public_endpoint token (record { guest_port = g; remote_port = r; proto = proto })
      ≡ (if int_eq g (pos 22) then tcp_port r else http_domain (token ++ (str "-" ++ itoa (pos r))))
unfolding text_eq str
public_endpoint-proto_of token proto g r e positive = elim (Bool-cases (int_eq g (pos 22))) [
  | inl b ↦ rw (e, b) refl
  | inr b ↦ rw (e, b, positive) refl
]

public_endpoints-expected :
    (token : Text) (ms : List PortMapping)
    → All IsRouted ms
    → map (public_endpoint token) (port_specs ms) ≡ map (expected_endpoint token) ms
public_endpoints-expected token [] v = refl
public_endpoints-expected token (m ∷ ms) ((e, lo, hi), v) =
    ap₂ ◌∷◌
      (public_endpoint-proto_of token m.proto m.guest_port m.remote_port e
        (is_open m.guest_port m.remote_port lo))
      (public_endpoints-expected token ms v)

endpoints-expected :
    (token : Text) (r : ℕ) (ssh : Bool) (ms : List PortMapping)
    → All IsRouted ms
    → endpoints token r ssh (port_specs ms) ≡ expected_endpoints token r ssh ms
endpoints-expected token r true ms v =
    ap (λ l. tcp_port r ∷ l) (public_endpoints-expected token ms v)
endpoints-expected token r false ms v = public_endpoints-expected token ms v

length-guest_ports :
    (spec : InstanceSpec) → length (guest_ports spec) ≡ ports_wanted spec.ssh_enabled spec.ports
unfolding guest_ports
length-guest_ports spec = elim (Bool-cases spec.ssh_enabled) [
  | inl e ↦ simp e (ap suc (length-map (λ (m : PortMapping). m.guest_port) spec.ports))
  | inr e ↦ simp e (length-map (λ (m : PortMapping). m.guest_port) spec.ports)
]

-- The pool pairs the i-th guest port with the i-th local port, QEMU is given a forward of TCP from the
-- local to the guest port for each entry of a pool, in whatever order its map gives them, and the tunnel
-- leads the i-th public endpoint to the i-th local port.
pub record IsReachable (req : Request) (job : Job) : Type 0 where
  pub forwards :
      build_pool (guest_ports job.spec) job.host_ports []
      ≡ zip_guests (guest_ports job.spec) job.host_ports
  pub passed :
      (pool : PortPool)
      → net_args (add_forwards pool (new_network_config (str "net0") false))
        ≡ forwarding_args (map tcp_forward pool)
  pub proxies :
      map target (job_proxies job)
      ≡ zip_ports
          (expected_endpoints req.tunnel_token job.ssh_remote req.ssh_enabled job.spec.ports)
          job.host_ports
  pub each_guest : length (guest_ports job.spec) ≡ length job.host_ports

Accepts-IsReachable :
    (req : Request) (a taken : PortSet) (job : Job)
    → Accepts req a taken job
    → Distinct (guest_ports job.spec)
    → IsReachable req job
Accepts-IsReachable req a taken job v d =
    let token_same : job.spec.tunnel_token ≡ req.tunnel_token =
      ap (λ (s : InstanceSpec). s.tunnel_token) v.named in
    let ssh_same : job.spec.ssh_enabled ≡ req.ssh_enabled =
      ap (λ (s : InstanceSpec). s.ssh_enabled) v.named in
    record {
      forwards =
          build_pool-zip_guests (guest_ports job.spec) job.host_ports [] d
            (no_keys_of_empty (guest_ports job.spec));
      passed = net_args-add_forwards;
      proxies =
          target-build_instance_proxies job.spec.tunnel_token job.host_ports job.ssh_remote
            job.spec.ssh_enabled (port_specs job.spec.ports)
          ∙ ap (λ (es : List Endpoint). zip_ports es job.host_ports)
              (endpoints-expected job.spec.tunnel_token job.ssh_remote job.spec.ssh_enabled
                  job.spec.ports v.planned.routed
                ∙ ap₂ (λ t b. expected_endpoints t job.ssh_remote b job.spec.ports) token_same
                    ssh_same);
      each_guest =
          length-guest_ports job.spec
          ∙ ap (λ b. ports_wanted b job.spec.ports) ssh_same
          ∙ sym v.planned.count;
    }

-- Of a request that createFRPCInstance accepts, with no guest port twice: the public endpoints (SSH
-- first, then the requested ports in order: a TCP port for guest port 22, the token and the public
-- port as a host name for any other), the local ports of the tunnel's proxies, the local ports of the
-- manager's pool and the guest ports correspond one to one and in order; and the network arguments of
-- QEMU, outside of the test mode, forward TCP from the loopback address for just the entries of a pool.
pub create_frpc_instance-IsReachable :
    (ps : Probes) (req : Request) (a a' : PortSet) (response : List (Text × Text)) (job : Job)
    → create_frpc_instance ps req a ≡ (accepted response job, a')
    → Distinct (guest_ports job.spec)
    → IsReachable req job
create_frpc_instance-IsReachable ps req a a' response job e d =
    Accepts-IsReachable req a a' job
      (subst (Answers req a) e (create_frpc_instance-Answers ps req a)) d
