-- ===== src/Frpc/Proxies.antt =====
-- internal/frpc/config.go: BuildInstanceProxies as a map from public endpoints to ports.

use mathlib.Core.Path.{ap₂}
use qudata_agent.Common.{
  ℕ, refl, Bool, true, false, List, [], map, arith, ltb, pos, ◌≡◌, ◌++◌, ◌∷◌, ◌∙◌, if◌then◌else◌,
}
use qudata_agent.Common.Text.{Text, text_eq, str}
use qudata_agent.Frpc.Config.{
  Proxy, port_proxy, ssh_proxy, port_proxies, build_instance_proxies, PortSpec, dash_port,
}
use qudata_agent.Common.Decimal.{itoa}

-- What the tunnel's server routes by: a TCP port, or the host name of HTTP requests.
pub data Endpoint : Type 0 where
  tcp_port : ℕ → Endpoint
  http_domain : Text → Endpoint
  unrouted : Endpoint

-- How frps reads a proxy block: `remotePort` of a tcp proxy, `customDomains` of an http proxy.
abbrev pub endpoint : Proxy → Endpoint
endpoint p =
    if text_eq p.kind (str "tcp")
    then tcp_port p.remote_port
    else if text_eq p.kind (str "http")
    then http_domain p.custom_domain
    else unrouted

-- Where a port of an instance is to be reached from outside.
abbrev pub public_endpoint : Text → PortSpec → Endpoint
public_endpoint token ps =
    if text_eq ps.proto (str "tcp")
    then tcp_port ps.remote_port
    else if text_eq ps.proto (str "http")
    then http_domain
        (if ltb 0 ps.remote_port then token ++ (str "-" ++ itoa (pos ps.remote_port)) else token)
    else unrouted

-- The ports of an instance in the order of its host ports, SSH first.
abbrev pub endpoints : Text → ℕ → Bool → List PortSpec → List Endpoint
endpoints token ssh_remote true ports = tcp_port ssh_remote ∷ map (public_endpoint token) ports
endpoints token ssh_remote false ports = map (public_endpoint token) ports

abbrev pub zip_ports : List Endpoint → List ℕ → List (Endpoint × ℕ)
zip_ports [] hs = []
zip_ports (e ∷ es) [] = []
zip_ports (e ∷ es) (h ∷ hs) = (e, h) ∷ zip_ports es hs

abbrev pub target : Proxy → Endpoint × ℕ
target p = (endpoint p, p.local_port)

endpoint-port_proxy :
    (token : Text) (h : ℕ) (ps : PortSpec)
    → target (port_proxy token h ps) ≡ (public_endpoint token ps, h)
unfolding port_proxy dash_port
endpoint-port_proxy token h ps = ground arith

endpoint-ssh_proxy : (h remote : ℕ) → target (ssh_proxy h remote) ≡ (tcp_port remote, h)
unfolding ssh_proxy str text_eq
endpoint-ssh_proxy h remote = refl

target-port_proxies :
    (token : Text) (hs : List ℕ) (ports : List PortSpec)
    → map target (port_proxies token hs ports) ≡ zip_ports (map (public_endpoint token) ports) hs
unfolding port_proxies
target-port_proxies token hs [] = refl
target-port_proxies token [] (ps ∷ ports) = refl
target-port_proxies token (h ∷ hs) (ps ∷ ports) =
    ap₂ ◌∷◌ (endpoint-port_proxy token h ps) (target-port_proxies token hs ports)

zip_ports-nil : (es : List Endpoint) → zip_ports es [] ≡ []
zip_ports-nil [] = refl
zip_ports-nil (e ∷ es) = refl

-- The i-th proxy leads from the i-th public endpoint of the instance, SSH first if it is enabled, to
-- the i-th host port; there are as many proxies as the shorter of the two lists is long.
pub target-build_instance_proxies :
    (token : Text) (hs : List ℕ) (ssh_remote : ℕ) (ssh_enabled : Bool) (ports : List PortSpec)
    → map target (build_instance_proxies token hs ssh_remote ssh_enabled ports)
      ≡ zip_ports (endpoints token ssh_remote ssh_enabled ports) hs
unfolding build_instance_proxies
target-build_instance_proxies token [] ssh_remote true ports =
    target-port_proxies token [] ports ∙ zip_ports-nil (map (public_endpoint token) ports)
target-build_instance_proxies token (h ∷ hs) ssh_remote true ports =
    ap₂ ◌∷◌ (endpoint-ssh_proxy h ssh_remote) (target-port_proxies token hs ports)
target-build_instance_proxies token hs ssh_remote false ports = target-port_proxies token hs ports
