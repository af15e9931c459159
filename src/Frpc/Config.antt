-- ===== src/Frpc/Config.antt =====
-- internal/frpc/config.go: the configuration and its text.
use qudata_agent.Common.Text.{Text, str, text_eq}
use qudata_agent.Common.Decimal.{itoa}
use qudata_agent.Common.{
  ℕ, refl, Bool, true, false, Option, none, some, List, [], ltb, is_nil, ℤ, pos, ◌≡◌, ◌++◌, ◌∷◌,
  ◌&&◌, if◌then◌else◌,
}

abbrev pub frp_server_addr : Text
frp_server_addr = str "agent.ru1.qudata.ai"

abbrev pub frp_server_port : ℕ
frp_server_port = 7000

abbrev pub frp_token : Text
frp_token = str "dd9915115e84def1436eade2687a66b7c0f1f54715eb16d2985745e0f4d0af79"

pub record Proxy : Type 0 where
  pub name : Text
  pub kind : Text
  pub local_ip : Text
  pub local_port : ℕ
  pub remote_port : ℕ
  pub custom_domain : Text

pub record Config : Type 0 where
  pub server_addr : Text
  pub server_port : ℕ
  pub auth_token : Text
  pub agent_proxy : Option Proxy
  pub instance_proxies : List Proxy

-- fmt.Sprintf("%s-%d", …)
unfoldable pub dash_port : Text → ℕ → Text
dash_port t n = t ++ (str "-" ++ itoa (pos n))

unfoldable pub new_config : Text → Text → ℕ → Config
new_config agent_id tunnel_token agent_port = record {
  server_addr = frp_server_addr;
  server_port = frp_server_port;
  auth_token = frp_token;
  agent_proxy = some (record {
    name = str "agent-" ++ agent_id;
    kind = str "http";
    local_ip = str "127.0.0.1";
    local_port = agent_port;
    remote_port = 0;
    custom_domain = dash_port tunnel_token agent_port;
  });
  instance_proxies = [];
}

unfoldable pub add_instance_proxy : Proxy → Config → Config
add_instance_proxy p c = record c { instance_proxies = c.instance_proxies ++ p ∷ [] }

unfoldable pub clear_instance_proxies : Config → Config
clear_instance_proxies c = record c { instance_proxies = [] }

-- `{{ … }}` inside quotes: text/template writes the value as it is.
quoted : Text → Text
quoted t = str "\"" ++ (t ++ str "\"")

-- The lines that both proxy blocks of the template share.
render_block : Proxy → Text
unfolding quoted
render_block p =
    str "\n\n[[proxies]]\nname = "
    ++ (quoted p.name
        ++ (str "\ntype = "
            ++ (quoted p.kind
                ++ ((if is_nil p.custom_domain
                      then []
                      else (str "\ncustomDomains = [" ++ (quoted p.custom_domain ++ str "]")))
                    ++ (str "\nlocalIP = "
                        ++ (quoted p.local_ip
                            ++ (str "\nlocalPort = " ++ itoa (pos p.local_port))))))))

render_remote : Proxy → Text
render_remote p =
    if text_eq p.kind (str "tcp") && ltb 0 p.remote_port
    then str "\nremotePort = " ++ itoa (pos p.remote_port)
    else []

render_proxies : List Proxy → Text
unfolding render_block render_remote
render_proxies [] = []
render_proxies (p ∷ ps) = render_block p ++ (render_remote p ++ render_proxies ps)

render_agent : Option Proxy → Text
unfolding render_block
render_agent none = []
render_agent (some p) = render_block p

-- The template; it fails on no value of the type.
unfoldable pub render : Config → Text
unfolding render_agent render_proxies quoted
render c =
    str "serverAddr = "
    ++ (quoted c.server_addr
        ++ (str "\nserverPort = "
            ++ (itoa (pos c.server_port)
                ++ (str "\n\n[auth]\nmethod = \"token\"\ntoken = "
                    ++ (quoted c.auth_token
                        ++ (str
                              "\n\n[transport]\ntcpMuxKeepaliveInterval = 30\ndialServerKeepalive = 30\n\n[log]\nto = \"console\"\nlevel = \"debug\""
                            ++ (render_agent c.agent_proxy
                                ++ (render_proxies c.instance_proxies ++ str "\n"))))))))

pub record PortSpec : Type 0 where
  pub guest_port : ℤ
  pub remote_port : ℕ
  pub proto : Text

-- The `switch ps.Proto`: the remote port and the custom domain of a proxy.
route : Text → PortSpec → ℕ × Text
route tunnel_token ps =
    if text_eq ps.proto (str "tcp")
    then (ps.remote_port, [])
    else if text_eq ps.proto (str "http")
    then (0, if ltb 0 ps.remote_port then dash_port tunnel_token ps.remote_port else tunnel_token)
    else (0, [])

unfoldable pub port_proxy : Text → ℕ → PortSpec → Proxy
unfolding route
port_proxy tunnel_token host_port ps = record {
  name = str "vm-" ++ (ps.proto ++ (str "-" ++ itoa ps.guest_port));
  kind = ps.proto;
  local_ip = str "127.0.0.1";
  local_port = host_port;
  remote_port = (route tunnel_token ps).0;
  custom_domain = (route tunnel_token ps).1;
}

unfoldable pub ssh_proxy : ℕ → ℕ → Proxy
ssh_proxy host_port ssh_remote_port = record {
  name = str "vm-ssh";
  kind = str "tcp";
  local_ip = str "127.0.0.1";
  local_port = host_port;
  remote_port = ssh_remote_port;
  custom_domain = [];
}

-- The loop over `ports`; it stops when the host ports from `idx` on are used up.
unfoldable pub port_proxies : Text → List ℕ → List PortSpec → List Proxy
port_proxies tunnel_token host_ports [] = []
port_proxies tunnel_token [] (ps ∷ rest) = []
port_proxies tunnel_token (h ∷ host_ports) (ps ∷ rest) =
    port_proxy tunnel_token h ps ∷ port_proxies tunnel_token host_ports rest

unfoldable pub build_instance_proxies : Text → List ℕ → ℕ → Bool → List PortSpec → List Proxy
unfolding port_proxies
build_instance_proxies tunnel_token [] ssh_remote_port true ports =
    port_proxies tunnel_token [] ports
build_instance_proxies tunnel_token (h ∷ host_ports) ssh_remote_port true ports =
    ssh_proxy h ssh_remote_port ∷ port_proxies tunnel_token host_ports ports
build_instance_proxies tunnel_token host_ports ssh_remote_port false ports =
    port_proxies tunnel_token host_ports ports

render_runs :
    render_agent (new_config (str "a") (str "t") 15001).agent_proxy
    ≡ str
        "\n\n[[proxies]]\nname = \"agent-a\"\ntype = \"http\"\ncustomDomains = [\"t-15001\"]\nlocalIP = \"127.0.0.1\"\nlocalPort = 15001"
unfolding render_agent new_config str dash_port itoa
render_runs = refl
