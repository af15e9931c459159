-- ===== src/Qemu/Network.antt =====
-- internal/qemu/network.go: QEMU's user-mode networking arguments.
use qudata_agent.Common.{ℕ, Bool, List, [], map, is_nil, ℤ, pos, ◌++◌, ◌∷◌, if◌then◌else◌}
use qudata_agent.Common.Text.{Text, str, join}
use qudata_agent.Common.Decimal.{itoa}

pub record PortForward : Type 0 where
  pub protocol : Text
  pub host_port : ℕ
  pub guest_port : ℤ

pub record NetworkConfig : Type 0 where
  pub id : Text
  pub bind_addr : Text
  pub forwards : List PortForward

unfoldable pub new_network_config : Text → Bool → NetworkConfig
new_network_config id test_mode = record {
  id = id;
  bind_addr = if test_mode then str "0.0.0.0" else str "127.0.0.1";
  forwards = [];
}

unfoldable pub add_forward : Text → ℕ → ℤ → NetworkConfig → NetworkConfig
add_forward proto host_port guest_port n = record n {
  forwards =
      n.forwards
      ++ record { protocol = proto; host_port = host_port; guest_port = guest_port } ∷ [];
}

-- "hostfwd=%s:%s:%d-:%d"
unfoldable pub hostfwd : Text → PortForward → Text
hostfwd bind_addr f =
    str "hostfwd="
    ++ (f.protocol
        ++ (str ":"
            ++ (bind_addr
                ++ (str ":" ++ (itoa (pos f.host_port) ++ (str "-:" ++ itoa f.guest_port))))))

unfoldable pub net_args : NetworkConfig → List Text
net_args n =
    let fwds = map (hostfwd n.bind_addr) n.forwards in
    str "-netdev"
    ∷ ((str "user,id=" ++ n.id) ++ (if is_nil fwds then [] else str "," ++ join fwds (str ",")))
    ∷ str "-device"
    ∷ (str "virtio-net-pci,netdev=" ++ n.id)
    ∷ []
