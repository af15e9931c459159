-- ===== src/Server/Forwards.antt =====
-- internal/qemu/network.go with internal/qemu/manager.go: the network arguments of QEMU for a pool of ports.
use mathlib.Core.List.{append-nil, append_assoc}
use qudata_agent.Common.{
  ℕ, refl, sym, ap, false, List, [], map, ℤ, pos, ◌≡◌, ◌++◌, ◌∷◌, ◌∙◌, if◌then◌else◌, is_nil,
}
use qudata_agent.Qemu.Manager.{PortPool}
use qudata_agent.Qemu.Manager.Parts.{add_forwards}
use qudata_agent.Common.Text.{Text, str, join}
use qudata_agent.Common.Decimal.{itoa}
use qudata_agent.Qemu.Network.{hostfwd, net_args, add_forward, new_network_config, NetworkConfig}

-- The option of QEMU that forwards TCP from a host port of the loopback address to a guest port.
abbrev pub tcp_forward : ℤ × ℕ → Text
tcp_forward (g, h) = str "hostfwd=tcp:127.0.0.1:" ++ (itoa (pos h) ++ (str "-:" ++ itoa g))

-- The network arguments of QEMU with these options.
abbrev pub forwarding_args : List Text → List Text
forwarding_args fwds =
    str "-netdev"
    ∷ (str "user,id=net0" ++ (if is_nil fwds then [] else str "," ++ join fwds (str ",")))
    ∷ str "-device"
    ∷ str "virtio-net-pci,netdev=net0"
    ∷ []

add_forwards-forwards :
    (pool : PortPool) (net : NetworkConfig)
    → (add_forwards pool net).forwards
      ≡ net.forwards
        ++ map
            (λ (e : ℤ × ℕ). record { protocol = str "tcp"; host_port = e.1; guest_port = e.0 })
            pool
unfolding add_forwards add_forward
add_forwards-forwards [] net = sym (append-nil net.forwards)
add_forwards-forwards ((g, h) ∷ pool) net =
    add_forwards-forwards pool (add_forward (str "tcp") h g net) ∙ append_assoc net.forwards _ _

add_forwards-bind_addr :
    (pool : PortPool) (net : NetworkConfig) → (add_forwards pool net).bind_addr ≡ net.bind_addr
unfolding add_forwards add_forward
add_forwards-bind_addr [] net = refl
add_forwards-bind_addr ((g, h) ∷ pool) net =
    add_forwards-bind_addr pool (add_forward (str "tcp") h g net)

add_forwards-id : (pool : PortPool) (net : NetworkConfig) → (add_forwards pool net).id ≡ net.id
unfolding add_forwards add_forward
add_forwards-id [] net = refl
add_forwards-id ((g, h) ∷ pool) net = add_forwards-id pool (add_forward (str "tcp") h g net)

hostfwd-tcp_forward :
    (pool : PortPool)
    → map (hostfwd (str "127.0.0.1")) (
        map
          (λ (e : ℤ × ℕ). record { protocol = str "tcp"; host_port = e.1; guest_port = e.0 })
          pool)
      ≡ map tcp_forward pool
unfolding hostfwd str
hostfwd-tcp_forward [] = refl
hostfwd-tcp_forward (e ∷ pool) =
    ap (λ (l : List Text). tcp_forward e ∷ l) (hostfwd-tcp_forward pool)

-- The arguments that Create gives QEMU for a pool, entry by entry.
pub net_args-add_forwards :
    (pool : PortPool)
    → net_args (add_forwards pool (new_network_config (str "net0") false))
      ≡ forwarding_args (map tcp_forward pool)
unfolding net_args new_network_config str
net_args-add_forwards pool =
    let net = new_network_config (str "net0") false in
    rw
      (
        add_forwards-forwards pool net,
        add_forwards-bind_addr pool net,
        add_forwards-id pool net,
        hostfwd-tcp_forward pool,
      )
      refl
