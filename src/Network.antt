-- ===== src/Network.antt =====
-- internal/network/port.go: the allocator of host ports.
pub mod Allocate
pub mod Batch
use qudata_agent.Common.{
  ℕ, zero, suc, ◌+◌, ◌-◌, ◌%◌, ◌≡◌, refl, Bool, true, false, not, ◌||◌, Option, none, some, List,
  [], ◌∷◌, ◌++◌, ◌==◌, if◌then◌else◌, pos,
}
use qudata_agent.Common.Text.{Text, str}
use qudata_agent.Common.Decimal.{itoa}
use qudata_agent.Domain.{Error, plain, wrapped, Result, ok, err}

abbrev pub ssh_port_min : ℕ
ssh_port_min = 10000

abbrev pub ssh_port_max : ℕ
ssh_port_max = 10099

abbrev pub app_port_min : ℕ
app_port_min = 15001

abbrev pub app_port_max : ℕ
app_port_max = 15300

-- The Go map `allocated map[int]struct{}` as its membership test.
abbrev pub PortSet : Type 0
PortSet = ℕ → Bool

abbrev pub insert : ℕ → PortSet → PortSet
insert p a q = if p == q then true else a q

-- The builtin `delete`.
abbrev pub delete : ℕ → PortSet → PortSet
delete p a q = if p == q then false else a q

unfoldable pub new_port_allocator : PortSet
new_port_allocator = λ q. false

-- What one call asks of its surroundings: rand.Intn's draw, and whether net.Listen succeeds on a
-- port.
pub record Probe : Type 0 where
  pub draw : ℕ
  pub is_port_free : ℕ → Bool

-- The successive calls of one operation see successive probes.
abbrev pub Probes : Type 0
Probes = ℕ → Probe

abbrev pub later : ℕ → Probes → Probes
later k ps i = ps (k + i)

-- The port that round `i` looks at.
abbrev pub candidate : ℕ → ℕ → ℕ → ℕ → ℕ
candidate min max start i = min + (start - min + i) % (max - min + 1)

-- The loop of allocateFromRange, with the rounds that are left and the round's number.
unfoldable pub scan_range : ℕ → ℕ → ℕ → (ℕ → Bool) → PortSet → ℕ → ℕ → Option ℕ
scan_range min max start free a zero i = none
scan_range min max start free a (suc left) i =
    let rest = scan_range min max start free a left (suc i) in
    let port = candidate min max start i in
    if a port then rest else if not (free port) then rest else some port

-- The return of allocateFromRange: the port, marked as taken, or the error.
unfoldable pub finish : ℕ → ℕ → PortSet → Option ℕ → Result ℕ × PortSet
finish min max a none = (
  err (plain (str "no free port in range " ++ (itoa (pos min) ++ (str "-" ++ itoa (pos max))))),
  a,
)
finish min max a (some port) = (ok port, insert port a)

unfoldable pub allocate_from_range : ℕ → ℕ → Probe → PortSet → Result ℕ × PortSet
unfolding finish
allocate_from_range min max p a =
    finish min max a
      (scan_range min max (min + p.draw % (max - min + 1)) p.is_port_free a (max - min + 1) 0)

unfoldable pub allocate_ssh_port : Probe → PortSet → Result ℕ × PortSet
allocate_ssh_port = allocate_from_range ssh_port_min ssh_port_max

unfoldable pub allocate_one : Probe → PortSet → Result ℕ × PortSet
allocate_one = allocate_from_range app_port_min app_port_max

unfoldable pub release : List ℕ → PortSet → PortSet
release [] a = a
release (p ∷ ps) a = release ps (delete p a)

batch_error : ℕ → ℕ → Error → Error
batch_error i n e =
    wrapped (str "allocate app port " ++ (itoa (pos (i + 1)) ++ (str "/" ++ itoa (pos n)))) e []

-- The loop of AllocateAppPorts: the rounds that are left, the round's number and the ports so far.
unfoldable pub allocate_rounds : ℕ → ℕ → ℕ → Probes → List ℕ → PortSet → Result (List ℕ) × PortSet
unfolding release batch_error
allocate_rounds n zero i ps ports a = (ok ports, a)
allocate_rounds n (suc left) i ps ports a =
    let (r, a') = allocate_one (ps i) a in
    elim r [
      | err e ↦ (err (batch_error i n e), release ports a')
      | ok p ↦ allocate_rounds n left (suc i) ps (ports ++ p ∷ []) a'
    ]

unfoldable pub allocate_app_ports : ℕ → Probes → PortSet → Result (List ℕ) × PortSet
unfolding allocate_rounds
allocate_app_ports n ps a = allocate_rounds n n 0 ps [] a
