-- ===== src/Server/Ports.antt =====
-- internal/server/handler.go with internal/network/port.go: sets of ports that a request takes.
use qudata_agent.Common.{
  ℕ, suc, refl, sym, ap, Bool, true, false, List, [], arith, length, All, pos, int_eq, ◌≡◌, ◌++◌,
  ◌∷◌, ◌∙◌, if◌then◌else◌, ◌≤◌, ℤ, Bool-cases, inl, inr,
}
use qudata_agent.Network.{
  PortSet, Probe, allocate_one, allocate_ssh_port, app_port_min, ssh_port_min, insert, app_port_max,
  ssh_port_max, release,
}
use qudata_agent.Domain.{PortMapping, Result, ok, err}
use qudata_agent.Network.Batch.{
  insert_all, InAppRange, Fresh, insert-insert_all, Fresh-snoc, release-insert_all,
}
use qudata_agent.Network.Allocate.{allocate_from_range-Allocates, Allocates}
use qudata_agent.Server.Create.{proto_of, allocate_remote}
use qudata_agent.Common.Text.{text_eq, str}

-- The ports that a list adds to a set, each of them once.
pub record Owns (a : PortSet) (ports : List ℕ) (taken : PortSet) : Type 0 where
  pub same : taken ≡ insert_all ports a
  pub fresh : Fresh ports a

-- What an allocation does to a set that owns its ports.
abbrev pub Extends : ℕ → ℕ → PortSet → List ℕ → Result ℕ × PortSet → Type 0
Extends lo hi a ports (ok p, a') = (lo ≤ p) × (p ≤ hi) × Owns a (ports ++ p ∷ []) a'
Extends lo hi a ports (err e, a') = release ports a' ≡ a

Allocates-Extends :
    (lo hi : ℕ) (p : Probe) (a taken : PortSet) (ports : List ℕ) (r : Result ℕ × PortSet)
    → Owns a ports taken
    → Allocates lo hi p taken r
    → Extends lo hi a ports r
Allocates-Extends lo hi p a taken ports (ok q, a') o (low, high, new, free, e) = (
  low,
  high,
  record {
    same = e ∙ ap (insert q) o.same ∙ insert-insert_all ports a q;
    fresh = Fresh-snoc ports a q o.fresh (sym (ap (λ (t : PortSet). t q) o.same) ∙ new);
  },
)
Allocates-Extends lo hi p a taken ports (err x, a') o (full, e) =
    ap (release ports) (e ∙ o.same) ∙ release-insert_all ports a o.fresh

abbrev pub AppExtends : PortSet → List ℕ → Result ℕ × PortSet → Type 0
AppExtends = Extends app_port_min app_port_max

abbrev pub SshExtends : PortSet → List ℕ → Result ℕ × PortSet → Type 0
SshExtends = Extends ssh_port_min ssh_port_max

pub allocate_one-Extends :
    (p : Probe) (a taken : PortSet) (ports : List ℕ)
    → Owns a ports taken
    → AppExtends a ports (allocate_one p taken)
unfolding allocate_one
allocate_one-Extends p a taken ports o =
    Allocates-Extends _ _ p a taken ports _ o
      (allocate_from_range-Allocates app_port_min app_port_max p taken (omega arith))

pub allocate_ssh_port-Extends :
    (p : Probe) (a taken : PortSet) (ports : List ℕ)
    → Owns a ports taken
    → SshExtends a ports (allocate_ssh_port p taken)
unfolding allocate_ssh_port
allocate_ssh_port-Extends p a taken ports o =
    Allocates-Extends _ _ p a taken ports _ o
      (allocate_from_range-Allocates ssh_port_min ssh_port_max p taken (omega arith))

-- Two ports for each mapping, in the order in which they are taken.
abbrev pub pairs : List ℕ → List PortMapping → List ℕ
pairs (h ∷ hs) (m ∷ ms) = h ∷ m.remote_port ∷ pairs hs ms
pairs [] ms = []
pairs (h ∷ hs) [] = []

abbrev pub ports_of : Bool → ℕ → List ℕ → List PortMapping → List ℕ
ports_of true r (h ∷ hs) ms = r ∷ h ∷ pairs hs ms
ports_of true r [] ms = []
ports_of false r hs ms = pairs hs ms

abbrev pub ports_wanted : Bool → List PortMapping → ℕ
ports_wanted true ms = suc (length ms)
ports_wanted false ms = length ms

pairs-snoc :
    (hs : List ℕ) (ms : List PortMapping) (h : ℕ) (m : PortMapping)
    → length hs ≡ length ms
    → pairs (hs ++ h ∷ []) (ms ++ m ∷ []) ≡ pairs hs ms ++ h ∷ m.remote_port ∷ []
pairs-snoc [] [] h m e = refl
pairs-snoc [] (n ∷ ms) h m e = absurd (omega (arith, e))
pairs-snoc (k ∷ hs) [] h m e = absurd (omega (arith, e))
pairs-snoc (k ∷ hs) (n ∷ ms) h m e =
    ap (λ (l : List ℕ). k ∷ n.remote_port ∷ l) (pairs-snoc hs ms h m (omega (arith, e)))

pub ports_of-snoc :
    (ssh : Bool) (r : ℕ) (hs : List ℕ) (ms : List PortMapping) (h : ℕ) (m : PortMapping)
    → length hs ≡ ports_wanted ssh ms
    → ports_of ssh r (hs ++ h ∷ []) (ms ++ m ∷ []) ≡ ports_of ssh r hs ms ++ h ∷ m.remote_port ∷ []
ports_of-snoc false r hs ms h m e = pairs-snoc hs ms h m e
ports_of-snoc true r [] ms h m e = absurd (omega (arith, e))
ports_of-snoc true r (k ∷ hs) ms h m e =
    ap (λ (l : List ℕ). r ∷ k ∷ l) (pairs-snoc hs ms h m (omega (arith, e)))

-- The range of the public port for a guest port: SSH's for port 22.
abbrev pub remote_min : ℤ → ℕ
remote_min g = if int_eq g (pos 22) then ssh_port_min else app_port_min

abbrev pub remote_max : ℤ → ℕ
remote_max g = if int_eq g (pos 22) then ssh_port_max else app_port_max

pub allocate_remote-Extends :
    (g : ℤ) (p : Probe) (a taken : PortSet) (ports : List ℕ)
    → Owns a ports taken
    → Extends (remote_min g) (remote_max g) a ports (allocate_remote (proto_of g) p taken)
unfolding allocate_remote text_eq str
allocate_remote-Extends g p a taken ports o = elim (Bool-cases (int_eq g (pos 22))) [
  | inl e ↦ rw e (allocate_ssh_port-Extends p a taken ports o)
  | inr e ↦ rw e (allocate_one-Extends p a taken ports o)
]

-- A mapping's public port lies in the range of its kind.
abbrev pub IsRouted : PortMapping → Type 0
IsRouted m =
    (m.proto ≡ proto_of m.guest_port)
    × (remote_min m.guest_port ≤ m.remote_port)
    × (m.remote_port ≤ remote_max m.guest_port)

-- The ports that a plan uses are the ones that it owns.
pub record Planned (a : PortSet) (ssh : Bool) (r : ℕ) (hs : List ℕ) (ms : List PortMapping)
    (ports : List ℕ) (taken : PortSet) : Type 0 where
  pub owned : Owns a ports taken
  pub used : ports ≡ ports_of ssh r hs ms
  pub count : length hs ≡ ports_wanted ssh ms
  pub local : All InAppRange hs
  pub routed : All IsRouted ms
