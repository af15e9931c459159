-- ===== src/Network/Batch.antt =====
-- internal/network/port.go: several allocations: AllocateAppPorts and Release.
use qudata_agent.Common.{
  ℕ, ◌≡◌, refl, ◌∙◌, fun_ext, Bool, true, false, ◌||◌, List, [], ◌∷◌, ◌++◌, arith, ◌==◌,
  if◌then◌else◌, ◌+◌, suc, ◌≤◌, length, length-append, All, All-append, ◌<◌, zero,
}
use qudata_agent.Network.{
  PortSet, insert, delete, release, app_port_min, Probes, allocate_one, allocate_rounds, Result,
  Probe, app_port_max, batch_error, allocate_app_ports,
}
use qudata_agent.Network.Allocate.{IsBlocked, Allocates, allocate_from_range-Allocates}
use qudata_agent.Domain.{ok, err}

abbrev pub member : ℕ → List ℕ → Bool
member q [] = false
member q (p ∷ ps) = p == q || member q ps

-- Release takes its ports out of the set, and no other.
pub release-eq :
    (ps : List ℕ) (a : PortSet) (q : ℕ) → release ps a q ≡ (if member q ps then false else a q)
unfolding release
release-eq [] a q = refl
release-eq (p ∷ ps) a q = ground (arith, release-eq ps (delete p a) q)

-- The ports of a list, added to a set.
abbrev pub insert_all : List ℕ → PortSet → PortSet
insert_all ps a q = member q ps || a q

-- Pairwise different ports, none of them in the set.
abbrev pub Fresh : List ℕ → PortSet → Type 0
Fresh [] a = Unit {0}
Fresh (p ∷ ps) a = (a p ≡ false) × (member p ps ≡ false) × Fresh ps a

pub member-append : (q : ℕ) (xs ys : List ℕ) → member q (xs ++ ys) ≡ (member q xs || member q ys)
member-append q [] ys = refl
member-append q (x ∷ xs) ys = ground (arith, member-append q xs ys)

pub Fresh-member :
    (q : ℕ) (ps : List ℕ) (a : PortSet) → Fresh ps a → member q ps ≡ true → a q ≡ false
Fresh-member q [] a f m = cc
Fresh-member q (p ∷ ps) a f m = ground (arith, Fresh-member q ps a f.2)

-- Releasing what was just added gives back the set.
pub release-insert_all : (ps : List ℕ) (a : PortSet) → Fresh ps a → release ps (insert_all ps a) ≡ a
release-insert_all ps a f =
    fun_ext λ q. release-eq ps (insert_all ps a) q ∙ ground (arith, Fresh-member q ps a f)

pub Fresh-snoc :
    (ps : List ℕ) (a : PortSet) (p : ℕ)
    → Fresh ps a
    → insert_all ps a p ≡ false
    → Fresh (ps ++ p ∷ []) a
Fresh-snoc [] a p f h = (h, refl, tt)
Fresh-snoc (x ∷ xs) a p f h =
    (f.0, ground (arith, member-append x xs (p ∷ [])), Fresh-snoc xs a p f.2 (ground arith))

pub insert-insert_all :
    (ps : List ℕ) (a : PortSet) (p : ℕ) → insert p (insert_all ps a) ≡ insert_all (ps ++ p ∷ []) a
insert-insert_all ps a p = fun_ext λ q. ground (arith, member-append q ps (p ∷ []))

abbrev pub InAppRange : ℕ → Type 0
InAppRange p = (app_port_min ≤ p) × (p ≤ app_port_max)

-- Every application port is taken or in use, at the round that has `got` already.
abbrev pub Exhausted : Probes → PortSet → ℕ → List ℕ → Type 0
Exhausted ps a i got =
    (length got ≡ i) × ((q : ℕ) → InAppRange q → IsBlocked (insert_all got a) (ps i).is_port_free q)

-- What AllocateAppPorts returns, and what it does to the set of taken ports.
abbrev pub Batch : ℕ → Probes → PortSet → Result (List ℕ) × PortSet → Type 0
Batch n ps a (ok ports, a') =
    (length ports ≡ n) × Fresh ports a × All InAppRange ports × (a' ≡ insert_all ports a)
Batch n ps a (err e, a') = ((i : ℕ) × (got : List ℕ) × (i < n) × Exhausted ps a i got) × (a' ≡ a)

-- What the loop knows after the rounds that gave `got`.
record Progress (n left i : ℕ) (got : List ℕ) (a : PortSet) : Type 0 where
  rounds : i + left ≡ n
  gained : length got ≡ i
  fresh : Fresh got a
  ranged : All InAppRange got

Progress-suc :
    (n left i : ℕ) (got : List ℕ) (a : PortSet) (p : ℕ)
    → Progress n (suc left) i got a
    → InAppRange p
    → insert_all got a p ≡ false
    → Progress n left (suc i) (got ++ p ∷ []) a
Progress-suc n left i got a p g r f = record {
  rounds = omega (arith, g.rounds);
  gained = omega (arith, g.gained, length-append got (p ∷ []));
  fresh = Fresh-snoc got a p g.fresh f;
  ranged = All-append InAppRange got (p ∷ []) g.ranged (r, tt);
}

allocate_one-Allocates :
    (p : Probe) (a : PortSet) → Allocates app_port_min app_port_max p a (allocate_one p a)
unfolding allocate_one
allocate_one-Allocates p a =
    allocate_from_range-Allocates app_port_min app_port_max p a (omega arith)

-- One round, with what the loop goes on to do as `rest`.
round-Batch :
    (n left i : ℕ) (ps : Probes) (got : List ℕ) (a : PortSet)
    → Progress n (suc left) i got a
    → ((p : ℕ)
        → Progress n left (suc i) (got ++ p ∷ []) a
        → Batch n ps a
            (allocate_rounds n left (suc i) ps (got ++ p ∷ []) (insert p (insert_all got a))))
    → (r : Result ℕ × PortSet) → Allocates app_port_min app_port_max (ps i) (insert_all got a) r
    → Batch n ps a (elim r.0 [
      | err e ↦ (err (batch_error i n e), release got r.1)
      | ok p ↦ allocate_rounds n left (suc i) ps (got ++ p ∷ []) r.1
    ])
round-Batch n left i ps got a g rest (err e, a') h = (
  (i, got, omega (arith, g.rounds), (g.gained, λ q r. h.0 q r.0 r.1)),
  rw h.1 (release-insert_all got a g.fresh),
)
round-Batch n left i ps got a g rest (ok p, a') (lo, hi, fresh, free, e) =
    rw e (rest p (Progress-suc n left i got a p g (lo, hi) fresh))

allocate_rounds-Batch :
    (n left i : ℕ) (ps : Probes) (got : List ℕ) (a : PortSet)
    → Progress n left i got a
    → Batch n ps a (allocate_rounds n left i ps got (insert_all got a))
unfolding allocate_rounds
allocate_rounds-Batch n zero i ps got a g =
    (omega (arith, g.rounds, g.gained), g.fresh, g.ranged, refl)
allocate_rounds-Batch n (suc left) i ps got a g =
    round-Batch n left i ps got a g
      (λ p g'.
        rw (insert-insert_all got a p)
          (allocate_rounds-Batch n left (suc i) ps (got ++ p ∷ []) a g'))
      (allocate_one (ps i) (insert_all got a)) (allocate_one-Allocates (ps i) (insert_all got a))

-- AllocateAppPorts(n) returns n pairwise different ports of the application range that were not
-- taken, and marks just those as taken; if it fails, every application port was taken or in use at
-- some round before the n-th, and the ports of the earlier rounds are given back: the set of taken
-- ports is what it was.
pub allocate_app_ports-Batch :
    (n : ℕ) (ps : Probes) (a : PortSet) → Batch n ps a (allocate_app_ports n ps a)
unfolding allocate_app_ports
allocate_app_ports-Batch n ps a =
    allocate_rounds-Batch n n 0 ps [] a
      (record { rounds = omega arith; gained = refl; fresh = tt; ranged = tt })
