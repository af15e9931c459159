-- ===== src/Network/Allocate.antt =====
-- internal/network/port.go: one allocation, allocateFromRange.
use native.Mathlib.Nat.{mod-eq_of_lt, mod-lt, add-mod_right}
use qudata_agent.Common.{
  ℕ, zero, suc, ◌+◌, ◌-◌, ◌%◌, ◌≤◌, ◌<◌, ◌≡◌, refl, sym, Bool, true, false, Option, none, some, ◌⊎◌,
  inl, inr, arith, Bool-cases, ◌==◌, ==_iff, ltb, ltb→lt, if◌then◌else◌,
}
use qudata_agent.Domain.{Result, ok, err}
use qudata_agent.Network.{
  PortSet, insert, Probe, candidate, scan_range, finish, allocate_from_range,
}

-- A port that no call can hand out: taken by the allocator, or in use on the host.
abbrev pub IsBlocked : PortSet → (ℕ → Bool) → ℕ → Type 0
IsBlocked a free q = (a q ≡ true) ⊎ (free q ≡ false)

candidate_bounds :
    (min max start i : ℕ)
    → min ≤ max
    → (min ≤ candidate min max start i) × (candidate min max start i ≤ max)
candidate_bounds min max start i h =
    let lt : (start - min + i) % (max - min + 1) < max - min + 1 = mod-lt _ (omega arith) in
    omega arith

scan_range-some :
    (min max start : ℕ) (free : ℕ → Bool) (a : PortSet) (left i port : ℕ)
    → min ≤ max
    → scan_range min max start free a left i ≡ some port
    → (min ≤ port) × (port ≤ max) × (a port ≡ false) × (free port ≡ true)
unfolding scan_range
scan_range-some min max start free a zero i port h e = cc
scan_range-some min max start free a (suc left) i port h e = ground (
  arith,
  scan_range-some min max start free a left (suc i) port h,
  candidate_bounds min max start i h,
)

-- What the first round of a failing scan saw, and that the rest of it failed too.
scan_range-none_step :
    (min max start : ℕ) (free : ℕ → Bool) (a : PortSet) (left i : ℕ)
    → scan_range min max start free a (suc left) i ≡ none
    → IsBlocked a free (candidate min max start i)
      × (scan_range min max start free a left (suc i) ≡ none)
unfolding scan_range
scan_range-none_step min max start free a left i e = ground arith

scan_range-none :
    (min max start : ℕ) (free : ℕ → Bool) (a : PortSet) (left i j : ℕ)
    → scan_range min max start free a left i ≡ none
    → i ≤ j
    → j < i + left
    → IsBlocked a free (candidate min max start j)
scan_range-none min max start free a zero i j e lo hi = absurd (omega arith)
scan_range-none min max start free a (suc left) i j e lo hi =
    let (first, rest) = scan_range-none_step min max start free a left i e in
    elim (Bool-cases (i == j)) [
      | inl same ↦ rw (sym ((==_iff i j).0 same)) first
      | inr other ↦
          scan_range-none min max start free a left (suc i) j rest (ground arith) (omega arith)
    ]

-- The round that reaches offset `t` from the start offset `d`, modulo the width `w`.
round_to : ℕ → ℕ → ℕ → ℕ
round_to w d t = if ltb t d then t + w - d else t - d

round_to-lt : (w d t : ℕ) → d < w → t < w → round_to w d t < w
unfolding round_to
round_to-lt w d t hd ht = ground arith

mod-round_to : (w d t : ℕ) → d < w → t < w → (d + round_to w d t) % w ≡ t
unfolding round_to
mod-round_to w d t hd ht = elim (Bool-cases (ltb t d)) [
  | inl before ↦ rw before (
      let lt : t < d = ltb→lt t d before in
      let e : d + (t + w - d) ≡ t + w = omega arith in rw (e, add-mod_right t w, mod-eq_of_lt ht))
  | inr after ↦ rw after (
      let le : d ≤ t = ground arith in
      let e : d + (t - d) ≡ t = omega arith in rw (e, mod-eq_of_lt ht))
]

-- Every port of the range is the candidate of some round.
candidate_reaches :
    (min max d q : ℕ)
    → min ≤ q
    → q ≤ max
    → d < max - min + 1
    → candidate min max (min + d) (round_to (max - min + 1) d (q - min)) ≡ q
candidate_reaches min max d q lo hi hd =
    let w : ℕ = max - min + 1 in
    let e : min + d - min ≡ d = omega arith in
    rw (e, mod-round_to (max - min + 1) d (q - min) hd (omega arith)) (omega arith)

scan_range_complete :
    (min max d : ℕ) (free : ℕ → Bool) (a : PortSet) (q : ℕ)
    → d < max - min + 1
    → scan_range min max (min + d) free a (max - min + 1) 0 ≡ none
    → min ≤ q
    → q ≤ max
    → IsBlocked a free q
scan_range_complete min max d free a q hd e lo hi = rw (candidate_reaches min max d q lo hi hd) at (
    scan_range-none min max (min + d) free a (max - min + 1) 0
      (round_to (max - min + 1) d (q - min)) e (omega arith)
      (omega (arith, round_to-lt (max - min + 1) d (q - min) hd (omega arith))))

-- What an allocation returns, and what it does to the set of taken ports.
abbrev pub Allocates : ℕ → ℕ → Probe → PortSet → Result ℕ × PortSet → Type 0
Allocates min max p a (ok port, a') =
    (min ≤ port)
    × (port ≤ max)
    × (a port ≡ false)
    × (p.is_port_free port ≡ true)
    × (a' ≡ insert port a)
Allocates min max p a (err e, a') =
    ((q : ℕ) → min ≤ q → q ≤ max → IsBlocked a p.is_port_free q) × (a' ≡ a)

finish-Allocates :
    (min max : ℕ) (p : Probe) (a : PortSet) (o : Option ℕ)
    → min ≤ max
    → scan_range min max (min + p.draw % (max - min + 1)) p.is_port_free a (max - min + 1) 0 ≡ o
    → Allocates min max p a (finish min max a o)
unfolding finish
finish-Allocates min max p a none h e = (
  λ q lo hi.
      scan_range_complete min max (p.draw % (max - min + 1)) p.is_port_free a q
        (mod-lt _ (omega arith)) e lo hi,
  refl,
)
finish-Allocates min max p a (some port) h e =
    let (lo, hi, fresh, free) = scan_range-some min max _ p.is_port_free a _ 0 port h e in
    (lo, hi, fresh, free, refl)

-- allocateFromRange returns a port of its range that was neither taken nor in use and marks just
-- that port as taken; it fails only if every port of the range is taken or in use, and then changes
-- nothing. The range must not be empty.
pub allocate_from_range-Allocates :
    (min max : ℕ) (p : Probe) (a : PortSet)
    → min ≤ max
    → Allocates min max p a (allocate_from_range min max p a)
unfolding allocate_from_range
allocate_from_range-Allocates min max p a h = finish-Allocates min max p a _ h refl
