-- ===== src/Server/Exclusive.antt =====
-- internal/server/handler.go with internal/network/port.go: the ports of the instances and of the agent.
use qudata_agent.Common.{
  subst, ℕ, true-ne-false, refl, sym, ap, inl, inr, Bool, true, false, none, some, List, [],
  Bool-cases, All, All-map, ◌≡◌, ◌∷◌, ◌||◌, ◌∙◌, if◌then◌else◌,
}
use qudata_agent.Server.Create.{Reply, create_instance, refused, accepted, Request, Job}
use qudata_agent.Network.{PortSet, Probes, release}
use qudata_agent.Network.Batch.{member, Fresh, Fresh-member, release-eq}
use qudata_agent.Server.Answered.{Keeps, create_instance-Keeps}
use qudata_agent.Domain.{Result, InstanceState}
use qudata_agent.Server.Lifecycle.{World, LifeEnv, on_create_failed, destroy_instance}
use qudata_agent.Qemu.Manager.{VmConfig}
use qudata_agent.Qemu.Manager.Stop.{StopEnv}

-- One element of a list, with the others.
pub data Out : List (List ℕ) → List ℕ → List (List ℕ) → Type 0 where
  here : (j : List ℕ) (js : List (List ℕ)) → Out (j ∷ js) j js
  there : (x j : List ℕ) (js ks : List (List ℕ)) → Out js j ks → Out (x ∷ js) j (x ∷ ks)

-- The ports of an accepted request join those of the others.
abbrev pub joined_by : Reply → List (List ℕ) → List (List ℕ)
joined_by (refused code text) js = js
joined_by (accepted response job) js = job.allocated ∷ js

-- The allocator and the ports of each instance while an agent of a port serves: requests are answered,
-- jobs fail, and instances are deleted. What a failed job or a deletion releases is one of the instances,
-- which is then gone: that no ports are released twice is what a second deletion that has loaded the
-- state before the first one cleared it breaks.
pub data Lives (agent_port : ℕ) : PortSet → List (List ℕ) → Type 0 where
  starts : (a : PortSet) → a agent_port ≡ true → Lives agent_port a []
  asks :
      (ps : Probes) (test_mode : Bool) (r : Result Request) (a : PortSet) (js : List (List ℕ))
      → Lives agent_port a js
      → Lives agent_port
          (create_instance ps test_mode r a).1
          (joined_by (create_instance ps test_mode r a).0 js)
  fails :
      (job : Job) (w : World) (js ks : List (List ℕ))
      → Lives agent_port w.taken js
      → Out js job.allocated ks
      → Lives agent_port (on_create_failed job w).taken ks
  deletes :
      (cfg : VmConfig) (host : StopEnv) (env : LifeEnv) (state : InstanceState) (w : World)
      (js ks : List (List ℕ))
      → Lives agent_port w.taken js
      → Out js state.allocated_ports ks
      → Lives agent_port (destroy_instance cfg host env (some state) w).taken ks
  -- a deletion that has found no saved state
  deletes_nothing :
      (cfg : VmConfig) (host : StopEnv) (env : LifeEnv) (w : World) (js : List (List ℕ))
      → Lives agent_port w.taken js
      → Lives agent_port (destroy_instance cfg host env none w).taken js

-- Two lists have no port in common.
abbrev pub AreApart : List ℕ → List ℕ → Type 0
AreApart j k = (q : ℕ) → member q j ≡ true → member q k ≡ false

abbrev pub Disjoint : List (List ℕ) → Type 0
Disjoint [] = Unit {0}
Disjoint (j ∷ js) = All (AreApart j) js × Disjoint js

abbrev pub IsHeld : PortSet → List ℕ → Type 0
IsHeld a j = (q : ℕ) → member q j ≡ true → a q ≡ true

-- The agent's port is taken and no instance's; the instances' are taken, and no two of them share one.
pub record IsExclusive (agent_port : ℕ) (a : PortSet) (js : List (List ℕ)) : Type 0 where
  pub kept : a agent_port ≡ true
  pub own : All (λ j. member agent_port j ≡ false) js
  pub held : All (IsHeld a) js
  pub disjoint : Disjoint js

AreApart-sym : (j k : List ℕ) → AreApart j k → AreApart k j
AreApart-sym j k h q m = elim (Bool-cases (member q j)) [
  | inl e ↦ absurd (true-ne-false (sym m ∙ h q e))
  | inr e ↦ e
]

Out-All :
    (P : List ℕ → Type 0) {js ks : List (List ℕ)} {j : List ℕ}
    → Out js j ks
    → All P js
    → P j × All P ks
Out-All P (here j js) h = h
Out-All P (there x j js ks o) (h, hs) = let (p, ps) = Out-All P o hs in (p, (h, ps))

Out-Disjoint :
    {js ks : List (List ℕ)} {j : List ℕ}
    → Out js j ks
    → Disjoint js
    → All (λ k. AreApart k j) ks × Disjoint ks
Out-Disjoint (here j js) (h, hs) =
    (All-map (AreApart j) (λ k. AreApart k j) js (AreApart-sym j) h, hs)
Out-Disjoint (there x j js ks o) (h, hs) =
    let (p, ps) = Out-All (AreApart x) o h in let (q, qs) = Out-Disjoint o hs in ((p, q), (ps, qs))

both : {x y : Bool} → x ≡ false → y ≡ true → (if x then false else y) ≡ true
both e f = rw (e, f) refl

or_kept : (x y : Bool) → y ≡ true → x || y ≡ true
or_kept true y e = refl
or_kept false y e = e

not_member :
    (q : ℕ) (a : PortSet) (ports : List ℕ) → Fresh ports a → a q ≡ true → member q ports ≡ false
not_member q a ports f h = elim (Bool-cases (member q ports)) [
  | inl m ↦ absurd (true-ne-false (sym h ∙ Fresh-member q ports a f m))
  | inr n ↦ n
]

-- What is released does not touch the ports of the others.
release-IsHeld :
    (a : PortSet) (j : List ℕ) (ks : List (List ℕ))
    → All (λ k. AreApart k j) ks
    → All (IsHeld a) ks
    → All (IsHeld (release j a)) ks
release-IsHeld a j [] h k = tt
release-IsHeld a j (x ∷ ks) (h, hs) (k, keeps) =
    (λ q m. release-eq j a q ∙ both (h q m) (k q m), release-IsHeld a j ks hs keeps)

joined_by-IsExclusive :
    (p : ℕ) (a : PortSet) (js : List (List ℕ)) (r : Reply × PortSet)
    → Keeps a r
    → IsExclusive p a js
    → IsExclusive p r.1 (joined_by r.0 js)
joined_by-IsExclusive p a js (refused code text, a') same v =
    subst (λ t. IsExclusive p t js) (sym same) v
joined_by-IsExclusive p a js (accepted response job, a') o v = record {
  kept = ap (λ (t : PortSet). t p) o.same ∙ or_kept (member p job.allocated) (a p) v.kept;
  own = (not_member p a job.allocated o.fresh v.kept, v.own);
  held = (
    λ q m. ap (λ (t : PortSet). t q) o.same ∙ ap (λ b. b || a q) m,
    All-map (IsHeld a) (IsHeld a') js
        (λ k h q m.
          ap (λ (t : PortSet). t q) o.same ∙ or_kept (member q job.allocated) (a q) (h q m))
        v.held,
  );
  disjoint = (
    All-map (IsHeld a) (AreApart job.allocated) js
        (λ k h. AreApart-sym k job.allocated (λ q m. not_member q a job.allocated o.fresh (h q m)))
        v.held,
    v.disjoint,
  );
}

-- Ports that belong to one instance are released.
release-IsExclusive :
    (p : ℕ) (a : PortSet) (j : List ℕ) (js ks : List (List ℕ))
    → Out js j ks
    → IsExclusive p a js
    → IsExclusive p (release j a) ks
release-IsExclusive p a j js ks o v =
    let (mine, others) = Out-All (λ k. member p k ≡ false) o v.own in
    let (apart, disjoint) = Out-Disjoint o v.disjoint in
    record {
      kept = release-eq j a p ∙ both mine v.kept;
      own = others;
      held = release-IsHeld a j ks apart (Out-All (IsHeld a) o v.held).1;
      disjoint = disjoint;
    }

-- While the agent serves, over any order of requests, failed jobs and deletions in either mode, as long
-- as the ports of an instance are released once: the agent's port stays taken and is no instance's, each
-- instance's ports are taken, and no two instances have a port in common.
pub Lives-IsExclusive :
    (p : ℕ) (a : PortSet) (js : List (List ℕ)) → Lives p a js → IsExclusive p a js
unfolding on_create_failed destroy_instance release
Lives-IsExclusive p _ _ (starts a h) = record { kept = h; own = tt; held = tt; disjoint = tt }
Lives-IsExclusive p _ _ (asks ps test_mode r a js l) =
    joined_by-IsExclusive p a js (create_instance ps test_mode r a)
      (create_instance-Keeps ps test_mode r a) (Lives-IsExclusive p a js l)
Lives-IsExclusive p _ _ (fails job w js ks l o) =
    release-IsExclusive p w.taken job.allocated js ks o (Lives-IsExclusive p w.taken js l)
Lives-IsExclusive p _ _ (deletes cfg host env state w js ks l o) =
    release-IsExclusive p w.taken state.allocated_ports js ks o (Lives-IsExclusive p w.taken js l)
Lives-IsExclusive p _ _ (deletes_nothing cfg host env w js l) = Lives-IsExclusive p w.taken js l
