-- ===== src/Server/Requested.antt =====
-- internal/server/handler.go: the requested ports through createFRPCInstance.
use mathlib.Core.Path.{subst}
use mathlib.Core.List.{append-nil, append_assoc, map-append}
use qudata_agent.Common.{
  ℕ, suc, refl, sym, ap, inl, inr, Bool, true, false, Option, none, some, List, [], map, arith,
  Bool-cases, length, is_nil, length-append, All-append, ℤ, ◌≡◌, ◌++◌, ◌∷◌, ◌∙◌, if◌then◌else◌,
}
use qudata_agent.Network.{PortSet, Probes, release, allocate_one, allocate_ssh_port}
use qudata_agent.Domain.{PortMapping, Result, err, ok}
use qudata_agent.Common.Text.{Text, str}
use qudata_agent.Server.Create.{
  on_remote, Draft, is_skipped, Attempt, goes, fails, on_local, on_guest_port, and_go,
  reserve_ports, allocate_remote, proto_of, on_ssh_local, on_ssh_remote, reserve_ssh, Request,
  answer, create_frpc_instance, new_draft, Job, Reply, spec_of, refused, accepted,
}
use qudata_agent.Server.Ports.{
  Planned, SshExtends, AppExtends, Extends, remote_min, remote_max, ports_of-snoc,
  allocate_remote-Extends, allocate_one-Extends, ports_wanted, IsRouted, Owns,
  allocate_ssh_port-Extends,
}
use qudata_agent.Network.Batch.{InAppRange, release-insert_all}
use qudata_agent.Common.Decimal.{atoi}

abbrev Good : PortSet → Bool → Draft → Type 0
Good a ssh d = Planned a ssh d.ssh_remote d.host_ports d.port_mappings d.allocated d.taken

abbrev pub guest_ports_of : List PortMapping → List (Option ℤ)
guest_ports_of = map (λ (m : PortMapping). some m.guest_port)

-- The requested ports that are not passed over.
abbrev pub wanted : Bool → List Text → List Text
wanted ssh [] = []
wanted ssh (s ∷ rest) = if is_skipped ssh s then wanted ssh rest else s ∷ wanted ssh rest

-- A part of the handler that adds mappings for `gs` to those for `fs`, or answers and keeps no port.
abbrev Adds : PortSet → Bool → List (Option ℤ) → Attempt → Type 0
Adds a ssh gs (goes d) = Good a ssh d × (guest_ports_of d.port_mappings ≡ gs)
Adds a ssh gs (fails code text a') = a' ≡ a

counted :
    (ssh : Bool) (hs : List ℕ) (ms : List PortMapping) (h : ℕ) (m : PortMapping)
    → length hs ≡ ports_wanted ssh ms
    → length (hs ++ h ∷ []) ≡ ports_wanted ssh (ms ++ m ∷ [])
counted true hs ms h m e = omega (arith, e, length-append hs (h ∷ []), length-append ms (m ∷ []))
counted false hs ms h m e = omega (arith, e, length-append hs (h ∷ []), length-append ms (m ∷ []))

on_remote-Adds :
    (a : PortSet) (ssh : Bool) (s : Text) (g : ℤ) (local : ℕ) (d : Draft) (taken : PortSet)
    → Good a ssh d
    → InAppRange local
    → (r : Result ℕ × PortSet)
    → Extends (remote_min g) (remote_max g) a (d.allocated ++ local ∷ []) r
    → Adds a ssh (guest_ports_of d.port_mappings ++ some g ∷ []) (
        on_remote s g local r
          (record d { taken = taken; calls = suc d.calls; allocated = d.allocated ++ local ∷ [] }))
unfolding on_remote
on_remote-Adds a ssh s g local d taken v near (err e, a') h = h
on_remote-Adds a ssh s g local d taken v near (ok remote, a') (lo, hi, o) =
    let m : PortMapping = record {
      name = str "port-" ++ s;
      guest_port = g;
      remote_port = remote;
      proto = proto_of g;
    } in
    (
      record {
        owned = o;
        used =
            append_assoc d.allocated (local ∷ []) (remote ∷ [])
            ∙ ap (λ (l : List ℕ). l ++ local ∷ remote ∷ []) v.used
            ∙ sym (ports_of-snoc ssh d.ssh_remote d.host_ports d.port_mappings local m v.count);
        count = counted ssh d.host_ports d.port_mappings local m v.count;
        local = All-append InAppRange d.host_ports (local ∷ []) v.local (near, tt);
        routed = All-append IsRouted d.port_mappings (m ∷ []) v.routed ((refl, lo, hi), tt);
      },
      map-append (λ (m : PortMapping). some m.guest_port) d.port_mappings (m ∷ []),
    )

on_local-Adds :
    (ps : Probes) (a : PortSet) (ssh : Bool) (s : Text) (g : ℤ) (d : Draft)
    → Good a ssh d
    → (r : Result ℕ × PortSet) → AppExtends a d.allocated r
    → Adds a ssh (guest_ports_of d.port_mappings ++ some g ∷ []) (on_local ps s g r d)
unfolding on_local
on_local-Adds ps a ssh s g d v (err e, a') h = h
on_local-Adds ps a ssh s g d v (ok local, a') (lo, hi, o) =
    on_remote-Adds a ssh s g local d a' v (lo, hi)
      (allocate_remote (proto_of g) (ps (suc d.calls)) a')
      (allocate_remote-Extends g (ps (suc d.calls)) a a' (d.allocated ++ local ∷ []) o)

on_guest_port-Adds :
    (ps : Probes) (a : PortSet) (ssh : Bool) (s : Text) (o : Option ℤ) (d : Draft)
    → Good a ssh d
    → Adds a ssh (guest_ports_of d.port_mappings ++ o ∷ []) (on_guest_port ps s o d)
unfolding on_guest_port
on_guest_port-Adds ps a ssh s none d v =
    ap (release d.allocated) v.owned.same ∙ release-insert_all d.allocated a v.owned.fresh
on_guest_port-Adds ps a ssh s (some g) d v =
    on_local-Adds ps a ssh s g d v (allocate_one (ps d.calls) d.taken)
      (allocate_one-Extends (ps d.calls) a d.taken d.allocated v.owned)

and_go-Adds :
    (a : PortSet) (ssh : Bool) (fs gs : List (Option ℤ)) (t : Attempt) (f : Draft → Attempt)
    → Adds a ssh fs t
    → ((d : Draft) → Good a ssh d → guest_ports_of d.port_mappings ≡ fs → Adds a ssh gs (f d))
    → Adds a ssh gs (and_go t f)
unfolding and_go
and_go-Adds a ssh fs gs (goes d) f (v, e) next = next d v e
and_go-Adds a ssh fs gs (fails code text a') f e next = e

pub reserve_ports-Adds :
    (ps : Probes) (a : PortSet) (ssh : Bool) (asked : List Text) (d : Draft)
    → Good a ssh d
    → Adds a ssh
        (guest_ports_of d.port_mappings ++ map atoi (wanted ssh asked))
        (reserve_ports ps ssh asked d)
unfolding reserve_ports
reserve_ports-Adds ps a ssh [] d v = (v, sym (append-nil (guest_ports_of d.port_mappings)))
reserve_ports-Adds ps a ssh (s ∷ rest) d v = elim (Bool-cases (is_skipped ssh s)) [
  | inl e ↦ rw e (reserve_ports-Adds ps a ssh rest d v)
  | inr e ↦ rw e (
      and_go-Adds a ssh (guest_ports_of d.port_mappings ++ atoi s ∷ []) _
        (on_guest_port ps s (atoi s) d) (reserve_ports ps ssh rest)
        (on_guest_port-Adds ps a ssh s (atoi s) d v)
        (λ d' v' same.
          subst (λ l. Adds a ssh l (reserve_ports ps ssh rest d'))
            (ap (λ l. l ++ map atoi (wanted ssh rest)) same
              ∙ append_assoc (guest_ports_of d.port_mappings) (atoi s ∷ [])
                  (map atoi (wanted ssh rest)))
            (reserve_ports-Adds ps a ssh rest d' v')))
]

new_draft-Owns : (a : PortSet) → Owns a [] a
new_draft-Owns a = record { same = refl; fresh = tt }

on_ssh_local-Adds :
    (a : PortSet) (remote n : ℕ) (taken : PortSet) (r : Result ℕ × PortSet)
    → AppExtends a (remote ∷ []) r
    → Adds a true [] (
        on_ssh_local r remote
          (record (new_draft a) { taken = taken; calls = n; allocated = remote ∷ [] }))
unfolding on_ssh_local
on_ssh_local-Adds a remote n taken (err e, a') h = h
on_ssh_local-Adds a remote n taken (ok local, a') (lo, hi, o) =
    (record { owned = o; used = refl; count = refl; local = ((lo, hi), tt); routed = tt }, refl)

on_ssh_remote-Adds :
    (ps : Probes) (a : PortSet) (r : Result ℕ × PortSet)
    → SshExtends a [] r
    → Adds a true [] (on_ssh_remote ps r (new_draft a))
unfolding on_ssh_remote release
on_ssh_remote-Adds ps a (err e, a') h = h
on_ssh_remote-Adds ps a (ok remote, a') (lo, hi, o) =
    on_ssh_local-Adds a remote 1 a' (allocate_one (ps 1) a')
      (allocate_one-Extends (ps 1) a a' (remote ∷ []) o)

reserve_ssh-Adds :
    (ps : Probes) (a : PortSet) (ssh : Bool) → Adds a ssh [] (reserve_ssh ps ssh (new_draft a))
unfolding reserve_ssh
reserve_ssh-Adds ps a true =
    on_ssh_remote-Adds ps a (allocate_ssh_port (ps 0) a)
      (allocate_ssh_port-Extends (ps 0) a a [] (new_draft-Owns a))
reserve_ssh-Adds ps a false =
    (record { owned = new_draft-Owns a; used = refl; count = refl; local = tt; routed = tt }, refl)

-- The job of an accepted request, and the ports that it may use.
pub record Accepts (req : Request) (a taken : PortSet) (job : Job) : Type 0 where
  pub planned :
      Planned a req.ssh_enabled job.ssh_remote job.host_ports job.spec.ports job.allocated taken
  pub requested : guest_ports_of job.spec.ports ≡ map atoi (wanted req.ssh_enabled req.ports)
  pub named : job.spec ≡ spec_of req req.ssh_enabled job.spec.ports

abbrev pub Answers : Request → PortSet → Reply × PortSet → Type 0
Answers req a (refused code text, a') = a' ≡ a
Answers req a (accepted response job, a') = Accepts req a a' job

answer-Answers :
    (req : Request) (a : PortSet) (t : Attempt)
    → Adds a req.ssh_enabled (map atoi (wanted req.ssh_enabled req.ports)) t
    → Answers req a (answer req t)
unfolding answer
answer-Answers req a (goes d) (v, e) = record { planned = v; requested = e; named = refl }
answer-Answers req a (fails code text a') e = e

-- createFRPCInstance either refuses the request and leaves the allocator as it was, or starts a job
-- whose ports were all untaken, are pairwise different, and are just the ones now taken besides the
-- earlier ones: a public and a local port for SSH if it is enabled, and a local and a public port for
-- each mapping. There is one local port for SSH and each mapping, in the application range, and a
-- mapping is TCP with a port of the SSH range for guest port 22, and HTTP with a port of the
-- application range for any other. The mappings are those of the requested ports in order, all of
-- which are numbers, less "22" if SSH is enabled.
pub create_frpc_instance-Answers :
    (ps : Probes) (req : Request) (a : PortSet) → Answers req a (create_frpc_instance ps req a)
unfolding create_frpc_instance
create_frpc_instance-Answers ps req a = elim (Bool-cases (is_nil req.tunnel_token)) [
  | inl e ↦ simp e
  | inr e ↦ simp e (
      answer-Answers req a _ (
        and_go-Adds a req.ssh_enabled [] _ (reserve_ssh ps req.ssh_enabled (new_draft a))
          (reserve_ports ps req.ssh_enabled req.ports) (reserve_ssh-Adds ps a req.ssh_enabled)
          (λ d v same.
            subst
              (λ l.
                Adds a req.ssh_enabled (l ++ map atoi (wanted req.ssh_enabled req.ports))
                  (reserve_ports ps req.ssh_enabled req.ports d))
              same (reserve_ports-Adds ps a req.ssh_enabled req.ports d v))))
]
