-- ===== src/Server/Answered.antt =====
-- internal/server/handler.go: CreateInstance in both modes.
use qudata_agent.Common.{ℕ, refl, Bool, true, false, [], ◌≡◌, ◌∷◌}
use qudata_agent.Network.{PortSet, release, Probes, allocate_ssh_port, allocate_one}
use qudata_agent.Server.Create.{
  on_ollama_port, on_ssh_port, create_test_instance, Request, create_instance, Reply, refused,
  accepted, create_frpc_instance,
}
use qudata_agent.Domain.{Result, err, ok}
use qudata_agent.Server.Ports.{
  AppExtends, SshExtends, allocate_ssh_port-Extends, Owns, allocate_one-Extends,
}
use qudata_agent.Server.Requested.{Answers, create_frpc_instance-Answers}

-- A refusal takes no port; a job that is started owns the ports that are taken.
abbrev pub Keeps : PortSet → Reply × PortSet → Type 0
Keeps a (refused code text, a') = a' ≡ a
Keeps a (accepted response job, a') = Owns a job.allocated a'

on_ollama_port-Keeps :
    (req : Request) (a : PortSet) (ssh_port : ℕ) (r : Result ℕ × PortSet)
    → AppExtends a (ssh_port ∷ []) r
    → Keeps a (on_ollama_port req ssh_port r)
unfolding on_ollama_port
on_ollama_port-Keeps req a ssh_port (err e, a') h = h
on_ollama_port-Keeps req a ssh_port (ok ollama_port, a') (lo, hi, o) = o

on_ssh_port-Keeps :
    (ps : Probes) (req : Request) (a : PortSet) (r : Result ℕ × PortSet)
    → SshExtends a [] r
    → Keeps a (on_ssh_port ps req r)
unfolding on_ssh_port release
on_ssh_port-Keeps ps req a (err e, a') h = h
on_ssh_port-Keeps ps req a (ok ssh_port, a') (lo, hi, o) =
    on_ollama_port-Keeps req a ssh_port (allocate_one (ps 1) a')
      (allocate_one-Extends (ps 1) a a' (ssh_port ∷ []) o)

create_test_instance-Keeps :
    (ps : Probes) (req : Request) (a : PortSet) → Keeps a (create_test_instance ps req a)
unfolding create_test_instance
create_test_instance-Keeps ps req a =
    on_ssh_port-Keeps ps req a (allocate_ssh_port (ps 0) a)
      (allocate_ssh_port-Extends (ps 0) a a [] (record { same = refl; fresh = tt }))

Answers-Keeps : (req : Request) (a : PortSet) (r : Reply × PortSet) → Answers req a r → Keeps a r
Answers-Keeps req a (refused code text, a') e = e
Answers-Keeps req a (accepted response job, a') v = v.planned.owned

pub create_instance-Keeps :
    (ps : Probes) (test_mode : Bool) (r : Result Request) (a : PortSet)
    → Keeps a (create_instance ps test_mode r a)
unfolding create_instance
create_instance-Keeps ps test_mode (err e) a = refl
create_instance-Keeps ps true (ok req) a = create_test_instance-Keeps ps req a
create_instance-Keeps ps false (ok req) a =
    Answers-Keeps req a (create_frpc_instance ps req a) (create_frpc_instance-Answers ps req a)
