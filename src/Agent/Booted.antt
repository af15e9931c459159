-- ===== src/Agent/Booted.antt =====
-- internal/agent/agent.go: bootstrap on each branch.
use qudata_agent.Common.{
  subst, ℕ, refl, sym, ap, inl, inr, Option, none, some, [], arith, Bool-cases, is_nil, is_nil-eq,
  ◌≡◌, ◌∷◌, ◌⊎◌, ◌∙◌,
}
use qudata_agent.Agent.{
  Agent, BootstrapEnv, keep_secret, bootstrap, AgentMetadata, finish_boot, on_init, on_ping,
  on_agent_port, on_agent_id, read_secret, with_files, init_request, with_taken,
}
use qudata_agent.AgentConfig.{AgentConfig}
use qudata_agent.Network.Allocate.{Allocates, allocate_from_range-Allocates}
use qudata_agent.Domain.{Result, err, Error, ok}
use qudata_agent.Storage.{StoreEnv, agent_id, Files, secret}
use qudata_agent.Network.{app_port_min, allocate_one, app_port_max, PortSet}
use qudata_agent.Common.Text.{Text}
use qudata_agent.Qudata.{use_secret, InitAgentRespData, ApiClient, init_agent, ping}

-- What a start leaves of the other components' states.
pub record IsApart (a b : Agent) : Type 0 where
  pub vm : b.world.vm ≡ a.world.vm
  pub tunnel : b.world.tunnel ≡ a.world.tunnel
  pub key : b.api.key ≡ a.api.key
  pub url : b.api.base_url ≡ a.api.base_url

-- The agent's port is an allocation in the range for applications, and the client sends its secret.
pub record IsBooted (env : BootstrapEnv) (a b : Agent) (m : AgentMetadata) : Type 0 where
  pub port :
      Allocates app_port_min app_port_max env.probe a.world.taken (ok m.agent_port, b.world.taken)
  pub sender : b.api.secret ≡ m.secret_key

-- A failed start has not changed the client; its port, if it had one, stays taken.
pub record IsUnbooted (env : BootstrapEnv) (a b : Agent) : Type 0 where
  pub api : b.api ≡ a.api
  pub port :
      (b.world.taken ≡ a.world.taken)
      ⊎ ((p : ℕ) × Allocates app_port_min app_port_max env.probe a.world.taken
            (ok p, b.world.taken))

abbrev pub Boots : BootstrapEnv → Agent → Result AgentMetadata × Agent → Type 0
Boots env a (err e, b) = IsApart a b × IsUnbooted env a b
Boots env a (ok m, b) = IsApart a b × IsBooted env a b m

-- The secret that is returned is the one the client has.
keep_secret-sender :
    (store : StoreEnv) (s : Text) (a : Agent)
    → a.api.secret ≡ []
    → (keep_secret store s a).1.api.secret ≡ (keep_secret store s a).0
unfolding keep_secret use_secret
keep_secret-sender store (c ∷ s) a e = refl
keep_secret-sender store [] a e =
    elim (Bool-cases (is_nil (read_secret (secret store a.world.files)))) [
      | inl n ↦ rw n (e ∙ sym (is_nil-eq (read_secret (secret store a.world.files)) n))
      | inr f ↦ rw f refl
    ]

keep_secret-IsApart :
    (store : StoreEnv) (s : Text) (a : Agent) → IsApart a (keep_secret store s a).1
unfolding keep_secret use_secret
keep_secret-IsApart store (c ∷ s) a = record { vm = refl; tunnel = refl; key = refl; url = refl }
keep_secret-IsApart store [] a =
    elim (Bool-cases (is_nil (read_secret (secret store a.world.files)))) [
      | inl n ↦ rw n (record { vm = refl; tunnel = refl; key = refl; url = refl })
      | inr f ↦ rw f (record { vm = refl; tunnel = refl; key = refl; url = refl })
    ]

keep_secret-taken :
    (store : StoreEnv) (s : Text) (a : Agent)
    → (keep_secret store s a).1.world.taken ≡ a.world.taken
unfolding keep_secret
keep_secret-taken store (c ∷ s) a = refl
keep_secret-taken store [] a =
    elim (Bool-cases (is_nil (read_secret (secret store a.world.files)))) [
      | inl n ↦ rw n refl
      | inr f ↦ rw f refl
    ]

module _ (cfg : AgentConfig) (env : BootstrapEnv) (a : Agent) (unset : a.api.secret ≡ []) where
  -- The agent behind its id and its port, with what else it has by then.
  IsAllocated : ℕ → Agent → Type 0
  IsAllocated p b =
      (b.api ≡ a.api)
      × IsApart a b
      × Allocates app_port_min app_port_max env.probe a.world.taken (ok p, b.world.taken)

  finish_boot-Boots :
      (i : Text) (p : ℕ) (d : InitAgentRespData) (s : Text) (b : Agent)
      → b.api.secret ≡ s
      → IsApart a b
      → Allocates app_port_min app_port_max env.probe a.world.taken (ok p, b.world.taken)
      → Boots env a (finish_boot cfg env i p d (s, b))
  unfolding finish_boot
  finish_boot-Boots i p d s b e apart port = (
    record { vm = apart.vm; tunnel = apart.tunnel; key = apart.key; url = apart.url },
    record { port = port; sender = e },
  )

  on_init-Boots :
      (i : Text) (p : ℕ) (r : Result InitAgentRespData) (b : Agent)
      → IsAllocated p b
      → Boots env a (on_init cfg env i p r b)
  unfolding on_init IsAllocated
  on_init-Boots i p (err e) b (same, apart, port) =
      (apart, record { api = same; port = inr (p, port) })
  on_init-Boots i p (ok d) b (same, apart, port) =
      let k = keep_secret env.store d.secret_key b in
      let more = keep_secret-IsApart env.store d.secret_key b in
      finish_boot-Boots i p d k.0 k.1
        (keep_secret-sender env.store d.secret_key b
          (ap (λ (c : ApiClient). c.secret) same ∙ unset))
        (record {
          vm = more.vm ∙ apart.vm;
          tunnel = more.tunnel ∙ apart.tunnel;
          key = more.key ∙ apart.key;
          url = more.url ∙ apart.url;
        })
        (subst (λ t. Allocates app_port_min app_port_max env.probe a.world.taken (ok p, t))
          (sym (keep_secret-taken env.store d.secret_key b)) port)

  on_ping-Boots :
      (i : Text) (p : ℕ) (o : Option Error) (b : Agent)
      → IsAllocated p b
      → Boots env a (on_ping cfg env i p o b)
  unfolding on_ping IsAllocated
  on_ping-Boots i p (some e) b (same, apart, port) =
      (apart, record { api = same; port = inr (p, port) })
  on_ping-Boots i p none b h =
      on_init-Boots i p (init_agent env.json env.service b.api (init_request cfg env i p)) b h

  on_agent_port-Boots :
      (i : Text) (r : Result ℕ × PortSet) (files : Files)
      → Allocates app_port_min app_port_max env.probe a.world.taken r
      → Boots env a (on_agent_port cfg env i r (with_files a files))
  unfolding on_agent_port IsAllocated
  on_agent_port-Boots i (err e, taken) files (full, same) = (
    record { vm = refl; tunnel = refl; key = refl; url = refl },
    record { api = refl; port = inl same },
  )
  on_agent_port-Boots i (ok p, taken) files h =
      on_ping-Boots i p (ping env.service a.api) (with_taken (with_files a files) taken)
        (refl, record { vm = refl; tunnel = refl; key = refl; url = refl }, h)

  on_agent_id-Boots : (r : Result Text × Files) → Boots env a (on_agent_id cfg env r a)
  unfolding on_agent_id allocate_one
  on_agent_id-Boots (err e, files) = (
    record { vm = refl; tunnel = refl; key = refl; url = refl },
    record { api = refl; port = inl refl },
  )
  on_agent_id-Boots (ok i, files) =
      on_agent_port-Boots i (allocate_one env.probe a.world.taken) files (
        allocate_from_range-Allocates app_port_min app_port_max env.probe a.world.taken
          (omega arith))

-- Bootstrap on each branch: a start that succeeds has a fresh, free port of the range for applications,
-- which is now taken, and a client that sends the secret the metadata hold; one that fails leaves the
-- client as it was, and at most such a port taken. Either leaves the tunnel, the VM, and the key and
-- address of the client. The client must have no secret before, as a new one has none.
pub bootstrap-Boots :
    (cfg : AgentConfig) (env : BootstrapEnv) (a : Agent)
    → a.api.secret ≡ []
    → Boots env a (bootstrap cfg env a)
unfolding bootstrap
bootstrap-Boots cfg env a unset =
    on_agent_id-Boots cfg env a unset (agent_id env.store env.uuid a.world.files)
