-- ===== src/Agent/Identity.antt =====
-- internal/agent/agent.go: the identity of the agent over two starts.
use qudata_agent.Common.{
  subst, ℕ, refl, Bool, true, false, Option, none, some, [], is_nil, ◌≡◌, ◌∷◌,
}
use qudata_agent.Common.Text.{Text, trim_space, str}
use qudata_agent.Qudata.{
  InitJson, on_init_parsed, on_init_body, init_agent, InitAgentRespData, Service, ApiClient,
  InitAgentRequest, do_request, ping,
}
use qudata_agent.Domain.{Result, err, ok, Error}
use qudata_agent.Agent.{
  keep_secret, finish_boot, AgentMetadata, BootstrapEnv, Agent, on_init, on_ping, on_agent_port,
  on_agent_id, bootstrap, init_request, with_taken,
}
use qudata_agent.AgentConfig.{AgentConfig}
use qudata_agent.Storage.{StoreEnv}
use qudata_agent.Agent.Restart.{
  HoldsSecret, Leaves, bootstrap-Leaves, HoldsId-other, HoldsSecret-other,
}
use qudata_agent.Network.{PortSet, allocate_one}
use qudata_agent.Storage.RoundTrip.{HoldsId, held_id}

-- A start that fails, or one that knows the id and the secret.
abbrev pub Knows : Text → Text → Result AgentMetadata × Agent → Type 0
Knows i s (err e, b) = Unit {0}
Knows i s (ok m, b) = (m.id ≡ i) × (m.secret_key ≡ s)

-- A response to /init has no secret, as of a service that knows the agent.
abbrev pub GivesNoSecret : InitJson → Type 0
GivesNoSecret json =
    (t : Text) (d : InitAgentRespData) → json.unmarshal t ≡ ok (true, d) → d.secret_key ≡ []

abbrev HasNoSecret : Result InitAgentRespData → Type 0
HasNoSecret (err e) = Unit {0}
HasNoSecret (ok d) = d.secret_key ≡ []

on_init_parsed-HasNoSecret :
    (r : Result (Bool × InitAgentRespData))
    → ((d : InitAgentRespData) → r ≡ ok (true, d) → d.secret_key ≡ [])
    → HasNoSecret (on_init_parsed r)
unfolding on_init_parsed
on_init_parsed-HasNoSecret (err e) h = tt
on_init_parsed-HasNoSecret (ok (false, d)) h = tt
on_init_parsed-HasNoSecret (ok (true, d)) h = h d refl

on_init_body-HasNoSecret :
    (json : InitJson) (r : Result Text) → GivesNoSecret json → HasNoSecret (on_init_body json r)
unfolding on_init_body
on_init_body-HasNoSecret json (err e) h = tt
on_init_body-HasNoSecret json (ok t) h = on_init_parsed-HasNoSecret (json.unmarshal t) (h t)

init_agent-HasNoSecret :
    (json : InitJson) (service : Service) (c : ApiClient) (req : InitAgentRequest)
    → GivesNoSecret json
    → HasNoSecret (init_agent json service c req)
unfolding init_agent
init_agent-HasNoSecret json service c req h =
    on_init_body-HasNoSecret json
      (do_request service c (str "POST") (str "/init") (some (json.marshal req))) h

keep_secret-stored :
    (store : StoreEnv) (s t : Text) (a : Agent)
    → s ≡ []
    → HoldsSecret t a.world.files
    → store.unreadable ≡ none
    → (keep_secret store s a).0 ≡ t
unfolding keep_secret
keep_secret-stored store [] t a e h readable = h store readable
keep_secret-stored store (c ∷ s) t a e h readable = cc

finish_boot-Knows :
    (cfg : AgentConfig) (env : BootstrapEnv) (i : Text) (port : ℕ) (d : InitAgentRespData)
    (t : Text) (r : Text × Agent)
    → r.0 ≡ t
    → Knows i t (finish_boot cfg env i port d r)
unfolding finish_boot
finish_boot-Knows cfg env i port d t (s, a) e = (refl, e)

module _ (cfg : AgentConfig) (env : BootstrapEnv) (i t : Text)
    (readable : env.store.unreadable ≡ none) (silent : GivesNoSecret env.json) where
  on_init-Knows :
      (port : ℕ) (r : Result InitAgentRespData) (a : Agent)
      → HasNoSecret r
      → HoldsSecret t a.world.files
      → Knows i t (on_init cfg env i port r a)
  unfolding on_init
  on_init-Knows port (err e) a none_in h = tt
  on_init-Knows port (ok d) a none_in h =
      finish_boot-Knows cfg env i port d t (keep_secret env.store d.secret_key a)
        (keep_secret-stored env.store d.secret_key t a none_in h readable)

  on_ping-Knows :
      (port : ℕ) (o : Option Error) (a : Agent)
      → HoldsSecret t a.world.files
      → Knows i t (on_ping cfg env i port o a)
  unfolding on_ping
  on_ping-Knows port (some e) a h = tt
  on_ping-Knows port none a h =
      on_init-Knows port (init_agent env.json env.service a.api (init_request cfg env i port)) a
        (init_agent-HasNoSecret env.json env.service a.api (init_request cfg env i port) silent) h

  on_agent_port-Knows :
      (r : Result ℕ × PortSet) (a : Agent)
      → HoldsSecret t a.world.files
      → Knows i t (on_agent_port cfg env i r a)
  unfolding on_agent_port
  on_agent_port-Knows (err e, taken) a h = tt
  on_agent_port-Knows (ok port, taken) a h =
      on_ping-Knows port (ping env.service a.api) (with_taken a taken) h

  on_agent_id-Knows :
      (a : Agent)
      → HoldsSecret t a.world.files
      → Knows i t (on_agent_id cfg env (ok i, a.world.files) a)
  unfolding on_agent_id
  on_agent_id-Knows a h = on_agent_port-Knows (allocate_one env.probe a.world.taken) a h

  -- A start over a data directory that holds an id and a secret.
  bootstrap-Knows :
      (a : Agent)
      → HoldsId (ok i, a.world.files)
      → HoldsSecret t a.world.files
      → Knows i t (bootstrap cfg env a)
  unfolding bootstrap
  bootstrap-Knows a h k =
      rw (held_id env.store env.uuid i a.world.files h readable) (on_agent_id-Knows a k)

-- The identity of the agent survives a restart: what a start that succeeded knew as its id and its
-- secret, the next one knows again, if it succeeds at all, though the service gives no secret any more.
-- The next start has its own configuration, service, ports and new uuid, and finds the two files as the
-- first has left them. The data directory must be readable in both and writable in the first; the first
-- new uuid must not be empty, and neither it nor the secret may have space around it.
pub bootstrap-bootstrap :
    (cfg cfg' : AgentConfig) (env env' : BootstrapEnv) (a b a' : Agent) (m : AgentMetadata)
    → env.store.unreadable ≡ none
    → env.store.write ≡ none
    → trim_space env.uuid ≡ env.uuid
    → is_nil env.uuid ≡ false
    → bootstrap cfg env a ≡ (ok m, b)
    → trim_space m.secret_key ≡ m.secret_key
    → a'.world.files (str "agent_id") ≡ b.world.files (str "agent_id")
    → a'.world.files (str "agent_secret") ≡ b.world.files (str "agent_secret")
    → env'.store.unreadable ≡ none
    → GivesNoSecret env'.json
    → Knows m.id m.secret_key (bootstrap cfg' env' a')
bootstrap-bootstrap cfg cfg' env env' a b a' m readable written trim full booted trim' same_id
      same_secret readable' silent =
    let (holds, keeps) =
      subst Leaves booted (bootstrap-Leaves cfg env a readable written trim full) in
    bootstrap-Knows cfg' env' m.id m.secret_key readable' silent a'
      (HoldsId-other m.id b.world.files a'.world.files same_id holds)
      (HoldsSecret-other m.secret_key b.world.files a'.world.files same_secret (keeps trim'))
