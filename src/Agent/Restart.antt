-- ===== src/Agent/Restart.antt =====
-- internal/agent/agent.go: what an agent that is started again knows of its last start.
use qudata_agent.Common.{
  none-ne-some, ℕ, refl, sym, inl, inr, false, Option, none, some, [], Bool-cases, is_nil, ◌≡◌, ◌∷◌,
  ◌∙◌,
}
use qudata_agent.Common.Text.{Text, text_eq, str, trim_space}
use qudata_agent.Storage.{
  trimmed_or_empty, secret, save_secret, Files, read_at, read_file, save_api_key, StoreEnv,
  write_file, agent_id,
}
use qudata_agent.Domain.{Result, Error, ok, err}
use qudata_agent.Agent.{
  finish_boot, keep_secret, AgentMetadata, Agent, BootstrapEnv, read_secret, use_secret, with_files,
  on_init, on_ping, on_agent_port, on_agent_id, bootstrap, init_request, with_taken,
}
use qudata_agent.AgentConfig.{AgentConfig}
use qudata_agent.Storage.RoundTrip.{HoldsId, write_file-same, write_file-other, agent_id-HoldsId}
use qudata_agent.Qudata.{InitAgentRespData, init_agent, ping}
use qudata_agent.Network.{PortSet, allocate_one}

-- The secret that a readable data directory gives.
abbrev pub HoldsSecret : Text → Files → Type 0
HoldsSecret s files = (env : StoreEnv) → env.unreadable ≡ none → read_secret (secret env files) ≡ s

secret_at-same :
    (u u' : Option Error) (n n' : Error) (o : Option Text)
    → u ≡ none
    → u' ≡ none
    → read_secret (trimmed_or_empty (read_at u n o))
      ≡ read_secret (trimmed_or_empty (read_at u' n' o))
unfolding trimmed_or_empty read_at
secret_at-same none none n n' none e f = refl
secret_at-same none none n n' (some t) e f = refl
secret_at-same (some x) u' n n' o e f = absurd (none-ne-some x (sym e))
secret_at-same none (some x) n n' o e f = absurd (none-ne-some x (sym f))

secret-HoldsSecret :
    (env : StoreEnv) (files : Files)
    → env.unreadable ≡ none
    → HoldsSecret (read_secret (secret env files)) files
unfolding secret read_file
secret-HoldsSecret env files e env' e' =
    secret_at-same env'.unreadable env.unreadable env'.not_exist env.not_exist
      (files (str "agent_secret")) e' e

pub HoldsSecret-other :
    (s : Text) (files files' : Files)
    → files' (str "agent_secret") ≡ files (str "agent_secret")
    → HoldsSecret s files
    → HoldsSecret s files'
unfolding secret read_file
HoldsSecret-other s files files' same h later e = rw same (h later e)

HoldsSecret-write_file :
    (env : StoreEnv) (name t s : Text) (files : Files)
    → text_eq name (str "agent_secret") ≡ false
    → HoldsSecret s files
    → HoldsSecret s (write_file env name t files).1
HoldsSecret-write_file env name t s files other h =
    HoldsSecret-other s files (write_file env name t files).1
      (write_file-other env name t (str "agent_secret") files other) h

save_secret-HoldsSecret :
    (env : StoreEnv) (s : Text) (files : Files)
    → env.write ≡ none
    → trim_space s ≡ s
    → HoldsSecret s (save_secret env s files).1
unfolding save_secret secret read_file trimmed_or_empty read_at
save_secret-HoldsSecret env s files written trim later e =
    simp (e, write_file-same env (str "agent_secret") s files written) trim

-- What a start that succeeded leaves in the data directory.
abbrev pub Leaves : Result AgentMetadata × Agent → Type 0
Leaves (err e, b) = Unit {0}
Leaves (ok m, b) =
    HoldsId (ok m.id, b.world.files)
    × (trim_space m.secret_key ≡ m.secret_key → HoldsSecret m.secret_key b.world.files)

pub HoldsId-other :
    (i : Text) (files files' : Files)
    → files' (str "agent_id") ≡ files (str "agent_id")
    → HoldsId (ok i, files)
    → HoldsId (ok i, files')
HoldsId-other i files files' same (t, f, e, full) = (t, same ∙ f, e, full)

HoldsId-write_file :
    (env : StoreEnv) (name t i : Text) (files : Files)
    → text_eq name (str "agent_id") ≡ false
    → HoldsId (ok i, files)
    → HoldsId (ok i, (write_file env name t files).1)
HoldsId-write_file env name t i files other h =
    HoldsId-other i files (write_file env name t files).1
      (write_file-other env name t (str "agent_id") files other) h

secret_ne_id : text_eq (str "agent_secret") (str "agent_id") ≡ false
unfolding text_eq str
secret_ne_id = refl

key_ne_id : text_eq (str "api_key") (str "agent_id") ≡ false
unfolding text_eq str
key_ne_id = refl

key_ne_secret : text_eq (str "api_key") (str "agent_secret") ≡ false
unfolding text_eq str
key_ne_secret = refl

finish_boot-Leaves :
    (cfg : AgentConfig) (env : BootstrapEnv) (i : Text) (port : ℕ) (d : InitAgentRespData)
    (s : Text) (a : Agent)
    → HoldsId (ok i, a.world.files)
    → (trim_space s ≡ s → HoldsSecret s a.world.files)
    → Leaves (finish_boot cfg env i port d (s, a))
unfolding finish_boot save_api_key
finish_boot-Leaves cfg env i port d s a h k = (
  HoldsId-write_file env.store (str "api_key") cfg.api_key i a.world.files key_ne_id h,
  λ trim.
      HoldsSecret-write_file env.store (str "api_key") cfg.api_key s a.world.files key_ne_secret
        (k trim),
)

on_secret-Leaves :
    (cfg : AgentConfig) (env : BootstrapEnv) (i : Text) (port : ℕ) (d : InitAgentRespData)
    (s : Text) (a : Agent)
    → env.store.unreadable ≡ none
    → env.store.write ≡ none
    → HoldsId (ok i, a.world.files)
    → Leaves (finish_boot cfg env i port d (keep_secret env.store s a))
unfolding keep_secret save_secret
on_secret-Leaves cfg env i port d (c ∷ s) a readable written h =
    let files' = (save_secret env.store (c ∷ s) a.world.files).1 in
    finish_boot-Leaves cfg env i port d (c ∷ s)
      (record (with_files a files') { api = use_secret (c ∷ s) a.api })
      (HoldsId-write_file env.store (str "agent_secret") (c ∷ s) i a.world.files secret_ne_id h)
      (λ trim. save_secret-HoldsSecret env.store (c ∷ s) a.world.files written trim)
on_secret-Leaves cfg env i port d [] a readable written h =
    elim (Bool-cases (is_nil (read_secret (secret env.store a.world.files)))) [
      | inl e ↦ rw e (
          finish_boot-Leaves cfg env i port d (read_secret (secret env.store a.world.files)) a h
            (λ trim. secret-HoldsSecret env.store a.world.files readable))
      | inr e ↦ rw e (
          finish_boot-Leaves cfg env i port d (read_secret (secret env.store a.world.files))
            (record a { api = use_secret (read_secret (secret env.store a.world.files)) a.api }) h
            (λ trim. secret-HoldsSecret env.store a.world.files readable))
    ]

on_init-Leaves :
    (cfg : AgentConfig) (env : BootstrapEnv) (i : Text) (port : ℕ) (r : Result InitAgentRespData)
    (a : Agent)
    → env.store.unreadable ≡ none
    → env.store.write ≡ none
    → HoldsId (ok i, a.world.files)
    → Leaves (on_init cfg env i port r a)
unfolding on_init
on_init-Leaves cfg env i port (err e) a readable written h = tt
on_init-Leaves cfg env i port (ok d) a readable written h =
    on_secret-Leaves cfg env i port d d.secret_key a readable written h

on_ping-Leaves :
    (cfg : AgentConfig) (env : BootstrapEnv) (i : Text) (port : ℕ) (o : Option Error) (a : Agent)
    → env.store.unreadable ≡ none
    → env.store.write ≡ none
    → HoldsId (ok i, a.world.files)
    → Leaves (on_ping cfg env i port o a)
unfolding on_ping
on_ping-Leaves cfg env i port (some e) a readable written h = tt
on_ping-Leaves cfg env i port none a readable written h =
    on_init-Leaves cfg env i port
      (init_agent env.json env.service a.api (init_request cfg env i port)) a readable written h

on_agent_port-Leaves :
    (cfg : AgentConfig) (env : BootstrapEnv) (i : Text) (r : Result ℕ × PortSet) (a : Agent)
    → env.store.unreadable ≡ none
    → env.store.write ≡ none
    → HoldsId (ok i, a.world.files)
    → Leaves (on_agent_port cfg env i r a)
unfolding on_agent_port
on_agent_port-Leaves cfg env i (err e, taken) a readable written h = tt
on_agent_port-Leaves cfg env i (ok port, taken) a readable written h =
    on_ping-Leaves cfg env i port (ping env.service a.api) (with_taken a taken) readable written h

on_agent_id-Leaves :
    (cfg : AgentConfig) (env : BootstrapEnv) (r : Result Text × Files) (a : Agent)
    → env.store.unreadable ≡ none
    → env.store.write ≡ none
    → HoldsId r
    → Leaves (on_agent_id cfg env r a)
unfolding on_agent_id
on_agent_id-Leaves cfg env (err e, files) a readable written h = tt
on_agent_id-Leaves cfg env (ok i, files) a readable written h =
    on_agent_port-Leaves cfg env i (allocate_one env.probe a.world.taken) (with_files a files)
      readable written h

pub bootstrap-Leaves :
    (cfg : AgentConfig) (env : BootstrapEnv) (a : Agent)
    → env.store.unreadable ≡ none
    → env.store.write ≡ none
    → trim_space env.uuid ≡ env.uuid
    → is_nil env.uuid ≡ false
    → Leaves (bootstrap cfg env a)
unfolding bootstrap
bootstrap-Leaves cfg env a readable written trim full =
    on_agent_id-Leaves cfg env (agent_id env.store env.uuid a.world.files) a readable written
      (agent_id-HoldsId env.store env.uuid a.world.files trim full)
