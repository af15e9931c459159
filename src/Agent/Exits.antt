-- ===== src/Agent/Exits.antt =====
-- cmd/agent/main.go: what the program has left when it exits.
use qudata_agent.Server.Serving.{IsSound, Serves, Serves-IsSound}
use qudata_agent.Common.{
  subst, refl, inl, inr, Bool, true, false, Option, none, some, List, [], Bool-cases, is_nil, ◌≡◌,
  ◌∷◌, ◌∙◌,
}
use qudata_agent.Agent.Main.{
  Exit, Surroundings, on_new, new_agent, on_log, with_args, on_config, main, new_agent_of, MainEnv,
  unstarted, finished, on_management_key, management_key, vm_config, with_arg,
}
use qudata_agent.Domain.{Result, Error, err, ok}
use qudata_agent.AgentConfig.{load_with, AgentConfig, with_environ, load, Environ}
use qudata_agent.Server.Lifecycle.{World}
use qudata_agent.Common.Text.{Text, text_eq, str, has_prefix, trim_space}
use qudata_agent.Agent.Down.{IsOver, Ends, run_agent-Ends}
use qudata_agent.Qudata.{new_client}
use qudata_agent.Storage.{Files}

-- A program that has not come to Run has nothing to leave; another ends as Run does.
abbrev pub Exits : Bool → Exit → Type 0
Exits debug (unstarted e) = Unit {0}
Exits debug (finished o w) = Ends debug (o, w)

-- The requests keep what holds of the shared states.
abbrev KeepsSound : Surroundings → Type 0
KeepsSound s = (w : World) → IsSound w → IsSound (s.handle w)

-- What happens while the agent serves is steps of its handlers and of its processes.
abbrev pub IsServing : Surroundings → Type 0
IsServing s = (w : World) → Serves w (s.handle w)

on_management_key-Exits :
    (s : Surroundings) (cfg : AgentConfig) (files : Files) (r : Result Text)
    → KeepsSound s
    → IsOver s.ending
    → Exits cfg.debug (on_new s cfg (on_management_key cfg files r))
unfolding on_new new_agent_of new_client
on_management_key-Exits s cfg files (err e) keeps over = tt
on_management_key-Exits s cfg files (ok path) keeps over =
    run_agent-Ends cfg s.run (vm_config cfg path) s.host s.ending s.handle (new_agent_of cfg files)
      refl refl refl over keeps

new_agent-Exits :
    (env : MainEnv) (s : Surroundings) (o : Option Error) (cfg : AgentConfig) (host files : Files)
    → KeepsSound s
    → IsOver s.ending
    → Exits cfg.debug (on_new s cfg (new_agent env o cfg host files))
unfolding new_agent on_new
new_agent-Exits env s (some e) cfg host files keeps over = tt
new_agent-Exits env s none cfg host files keeps over =
    on_management_key-Exits s cfg files
      (management_key env cfg.management_key_path cfg.data_dir host) keeps over

on_log-Exits :
    (env : MainEnv) (s : Surroundings) (cfg : AgentConfig) (o : Option Error) (host files : Files)
    → KeepsSound s
    → IsOver s.ending
    → Exits cfg.debug (on_log env s cfg o host files)
unfolding on_log
on_log-Exits env s cfg (some e) host files keeps over = tt
on_log-Exits env s cfg none host files keeps over =
    new_agent-Exits env s env.data_dir cfg host files keeps over

with_arg-debug : (b : Bool) (cfg : AgentConfig) → (with_arg b cfg).debug ≡ cfg.debug
with_arg-debug true cfg = refl
with_arg-debug false cfg = refl

with_args-debug : (args : List Text) (cfg : AgentConfig) → (with_args args cfg).debug ≡ cfg.debug
unfolding with_args
with_args-debug [] cfg = refl
with_args-debug (arg ∷ args) cfg =
    with_args-debug args (with_arg (text_eq arg (str "--test")) cfg)
    ∙ with_arg-debug (text_eq arg (str "--test")) cfg

-- The debug mode that Load reads.
abbrev IsDebug : Bool → Result AgentConfig → Type 0
IsDebug debug (err e) = Unit {0}
IsDebug debug (ok cfg) = cfg.debug ≡ debug

load_with-IsDebug :
    (exists : Text → Bool) (environ : Environ) (key : Text)
    → IsDebug (text_eq (environ (str "QUDATA_DEBUG")) (str "true")) (load_with exists environ key)
unfolding load_with with_environ
load_with-IsDebug exists environ key = elim (Bool-cases (is_nil key)) [
  | inl e ↦ rw e tt
  | inr e ↦ elim (Bool-cases (has_prefix key (str "ak-"))) [
    | inl p ↦ rw (e, p) refl
    | inr p ↦ rw (e, p) tt
  ]
]

on_config-Exits :
    (env : MainEnv) (s : Surroundings) (args : List Text) (debug : Bool) (r : Result AgentConfig)
    (host files : Files)
    → KeepsSound s
    → IsOver s.ending
    → IsDebug debug r
    → Exits debug (on_config env s args r host files)
unfolding on_config
on_config-Exits env s args debug (err e) host files keeps over h = tt
on_config-Exits env s args debug (ok cfg) host files keeps over h =
    subst (λ b. Exits b (on_log env s (with_args args cfg) env.log host files))
      (with_args-debug args cfg ∙ h)
      (on_log-Exits env s (with_args args cfg) env.log host files keeps over)

-- The program, whatever its environment, its arguments and the files that it finds, and whatever the
-- handlers, their jobs and the processes do while it serves: when Run returns without an error, no frpc
-- process runs and no monitor starts one, and, unless QUDATA_DEBUG is "true", no VM runs and no GPU, disk
-- or process is held but the devices that a failed Bind left. The jobs, which shutdown does not wait for,
-- must not touch the tunnel and the VM any more once it has begun to stop them. When Run returns with an
-- error, only the invariants of the tunnel and of the manager hold: frpc and a VM may run on. The orphans
-- of earlier runs are not part of it; Bind must bind what it says.
pub main-Exits :
    (env : MainEnv) (s : Surroundings) (environ : Environ) (args : List Text) (host files : Files)
    → IsServing s
    → IsOver s.ending
    → Exits
        (text_eq (environ (str "QUDATA_DEBUG")) (str "true"))
        (main env s environ args host files)
unfolding main load
main-Exits env s environ args host files serving over =
    on_config-Exits env s args (text_eq (environ (str "QUDATA_DEBUG")) (str "true"))
      (load env.ovmf_exists environ) host files (λ w v. Serves-IsSound w (s.handle w) (serving w) v)
      over (load_with-IsDebug env.ovmf_exists environ (trim_space (environ (str "QUDATA_API_KEY"))))
