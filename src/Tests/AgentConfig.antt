-- ===== src/Tests/AgentConfig.antt =====
-- Load over an environment with a key and a list of GPUs.
use qudata_agent.AgentConfig.Valid.{load-Loads, Loads}
use qudata_agent.AgentConfig.{Environ, load}
use qudata_agent.Common.{refl, inl, true, [], ◌≡◌, if◌then◌else◌}
use qudata_agent.Common.Text.{text_eq, str, trim_space, codes}

abbrev env : Environ
env v =
    if text_eq v (codes "QUDATA_API_KEY")
    then codes " ak-1 "
    else if text_eq v (codes "QUDATA_GPU_PCI_ADDRS")
    then codes "0000:01:00.0, ,0000:02:00.0"
    else []

env_single : env (str "QUDATA_GPU_PCI_ADDR") ≡ []
unfolding str text_eq
env_single = refl

load-Loads_example : Loads (trim_space (env (str "QUDATA_API_KEY"))) (load (λ f. true) env)
load-Loads_example = load-Loads (λ f. true) env (inl env_single)
