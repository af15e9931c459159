-- ===== src/AgentConfig/Valid.antt =====
-- internal/config/config.go: what a configuration that Load returns holds.
use qudata_agent.Common.{
  refl, inl, inr, Bool, true, false, List, [], Bool-cases, is_nil, All, ◌≡◌, ◌∷◌, ◌⊎◌,
  if◌then◌else◌,
}
use qudata_agent.AgentConfig.{
  AgentConfig, keep_addrs, gpu_addrs_of, load, or_addrs, single_addr, with_environ, Environ,
  load_with,
}
use qudata_agent.Common.Text.{Text, has_prefix, trim_space, split, str}
use qudata_agent.Domain.{Result, err, plain, ok}

-- A usable key, and GPU addresses of which none is empty.
pub record IsValid (cfg : AgentConfig) : Type 0 where
  pub key_prefix : has_prefix cfg.api_key (str "ak-") ≡ true
  pub addrs : All (λ a. is_nil a ≡ false) cfg.gpu_pci_addrs

-- Load on each branch, by the trimmed key and the single address.
abbrev pub Loads : Text → Result AgentConfig → Type 0
Loads key (err e) =
    (has_prefix key (str "ak-") ≡ false)
    × (e
        ≡ plain (
            if is_nil key
            then str "QUDATA_API_KEY is required"
            else str "QUDATA_API_KEY must start with 'ak-'"))
Loads key (ok cfg) = IsValid cfg × (cfg.api_key ≡ key)

keep_addrs-All : (l : List Text) → All (λ a. is_nil a ≡ false) (keep_addrs l)
unfolding keep_addrs
keep_addrs-All [] = tt
keep_addrs-All (a ∷ rest) = elim (Bool-cases (is_nil (trim_space a))) [
  | inl e ↦ rw e (keep_addrs-All rest)
  | inr e ↦ rw e (e, keep_addrs-All rest)
]

or_addrs-All :
    (l before : List Text)
    → All (λ a. is_nil a ≡ false) l
    → All (λ a. is_nil a ≡ false) before
    → All (λ a. is_nil a ≡ false) (or_addrs l before)
or_addrs-All [] before h b = b
or_addrs-All (a ∷ l) before h b = h

-- The variable of a single GPU is not set, or names one.
abbrev pub NamesOne : Text → Type 0
NamesOne v = (v ≡ []) ⊎ (is_nil (trim_space v) ≡ false)

single_addr-All : (v : Text) → NamesOne v → All (λ a. is_nil a ≡ false) (single_addr v [])
single_addr-All [] h = tt
single_addr-All (c ∷ v) (inl e) = cc
single_addr-All (c ∷ v) (inr e) = (e, tt)

gpu_addrs_of-All :
    (single several : Text)
    → NamesOne single
    → All (λ a. is_nil a ≡ false) (gpu_addrs_of single several)
unfolding gpu_addrs_of
gpu_addrs_of-All single several h =
    or_addrs-All (keep_addrs (split 44 several)) (single_addr single [])
      (keep_addrs-All (split 44 several)) (single_addr-All single h)

load_with-Loads :
    (exists : Text → Bool) (env : Environ) (key : Text)
    → NamesOne (env (str "QUDATA_GPU_PCI_ADDR"))
    → Loads key (load_with exists env key)
unfolding load_with with_environ has_prefix str
load_with-Loads exists env [] one = (refl, refl)
load_with-Loads exists env (c ∷ key) one = elim (Bool-cases (has_prefix (c ∷ key) (str "ak-"))) [
  | inr e ↦ rw e (e, refl)
  | inl e ↦ rw e (
    record {
      key_prefix = e;
      addrs =
          gpu_addrs_of-All (env (str "QUDATA_GPU_PCI_ADDR")) (env (str "QUDATA_GPU_PCI_ADDRS")) one;
    },
    refl,
  )
]

-- Load fails exactly where the trimmed key does not start with "ak-", with the error for an empty key or
-- the one for another; else the configuration has that key and no empty GPU address. The variable of a
-- single GPU must not consist of spaces only.
pub load-Loads :
    (exists : Text → Bool) (env : Environ)
    → NamesOne (env (str "QUDATA_GPU_PCI_ADDR"))
    → Loads (trim_space (env (str "QUDATA_API_KEY"))) (load exists env)
unfolding load
load-Loads exists env one = load_with-Loads exists env (trim_space (env (str "QUDATA_API_KEY"))) one
