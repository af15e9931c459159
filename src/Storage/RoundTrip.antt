-- ===== src/Storage/RoundTrip.antt =====
-- internal/storage/store.go: reads behind writes.
use mathlib.Core.Option.{none-ne-some}
use mathlib.Core.Path.{subst}
use qudata_agent.Common.{refl, sym, inl, inr, false, Option, none, some, Bool-cases, is_nil, ◌≡◌}
use qudata_agent.Storage.{
  read_file, load_instance_state, write_file, clear_instance_state, on_id_written, generate_id,
  read_at, loaded, StoreEnv, Files, unmarshalled, Json, content, missing, write_at, remove_at,
  id_from, agent_id,
}
use qudata_agent.Common.Text.{Text, str, text_eq_refl, trim_space, text_eq}
use qudata_agent.Domain.{Result, Error, InstanceState, err, ok}

read_at-content :
    (u : Option Error) (n : Error) (o : Option Text) (t : Text)
    → u ≡ none
    → o ≡ some t
    → read_at u n o ≡ content t
unfolding read_at
read_at-content none n none t e f = absurd (none-ne-some t f)
read_at-content none n (some s) t e f = cc
read_at-content (some x) n o t e f = absurd (none-ne-some x (sym e))

read_at-missing :
    (u : Option Error) (n : Error) (o : Option Text)
    → u ≡ none
    → o ≡ none
    → read_at u n o ≡ missing n
unfolding read_at
read_at-missing none n none e f = refl
read_at-missing none n (some s) e f = absurd (none-ne-some s (sym f))
read_at-missing (some x) n o e f = absurd (none-ne-some x (sym e))

write_at-same :
    (w : Option (Error × Option Text)) (name t : Text) (files : Files)
    → w ≡ none
    → (write_at w name t files).1 name ≡ some t
unfolding write_at
write_at-same none name t files e = rw (text_eq_refl name) refl
write_at-same (some x) name t files e = absurd (none-ne-some x (sym e))

write_at-other :
    (w : Option (Error × Option Text)) (name t other : Text) (files : Files)
    → text_eq name other ≡ false
    → (write_at w name t files).1 other ≡ files other
unfolding write_at
write_at-other none name t other files h = rw h refl
write_at-other (some (e, left)) name t other files h = rw h refl

remove_at-gone :
    (r : Option Error) (name : Text) (files : Files)
    → r ≡ none
    → (remove_at r name files).1 name ≡ none
unfolding remove_at
remove_at-gone none name files e = rw (text_eq_refl name) refl
remove_at-gone (some x) name files e = absurd (none-ne-some x (sym e))

read_file-content :
    (env : StoreEnv) (name t : Text) (files : Files)
    → env.unreadable ≡ none
    → files name ≡ some t
    → read_file env name files ≡ content t
unfolding read_file
read_file-content env name t files e f =
    read_at-content env.unreadable env.not_exist (files name) t e f

read_file-missing :
    (env : StoreEnv) (name : Text) (files : Files)
    → env.unreadable ≡ none
    → files name ≡ none
    → read_file env name files ≡ missing env.not_exist
unfolding read_file
read_file-missing env name files e f = read_at-missing env.unreadable env.not_exist (files name) e f

-- What encoding/json is relied on for: the ports of a state are read back as they were written.
abbrev pub KeepsPorts : Json → Type 0
KeepsPorts json =
    (state : InstanceState)
    → (back : InstanceState) × (json.unmarshal (json.marshal state) ≡ ok back)
      × (back.allocated_ports ≡ state.allocated_ports)

-- The state that the file holds is the one that is loaded.
pub load_instance_state-some :
    (env : StoreEnv) (json : Json) (t : Text) (back : InstanceState) (files : Files)
    → env.unreadable ≡ none
    → json.unmarshal t ≡ ok back
    → files (str "instance_state.json") ≡ some t
    → load_instance_state env json files ≡ ok (some back)
unfolding load_instance_state loaded unmarshalled
load_instance_state-some env json t back files e same f =
    simp (read_file-content env (str "instance_state.json") t files e f, same)

pub load_instance_state-none :
    (env : StoreEnv) (json : Json) (files : Files)
    → env.unreadable ≡ none
    → files (str "instance_state.json") ≡ none
    → load_instance_state env json files ≡ ok none
unfolding load_instance_state loaded
load_instance_state-none env json files e f =
    simp (read_file-missing env (str "instance_state.json") files e f)

pub write_file-same :
    (env : StoreEnv) (name t : Text) (files : Files)
    → env.write ≡ none
    → (write_file env name t files).1 name ≡ some t
unfolding write_file
write_file-same env name t files e = write_at-same env.write name t files e

pub clear_instance_state-gone :
    (env : StoreEnv) (files : Files)
    → env.remove ≡ none
    → (clear_instance_state env files).1 (str "instance_state.json") ≡ none
unfolding clear_instance_state
clear_instance_state-gone env files e =
    remove_at-gone env.remove (str "instance_state.json") files e

-- The file of the id holds the one that was returned.
abbrev pub HoldsId : Result Text × Files → Type 0
HoldsId (err e, files) = Unit {0}
HoldsId (ok i, files) =
    (t : Text) × (files (str "agent_id") ≡ some t) × (trim_space t ≡ i) × (is_nil i ≡ false)

on_id_written-HoldsId :
    (w : Option (Error × Option Text)) (fresh : Text) (files : Files)
    → trim_space fresh ≡ fresh
    → is_nil fresh ≡ false
    → HoldsId (on_id_written fresh (write_at w (str "agent_id") fresh files))
unfolding on_id_written write_at
on_id_written-HoldsId (some (e, left)) fresh files trim full = tt
on_id_written-HoldsId none fresh files trim full =
    (fresh, rw (text_eq_refl (str "agent_id")) refl, trim, full)

generate_id-HoldsId :
    (env : StoreEnv) (fresh : Text) (files : Files)
    → trim_space fresh ≡ fresh
    → is_nil fresh ≡ false
    → HoldsId (generate_id env fresh files)
unfolding generate_id write_file
generate_id-HoldsId env fresh files trim full =
    on_id_written-HoldsId env.write fresh files trim full

id_from-HoldsId :
    (env : StoreEnv) (fresh : Text) (u : Option Error) (o : Option Text) (files : Files)
    → trim_space fresh ≡ fresh
    → is_nil fresh ≡ false
    → files (str "agent_id") ≡ o
    → HoldsId (id_from env fresh (read_at u env.not_exist o) files)
unfolding id_from read_at
id_from-HoldsId env fresh (some e) o files trim full f =
    generate_id-HoldsId env fresh files trim full
id_from-HoldsId env fresh none none files trim full f =
    generate_id-HoldsId env fresh files trim full
id_from-HoldsId env fresh none (some t) files trim full f =
    elim (Bool-cases (is_nil (trim_space t))) [
      | inl e ↦ rw e (generate_id-HoldsId env fresh files trim full)
      | inr e ↦ rw e (t, f, refl, e)
    ]

pub agent_id-HoldsId :
    (env : StoreEnv) (fresh : Text) (files : Files)
    → trim_space fresh ≡ fresh
    → is_nil fresh ≡ false
    → HoldsId (agent_id env fresh files)
unfolding agent_id read_file
agent_id-HoldsId env fresh files trim full =
    id_from-HoldsId env fresh env.unreadable (files (str "agent_id")) files trim full refl

-- A write changes the file of its name only, even one that fails.
pub write_file-other :
    (env : StoreEnv) (name t other : Text) (files : Files)
    → text_eq name other ≡ false
    → (write_file env name t files).1 other ≡ files other
unfolding write_file
write_file-other env name t other files h = write_at-other env.write name t other files h

-- What a later call returns, from what the earlier one has left.
pub held_id :
    (env : StoreEnv) (fresh i : Text) (files : Files)
    → HoldsId (ok i, files)
    → env.unreadable ≡ none
    → agent_id env fresh files ≡ (ok i, files)
unfolding agent_id id_from
held_id env fresh i files (t, f, e, full) readable =
    simp (read_file-content env (str "agent_id") t files readable f, e, full)

-- The id of the agent is stable: once AgentID has returned an id, it returns the same one again and
-- writes nothing, whatever uuid.New would give, as long as the file can be read. A fresh id must have
-- a character and no space around it.
pub agent_id-agent_id :
    (env later : StoreEnv) (fresh other i : Text) (files files' : Files)
    → trim_space fresh ≡ fresh
    → is_nil fresh ≡ false
    → agent_id env fresh files ≡ (ok i, files')
    → later.unreadable ≡ none
    → agent_id later other files' ≡ (ok i, files')
agent_id-agent_id env later fresh other i files files' trim full e readable =
    held_id later other i files' (subst HoldsId e (agent_id-HoldsId env fresh files trim full))
      readable
