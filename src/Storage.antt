-- ===== src/Storage.antt =====
-- internal/storage/store.go: the files of the data directory, by their names in it.
pub mod RoundTrip
use qudata_agent.Common.{
  ℕ, zero, suc, refl, sym, ap, fun_ext, inl, inr, Bool, true, false, not, Option, none, some, List,
  [], map, arith, ltb, leb, ltb→lt, lt→ltb, leb→le, ==_iff, ==_refl, ==_ne, Bool-cases,
  Option-cases, length, get_elem?, is_nil, length-append, length-map, All, All-append, All-map, ℤ,
  pos, negsuc, int_eq, is_pos, int_eq_iff, int_eq_refl, take, take-nil, is_nil-eq, is_nil-ne,
  ne_of_is_nil, int_le, to_bits, of_bits, mul64, ◌≡◌, ◌+◌, ◌-◌, ◌++◌, ◌∷◌, ◌≢◌, ◌&&◌, ◌||◌, ◌==◌,
  ◌⊎◌, ◌↔◌, ◌∙◌, if◌then◌else◌, ◌≤◌, ◌<◌,
}
use qudata_agent.Common.Text.{Text, text_eq, str, trim_space}
use qudata_agent.Domain.{Error, InstanceState, Result, err, ok, wrapped}

abbrev pub Files : Type 0
Files = Text → Option Text

abbrev pub put_file : Text → Option Text → Files → Files
put_file name t files n = if text_eq name n then t else files n

-- What the calls outside the program answer: the error of a read that fails though the file is
-- there, the error for a file that is not there, that of a write, with what it leaves of the file, and
-- that of a removal.
pub record StoreEnv : Type 0 where
  pub unreadable : Option Error
  pub not_exist : Error
  pub write : Option (Error × Option Text)
  pub remove : Option Error

-- encoding/json, for the instance state.
pub record Json : Type 0 where
  pub marshal : InstanceState → Text
  pub unmarshal : Text → Result InstanceState

-- The result of os.ReadFile, with what os.IsNotExist says of its error.
pub data Read : Type 0 where
  content : Text → Read
  missing : Error → Read
  unread : Error → Read

unfoldable pub read_at : Option Error → Error → Option Text → Read
read_at (some e) not_exist t = unread e
read_at none not_exist none = missing not_exist
read_at none not_exist (some t) = content t

unfoldable pub read_file : StoreEnv → Text → Files → Read
unfolding read_at
read_file env name files = read_at env.unreadable env.not_exist (files name)

unfoldable pub write_at : Option (Error × Option Text) → Text → Text → Files → Option Error × Files
write_at (some (e, left)) name t files = (some e, put_file name left files)
write_at none name t files = (none, put_file name (some t) files)

unfoldable pub write_file : StoreEnv → Text → Text → Files → Option Error × Files
unfolding write_at
write_file env name t files = write_at env.write name t files

-- The new id, unless it cannot be written.
unfoldable pub on_id_written : Text → Option Error × Files → Result Text × Files
on_id_written id (some e, files) = (err (wrapped (str "write agent id") e []), files)
on_id_written id (none, files) = (ok id, files)

unfoldable pub generate_id : StoreEnv → Text → Files → Result Text × Files
unfolding on_id_written
generate_id env id files = on_id_written id (write_file env (str "agent_id") id files)

-- AgentID by what the file holds; `fresh` is the answer of uuid.New.
unfoldable pub id_from : StoreEnv → Text → Read → Files → Result Text × Files
unfolding generate_id
id_from env fresh (content t) files =
    if is_nil (trim_space t) then generate_id env fresh files else (ok (trim_space t), files)
id_from env fresh (missing e) files = generate_id env fresh files
id_from env fresh (unread e) files = generate_id env fresh files

unfoldable pub agent_id : StoreEnv → Text → Files → Result Text × Files
unfolding id_from
agent_id env fresh files = id_from env fresh (read_file env (str "agent_id") files) files

unfoldable pub save_api_key : StoreEnv → Text → Files → Option Error × Files
save_api_key env key files = write_file env (str "api_key") key files

unfoldable pub trimmed : Read → Result Text
trimmed (content t) = ok (trim_space t)
trimmed (missing e) = err e
trimmed (unread e) = err e

unfoldable pub api_key : StoreEnv → Files → Result Text
unfolding trimmed
api_key env files = trimmed (read_file env (str "api_key") files)

unfoldable pub save_secret : StoreEnv → Text → Files → Option Error × Files
save_secret env key files = write_file env (str "agent_secret") key files

unfoldable pub trimmed_or_empty : Read → Result Text
trimmed_or_empty (content t) = ok (trim_space t)
trimmed_or_empty (missing e) = ok []
trimmed_or_empty (unread e) = err e

unfoldable pub secret : StoreEnv → Files → Result Text
unfolding trimmed_or_empty
secret env files = trimmed_or_empty (read_file env (str "agent_secret") files)

-- json.MarshalIndent fails on no value of the type.
unfoldable pub save_instance_state : StoreEnv → Json → InstanceState → Files → Option Error × Files
save_instance_state env json state files =
    write_file env (str "instance_state.json") (json.marshal state) files

unfoldable pub unmarshalled : Result InstanceState → Result (Option InstanceState)
unmarshalled (ok state) = ok (some state)
unmarshalled (err e) = err (wrapped (str "unmarshal instance state") e [])

unfoldable pub loaded : Json → Read → Result (Option InstanceState)
unfolding unmarshalled
loaded json (content t) = unmarshalled (json.unmarshal t)
loaded json (missing e) = ok none
loaded json (unread e) = err e

unfoldable pub load_instance_state : StoreEnv → Json → Files → Result (Option InstanceState)
unfolding loaded
load_instance_state env json files = loaded json (read_file env (str "instance_state.json") files)

unfoldable pub remove_at : Option Error → Text → Files → Option Error × Files
remove_at (some e) name files = (some e, files)
remove_at none name files = (none, put_file name none files)

-- A file that is not there is no error.
unfoldable pub clear_instance_state : StoreEnv → Files → Option Error × Files
unfolding remove_at
clear_instance_state env files = remove_at env.remove (str "instance_state.json") files
