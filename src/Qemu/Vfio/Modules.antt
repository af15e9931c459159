-- ===== src/Qemu/Vfio/Modules.antt =====
-- internal/qemu/vfio.go: unloadGPUModules, which stops what uses the NVIDIA driver and unloads it.
use qudata_agent.Common.{
  Bool, true, false, not, Option, none, some, List, [], ◌++◌, ◌∷◌, ◌||◌, ◌==◌, if◌then◌else◌,
}
use qudata_agent.Common.Text.{
  Text, str, is_space, trim_left, text_eq, join_path, trim_space, contains,
}
use qudata_agent.Qemu.Vfio.Sysfs.{Sysfs, Ran}
use qudata_agent.Domain.{Result, Error, plain, err, ok, wrapped}
use qudata_agent.Qemu.Vfio.{Vfio}

abbrev pub nvidia_modules : List Text
nvidia_modules = str "nvidia_uvm" ∷ str "nvidia_drm" ∷ str "nvidia_modeset" ∷ str "nvidia" ∷ []

abbrev pub nvidia_services : List Text
nvidia_services =
    str "nvidia-persistenced" ∷ str "nvidia-fabricmanager" ∷ str "nvidia-powerd" ∷ str "dcgm" ∷ []

-- strings.Fields(line)[0], empty where there are no fields.
unfoldable pub word : Text → Text
word [] = []
word (c ∷ t) = if is_space c then [] else c ∷ word t

unfoldable pub first_field : Text → Text
unfolding word
first_field line = word (trim_left line)

-- Whether the first field of one of the lines is `name`; `line` is the line that is being read.
unfoldable pub names_module : Text → Text → Text → Bool
unfolding first_field
names_module name line [] = text_eq (first_field line) name
names_module name line (c ∷ t) =
    let rest = names_module name [] t in
    if c == 10
    then text_eq (first_field line) name || rest
    else names_module name (line ++ c ∷ []) t

unfoldable pub rmmod_error : Text → Ran → Option Error
rmmod_error name r = elim r.failure [
  | none ↦ none
  | some (e, true) ↦ some (
      plain (
        str "rmmod "
        ++ (name ++ str " timed out after 30s — GPU may be in use by another process")))
  | some (e, false) ↦
      let msg = trim_space r.out in
      if contains msg (str "in use")
      then some (
          plain (
            str "GPU is in use, cannot bind to VFIO: failed to unload "
            ++ (name ++ (str ": " ++ msg))))
      else some (wrapped (str "failed to unload module " ++ name) e (str ": " ++ msg))
]

module _ {S : Type 0} (sys : Sysfs S) where
  loaded_in : Text → Result Text → Bool
  loaded_in name (err e) = false
  loaded_in name (ok t) = names_module name [] t

  unfoldable pub is_module_loaded : Text → S → Bool
  unfolding loaded_in names_module
  is_module_loaded name s = loaded_in name (sys.read_file (str "/proc/modules") s)

  unfoldable pub stop_services : List Text → S → S
  stop_services [] s = s
  stop_services (svc ∷ rest) s =
      stop_services rest (sys.run (str "systemctl" ∷ str "stop" ∷ svc ∷ []) s).1

  detach : Text → Result Text → S → S
  detach path (err e) s = s
  detach path (ok t) s =
      if text_eq (trim_space t) (str "1") then (sys.write_file path (str "0") s).1 else s

  -- The loop of unbindVTConsoles.
  unfoldable pub detach_all : List Text → S → S
  unfolding detach
  detach_all [] s = s
  detach_all (entry ∷ rest) s =
      let path = join_path (str "/sys/class/vtconsole") (join_path entry (str "bind")) in
      detach_all rest (detach path (sys.read_file path s) s)

  consoles : Result (List Text) → S → S
  unfolding detach_all
  consoles (err e) s = s
  consoles (ok entries) s = detach_all entries s

  unfoldable pub unbind_vt_consoles : S → S
  unfolding consoles
  unbind_vt_consoles s = consoles (sys.read_dir (str "/sys/class/vtconsole") s) s

  -- The loop over the modules, the one at hand with the answer of rmmod.
  unfoldable pub on_rmmod : Option Error → S → (S → Option Error × S) → Option Error × S
  on_rmmod (some e) s rest = (some e, s)
  on_rmmod none s rest = rest s

  unfoldable pub remove_modules : List Text → S → Option Error × S
  unfolding on_rmmod
  remove_modules [] s = (none, s)
  remove_modules (name ∷ rest) s =
      if is_module_loaded name s
      then (let (r, s') = sys.run (str "rmmod" ∷ name ∷ []) s in
          on_rmmod (rmmod_error name r) s' (remove_modules rest))
      else remove_modules rest s

  unfoldable pub unload_gpu_modules : Vfio → S → Option Error × S
  unload_gpu_modules v s =
      if not (text_eq v.orig_driver (str "nvidia"))
      then (none, s)
      else remove_modules nvidia_modules (unbind_vt_consoles (stop_services nvidia_services s))
