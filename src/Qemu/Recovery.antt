-- ===== src/Qemu/Recovery.antt =====
-- internal/qemu/recovery.go, and KillOrphans of internal/qemu/manager.go. The run directory is the list
-- of its names, in the order of os.ReadDir.
pub mod Names
pub mod Suffixes
pub mod Cleared
pub mod Gone
pub mod Orphans
pub mod Killed
use qudata_agent.Common.{
  ap₂, subst, none-ne-some, some-ne-none, append-nil, append_assoc, map-append, ℕ, true-ne-false,
  zero, suc, refl, sym, ap, fun_ext, inl, inr, Bool, true, false, not, Option, none, some, List, [],
  map, arith, ltb, leb, ltb→lt, lt→ltb, leb→le, ==_iff, ==_refl, ==_ne, Bool-cases, Option-cases,
  length, get_elem?, is_nil, length-append, length-map, All, All-append, All-map, ℤ, pos, negsuc,
  int_eq, is_pos, int_eq_iff, int_eq_refl, take, take-nil, is_nil-eq, is_nil-ne, ne_of_is_nil,
  int_le, to_bits, of_bits, mul64, ◌≡◌, ◌+◌, ◌*◌, ◌%◌, ◌/◌, ◌^◌, ◌-◌, ◌++◌, ◌∷◌, ◌≢◌, ◌&&◌, ◌||◌,
  ◌==◌, ◌⊎◌, ◌↔◌, ◌∙◌, if◌then◌else◌, ◌≤◌, ◌<◌,
}
use qudata_agent.Common.Text.{Text, strip_suffix, contains, text_eq, str, join_path}
use qudata_agent.Domain.{Result, Error, ok, err, wrapped}
use qudata_agent.Qemu.Vfio.Bind.{restore_binding, unbind}
use qudata_agent.Common.Decimal.{atoi}
use qudata_agent.Qemu.Vfio.Sysfs.{Sysfs}
use qudata_agent.Qemu.Vfio.{new_vfio}

-- A process as /proc shows it: the name of its directory and its command line, if that can be read.
pub record Proc : Type 0 where
  pub entry : Text
  pub cmdline : Option Text

-- What the calls outside the program answer: the processes, or the error for /proc; the error of
-- os.ReadDir, with what os.IsNotExist says of it; which names os.Remove removes.
pub record OrphanEnv : Type 0 where
  pub procs : Result (List Proc)
  pub read_dir : Option (Error × Bool)
  pub removable : Text → Bool

pub record ProcessInfo : Type 0 where
  pub pid : ℤ
  pub qmp_socket : Text
  pub vm_id : Text

-- Whether a process is one of QEMU that names the socket.
unfoldable pub uses_socket : Text → Option Text → Bool
uses_socket qmp_socket none = false
uses_socket qmp_socket (some cmdline) =
    contains cmdline (str "qemu-system") && contains cmdline qmp_socket

abbrev pub found_pid : Option ℤ → ℤ → ℤ
found_pid none rest = rest
found_pid (some pid) rest = pid

unfoldable pub first_user : Text → List Proc → ℤ
unfolding uses_socket
first_user qmp_socket [] = pos 0
first_user qmp_socket (p ∷ ps) =
    let rest = first_user qmp_socket ps in
    if uses_socket qmp_socket p.cmdline then found_pid (atoi p.entry) rest else rest

unfoldable pub find_qemu_process_by_socket : Result (List Proc) → Text → Result ℤ
unfolding first_user
find_qemu_process_by_socket (err e) qmp_socket = err e
find_qemu_process_by_socket (ok procs) qmp_socket = ok (first_user qmp_socket procs)

-- os.Remove of one name.
unfoldable pub remove_name : (Text → Bool) → Text → List Text → List Text
remove_name removable name [] = []
remove_name removable name (n ∷ names) =
    let rest = remove_name removable name names in
    if text_eq n name && removable name then rest else n ∷ rest

abbrev pub log_suffix : Text
log_suffix = str ".log"

abbrev pub vars_suffix : Text
vars_suffix = str "-OVMF_VARS.fd"

abbrev pub qmp_suffix : Text
qmp_suffix = str ".qmp"

unfoldable pub remove_vm_artifacts : (Text → Bool) → Text → List Text → List Text
unfolding remove_name
remove_vm_artifacts removable vm_id names =
    remove_name removable (vm_id ++ vars_suffix) (remove_name removable (vm_id ++ log_suffix) names)

-- The socket of a name with its artifacts.
unfoldable pub remove_vm : (Text → Bool) → Text → Text → List Text → List Text
unfolding remove_vm_artifacts
remove_vm removable name vm_id names =
    remove_vm_artifacts removable vm_id (remove_name removable name names)

-- What the scan makes of the search for a socket's process.
unfoldable pub on_search :
    OrphanEnv
    → Text
    → Text
    → Text
    → Result ℤ
    → List ProcessInfo × List Text
    → List ProcessInfo × List Text
unfolding remove_vm
on_search env run_dir name vm_id (err e) (orphans, names) = (orphans, names)
on_search env run_dir name vm_id (ok pid) (orphans, names) =
    if int_eq pid (pos 0) then (orphans, remove_vm env.removable name vm_id names) else (
      orphans ++ record { pid = pid; qmp_socket = join_path run_dir name; vm_id = vm_id } ∷ [],
      names,
    )

-- One entry of the scan, by what stands before its suffix.
unfoldable pub on_entry :
    OrphanEnv
    → Text
    → Text
    → Option Text
    → List ProcessInfo × List Text
    → List ProcessInfo × List Text
unfolding on_search find_qemu_process_by_socket
on_entry env run_dir name none s = s
on_entry env run_dir name (some vm_id) s =
    on_search env run_dir name vm_id
      (find_qemu_process_by_socket env.procs (join_path run_dir name)) s

-- The loop of FindOrphanVMs over the entries, which were read before it.
unfoldable pub scan :
    OrphanEnv → Text → List Text → List ProcessInfo × List Text → List ProcessInfo × List Text
unfolding on_entry
scan env run_dir [] s = s
scan env run_dir (name ∷ entries) s =
    scan env run_dir entries (on_entry env run_dir name (strip_suffix name qmp_suffix) s)

-- The error that is not that of a missing directory ends KillOrphans.
unfoldable pub find_orphan_vms :
    OrphanEnv → Option (Error × Bool) → Text → List Text → Result (List ProcessInfo) × List Text
unfolding scan
find_orphan_vms env (some (e, true)) run_dir names = (ok [], names)
find_orphan_vms env (some (e, false)) run_dir names =
    (err (wrapped (str "read run dir") e []), names)
find_orphan_vms env none run_dir names =
    let (orphans, left) = scan env run_dir names ([], names) in (ok orphans, left)

abbrev pub or_suffix : Option Text → Option Text → Option Text
or_suffix none o = o
or_suffix (some t) o = some t

-- The VM that an artifact belongs to; .log is tried first.
unfoldable pub vm_of_artifact : Text → Option Text
unfolding strip_suffix
vm_of_artifact name = or_suffix (strip_suffix name log_suffix) (strip_suffix name vars_suffix)

unfoldable pub has_name : Text → List Text → Bool
has_name name [] = false
has_name name (n ∷ names) = text_eq name n || has_name name names

abbrev pub clean_artifact : OrphanEnv → Text → Option Text → List Text → List Text
clean_artifact env name none names = names
clean_artifact env name (some vm_id) names =
    if has_name (vm_id ++ qmp_suffix) names then names else remove_name env.removable name names

-- The loop of CleanOrphanArtifacts.
unfoldable pub clean : OrphanEnv → List Text → List Text → List Text
unfolding vm_of_artifact remove_name has_name
clean env [] names = names
clean env (name ∷ entries) names =
    clean env entries (clean_artifact env name (vm_of_artifact name) names)

unfoldable pub clean_orphan_artifacts : OrphanEnv → Option (Error × Bool) → List Text → List Text
unfolding clean
clean_orphan_artifacts env (some e) names = names
clean_orphan_artifacts env none names = clean env names names

-- The processes that get SIGKILL, the last first.
unfoldable pub kill_process : ℤ → List ℤ → List ℤ
kill_process pid killed = if int_le pid (pos 0) then killed else pid ∷ killed

-- The loop of KillOrphans. The socket of an orphan is a name of the run directory.
unfoldable pub kill_all : OrphanEnv → List ProcessInfo → List ℤ × List Text → List ℤ × List Text
unfolding kill_process remove_vm
kill_all env [] s = s
kill_all env (o ∷ orphans) (killed, names) =
    kill_all env orphans
      (kill_process o.pid killed, remove_vm env.removable (o.vm_id ++ qmp_suffix) o.vm_id names)

abbrev pub on_orphans : OrphanEnv → Result (List ProcessInfo) × List Text → List ℤ × List Text
on_orphans env (err e, names) = ([], names)
on_orphans env (ok orphans, names) =
    let (killed, left) = kill_all env orphans ([], names) in
    (killed, clean_orphan_artifacts env env.read_dir left)

-- KillOrphans up to the GPUs: the processes killed and the names left.
unfoldable pub kill_orphans : OrphanEnv → Text → List Text → List ℤ × List Text
unfolding find_orphan_vms kill_all clean_orphan_artifacts
kill_orphans env run_dir names = on_orphans env (find_orphan_vms env env.read_dir run_dir names)

-- KillOrphans's loop over the default GPUs, which runs where the scan gave no error.
unfoldable pub unbind_orphans : {S : Type 0} → Sysfs S → List Text → S → S
unfolding restore_binding unbind
unbind_orphans sys [] s = s
unbind_orphans sys (addr ∷ addrs) s =
    unbind_orphans sys addrs (unbind sys (restore_binding sys (new_vfio addr) s) s).1
