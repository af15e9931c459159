-- ===== src/System.antt =====
-- internal/system/probe.go and internal/gpu/provider.go: what the agent reads of its host, but for the
-- amounts in floats.
use qudata_agent.Common.{
  Bool, not, Option, none, some, List, [], length, is_nil, ℤ, pos, int_le, ◌++◌, ◌∷◌, ◌&&◌, ◌||◌,
  ◌==◌, if◌then◌else◌,
}
use qudata_agent.Common.Text.{
  Text, strip_prefix, str, trim_space, has_prefix, split, contains, has_suffix,
}
use qudata_agent.Domain.{Result, err, wrapped, ok, plain}

-- The loop of PublicIP over the three services: the bodies that were read, none where there was no
-- response.
unfoldable pub first_ip : List (Option Text) → Text
first_ip [] = str "0.0.0.0"
first_ip (none ∷ rest) = first_ip rest
first_ip (some body ∷ rest) =
    let later = first_ip rest in if is_nil (trim_space body) then later else trim_space body

unfoldable pub public_ip : Option Text → Option Text → Option Text → Text
unfolding first_ip
public_ip ipify ifconfig icanhazip = first_ip (ipify ∷ ifconfig ∷ icanhazip ∷ [])

unfoldable pub is_whole_disk : Text → Bool
is_whole_disk name =
    has_prefix name (str "sd") && length name == 3
    || has_prefix name (str "vd") && length name == 3
    || (has_prefix name (str "nvme")
        && (has_suffix name (str "n1") && not (contains name (str "p"))))

-- What stands behind the first colon, as strings.SplitN cuts it.
unfoldable pub after_colon : Text → Option Text
after_colon [] = none
after_colon (c ∷ t) = if c == b':' then some t else after_colon t

-- The loop of cpuName over the lines.
unfoldable pub first_model : List Text → Text
unfolding after_colon
first_model [] = str "unknown"
first_model (line ∷ rest) =
    let later = first_model rest in
    if has_prefix line (str "model name")
    then elim (after_colon line) [ none ↦ later | some t ↦ trim_space t ]
    else later

-- The file /proc/cpuinfo, if it can be read.
unfoldable pub cpu_name : Option Text → Text
unfolding first_model
cpu_name none = str "unknown"
cpu_name (some t) = first_model (split 10 t)

-- machineFingerprint of internal/agent/agent.go, by the file /etc/machine-id.
unfoldable pub machine_fingerprint : Option Text → Text
machine_fingerprint none = str "unknown"
machine_fingerprint (some t) = trim_space t

-- strings.ReplaceAll of a space by nothing.
unfoldable pub without_spaces : Text → Text
without_spaces [] = []
without_spaces (c ∷ t) = let rest = without_spaces t in if c == 32 then rest else c ∷ rest

abbrev pub or_itself : Text → Option Text → Text
or_itself t none = t
or_itself t (some s) = s

unfoldable pub format_gpu_name : Text → Text
unfolding without_spaces strip_prefix
format_gpu_name name = without_spaces (or_itself name (strip_prefix name (str "NVIDIA ")))

-- The GPUs of the host: the name and the number of them. VRAM and CUDA version are floats.
pub record GpuInfo : Type 0 where
  pub name : Text
  pub count : ℤ

unfoldable pub at_least_one : ℤ → ℤ
at_least_one n = if int_le (pos 1) n then n else pos 1

unfoldable pub on_gpu_info : Result GpuInfo → Result GpuInfo
unfolding format_gpu_name at_least_one
on_gpu_info (err e) = err (wrapped (str "parse gpu info") e [])
on_gpu_info (ok info) =
    if is_nil info.name
    then err (plain (str "gpu info file has empty name"))
    else ok (record { name = format_gpu_name info.name; count = at_least_one info.count })

-- FileInfoProvider.GPUInfo; `unmarshal` is encoding/json on the installer's file.
unfoldable pub file_gpu_info : Text → (Text → Result GpuInfo) → Result Text → Result GpuInfo
unfolding on_gpu_info
file_gpu_info path unmarshal (err e) = err (wrapped (str "read gpu info " ++ path) e [])
file_gpu_info path unmarshal (ok t) = on_gpu_info (unmarshal t)

unfoldable pub mock_gpu_info : GpuInfo
mock_gpu_info = record { name = str "Debug GPU"; count = pos 1 }
