-- ===== src/Qemu/Image.antt =====
-- internal/qemu/image.go: disk images. qemu-img and the file system are parameters.
pub mod Resize
use qudata_agent.Common.{
  Bool, Option, none, some, List, [], ℤ, ◌++◌, ◌∷◌, mul64, if◌then◌else◌, pos, int_le,
}
use qudata_agent.Domain.{Error, Result, ok, err, wrapped}
use qudata_agent.Common.Text.{Text, str, join_path, trim_space}
use qudata_agent.Common.Decimal.{itoa}

-- What a command comes to, with its combined output.
pub data Output : Type 0 where
  succeeds : Text → Output
  fails : Error → Text → Output

-- What the calls outside the program answer: qemu-img with its arguments, the file system, and
-- json.Unmarshal of qemu-img's report.
pub record ImageEnv : Type 0 where
  pub mkdir_all : Option Error
  pub stat_base : Option Error
  pub qemu_img : List Text → Output
  pub parse_info : Text → Result ℤ
  pub remove : Option Error
  pub is_not_exist : Error → Bool

-- m.imageDir joined with the file name.
unfoldable pub disk_path : Text → Text → Text
disk_path image_dir name = join_path image_dir (name ++ str ".qcow2")

-- fmt.Sprintf("%dG", sizeGB)
unfoldable pub gigabytes : ℤ → Text
gigabytes size_gb = itoa size_gb ++ str "G"

-- fmt.Errorf("<what>: %w: %s", err, strings.TrimSpace(out))
unfoldable pub command_error : Text → Error → Text → Error
command_error what e out = wrapped what e (str ": " ++ trim_space out)

unfoldable pub on_created : Text → Text → Output → Result Text
unfolding command_error
on_created what path (succeeds out) = ok path
on_created what path (fails e out) = err (command_error what e out)

unfoldable pub create_disk : ImageEnv → Text → Text → ℤ → Result Text
unfolding on_created gigabytes
create_disk env image_dir name size_gb = elim env.mkdir_all [
  | some e ↦ err (wrapped (str "create image dir") e [])
  | none ↦
      let path = disk_path image_dir name in
      on_created (str "qemu-img create") path
        (env.qemu_img (str "create" ∷ str "-f" ∷ str "qcow2" ∷ path ∷ gigabytes size_gb ∷ []))
]

unfoldable pub create_overlay : ImageEnv → Text → Text → Text → Result Text
unfolding on_created
create_overlay env image_dir name base_path = elim env.mkdir_all [
  | some e ↦ err (wrapped (str "create image dir") e [])
  | none ↦ elim env.stat_base [
    | some e ↦ err (wrapped (str "base image not found") e [])
    | none ↦
        let path = disk_path image_dir name in
        on_created (str "qemu-img create overlay") path (
          env.qemu_img (
            str "create"
            ∷ str "-f"
            ∷ str "qcow2"
            ∷ str "-b"
            ∷ base_path
            ∷ str "-F"
            ∷ str "qcow2"
            ∷ path
            ∷ []))
  ]
]

unfoldable pub parsed : Result ℤ → Result ℤ
parsed (ok n) = ok n
parsed (err e) = err (wrapped (str "parse qemu-img info") e [])

unfoldable pub on_info : ImageEnv → Output → Result ℤ
unfolding command_error parsed
on_info env (succeeds out) = parsed (env.parse_info out)
on_info env (fails e out) = err (command_error (str "qemu-img info") e out)

unfoldable pub virtual_size : ImageEnv → Text → Result ℤ
unfolding on_info
virtual_size env path = on_info env (env.qemu_img (str "info" ∷ str "--output=json" ∷ path ∷ []))

-- int64(sizeGB) * 1024 * 1024 * 1024
unfoldable pub target_bytes : ℤ → ℤ
target_bytes size_gb = mul64 (mul64 (mul64 size_gb (pos 1024)) (pos 1024)) (pos 1024)

unfoldable pub on_resized : Output → Option Error
unfolding command_error
on_resized (succeeds out) = none
on_resized (fails e out) = some (command_error (str "qemu-img resize") e out)

-- The error, and the resize commands that were run.
unfoldable pub grow : ImageEnv → Text → ℤ → ℤ → Option Error × List (List Text)
unfolding on_resized gigabytes
grow env path size_gb current_bytes =
    let args = str "resize" ∷ path ∷ gigabytes size_gb ∷ [] in
    if int_le (target_bytes size_gb) current_bytes
    then (none, [])
    else (on_resized (env.qemu_img args), args ∷ [])

-- ResizeDisk by the disk's size.
unfoldable pub on_size : ImageEnv → Text → ℤ → Result ℤ → Option Error × List (List Text)
unfolding grow
on_size env path size_gb (err e) = (some (wrapped (str "qemu-img resize: query size") e []), [])
on_size env path size_gb (ok current_bytes) = grow env path size_gb current_bytes

unfoldable pub resize_disk : ImageEnv → Text → ℤ → Option Error × List (List Text)
unfolding on_size
resize_disk env path size_gb = on_size env path size_gb (virtual_size env path)

unfoldable pub remove_disk : ImageEnv → Text → Option Error
remove_disk env path = elim env.remove [
  | none ↦ none
  | some e ↦ if env.is_not_exist e then none else some (wrapped (str "remove disk " ++ path) e [])
]
