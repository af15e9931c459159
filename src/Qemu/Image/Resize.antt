-- ===== src/Qemu/Image/Resize.antt =====
-- internal/qemu/image.go: ResizeDisk and its 64-bit product.
use mathlib.Core.Path.{subst}
use qudata_agent.Common.{
  ℕ, refl, sym, ap, inl, inr, Option, none, List, [], arith, leb, lt→ltb, leb→le, Bool-cases, pos,
  of_bits, mul64, ◌≡◌, ◌∷◌, ◌∙◌, ◌≤◌, ◌<◌, ◌*◌, ◌^◌, ◌%◌,
}
use qudata_agent.Qemu.Image.{
  target_bytes, grow, resize_disk, ImageEnv, virtual_size, gigabytes, on_size,
}
use qudata_agent.Common.Text.{Text, str}
use qudata_agent.Domain.{Error, ok}

bits_fit : (a : ℕ) → a * 1024 < 2 ^ 63 → a % 2 ^ 64 * 1024 % 2 ^ 64 ≡ a * 1024
bits_fit a h = omega (arith, h)

of_bits-fits : (b : ℕ) → b < 2 ^ 63 → of_bits b ≡ pos b
of_bits-fits b h = rw (lt→ltb b (2 ^ 63) h) refl

mul64-fits : (a : ℕ) → a * 1024 < 2 ^ 63 → mul64 (pos a) (pos 1024) ≡ pos (a * 1024)
mul64-fits a h = ap of_bits (bits_fit a h) ∙ of_bits-fits (a * 1024) h

target_bytes-fits : (n : ℕ) → n < 2 ^ 33 → target_bytes (pos n) ≡ pos (n * 1073741824)
unfolding target_bytes
target_bytes-fits n h =
    let once = mul64-fits n (omega (arith, h)) in
    let twice = mul64-fits (n * 1024) (omega (arith, h)) in
    let thrice = mul64-fits (n * 1024 * 1024) (omega (arith, h)) in
    ap (λ m. mul64 (mul64 m (pos 1024)) (pos 1024)) once
    ∙ ap (λ m. mul64 m (pos 1024)) twice
    ∙ thrice
    ∙ ap pos (omega arith)

-- What a resize may do to a disk of `bytes` bytes: nothing where it has the size already, and else one
-- command, with a larger size.
abbrev pub Grows : ℕ → Text → ℕ → Option Error × List (List Text) → Type 0
Grows n path bytes (o, []) = (o ≡ none) × (n * 1073741824 ≤ bytes)
Grows n path bytes (o, args ∷ []) =
    (args ≡ str "resize" ∷ path ∷ gigabytes (pos n) ∷ []) × (bytes < n * 1073741824)
Grows n path bytes (o, args ∷ more ∷ rest) = ⊥

grow-Grows :
    (env : ImageEnv) (path : Text) (n bytes : ℕ)
    → n < 2 ^ 33
    → Grows n path bytes (grow env path (pos n) (pos bytes))
unfolding grow
grow-Grows env path n bytes h =
    rw (target_bytes-fits n h) (elim (Bool-cases (leb (n * 1073741824) bytes)) [
      | inl e ↦ rw e (refl, leb→le _ _ e)
      | inr e ↦ rw e (refl, ground (arith, e))
    ])

-- ResizeDisk never shrinks: from a disk whose size is known, for a size below 2^33 GiB (from where on
-- the product of the source overflows), it runs no command and succeeds where the disk is at least as
-- large, and else runs one resize command, to a size above that of the disk.
pub resize_disk-Grows :
    (env : ImageEnv) (path : Text) (n bytes : ℕ)
    → n < 2 ^ 33
    → virtual_size env path ≡ ok (pos bytes)
    → Grows n path bytes (resize_disk env path (pos n))
unfolding resize_disk on_size
resize_disk-Grows env path n bytes h e =
    subst (λ r. Grows n path bytes (on_size env path (pos n) r)) (sym e)
      (grow-Grows env path n bytes h)
