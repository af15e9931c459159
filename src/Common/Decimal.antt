-- ===== src/Common/Decimal.antt =====
-- strconv.Itoa (also fmt's %d) and strconv.Atoi on 64-bit ints.
use Prim.Native.Nat.{ℕ, zero, suc, ◌+◌, ◌-◌, ◌*◌, ◌/◌, ◌%◌, ◌^◌}
use mathlib.Core.Bool.{◌&&◌}
use mathlib.Core.List.{[], ◌∷◌}
use mathlib.Core.Option.{Option, none, some}
use mathlib.Core.Path.{◌≡◌, refl}
use qudata_agent.Common.Tests.{◌==◌, ltb, leb, if◌then◌else◌}
use qudata_agent.Common.Int.{ℤ, pos, negsuc}
use qudata_agent.Common.Text.{Text, str}

-- The decimal digits of `n` before `out`; one digit for each round of fuel.
unfoldable pub digits_onto : ℕ → ℕ → Text → Text
digits_onto zero n out = out
digits_onto (suc fuel) n out =
    let rest = digits_onto fuel (n / 10) ((b'0' + n % 10) ∷ out) in
    if ltb n 10 then (b'0' + n) ∷ out else rest

-- `n + 1` rounds are enough: each divides `n` by ten.
unfoldable pub format_nat : ℕ → Text
unfolding digits_onto
format_nat n = digits_onto (suc n) n []

-- strconv.Itoa
unfoldable pub itoa : ℤ → Text
unfolding format_nat
itoa (pos n) = format_nat n
itoa (negsuc n) = b'-' ∷ format_nat (suc n)

unfoldable pub scan_digits : Text → ℕ → Option ℕ
scan_digits [] n = some n
scan_digits (c ∷ s) n =
    if leb b'0' c && leb c b'9' then scan_digits s (n * 10 + (c - b'0')) else none

-- At least one digit, and nothing else.
unfoldable pub magnitude : Text → Option ℕ
unfolding scan_digits
magnitude [] = none
magnitude (c ∷ s) = scan_digits (c ∷ s) 0

unfoldable pub in_positive_range : Option ℕ → Option ℤ
in_positive_range none = none
in_positive_range (some n) = if ltb n (2 ^ 63) then some (pos n) else none

negate : ℕ → ℤ
negate zero = pos zero
negate (suc n) = negsuc n

unfoldable pub in_negative_range : Option ℕ → Option ℤ
unfolding negate
in_negative_range none = none
in_negative_range (some n) = if leb n (2 ^ 63) then some (negate n) else none

-- strconv.Atoi; `none` is its error
unfoldable pub atoi : Text → Option ℤ
unfolding magnitude in_positive_range in_negative_range
atoi [] = none
atoi (c ∷ s) =
    if c == b'-'
    then in_negative_range (magnitude s)
    else if c == b'+'
    then in_positive_range (magnitude s)
    else in_positive_range (magnitude (c ∷ s))

itoa_runs : itoa (negsuc 11433) ≡ str "-11434"
unfolding itoa str
itoa_runs = refl

atoi_runs : (atoi (str "+022") ≡ some (pos 22)) × (atoi (str "22 ") ≡ none)
unfolding atoi str
atoi_runs = (refl, refl)
