-- ===== src/Base/Chars.antt =====
-- Integers, and the decimal conversions of the standard library that the program calls:
-- `std::from_chars` and `std::to_chars` in base 10.
use Prim.Native.Nat.{ℕ, zero, suc, ◌+◌, ◌-◌, ◌*◌, ◌/◌, ◌%◌}
use mathlib.Core.Bool.{Bool, true, false, ◌&&◌}
use mathlib.Core.Option.{Option, none, some}
use mathlib.Core.List.{[], ◌∷◌, ◌++◌}
use rdss.Base.Tests.{◌==◌, leb, ltb, if◌then◌else◌}
use rdss.Base.Text.{Bytes}

-- `negsuc n` is -(n + 1).
pub data ℤ : Type 0 where
  pos : ℕ → ℤ
  negsuc : ℕ → ℤ

-- `-n`
abbrev pub neg : ℕ → ℤ
neg zero = pos 0
neg (suc n) = negsuc n

unfoldable pub is_digit : ℕ → Bool
is_digit c = leb 48 c && leb c 57

-- the value of the digits at the start, after the value `acc` of those before, and what follows them
unfoldable pub scan_digits : ℕ → Bytes → ℕ × Bytes
scan_digits acc [] = (acc, [])
scan_digits acc (c ∷ cs) = elim (is_digit c) [
  | true ↦ scan_digits (acc * 10 + (c - 48)) cs
  | false ↦ (acc, c ∷ cs)
]

-- `std::from_chars` into an unsigned type with maximum `hi`
unfoldable pub from_chars_unsigned : ℕ → Bytes → Option (ℕ × Bytes)
unfolding is_digit scan_digits
from_chars_unsigned hi [] = none
from_chars_unsigned hi (c ∷ cs) =
    let (n, rest) = scan_digits 0 (c ∷ cs) in
    if is_digit c then (if leb n hi then some (n, rest) else none) else none

-- `std::from_chars` into a signed type with maximum `hi` and minimum `-hi - 1`
unfoldable pub from_chars : ℕ → Bytes → Option (ℤ × Bytes)
unfolding from_chars_unsigned
from_chars hi [] = none
from_chars hi (c ∷ cs) =
    if c == b'-'
    then elim (from_chars_unsigned (hi + 1) cs) [ none ↦ none | some p ↦ some (neg p.0, p.1) ]
    else elim (from_chars_unsigned hi (c ∷ cs)) [ none ↦ none | some p ↦ some (pos p.0, p.1) ]

-- the digits of `n`, with fuel; `n + 1` is enough
unfoldable pub digits_fuel : ℕ → ℕ → Bytes
digits_fuel zero n = []
digits_fuel (suc fuel) n = elim (ltb n 10) [
  | true ↦ (48 + n) ∷ []
  | false ↦ digits_fuel fuel (n / 10) ++ (48 + n % 10) ∷ []
]

unfoldable pub to_digits : ℕ → Bytes
unfolding digits_fuel
to_digits n = digits_fuel (suc n) n

-- `std::to_chars`
unfoldable pub to_chars : ℤ → Bytes
unfolding to_digits
to_chars (pos n) = to_digits n
to_chars (negsuc n) = b'-' ∷ to_digits (suc n)
