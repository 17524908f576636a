-- ===== src/Commands/Times.antt =====
-- string_commands.cc: `ParseInt`, `IntToTimePoint` and the conversions of expiry options.
use rdss.Base.{
  ℕ, ◌+◌, ◌-◌, ◌*◌, ◌/◌, ◌%◌, ◌^◌, Bool, Option, none, some, [], ◌∷◌, Bytes, bytes, bytes_eq,
  if◌then◌else◌, ltb, leb, ℤ, pos, negsuc, from_chars, from_chars_unsigned,
}

-- `TimePoint::max()`, in milliseconds, and `kRepMax`
abbrev pub time_max : ℕ
time_max = 2 ^ 63 - 1

-- `ParseInt<Rep>` for a signed type with maximum `hi`
unfoldable pub parse_int : ℕ → Bytes → Option ℤ
unfolding from_chars
parse_int hi str = elim (from_chars hi str) [
  | none ↦ none
  | some p ↦ elim p.1 [ [] ↦ some p.0 | c ∷ cs ↦ none ]
]

-- `ParseInt<Rep>` for an unsigned type with maximum `hi`
unfoldable pub parse_unsigned : ℕ → Bytes → Option ℕ
unfolding from_chars_unsigned
parse_unsigned hi str = elim (from_chars_unsigned hi str) [
  | none ↦ none
  | some p ↦ elim p.1 [ [] ↦ some p.0 | c ∷ cs ↦ none ]
]

-- the value of a 64-bit register that holds `n`, with a negative value taken as 0: a time before 1970
-- is in the past whatever it is
unfoldable pub wrap_time : ℕ → ℕ
wrap_time n = if ltb (n % 2 ^ 64) (2 ^ 63) then n % 2 ^ 64 else 0

-- whether the register holds a negative value
unfoldable pub wraps_negative : ℕ → Bool
wraps_negative n = leb (2 ^ 63) (n % 2 ^ 64)

-- `IntToTimePoint<Duration>`, with `unit` milliseconds to the duration. The multiplication by the unit
-- is not guarded, and wraps as the machine's does.
unfoldable pub int_to_time_point : ℕ → ℕ → ℤ → Option ℕ
unfolding wrap_time wraps_negative
int_to_time_point unit now (negsuc i) = none
int_to_time_point unit now (pos i) =
    let duration = i * unit in
    if leb i 0
    then none
    else if wraps_negative duration
    then some (wrap_time (now + duration))
    else if ltb (time_max - now) (duration % 2 ^ 64)
    then none
    else some (now + duration % 2 ^ 64)

pub data ExpireKind : Type 0 where
  px ex pxat exat : ExpireKind

-- the options' names
unfoldable pub expire_kind : Bytes → Option ExpireKind
expire_kind arg =
    if bytes_eq arg (bytes "PX")
    then some px
    else if bytes_eq arg (bytes "EX")
    then some ex
    else if bytes_eq arg (bytes "PXAT")
    then some pxat
    else if bytes_eq arg (bytes "EXAT")
    then some exat
    else none

-- `rep_to_tp`
unfoldable pub rep_to_tp : ExpireKind → ℕ → ℕ → Option ℕ
rep_to_tp px now rep = if leb rep (time_max - now) then some (now + rep) else none
rep_to_tp ex now rep =
    if ltb (time_max / 1000) rep
    then none
    else if leb (rep * 1000) (time_max - now)
    then some (now + rep * 1000)
    else none
rep_to_tp pxat now rep = some rep
rep_to_tp exat now rep = if ltb (time_max / 1000) rep then none else some (rep * 1000)
