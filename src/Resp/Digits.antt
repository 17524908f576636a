-- ===== src/Resp/Digits.antt =====
-- The decimal conversions are inverse to one another, and a line of digits ends at its CRLF.
use rdss.Base.{
  ℕ, zero, suc, ◌+◌, ◌-◌, ◌*◌, ◌/◌, ◌%◌, ◌≤◌, ◌<◌, ◌≡◌, refl, ap, ◌∙◌, Bool, true, false, ◌&&◌,
  some, [], ◌∷◌, ◌++◌, Bytes, ltb, leb, ◌==◌, length, length-append, arith, ℤ, pos, negsuc,
  is_digit, scan_digits, from_chars_unsigned, from_chars, digits_fuel, to_digits, to_chars,
  Bool-cases, inl, inr, not_ltb→le,
}
use rdss.Resp.Parser.{find_crlf}

abbrev pub all_digits : Bytes → Bool
all_digits [] = true
all_digits (c ∷ cs) = is_digit c && all_digits cs

all_digits-append :
    (xs ys : Bytes) → all_digits xs ≡ true → all_digits ys ≡ true → all_digits (xs ++ ys) ≡ true
all_digits-append [] ys h k = k
all_digits-append (c ∷ xs) ys h k = ground (arith, all_digits-append xs ys)

is_digit_lem : (n : ℕ) → n < 10 → is_digit (48 + n) ≡ true
unfolding is_digit
is_digit_lem n h = ground arith

scan_digits-append :
    (acc m : ℕ) (xs ys : Bytes)
    → scan_digits acc xs ≡ (m, [])
    → all_digits xs ≡ true
    → scan_digits acc (xs ++ ys) ≡ scan_digits m ys
unfolding scan_digits
scan_digits-append acc m [] ys h k =
    ap (λ (n : ℕ). scan_digits n ys) (ap (λ (p : ℕ × Bytes). p.0) h)
scan_digits-append acc m (c ∷ xs) ys h k =
    ground (arith, scan_digits-append (acc * 10 + (c - 48)) m xs ys)

scan_digits-one : (acc n : ℕ) → n < 10 → scan_digits acc ((48 + n) ∷ []) ≡ (acc * 10 + n, [])
unfolding scan_digits
scan_digits-one acc n h = ground (arith, is_digit_lem n h)

digits_fuel-all_digits : (fuel n : ℕ) → all_digits (digits_fuel fuel n) ≡ true
unfolding digits_fuel
digits_fuel-all_digits zero n = refl
digits_fuel-all_digits (suc fuel) n = elim (Bool-cases (ltb n 10)) [
  | inl h ↦ ground (arith, is_digit_lem n)
  | inr h ↦
      let e =
        all_digits-append (digits_fuel fuel (n / 10)) ((48 + n % 10) ∷ [])
          (digits_fuel-all_digits fuel (n / 10)) in
      ground (arith, is_digit_lem (n % 10), e)
]

scan_digits-digits_fuel : (fuel n : ℕ) → n < fuel → scan_digits 0 (digits_fuel fuel n) ≡ (n, [])
unfolding digits_fuel
scan_digits-digits_fuel zero n h = elim h [ ]
scan_digits-digits_fuel (suc fuel) n h = elim (Bool-cases (ltb n 10)) [
  | inl lt ↦ ground (arith, scan_digits-one 0 n)
  | inr ge ↦
      let e : scan_digits (n / 10) ((48 + n % 10) ∷ []) ≡ (n / 10 * 10 + n % 10, []) =
        scan_digits-one (n / 10) (n % 10) (omega arith) in
      let back : n / 10 * 10 + n % 10 ≡ n = omega arith in
      rw (digits_fuel, ge)
        (scan_digits-append 0 (n / 10) (digits_fuel fuel (n / 10)) ((48 + n % 10) ∷ [])
            (scan_digits-digits_fuel fuel (n / 10) (omega (arith, not_ltb→le n 10 ge)))
            (digits_fuel-all_digits fuel (n / 10))
          ∙ e
          ∙ ap (λ (m : ℕ). (m, [])) back)
]

from_chars_digits :
    (hi n : ℕ) (ds : Bytes)
    → n ≤ hi
    → 0 < length ds
    → all_digits ds ≡ true
    → scan_digits 0 ds ≡ (n, [])
    → from_chars hi ds ≡ some (pos n, [])
unfolding from_chars from_chars_unsigned is_digit
from_chars_digits hi n [] small h k e = elim h [ ]
from_chars_digits hi n (c ∷ cs) small h k e = ground (arith, e)

pub length-digits_fuel : (fuel n : ℕ) → 0 < fuel → 0 < length (digits_fuel fuel n)
unfolding digits_fuel
length-digits_fuel zero n h = elim h [ ]
length-digits_fuel (suc fuel) n h =
    ground (arith, length-append (digits_fuel fuel (n / 10)) ((48 + n % 10) ∷ []))

pub length-to_digits : (n : ℕ) → 0 < length (to_digits n)
unfolding to_digits
length-to_digits n = length-digits_fuel (suc n) n (omega arith)

pub to_digits-all_digits : (n : ℕ) → all_digits (to_digits n) ≡ true
unfolding to_digits
to_digits-all_digits n = digits_fuel-all_digits (suc n) n

-- A number that the type can represent is read back from its digits, which are all read.
pub from_chars-to_digits : (hi n : ℕ) → n ≤ hi → from_chars hi (to_digits n) ≡ some (pos n, [])
unfolding to_digits
from_chars-to_digits hi n small =
    from_chars_digits hi n (digits_fuel (suc n) n) small
      (length-digits_fuel (suc n) n (omega arith)) (digits_fuel-all_digits (suc n) n)
      (scan_digits-digits_fuel (suc n) n (omega arith))

from_chars_unsigned_digits :
    (hi n : ℕ) (ds : Bytes)
    → n ≤ hi
    → 0 < length ds
    → all_digits ds ≡ true
    → scan_digits 0 ds ≡ (n, [])
    → from_chars_unsigned hi ds ≡ some (n, [])
unfolding from_chars_unsigned
from_chars_unsigned_digits hi n [] small h k e = elim h [ ]
from_chars_unsigned_digits hi n (c ∷ cs) small h k e = ground (arith, e)

-- A negative number that the type can represent is read back from what is printed.
from_chars-to_chars_negsuc :
    (hi n : ℕ) → n ≤ hi → from_chars hi (to_chars (negsuc n)) ≡ some (negsuc n, [])
unfolding from_chars to_chars to_digits
from_chars-to_chars_negsuc hi n small =
    let e =
      from_chars_unsigned_digits (hi + 1) (suc n) (digits_fuel (suc (suc n)) (suc n)) (omega arith)
        (length-digits_fuel (suc (suc n)) (suc n) (omega arith))
        (digits_fuel-all_digits (suc (suc n)) (suc n))
        (scan_digits-digits_fuel (suc (suc n)) (suc n) (omega arith)) in
    ground (arith, e)

-- whether a signed type with maximum `hi` can represent the number
abbrev pub fits : ℕ → ℤ → Bool
fits hi (pos n) = leb n hi
fits hi (negsuc n) = leb n hi

-- A number that the type can represent is read back from what is printed, to its last byte.
pub from_chars-to_chars :
    (hi : ℕ) (z : ℤ) → fits hi z ≡ true → from_chars hi (to_chars z) ≡ some (z, [])
unfolding to_chars
from_chars-to_chars hi (pos n) h = from_chars-to_digits hi n (ground arith)
from_chars-to_chars hi (negsuc n) h = from_chars-to_chars_negsuc hi n (ground arith)

find_crlf_cons :
    (c : ℕ) (xs : Bytes) (n : ℕ)
    → (c == 13) ≡ false
    → find_crlf xs ≡ some n
    → find_crlf (c ∷ xs) ≡ some (suc n)
unfolding find_crlf
find_crlf_cons c [] n h k = ground arith
find_crlf_cons c (e ∷ xs) n h k = ground (arith, k)

-- The line of digits ends at its CRLF.
pub find_crlf-digits :
    (ds rest : Bytes) → all_digits ds ≡ true → find_crlf (ds ++ 13 ∷ 10 ∷ rest) ≡ some (length ds)
unfolding find_crlf is_digit
find_crlf-digits [] rest h = ground arith
find_crlf-digits (c ∷ ds) rest h =
    find_crlf_cons c (ds ++ 13 ∷ 10 ∷ rest) (length ds) (ground arith)
      (find_crlf-digits ds rest (ground arith))

-- also where a byte that is no digit stands before it
pub find_crlf-marked :
    (c : ℕ) (ds rest : Bytes)
    → (c == 13) ≡ false
    → all_digits ds ≡ true
    → find_crlf (c ∷ (ds ++ (13 ∷ 10 ∷ rest))) ≡ some (suc (length ds))
find_crlf-marked c ds rest h k =
    find_crlf_cons c (ds ++ 13 ∷ 10 ∷ rest) (length ds) h (find_crlf-digits ds rest k)
