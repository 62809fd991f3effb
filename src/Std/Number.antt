-- ===== src/Std/Number.antt =====
-- `std::to_string`, `std::stoi`, `std::strtol`, `isdigit` and the casts between integer types.
pub mod RoundTrip
use wsgateway.Prelude.{
  ℕ, zero, suc, ◌+◌, ◌-◌, ◌*◌, ◌/◌, ◌%◌, ◌^◌, ◌≤◌, ◌<◌, ◌≡◌, refl, ap, sym, ◌∙◌, ◌≢◌, Bool, true,
  false, ◌&&◌, ◌||◌, List, [], ◌∷◌, ◌++◌, append_assoc, append-nil, Option, none, some, arith, ltb,
  leb, ◌==◌, if◌then◌else◌, length, Bytes, All, empty, Bool-cases,
}
use wsgateway.Std.Stream.{is_space, skip_space}

-- `negsuc n` is -(n + 1).
pub data ℤ : Type 0 where
  pos : ℕ → ℤ
  negsuc : ℕ → ℤ

abbrev pub negate : ℕ → ℤ
negate zero = pos 0
negate (suc n) = negsuc n

-- A cast to an unsigned type of w bits keeps the value modulo 2 ^ w.
abbrev pub to_unsigned : ℕ → ℤ → ℕ
to_unsigned w (pos n) = n % 2 ^ w
to_unsigned w (negsuc n) = 2 ^ w - 1 - n % 2 ^ w

-- A cast to a signed type of w bits.
abbrev pub to_signed : ℕ → ℤ → ℤ
to_signed w z =
    let u = to_unsigned w z in if ltb u (2 ^ (w - 1)) then pos u else negsuc (2 ^ w - 1 - u)

abbrev pub is_digit : ℕ → Bool
is_digit c = leb b'0' c && leb c b'9'

abbrev pub IsDigit : ℕ → Type 0
IsDigit c = (b'0' ≤ c) × (c ≤ b'9')

-- The number that the digits in front spell behind n, and the text from the first other byte on.
abbrev pub digits : Bytes → ℕ → ℕ × Bytes
digits [] n = (n, [])
digits (c ∷ s) n = if is_digit c then digits s (n * 10 + (c - b'0')) else (n, c ∷ s)

abbrev pub starts_digit : Bytes → Bool
starts_digit [] = false
starts_digit (c ∷ s) = is_digit c

-- An optional sign, and what stands behind it.
abbrev pub sign : Bytes → Bool × Bytes
sign [] = (false, [])
sign (c ∷ s) = if c == b'-' then (true, s) else (if c == b'+' then (false, s) else (false, c ∷ s))

-- White space, an optional sign, digits: the number with its sign, and the text behind it; `none`
-- where no digit is found.
abbrev pub scan_int : Bytes → Option (ℤ × Bytes)
scan_int s =
    let (minus, t) = sign (skip_space s) in
    let (n, rest) = digits t 0 in
    if starts_digit t then some ((if minus then negate n else pos n), rest) else none

abbrev pub long_max : ℕ
long_max = 2 ^ 63 - 1

abbrev pub int_max : ℕ
int_max = 2 ^ 31 - 1

-- Whether a number fits a signed type with the greatest value m.
abbrev pub fits : ℕ → ℤ → Bool
fits m (pos n) = leb n m
fits m (negsuc n) = leb n m

-- A long out of range is clamped.
abbrev pub clamp : ℤ → ℤ
clamp (pos n) = if leb n long_max then pos n else pos long_max
clamp (negsuc n) = if leb n long_max then negsuc n else negsuc long_max

-- `strtol(s, &end, 10)`: the value, and the text at `end`. With no number it is 0 and the start.
unfoldable pub strtol : Bytes → ℤ × Bytes
strtol s = elim (scan_int s) [ none ↦ (pos 0, s) | some (z, rest) ↦ (clamp z, rest) ]

-- `*end == '\0'`
abbrev pub at_end : Bytes → Bool
at_end [] = true
at_end (c ∷ s) = c == 0

-- The exceptions of the standard library that the gateway meets.
pub data Exception : Type 0 where
  invalid_argument out_of_range length_error : Exception

pub data Result {ℓ} (A : Type ℓ) : Type ℓ where
  ok : A → Result A
  err : Exception → Result A

infixl 5 ◌>>=◌
abbrev pub ◌>>=◌ {ℓ κ} : {A : Type ℓ} {B : Type κ} → Result A → (A → Result B) → Result B
ok a >>= f = f a
err e >>= f = err e

-- `std::stoi`
unfoldable pub stoi : Bytes → Result ℤ
stoi s = elim (scan_int s) [
  | none ↦ err invalid_argument
  | some (z, rest) ↦ if fits int_max z then ok z else err out_of_range
]

-- The decimal digits of n in front of a text.
emit : ℕ → ℕ → Bytes → Bytes
emit zero n out = out
emit (suc f) n out =
    let more = emit f (n / 10) ((b'0' + n % 10) ∷ out) in
    if ltb n 10 then (b'0' + n) ∷ out else more

-- `std::to_string` of an unsigned number.
unfoldable pub to_string : ℕ → Bytes
unfolding emit
to_string n = emit (suc n) n []

-- `std::to_string` of a signed number.
unfoldable pub to_string_ℤ : ℤ → Bytes
to_string_ℤ (pos n) = to_string n
to_string_ℤ (negsuc n) = b'-' ∷ to_string (suc n)
