-- ===== src/Std/Number/RoundTrip.antt =====
-- Reading a decimal number back from its digits.
use wsgateway.Prelude.{
  ℕ, zero, suc, ◌+◌, ◌/◌, ◌%◌, ◌≤◌, ◌<◌, ◌≡◌, refl, sym, true, false, [], ◌∷◌, ◌++◌, append_assoc,
  append-nil, some, arith, ltb, if◌then◌else◌, Bytes, All,
}
use wsgateway.Std.Number.{
  pos, IsDigit, digits, starts_digit, scan_int, long_max, int_max, strtol, ok, stoi, emit,
  to_string,
}

emit_out : (f n : ℕ) (out : Bytes) → n < f → emit f n out ≡ emit f n [] ++ out
unfolding emit
emit_out zero n out h = elim h [ ]
emit_out (suc f) n out h = ground (
  arith,
  emit_out f (n / 10) ((b'0' + n % 10) ∷ out),
  emit_out f (n / 10) ((b'0' + n % 10) ∷ []),
  append_assoc (emit f (n / 10) []) ((b'0' + n % 10) ∷ []) out,
)

-- More fuel than the number needs changes nothing.
emit_fuel : (f g n : ℕ) (out : Bytes) → n < f → n < g → emit f n out ≡ emit g n out
unfolding emit
emit_fuel zero g n out h k = elim h [ ]
emit_fuel (suc f) zero n out h k = elim k [ ]
emit_fuel (suc f) (suc g) n out h k = ground (arith, emit_fuel f g (n / 10) ((b'0' + n % 10) ∷ out))

-- The digits of a number are those of its tenth and its last digit.
pub to_string_step :
    (n : ℕ)
    → to_string n
      ≡ (if ltb n 10 then (b'0' + n) ∷ [] else to_string (n / 10) ++ (b'0' + n % 10) ∷ [])
unfolding to_string
to_string_step n =
    ground
      (arith, emit_out n (n / 10) ((b'0' + n % 10) ∷ []), emit_fuel n (suc (n / 10)) (n / 10) [])

-- Reading the digits that `emit` puts in front of a text gives the number back.
digits-emit : (f n : ℕ) (out : Bytes) → n < f → digits (emit f n out) 0 ≡ digits out n
unfolding emit
digits-emit zero n out h = elim h [ ]
digits-emit (suc f) n out h = ground (arith, digits-emit f (n / 10) ((b'0' + n % 10) ∷ out))

emit_digit : (f n : ℕ) (out : Bytes) → n < f → starts_digit (emit f n out) ≡ true
unfolding emit
emit_digit zero n out h = elim h [ ]
emit_digit (suc f) n out h = ground (arith, emit_digit f (n / 10) ((b'0' + n % 10) ∷ out))

-- A decimal number is written in digits only.
pub to_string_digits : (n : ℕ) → All IsDigit (to_string n)
unfolding to_string
to_string_digits n = emit_digits (suc n) n [] (omega arith) tt
  where
    emit_digits : (f n : ℕ) (out : Bytes) → n < f → All IsDigit out → All IsDigit (emit f n out)
    emit_digits zero n out h a = elim h [ ]
    emit_digits (suc f) n out h a =
        unfold emit in ground (arith, emit_digits f (n / 10) ((b'0' + n % 10) ∷ out))

pub scan_digits :
    (s : Bytes) → starts_digit s ≡ true → scan_int s ≡ some (pos (digits s 0).0, (digits s 0).1)
scan_digits [] h = cc
scan_digits (c ∷ s) h = ground arith

digits_stop : (rest : Bytes) (n : ℕ) → starts_digit rest ≡ false → digits rest n ≡ (n, rest)
digits_stop [] n h = refl
digits_stop (c ∷ rest) n h = ground arith

-- The digits in front of a text are what the loop of `to_string` puts there.
to_string-append : (n : ℕ) (rest : Bytes) → to_string n ++ rest ≡ emit (suc n) n rest
unfolding to_string
to_string-append n rest = sym (emit_out (suc n) n rest (omega arith))

-- A number in decimal before any text that does not go on with a digit is scanned whole.
pub scan_int-to_string :
    (n : ℕ) (rest : Bytes)
    → starts_digit rest ≡ false
    → scan_int (to_string n ++ rest) ≡ some (pos n, rest)
scan_int-to_string n rest h = rw (
  to_string-append n rest,
  scan_digits _ (emit_digit (suc n) n rest (omega arith)),
  digits-emit (suc n) n rest (omega arith),
  digits_stop rest n h,
)

pub stoi-to_string : (n : ℕ) → n ≤ int_max → stoi (to_string n) ≡ ok (pos n)
unfolding stoi
stoi-to_string n h =
    rw (sym (append-nil (to_string n)), scan_int-to_string n [] refl, stoi) (ground arith)

pub strtol-to_string :
    (n : ℕ) (rest : Bytes)
    → n ≤ long_max
    → starts_digit rest ≡ false
    → strtol (to_string n ++ rest) ≡ (pos n, rest)
unfolding strtol
strtol-to_string n rest h stop = rw (scan_int-to_string n rest stop, strtol) (ground arith)

pub starts_digit-to_string : (n : ℕ) → starts_digit (to_string n) ≡ true
unfolding to_string
starts_digit-to_string n = emit_digit (suc n) n [] (omega arith)
