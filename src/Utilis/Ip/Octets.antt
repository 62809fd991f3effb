-- ===== src/Utilis/Ip/Octets.antt =====
-- One octet of an address.
use wsgateway.Prelude.{
  ℕ, zero, suc, ◌+◌, ◌-◌, ◌*◌, ◌/◌, ◌%◌, ◌≤◌, ◌<◌, ◌≡◌, refl, ap, ◌≢◌, ◌↔◌, Bool, true, false,
  if◌then◌else◌, [], ◌∷◌, arith, Bytes,
}
use wsgateway.Std.Number.{
  pos, stoi, Result, ok, err, to_string, Exception, digits, starts_digit, int_max,
}
use wsgateway.Std.Number.RoundTrip.{to_string_step, scan_digits}
use wsgateway.Utilis.Ip.{check_octet}

-- The text is the decimal form of a number below 256.
abbrev pub IsOctet : Bytes → Type 0
IsOctet o = (n : ℕ) × (n < 256) × (o ≡ to_string n)

to_string_1 : (n : ℕ) → n < 10 → to_string n ≡ (b'0' + n) ∷ []
to_string_1 n h = ground (arith, to_string_step n)

to_string_2 : (n : ℕ) → 10 ≤ n → n < 100 → to_string n ≡ (b'0' + n / 10) ∷ (b'0' + n % 10) ∷ []
to_string_2 n h k = ground (arith, to_string_step n, to_string_1 (n / 10))

to_string_3 :
    (n : ℕ)
    → 100 ≤ n
    → n < 1000
    → to_string n ≡ (b'0' + n / 10 / 10) ∷ (b'0' + n / 10 % 10) ∷ (b'0' + n % 10) ∷ []
to_string_3 n h k = ground (arith, to_string_step n, to_string_2 (n / 10))

stoi-digits :
    (s : Bytes)
    → starts_digit s ≡ true
    → (digits s 0).0 ≤ int_max
    → stoi s ≡ ok (pos (digits s 0).0)
unfolding stoi
stoi-digits s h k = rw (scan_digits s h, stoi) (ground arith)

IsOctet-1 : (a : ℕ) → check_octet (a ∷ []) ≡ ok true → IsOctet (a ∷ [])
unfolding check_octet
IsOctet-1 a h =
    (a - b'0', ground (arith, stoi-digits (a ∷ [])), ground (arith, to_string_1 (a - b'0')))

IsOctet-2 : (a b : ℕ) → check_octet (a ∷ b ∷ []) ≡ ok true → IsOctet (a ∷ b ∷ [])
unfolding check_octet
IsOctet-2 a b h = (
  (a - b'0') * 10 + (b - b'0'),
  ground (arith, stoi-digits (a ∷ b ∷ [])),
  ground (arith, stoi-digits (a ∷ b ∷ []), to_string_2 ((a - b'0') * 10 + (b - b'0'))),
)

IsOctet-3 : (a b c : ℕ) → check_octet (a ∷ b ∷ c ∷ []) ≡ ok true → IsOctet (a ∷ b ∷ c ∷ [])
unfolding check_octet
IsOctet-3 a b c h = (
  ((a - b'0') * 10 + (b - b'0')) * 10 + (c - b'0'),
  ground (arith, stoi-digits (a ∷ b ∷ c ∷ [])),
  ground (
    arith,
    stoi-digits (a ∷ b ∷ c ∷ []),
    to_string_3 (((a - b'0') * 10 + (b - b'0')) * 10 + (c - b'0')),
  ),
)

IsOctet-sound : (o : Bytes) → check_octet o ≡ ok true → IsOctet o
IsOctet-sound [] h = unfold check_octet in cc
IsOctet-sound (a ∷ []) h = IsOctet-1 a h
IsOctet-sound (a ∷ b ∷ []) h = IsOctet-2 a b h
IsOctet-sound (a ∷ b ∷ c ∷ []) h = IsOctet-3 a b c h
IsOctet-sound (a ∷ b ∷ c ∷ d ∷ s) h = unfold check_octet in ground arith

abbrev is_true : Result Bool → Bool
is_true (ok b) = b
is_true (err e) = false

is_true-eq : (r : Result Bool) → is_true r ≡ true → r ≡ ok true
is_true-eq (ok b) h = ap ok h
is_true-eq (err e) h = cc

-- How many of the numbers from 0 to n - 1 are refused in decimal form.
refusals : ℕ → ℕ
refusals zero = 0
refusals (suc n) = (if is_true (check_octet (to_string n)) then 0 else 1) + refusals n

fewer : (n : ℕ) → refusals (suc n) ≡ 0 → refusals n ≡ 0
unfolding refusals
fewer n h = ground arith

refusals_none : (k n : ℕ) → refusals (k + suc n) ≡ 0 → is_true (check_octet (to_string n)) ≡ true
unfolding refusals
refusals_none zero n h = ground arith
refusals_none (suc k) n h =
    let step : suc k + suc n ≡ suc (k + suc n) = omega arith in
    refusals_none k n (fewer (k + suc n) (rw step at h))

refusals_byte : refusals 256 ≡ 0
unfolding refusals check_octet to_string stoi
refusals_byte = refl

octet_complete : (o : Bytes) → IsOctet o → check_octet o ≡ ok true
octet_complete o (n, h, e) =
    let split : 255 - n + suc n ≡ 256 = omega arith in
    rw e (is_true-eq _ (refusals_none (255 - n) n (rw split refusals_byte)))

-- The check of an octet passes exactly the decimal forms of the numbers below 256.
pub check_octet_lem : (o : Bytes) → (check_octet o ≡ ok true) ↔ IsOctet o
check_octet_lem o = (IsOctet-sound o, octet_complete o)

no_throw : (o : Bytes) (e : Exception) → check_octet o ≢ err e
unfolding check_octet
no_throw [] e h = cc
no_throw (a ∷ []) e h = ground (arith, stoi-digits (a ∷ []))
no_throw (a ∷ b ∷ []) e h = ground (arith, stoi-digits (a ∷ b ∷ []))
no_throw (a ∷ b ∷ c ∷ []) e h = ground (arith, stoi-digits (a ∷ b ∷ c ∷ []))
no_throw (a ∷ b ∷ c ∷ d ∷ s) e h = ground arith

returned {ℓ} : {A : Type ℓ} (r : Result A) → ((e : Exception) → r ≢ err e) → (a : A) × (r ≡ ok a)
returned (ok a) h = (a, refl)
returned (err e) h = absurd (h e refl)

-- The check of an octet throws no exception: `stoi` gets one to three digits only.
pub check_octet_total : (o : Bytes) → (b : Bool) × (check_octet o ≡ ok b)
check_octet_total o = returned (check_octet o) (no_throw o)
