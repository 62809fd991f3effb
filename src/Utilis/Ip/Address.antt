-- ===== src/Utilis/Ip/Address.antt =====
-- `isValidIPv4` against the dotted form of an address.
use wsgateway.Prelude.{
  ℕ, ◌+◌, ◌<◌, ◌≡◌, refl, ap, sym, ◌∙◌, ◌⊎◌, inl, inr, ◌↔◌, Bool, true, false, List, [], ◌∷◌, ◌++◌,
  append_assoc, append-nil, arith, ◌==◌, ==_iff, if◌then◌else◌, length, Bytes, Lacks, All,
  Bool-cases,
}
use mathlib.Core.List.{append_cancel_right}
use wsgateway.Std.Number.{ok, to_string, IsDigit, starts_digit}
use wsgateway.Std.Number.RoundTrip.{to_string_digits, starts_digit-to_string}
use wsgateway.Utilis.Split.{tokens_of, read_tokens-tokens_of}
use wsgateway.Utilis.Split.RoundTrip.{
  terminated, last_token, tokens_of-terminated, tokens_of-Spells, Spells,
}
use wsgateway.Utilis.Ip.{check_octet, check_octets, is_valid_ipv4}
use wsgateway.Utilis.Ip.Octets.{IsOctet, check_octet_lem, check_octet_total}

-- The four numbers of an address with dots between them.
abbrev pub dotted : ℕ → ℕ → ℕ → ℕ → Bytes
dotted a b c d = to_string a ++ b'.' ∷ (to_string b ++ b'.' ∷ (to_string c ++ b'.' ∷ to_string d))

-- The dotted form of four numbers below 256, or that form with one more dot behind it.
abbrev pub IsAddress : Bytes → Type 0
IsAddress s =
    (a : ℕ) × (b : ℕ) × (c : ℕ) × (d : ℕ) × (a < 256)
    × (b < 256)
    × (c < 256)
    × (d < 256)
    × ((s ≡ dotted a b c d) ⊎ (s ≡ dotted a b c d ++ b'.' ∷ []))

valid_tokens :
    (s : Bytes)
    → is_valid_ipv4 s
      ≡ (if length (tokens_of b'.' s) == 4 then check_octets (tokens_of b'.' s) else ok false)
unfolding is_valid_ipv4
valid_tokens s = rw (read_tokens-tokens_of (length s + 2) b'.' s [] [] (omega arith))

check_octets-All : (os : List Bytes) → check_octets os ≡ ok true → All IsOctet os
unfolding check_octets
check_octets-All [] h = tt
check_octets-All (o ∷ os) h =
    ((check_octet_lem o).0 (ground arith), check_octets-All os (ground arith))

All-check_octets : (os : List Bytes) → All IsOctet os → check_octets os ≡ ok true
unfolding check_octets
All-check_octets [] h = refl
All-check_octets (o ∷ os) h = rw ((check_octet_lem o).1 h.0, check_octets) (All-check_octets os h.1)

no_dot : (s : Bytes) → All IsDigit s → Lacks b'.' s
no_dot [] h = tt
no_dot (c ∷ s) h = (ground arith, no_dot s h.1)

octet-no_dot : (n : ℕ) → Lacks b'.' (to_string n)
octet-no_dot n = no_dot _ (to_string_digits n)

regroup :
    (a b c d : Bytes)
    → terminated b'.' (a ∷ b ∷ c ∷ d ∷ [])
      ≡ (a ++ b'.' ∷ (b ++ b'.' ∷ (c ++ b'.' ∷ d))) ++ b'.' ∷ []
regroup a b c d = simp append_assoc

split_last :
    (a b c d : Bytes)
    → a ++ b'.' ∷ (b ++ b'.' ∷ (c ++ b'.' ∷ d)) ≡ terminated b'.' (a ∷ b ∷ c ∷ []) ++ d
split_last a b c d = simp append_assoc

in_numbers :
    (a b c d : Bytes) (oa : IsOctet a) (ob : IsOctet b) (oc : IsOctet c) (od : IsOctet d)
    → a ++ b'.' ∷ (b ++ b'.' ∷ (c ++ b'.' ∷ d)) ≡ dotted oa.0 ob.0 oc.0 od.0
in_numbers a b c d oa ob oc od = rw (oa.2, ob.2, oc.2, od.2)

sound :
    (ts : List Bytes) (s : Bytes) → length ts ≡ 4 → All IsOctet ts → Spells b'.' s ts → IsAddress s
sound [] s h o k = absurd (omega arith)
sound (a ∷ []) s h o k = absurd (omega arith)
sound (a ∷ b ∷ []) s h o k = absurd (omega arith)
sound (a ∷ b ∷ c ∷ []) s h o k = absurd (omega arith)
sound (a ∷ b ∷ c ∷ d ∷ e ∷ ts) s h o k = absurd (omega arith)
sound (a ∷ b ∷ c ∷ d ∷ []) s h (oa, (ob, (oc, (od, _)))) (inl k) = (
  oa.0,
  ob.0,
  oc.0,
  od.0,
  oa.1,
  ob.1,
  oc.1,
  od.1,
  inr (sym k ∙ regroup a b c d ∙ ap (λ t. t ++ b'.' ∷ []) (in_numbers a b c d oa ob oc od)),
)
sound (a ∷ b ∷ c ∷ d ∷ []) s h (oa, (ob, (oc, (od, _)))) (inr k) = (
  oa.0,
  ob.0,
  oc.0,
  od.0,
  oa.1,
  ob.1,
  oc.1,
  od.1,
  inl (
      append_cancel_right s _ (b'.' ∷ []) (sym k ∙ regroup a b c d)
      ∙ in_numbers a b c d oa ob oc od),
)

last_token_digit : (s : Bytes) → starts_digit s ≡ true → last_token s ≡ s ∷ []
last_token_digit [] h = cc
last_token_digit (c ∷ s) h = refl

module _ (a b c d : ℕ) (la : a < 256) (lb : b < 256) (lc : c < 256) (ld : d < 256) where
  four_octets :
      (s : Bytes)
      → tokens_of b'.' s ≡ to_string a ∷ to_string b ∷ to_string c ∷ to_string d ∷ []
      → is_valid_ipv4 s ≡ ok true
  four_octets s e =
      rw (valid_tokens s, e)
        (All-check_octets _ ((a, la, refl), ((b, lb, refl), ((c, lc, refl), ((d, ld, refl), tt)))))

  dotted_valid : is_valid_ipv4 (dotted a b c d) ≡ ok true
  dotted_valid = four_octets (dotted a b c d) (
      ap (tokens_of b'.') (split_last (to_string a) (to_string b) (to_string c) (to_string d))
      ∙ tokens_of-terminated b'.' (to_string a ∷ to_string b ∷ to_string c ∷ []) (to_string d)
          (octet-no_dot a, (octet-no_dot b, (octet-no_dot c, tt))) (octet-no_dot d)
      ∙ ap (λ t. to_string a ∷ to_string b ∷ to_string c ∷ t)
          (last_token_digit (to_string d) (starts_digit-to_string d)))

  dotted_dot_valid : is_valid_ipv4 (dotted a b c d ++ b'.' ∷ []) ≡ ok true
  dotted_dot_valid = four_octets (dotted a b c d ++ b'.' ∷ []) (
      ap (tokens_of b'.')
        (sym (regroup (to_string a) (to_string b) (to_string c) (to_string d)) ∙ sym (append-nil _))
      ∙ tokens_of-terminated b'.' (to_string a ∷ to_string b ∷ to_string c ∷ to_string d ∷ []) []
          (octet-no_dot a, (octet-no_dot b, (octet-no_dot c, (octet-no_dot d, tt)))) tt)

complete : (s : Bytes) → IsAddress s → is_valid_ipv4 s ≡ ok true
complete s (a, b, c, d, la, lb, lc, ld, inl e) = rw e (dotted_valid a b c d la lb lc ld)
complete s (a, b, c, d, la, lb, lc, ld, inr e) = rw e (dotted_dot_valid a b c d la lb lc ld)

-- The check passes exactly the dotted forms of four numbers below 256, and each of them with one
-- more dot behind it.
pub is_valid_ipv4_lem : (s : Bytes) → (is_valid_ipv4 s ≡ ok true) ↔ IsAddress s
is_valid_ipv4_lem s = (from_valid (Bool-cases (length ts == 4)), complete s)
  where
    ts : List Bytes
    ts = tokens_of b'.' s

    from_valid :
        ((length ts == 4) ≡ true) ⊎ ((length ts == 4) ≡ false)
        → is_valid_ipv4 s ≡ ok true
        → IsAddress s
    from_valid (inl n) h =
        sound ts s ((==_iff _ 4).0 n) (check_octets-All ts (ground (arith, valid_tokens s)))
          (tokens_of-Spells b'.' s)
    from_valid (inr n) h = ground (arith, valid_tokens s)

check_octets_total : (os : List Bytes) → (b : Bool) × (check_octets os ≡ ok b)
unfolding check_octets
check_octets_total [] = (true, refl)
check_octets_total (o ∷ os) = first (check_octet_total o) (check_octets_total os)
  where
    first :
        (b : Bool) × (check_octet o ≡ ok b)
        → (b : Bool) × (check_octets os ≡ ok b)
        → (b : Bool) × (check_octets (o ∷ os) ≡ ok b)
    first (true, e) (b, rest) = (b, rw (e, check_octets) rest)
    first (false, e) rest = (false, rw (e, check_octets))

-- The check throws no exception, whatever the text.
pub is_valid_ipv4_total : (s : Bytes) → (b : Bool) × (is_valid_ipv4 s ≡ ok b)
is_valid_ipv4_total s = elim (Bool-cases (length (tokens_of b'.' s) == 4)) [
  | inl n ↦ rw (valid_tokens s, n) (check_octets_total (tokens_of b'.' s))
  | inr n ↦ (false, rw (valid_tokens s, n))
]
