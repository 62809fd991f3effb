-- ===== src/Utilis/Ip.antt =====
-- src/utilis/ipUtils.h: the check of an IPv4 address in dotted form, the check of an IPv6 address,
-- and the host's name and address.
pub mod Octets
pub mod Address
use wsgateway.Prelude.{
  ℕ, zero, suc, ◌+◌, ◌≡◌, Bool, true, false, not, ◌&&◌, ◌||◌, List, [], ◌∷◌, arith, Option, none,
  some, ltb, leb, ◌==◌, if◌then◌else◌, length, Bytes, codes, empty,
}
use wsgateway.Std.Stream.{open_text}
use wsgateway.Std.Number.{ℤ, pos, negsuc, is_digit, stoi, Result, ok, err}
use wsgateway.Utilis.Split.{read_tokens}

-- `std::all_of(oct.begin(), oct.end(), ::isdigit)`
abbrev pub all_digits : Bytes → Bool
all_digits [] = true
all_digits (c ∷ s) = is_digit c && all_digits s

-- `num < 0 || num > 255`
abbrev pub beyond_byte : ℤ → Bool
beyond_byte (pos n) = ltb 255 n
beyond_byte (negsuc n) = true

-- `oct[0] == '0' && oct.size() > 1`
abbrev pub leading_zero : Bytes → Bool
leading_zero [] = false
leading_zero (c ∷ s) = c == b'0' && ltb 1 (length (c ∷ s))

-- The body of the loop over the octets: whether the loop goes on. `stoi` may throw.
unfoldable pub check_octet : Bytes → Result Bool
check_octet oct =
    if empty oct || ltb 3 (length oct) || not (all_digits oct) then ok false else elim (stoi oct) [
      | err e ↦ err e
      | ok num ↦ if beyond_byte num then ok false else ok (not (leading_zero oct))
    ]

-- The loop over the octets.
unfoldable pub check_octets : List Bytes → Result Bool
check_octets [] = ok true
check_octets (o ∷ os) =
    let rest = check_octets os in
    elim (check_octet o) [ err e ↦ err e | ok false ↦ ok false | ok true ↦ rest ]

-- `isValidIPv4`; its first loop is that of `split`, with the delimiter '.'.
unfoldable pub is_valid_ipv4 : Bytes → Result Bool
is_valid_ipv4 ip =
    let octets = read_tokens (length ip + 2) b'.' (open_text ip) [] [] in
    if length octets == 4 then check_octets octets else ok false

-- `s_valid_ipv6`, over the system's `inet_pton(AF_INET6, …)`.
module _ (inet_pton6 : Bytes → ℤ) where
  unfoldable pub valid_ipv6 : Bytes → Bool
  valid_ipv6 ip = elim (inet_pton6 ip) [ pos n ↦ not (n == 0) | negsuc n ↦ true ]

-- What the system calls of `getHostAndIP` return.
pub record Resolver : Type 0 where
  pub gethostname : Option Bytes
  pub gethostbyname : Bytes → Option Bytes
  pub inet_ntoa : Bytes → Option Bytes
  pub strerror : Bytes

-- `getHostAndIP`: the host's name, its address and an error code. The error code is 0 or -1.
unfoldable pub get_host_and_ip : Resolver → Bytes × Bytes × ℤ
get_host_and_ip r = elim r.gethostname [
  | none ↦ (r.strerror, [], negsuc 0)
  | some host ↦ elim (r.gethostbyname host) [
    | none ↦ (r.strerror, [], negsuc 0)
    | some addr ↦ elim (r.inet_ntoa addr) [
      | none ↦ (r.strerror, [], negsuc 0)
      | some ip ↦ (host, ip, pos 0)
    ]
  ]
]
