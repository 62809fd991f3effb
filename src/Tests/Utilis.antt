-- ===== src/Tests/Utilis.antt =====
-- src/utilis/split.h, ipUtils.h and src/config.h at concrete inputs.
use wsgateway.Prelude.{
  ◌≡◌, refl, ◌↔◌, ◌%◌, ◌^◌, true, false, [], ◌∷◌, none, some, codes, same, arith, if◌then◌else◌,
}
use wsgateway.Std.Number.{ok, err, stoi, out_of_range, to_string, negsuc}
use wsgateway.Utilis.Split.{split, read_tokens}
use wsgateway.Utilis.Ip.{is_valid_ipv4, Resolver, check_octets, check_octet}
use wsgateway.Utilis.Ip.Address.{is_valid_ipv4_lem, IsAddress}
use wsgateway.Utilis.EnvUtils.{Env}
use wsgateway.Config.{new_config}
use wsgateway.Config.Reading.{new_config-Agree, new_config_numbers, Agree}

three_tokens : split (codes "a,,b") b',' ≡ codes "a" ∷ [] ∷ codes "b" ∷ []
unfolding split
three_tokens = refl

-- A delimiter at the end starts no token.
end_delimiter : split (codes "a,") b',' ≡ codes "a" ∷ []
unfolding split
end_delimiter = refl

too_large : stoi (codes "2147483648") ≡ err out_of_range
unfolding stoi
too_large = refl

padded_number : stoi (codes "  -12px") ≡ ok (negsuc 11)
unfolding stoi
padded_number = refl

local_address : is_valid_ipv4 (codes "127.0.0.1") ≡ ok true
unfolding is_valid_ipv4 read_tokens check_octets check_octet stoi
local_address = refl

bad_octets :
    (is_valid_ipv4 (codes "127.0.0.256") ≡ ok false)
    × (is_valid_ipv4 (codes "127.00.0.1") ≡ ok false)
    × (is_valid_ipv4 (codes "127.0..1") ≡ ok false)
unfolding is_valid_ipv4 read_tokens check_octets check_octet stoi
bad_octets = (refl, refl, refl)

-- The dot behind the address is accepted.
is_valid_ipv4_lem_example :
    (is_valid_ipv4 (codes "10.0.0.255.") ≡ ok true) ↔ IsAddress (codes "10.0.0.255.")
is_valid_ipv4_lem_example = is_valid_ipv4_lem (codes "10.0.0.255.")

abbrev pub offline : Resolver
offline = record {
  gethostname = none;
  gethostbyname = λ host. none;
  inet_ntoa = λ address. none;
  strerror = codes "no host";
}

abbrev pub no_env : Env
no_env name = none

-- The variable of src/env.conf, set to a port.
abbrev documented_env : Env
documented_env name = if same name (codes "WSS_BASE_PORT") then some (codes "9000") else none

agree : Agree documented_env no_env
agree name h = ground (arith, h)

new_config-Agree_example : new_config documented_env offline ≡ new_config no_env offline
new_config-Agree_example = new_config-Agree documented_env no_env offline agree

-- 256 ports are none.
abbrev full_env : Env
full_env name =
    if same name (codes "WSS_NUMBER_OF_PORTS") then some (to_string 256) else some (to_string 9042)

new_config_numbers_example :
    ((new_config full_env offline).number_of_ports ≡ 256 % 2 ^ 8)
    × ((new_config full_env offline).base_port ≡ 9042 % 2 ^ 16)
    × ((new_config full_env offline).scylladb_replication_factor ≡ 9042)
new_config_numbers_example =
    new_config_numbers full_env offline 256 9042 9042 (omega arith) (omega arith) (omega arith) refl
      refl refl
