-- ===== src/Config/Reading.antt =====
-- What the configuration depends on.
use Prim.Native.String.{String}
use wsgateway.Prelude.{
  ℕ, ◌%◌, ◌^◌, ◌≤◌, ◌≡◌, ◌≢◌, All, Option, none, refl, ◌∙◌, true, false, some, Bytes, codes, [],
  ◌∷◌, same, lower, arith,
}
use wsgateway.Std.Number.{to_string, int_max, starts_digit}
use wsgateway.Std.Number.RoundTrip.{stoi-to_string, starts_digit-to_string}
use wsgateway.Utilis.Ip.{Resolver, get_host_and_ip}
use wsgateway.Utilis.EnvUtils.{Env, get_env_string, get_env_int, set_value, text_or}
use wsgateway.Config.{new_config, known_host, ip_4, text_of, word_of}

-- The variable that src/env.conf gives the first port.
abbrev pub documented_port : Bytes
documented_port = codes "WSS_BASE_PORT"

-- Two environments that agree at every variable but the one that src/env.conf names for the first
-- port.
abbrev pub Agree : Env → Env → Type 0
Agree env env' = (name : Bytes) → same name documented_port ≡ false → env name ≡ env' name

text_same :
    (env env' : Env) (name default : String)
    → env (codes name) ≡ env' (codes name)
    → text_of env name default ≡ text_of env' name default
unfolding get_env_string
text_same env env' name default e = rw e

word_same :
    (w : ℕ) (env env' : Env) (name : String) (default : ℕ)
    → env (codes name) ≡ env' (codes name)
    → word_of w env name default ≡ word_of w env' name default
unfolding get_env_int
word_same w env env' name default e = rw e

-- The configuration does not depend on the variable that src/env.conf names for the first port.
pub new_config-Agree :
    (env env' : Env) (r : Resolver) → Agree env env' → new_config env r ≡ new_config env' r
unfolding new_config
new_config-Agree env env' r h = λ i. record {
  host_ip = known_host (get_host_and_ip r);
  server_address = text_same env env' "WSS_ADDRESS" "0.0.0.0" (h _ refl) i;
  network_family_type = ip_4;
  number_of_ports = word_same 8 env env' "WSS_NUMBER_OF_PORTS" 24 (h _ refl) i;
  base_port = word_same 16 env env' "WSS_PORT" 8020 (h _ refl) i;
  http_request_address = text_same env env' "WSS_HTTP_REQUEST_ADDRESS" "127.0.0.1" (h _ refl) i;
  http_request_port = text_same env env' "WSS_HTTP_REQUEST_PORT" "8082" (h _ refl) i;
  number_of_worker_threads = word_same 32 env env' "WSS_NUMBER_OF_WORKER_THREADS" 24 (h _ refl) i;
  number_of_io_threads = word_same 32 env env' "WSS_NUMBER_OF_IO_THREADS" 24 (h _ refl) i;
  number_of_timer_threads = word_same 32 env env' "WSS_NUMBER_OF_TIMER_THREADS" 2 (h _ refl) i;
  scylladb_address = text_same env env' "WSS_SCYLLA_DB_ADDRESS" "127.0.0.1" (h _ refl) i;
  scylladb_port = text_same env env' "WSS_SCYLLADB_PORT" "9042" (h _ refl) i;
  scylladb_keyspace_name = text_same env env' "WSS_SCYLLADB_KEYSPACE_NAME" "vin" (h _ refl) i;
  scylladb_replication_factor =
      word_same 32 env env' "WSS_SCYLLADB_REPLICATION_FACTOR" 3 (h _ refl) i;
  scylladb_strategy =
      text_same env env' "WSS_SCYLLADB_STRATEGY" "NetworkTopologyStrategy" (h _ refl) i;
  scylladb_table_name = text_same env env' "WSS_SCYLLADB_TABLE_NAME" "vehicles" (h _ refl) i;
  use_mtls = same (lower (text_same env env' "WSS_USE_MTLS" "false" (h _ refl) i)) (codes "true");
  mtls_base_port = word_same 16 env env' "WSS_MTLS_BASE_PORT" 8443 (h _ refl) i;
  server_cert_filename =
      text_same env env' "WSS_SERVER_CERTIFICATE_FILE_NAME" "server.crt" (h _ refl) i;
  cert_dirname = text_same env env' "WSS_CA_DIRECTORY_NAME" "" (h _ refl) i;
  private_key_filename = text_same env env' "WSS_PRIVATE_KEY_FILE_NAME" "server.key" (h _ refl) i;
  ca_key_file_name = text_same env env' "WSS_CA_FILE_NAME" "ca.crt" (h _ refl) i;
  server_phrase = text_same env env' "WSS_SERVER_PHRASE" "1234567890" (h _ refl) i;
}

set_digits : (s : Bytes) → starts_digit s ≡ true → set_value (some s) ≡ some s
set_digits [] h = absurd (cc)
set_digits (c ∷ s) h = refl

word_of_number :
    (w : ℕ) (env : Env) (name : String) (default n : ℕ)
    → n ≤ int_max
    → env (codes name) ≡ some (to_string n)
    → word_of w env name default ≡ n % 2 ^ w
unfolding get_env_int
word_of_number w env name default n h e =
    rw (e, set_digits (to_string n) (starts_digit-to_string n), stoi-to_string n h)

-- Numbers up to the greatest int in WSS_NUMBER_OF_PORTS, WSS_PORT and
-- WSS_SCYLLADB_REPLICATION_FACTOR are kept modulo 2 ^ 8, modulo 2 ^ 16 and whole.
pub new_config_numbers :
    (env : Env) (r : Resolver) (ports port factor : ℕ)
    → ports ≤ int_max
    → port ≤ int_max
    → factor ≤ int_max
    → env (codes "WSS_NUMBER_OF_PORTS") ≡ some (to_string ports)
    → env (codes "WSS_PORT") ≡ some (to_string port)
    → env (codes "WSS_SCYLLADB_REPLICATION_FACTOR") ≡ some (to_string factor)
    → ((new_config env r).number_of_ports ≡ ports % 2 ^ 8)
      × ((new_config env r).base_port ≡ port % 2 ^ 16)
      × ((new_config env r).scylladb_replication_factor ≡ factor)
unfolding new_config
new_config_numbers env r ports port factor a b c e f g = (
  word_of_number 8 env "WSS_NUMBER_OF_PORTS" 24 ports a e,
  word_of_number 16 env "WSS_PORT" 8020 port b f,
  word_of_number 32 env "WSS_SCYLLADB_REPLICATION_FACTOR" 3 factor c g ∙ omega arith,
)

text_or_given :
    (default : Bytes) (o : Option Bytes) → default ≢ [] → text_or default (set_value o) ≢ []
text_or_given default none h = h
text_or_given default (some []) h = h
text_or_given default (some (c ∷ s)) h = λ e. cc

text_given :
    (env : Env) (name default : String) → codes default ≢ [] → text_of env name default ≢ []
unfolding get_env_string
text_given env name default h = text_or_given (codes default) (env (codes name)) h

-- Whatever the environment says, the addresses, the ports that are texts, and the names that the
-- database is set up with are not empty.
pub new_config-Given :
    (env : Env) (r : Resolver)
    → let c = new_config env r in
      All
        (λ s. s ≢ [])
        (c.server_address ∷ c.http_request_address ∷ c.http_request_port ∷ c.scylladb_address
          ∷ c.scylladb_port ∷ c.scylladb_keyspace_name ∷ c.scylladb_strategy ∷ c.scylladb_table_name
          ∷ [])
unfolding new_config
new_config-Given env r = (
  text_given env "WSS_ADDRESS" "0.0.0.0" (λ e. cc),
  (
    text_given env "WSS_HTTP_REQUEST_ADDRESS" "127.0.0.1" (λ e. cc),
    (
      text_given env "WSS_HTTP_REQUEST_PORT" "8082" (λ e. cc),
      (
        text_given env "WSS_SCYLLA_DB_ADDRESS" "127.0.0.1" (λ e. cc),
        (
          text_given env "WSS_SCYLLADB_PORT" "9042" (λ e. cc),
          (
            text_given env "WSS_SCYLLADB_KEYSPACE_NAME" "vin" (λ e. cc),
            (
              text_given env "WSS_SCYLLADB_STRATEGY" "NetworkTopologyStrategy" (λ e. cc),
              (text_given env "WSS_SCYLLADB_TABLE_NAME" "vehicles" (λ e. cc), tt),
            ),
          ),
        ),
      ),
    ),
  ),
)
