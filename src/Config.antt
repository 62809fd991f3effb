-- ===== src/Config.antt =====
-- `Config` of src/config.h: the configuration that the gateway reads from its environment.
pub mod Reading
use Prim.Native.String.{String}
use wsgateway.Prelude.{
  ℕ, [], Bool, Option, none, some, Bytes, codes, same, lower, if◌then◌else◌, ◌==◌,
}
use wsgateway.Std.Number.{ℤ, pos, negsuc, to_unsigned}
use wsgateway.Utilis.Ip.{Resolver, get_host_and_ip}
use wsgateway.Utilis.EnvUtils.{Env, get_env_string, get_env_int}

-- The address family, which the program never changes.
pub data Family : Type 0 where
  ip_4 ip_6 unspec : Family

pub record Config : Type 0 where
  pub host_ip : Bytes
  pub server_address : Bytes
  pub network_family_type : Family
  pub number_of_ports : ℕ
  pub base_port : ℕ
  pub http_request_address : Bytes
  pub http_request_port : Bytes
  pub number_of_worker_threads : ℕ
  pub number_of_io_threads : ℕ
  pub number_of_timer_threads : ℕ
  pub scylladb_address : Bytes
  pub scylladb_port : Bytes
  pub scylladb_keyspace_name : Bytes
  pub scylladb_replication_factor : ℕ
  pub scylladb_strategy : Bytes
  pub scylladb_table_name : Bytes
  pub use_mtls : Bool
  pub mtls_base_port : ℕ
  pub server_cert_filename : Bytes
  pub cert_dirname : Bytes
  pub private_key_filename : Bytes
  pub ca_key_file_name : Bytes
  pub server_phrase : Bytes

-- `err != 0` keeps the empty host.
abbrev pub known_host : Bytes × Bytes × ℤ → Bytes
known_host (host, ip, pos n) = if n == 0 then host else []
known_host (host, ip, negsuc n) = []

-- The reads of the constructor: a text, and a number cast to w bits.
abbrev pub text_of : Env → String → String → Bytes
text_of env name default = get_env_string env (codes name) (codes default)

abbrev pub word_of : ℕ → Env → String → ℕ → ℕ
word_of w env name default = to_unsigned w (get_env_int env (codes name) (pos default))

-- The constructor `Config()`.
unfoldable pub new_config : Env → Resolver → Config
new_config env r = record {
  host_ip = known_host (get_host_and_ip r);
  server_address = text_of env "WSS_ADDRESS" "0.0.0.0";
  network_family_type = ip_4;
  number_of_ports = word_of 8 env "WSS_NUMBER_OF_PORTS" 24;
  base_port = word_of 16 env "WSS_PORT" 8020;
  http_request_address = text_of env "WSS_HTTP_REQUEST_ADDRESS" "127.0.0.1";
  http_request_port = text_of env "WSS_HTTP_REQUEST_PORT" "8082";
  number_of_worker_threads = word_of 32 env "WSS_NUMBER_OF_WORKER_THREADS" 24;
  number_of_io_threads = word_of 32 env "WSS_NUMBER_OF_IO_THREADS" 24;
  number_of_timer_threads = word_of 32 env "WSS_NUMBER_OF_TIMER_THREADS" 2;
  scylladb_address = text_of env "WSS_SCYLLA_DB_ADDRESS" "127.0.0.1";
  scylladb_port = text_of env "WSS_SCYLLADB_PORT" "9042";
  scylladb_keyspace_name = text_of env "WSS_SCYLLADB_KEYSPACE_NAME" "vin";
  scylladb_replication_factor = word_of 32 env "WSS_SCYLLADB_REPLICATION_FACTOR" 3;
  scylladb_strategy = text_of env "WSS_SCYLLADB_STRATEGY" "NetworkTopologyStrategy";
  scylladb_table_name = text_of env "WSS_SCYLLADB_TABLE_NAME" "vehicles";
  use_mtls = same (lower (text_of env "WSS_USE_MTLS" "false")) (codes "true");
  mtls_base_port = word_of 16 env "WSS_MTLS_BASE_PORT" 8443;
  server_cert_filename = text_of env "WSS_SERVER_CERTIFICATE_FILE_NAME" "server.crt";
  cert_dirname = text_of env "WSS_CA_DIRECTORY_NAME" "";
  private_key_filename = text_of env "WSS_PRIVATE_KEY_FILE_NAME" "server.key";
  ca_key_file_name = text_of env "WSS_CA_FILE_NAME" "ca.crt";
  server_phrase = text_of env "WSS_SERVER_PHRASE" "1234567890";
}
