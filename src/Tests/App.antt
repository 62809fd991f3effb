-- ===== src/Tests/App.antt =====
-- src/App.cpp, src/AppComponent.h and src/utilis/sslContext.h at concrete inputs.
use wsgateway.Prelude.{
  ℕ, ◌≡◌, refl, ◌-◌, ◌≤◌, ◌<◌, Bool, true, false, List, [], ◌++◌, none, some, Bytes, codes, arith,
  length, replicate, Lacks,
}
use wsgateway.Config.{Config, ip_4}
use wsgateway.Ssl.{password_cb, Openssl, Context, get_ssl_context}
use wsgateway.Ssl.Password.{password_cb_lem}
use wsgateway.Ssl.State.{
  Flag, cb_alert, cb_exit, cb_loop, cb_read, cb_write, cb_accept_exit, cb_accept_loop,
  cb_connect_exit, cb_connect_loop, cb_handshake_done, cb_handshake_start, cb_read_alert,
  cb_write_alert, FlagLaws, add_text, state_type, state_type-accept,
}
use wsgateway.Scylla.Table.Memory.{Rows}
use wsgateway.App.Providers.{Provider, tls, tcp, connection_providers}
use wsgateway.App.Ports.{connection_providers_lem, open_all, made}

abbrev pub config : Config
config = record {
  host_ip = codes "gate1";
  server_address = codes "0.0.0.0";
  network_family_type = ip_4;
  number_of_ports = 2;
  base_port = 8000;
  http_request_address = codes "127.0.0.1";
  http_request_port = codes "8080";
  number_of_worker_threads = 1;
  number_of_io_threads = 1;
  number_of_timer_threads = 1;
  scylladb_address = codes "127.0.0.1";
  scylladb_port = codes "9042";
  scylladb_keyspace_name = codes "vin";
  scylladb_replication_factor = 1;
  scylladb_strategy = codes "SimpleStrategy";
  scylladb_table_name = codes "vehicles";
  use_mtls = false;
  mtls_base_port = 9000;
  server_cert_filename = codes "server.crt";
  cert_dirname = [];
  private_key_filename = codes "server.key";
  ca_key_file_name = codes "ca.crt";
  server_phrase = codes "secret";
}

abbrev pub openssl : Openssl
openssl = record {
  new_context = true;
  use_certificate_file = λ file. true;
  use_private_key_file = λ file pass. true;
  load_verify_locations = λ file. true;
  check_private_key = λ file key. true;
}

-- A password that fills all but two bytes of the buffer.
password_cb_lem_example :
    (length (password_cb (replicate 8 1) (codes "secret")).0 ≡ 8)
    × ((password_cb (replicate 8 1) (codes "secret")).1 ≤ 8)
    × (Lacks 0 (codes "secret")
        → 6 ≤ 8
        → password_cb (replicate 8 1) (codes "secret") ≡ (codes "secret" ++ replicate (8 - 6) 0, 6))
    × (8 < 6 → password_cb (replicate 8 1) (codes "secret") ≡ (replicate 8 1, 0))
password_cb_lem_example = password_cb_lem (replicate 8 1) (codes "secret")

abbrev pub opens : Provider → Bool
opens p = true

connection_providers_lem_example :
    (config.use_mtls ≡ false
      → connection_providers openssl opens config
        ≡ open_all opens (made opens tcp (codes "0.0.0.0") 8000 0 2))
    × (config.use_mtls ≡ true
        → get_ssl_context openssl config ≡ none
        → connection_providers openssl opens config ≡ none)
    × ((x : Context)
        → config.use_mtls ≡ true
        → get_ssl_context openssl config ≡ some x
        → connection_providers openssl opens config
          ≡ open_all opens (made opens (tls x) (codes "0.0.0.0") 9000 0 2))
connection_providers_lem_example = connection_providers_lem openssl opens config (omega arith)

abbrev pub joins : Bytes → List ℕ → Rows → Rows × Bool
joins hosts ports s = (s, true)

abbrev flag_number : Flag → ℕ
flag_number cb_alert = 0x4000
flag_number cb_exit = 2
flag_number cb_loop = 1
flag_number cb_read = 4
flag_number cb_write = 8
flag_number cb_accept_exit = 0x2002
flag_number cb_accept_loop = 0x2001
flag_number cb_connect_exit = 0x1002
flag_number cb_connect_loop = 0x1001
flag_number cb_handshake_done = 0x20
flag_number cb_handshake_start = 0x10
flag_number cb_read_alert = 0x4004
flag_number cb_write_alert = 0x4008

flag_laws : FlagLaws flag_number
flag_laws = record {
  alert_is = refl;
  exit_is = refl;
  loop_is = refl;
  read_is = refl;
  write_is = refl;
  accept_exit_is = refl;
  accept_loop_is = refl;
  connect_exit_is = refl;
  connect_loop_is = refl;
  handshake_done_is = refl;
  handshake_start_is = refl;
  read_alert_is = refl;
  write_alert_is = refl;
}

-- SSL_CB_ACCEPT_LOOP.
server_loop :
    state_type flag_number 0x2001
    ≡ codes " SSL_CB_LOOP SSL_CB_ACCEPT_EXIT SSL_CB_ACCEPT_LOOP SSL_CB_CONNECT_LOOP"
unfolding add_text
server_loop = refl

server_loop_accept :
    (before : Bytes) × (after : Bytes) × (state_type flag_number 0x2001
      ≡ before ++ codes " SSL_CB_ACCEPT_EXIT SSL_CB_ACCEPT_LOOP" ++ after)
server_loop_accept = state_type-accept flag_number 0x2001 flag_laws refl
