-- ===== src/Ssl.antt =====
-- src/utilis/sslContext.h: the TLS context of the servers, over what the calls of OpenSSL return.
pub mod Password
pub mod State
use wsgateway.Prelude.{
  ℕ, zero, suc, ◌≡◌, Bool, true, false, Option, none, some, Bytes, [], ◌∷◌, ltb, if◌then◌else◌,
  ◌==◌, length, replicate,
}
use wsgateway.Config.{Config}

-- `std::strncpy` into a buffer of n bytes: the text up to a NUL, filled up with NULs.
abbrev pub strncpy : ℕ → Bytes → Bytes
strncpy zero s = []
strncpy (suc n) [] = replicate (suc n) 0
strncpy (suc n) (c ∷ s) = if c == 0 then replicate (suc n) 0 else c ∷ strncpy n s

-- `passwordCB`: the buffer's bytes behind the call, and the length that it returns. A password that
-- is longer than the buffer is refused, and the buffer is left alone.
unfoldable pub password_cb : Bytes → Bytes → Bytes × ℕ
password_cb buffer pass =
    if ltb (length buffer) (length pass)
    then (buffer, 0)
    else (strncpy (length buffer) pass, length pass)

-- What the peer is asked for: SSL_VERIFY_NONE, or SSL_VERIFY_PEER with
-- SSL_VERIFY_FAIL_IF_NO_PEER_CERT.
pub data Verify : Type 0 where
  verify_none verify_peer : Verify

-- Which calls of the library succeed.
pub record Openssl : Type 0 where
  pub new_context : Bool
  pub use_certificate_file : Bytes → Bool
  pub use_private_key_file : Bytes → Bytes → Bool
  pub load_verify_locations : Bytes → Bool
  pub check_private_key : Bytes → Bytes → Bool

-- The context as the program sets it.
pub record Context : Type 0 where
  pub certificate : Bytes
  pub private_key : Bytes
  pub authority : Bytes
  pub passphrase : Bytes
  pub verify : Verify
  pub verify_depth : ℕ

-- `exit(-1)` unless the call succeeds.
abbrev pub must {ℓ} : {A : Type ℓ} → Bool → Option A → Option A
must true rest = rest
must false rest = none

-- `getSSLContext`; `none` where the process exits.
unfoldable pub get_ssl_context : Openssl → Config → Option Context
get_ssl_context o c = must o.new_context (
    must (o.use_certificate_file c.server_cert_filename) (
      must (o.use_private_key_file c.private_key_filename c.server_phrase) (
        must (o.load_verify_locations c.ca_key_file_name) (
          must (o.check_private_key c.server_cert_filename c.private_key_filename) (
            some (record {
              certificate = c.server_cert_filename;
              private_key = c.private_key_filename;
              authority = c.ca_key_file_name;
              passphrase = c.server_phrase;
              verify = verify_none;
              verify_depth = 5;
            }))))))
