-- ===== src/App/Providers.antt =====
-- The connection providers and the request executor of src/AppComponent.h.
use wsgateway.Prelude.{
  ℕ, zero, suc, ◌+◌, ◌%◌, ◌^◌, Bool, List, [], ◌∷◌, ◌++◌, Option, none, some, Bytes, ltb,
  if◌then◌else◌,
}
use wsgateway.Std.Number.{to_signed, to_unsigned, strtol}
use wsgateway.Config.{Config}
use wsgateway.Ssl.{Openssl, Context, get_ssl_context}

-- A server's address; the port is an unsigned 16-bit number.
pub record Address : Type 0 where
  pub host : Bytes
  pub port : ℕ

-- A provider with the TLS context, or a plain one.
pub data Provider : Type 0 where
  tls : Context → Address → Provider
  tcp : Address → Provider

abbrev pub port_at : ℕ → ℕ → ℕ
port_at port i = (port + i) % 2 ^ 16

-- The loop over `i`, an unsigned 8-bit number, on fuel. A provider that cannot be made throws, and
-- the process exits: `none`.
module _ (make : Address → Provider) (opens : Provider → Bool) where
  unfoldable pub add_providers : ℕ → Bytes → ℕ → ℕ → ℕ → List Provider → Option (List Provider)
  add_providers zero host port count i providers = some providers
  add_providers (suc f) host port count i providers =
      let p = make (record { host = host; port = port_at port i }) in
      let more = add_providers f host port count ((i + 1) % 2 ^ 8) (providers ++ p ∷ []) in
      if ltb i count then (if opens p then more else none) else some providers

-- The fuel: `i` is below 256, and passes each number once.
abbrev pub rounds : ℕ
rounds = 257

-- The component `connectionProviders`; which providers can be opened is a parameter.
unfoldable pub connection_providers : Openssl → (Provider → Bool) → Config → Option (List Provider)
connection_providers o opens c =
    if c.use_mtls
    then elim (get_ssl_context o c) [
      | none ↦ none
      | some ctx ↦
          add_providers (tls ctx) opens rounds c.server_address c.mtls_base_port c.number_of_ports 0
            []
    ]
    else add_providers tcp opens rounds c.server_address c.base_port c.number_of_ports 0 []

-- The address of the component `clientExcecutor`: a long, cast to a signed and then to an unsigned
-- 16-bit number.
unfoldable pub request_address : Config → Address
request_address c = record {
  host = c.http_request_address;
  port = to_unsigned 16 (to_signed 16 (strtol c.http_request_port).0);
}
