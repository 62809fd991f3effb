-- ===== src/App/Ports.antt =====
-- The ports that the servers listen on.
use wsgateway.Prelude.{
  ℕ, zero, suc, ◌+◌, ◌%◌, ◌^◌, ◌<◌, ◌≡◌, ◌≢◌, refl, Bool, true, false, ◌&&◌, List, [], ◌∷◌, ◌++◌,
  append_assoc, append-nil, map, Option, none, some, Bytes, if◌then◌else◌, arith,
}
use wsgateway.Std.Number.{to_string}
use wsgateway.Std.Number.RoundTrip.{strtol-to_string}
use wsgateway.Config.{Config}
use wsgateway.Ssl.{Openssl, Context, get_ssl_context}
use wsgateway.App.Providers.{
  Address, Provider, tls, tcp, port_at, add_providers, rounds, connection_providers,
  request_address,
}

-- The addresses that stand for the numbers i, i + 1 and so on, n of them.
abbrev pub addresses : Bytes → ℕ → ℕ → ℕ → List Address
addresses host port i zero = []
addresses host port i (suc n) =
    record { host = host; port = port_at port i } ∷ addresses host port (i + 1) n

module _ (opens : Provider → Bool) where
  abbrev pub all_open : List Provider → Bool
  all_open [] = true
  all_open (p ∷ ps) = opens p && all_open ps

  -- The providers, if each of them opens.
  abbrev pub open_all : List Provider → Option (List Provider)
  open_all ps = if all_open ps then some ps else none

  module _ (make : Address → Provider) where
    abbrev pub made : Bytes → ℕ → ℕ → ℕ → List Provider
    made host port i n = map make (addresses host port i n)

    add_all :
        (f n : ℕ) (host : Bytes) (port count i : ℕ) (ps : List Provider)
        → n < f
        → i + n ≡ count
        → count < 2 ^ 8
        → add_providers make opens f host port count i ps
          ≡ (if all_open (made host port i n) then some (ps ++ made host port i n) else none)
    unfolding add_providers
    add_all zero n host port count i ps h e c = elim h [ ]
    add_all (suc f) zero host port count i ps h e c = rw (append-nil ps) (ground arith)
    add_all (suc f) (suc n) host port count i ps h e c =
        let p = make (record { host = host; port = port_at port i }) in
        let next : (i + 1) % 2 ^ 8 ≡ i + 1 = omega arith in
        rw next (
          ground (
            arith,
            add_all f n host port count (i + 1) (ps ++ p ∷ []),
            append_assoc ps (p ∷ []) (made host port (i + 1) n),
          ))

-- With fewer than 256 ports: for each number below number_of_ports there is one server, in this
-- order: the server for i has the configured address and the first port plus i, modulo 2 ^ 16. With
-- mutual TLS the first port is the TLS one and each server has the context; the process exits where
-- no context is made or a server does not open.
pub connection_providers_lem :
    (o : Openssl) (opens : Provider → Bool) (c : Config)
    → c.number_of_ports < 2 ^ 8
    → (c.use_mtls ≡ false
        → connection_providers o opens c
          ≡ open_all opens (made opens tcp c.server_address c.base_port 0 c.number_of_ports))
      × (c.use_mtls ≡ true → get_ssl_context o c ≡ none → connection_providers o opens c ≡ none)
      × ((x : Context)
          → c.use_mtls ≡ true
          → get_ssl_context o c ≡ some x
          → connection_providers o opens c
            ≡ open_all opens
                (made opens (tls x) c.server_address c.mtls_base_port 0 c.number_of_ports))
unfolding connection_providers
connection_providers_lem o opens c h = (
  (λ plain. ground (
    arith,
    add_all opens tcp rounds c.number_of_ports c.server_address c.base_port c.number_of_ports 0 [],
  )),
  (λ secure failed. ground arith),
  (λ x secure made_context. ground (
    arith,
    add_all opens (tls x) rounds c.number_of_ports c.server_address c.mtls_base_port
        c.number_of_ports 0 [],
  )),
)

-- No two of the servers share a port.
pub port_at_distinct : (port i j : ℕ) → i < j → j < 2 ^ 8 → port_at port i ≢ port_at port j
port_at_distinct port i j h k e = absurd (omega arith)

-- A port text that is a number below 2 ^ 63 is the port modulo 2 ^ 16, also where the signed 16-bit
-- number on the way is negative.
pub request_address_port :
    (c : Config) (n : ℕ)
    → n < 2 ^ 63
    → c.http_request_port ≡ to_string n
    → (request_address c).port ≡ n % 2 ^ 16
unfolding request_address
request_address_port c n h e =
    rw (e, ← append-nil (to_string n), strtol-to_string n [] (omega arith) refl) (ground arith)
