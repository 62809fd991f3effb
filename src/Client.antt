-- ===== src/Client.antt =====
-- `asyncHttpClient` of src/utilis/boostBeastClient.h: a message of a connection sent on as an HTTP
-- request, and the answer as text. Boost.Beast's request type and the network are parameters.
pub mod Library
pub mod Forward
pub mod Sent
pub mod Marks
pub mod Faithful
pub mod Passed
pub mod Up
use wsgateway.Prelude.{
  ℕ, ◌+◌, ◌%◌, Bool, true, false, not, ◌&&◌, ◌||◌, List, [], ◌∷◌, ◌++◌, Option, none, some, Bytes,
  codes, empty, same, if◌then◌else◌, ◌==◌,
}
use wsgateway.Std.Number.{Result, ok, err, invalid_argument, ◌>>=◌}
use wsgateway.Http.Parser.{Message, Headers, create_request}
use wsgateway.Http.Response.{Response, build_response}
use Library.{Beast, Network}

-- `header.find_first_of("\r\n") != std::string::npos`
abbrev pub has_break : Bytes → Bool
has_break [] = false
has_break (c ∷ s) = c == b'\r' || c == b'\n' || has_break s

-- `port.back() = '0' + draw % 4 + 2`: the last byte of the port. An empty text has no last byte.
abbrev pub set_last : ℕ → Bytes → Option Bytes
set_last c [] = none
set_last c (d ∷ []) = some (c ∷ [])
set_last c (d ∷ e ∷ s) =
    let rest = set_last c (e ∷ s) in elim rest [ none ↦ none | some t ↦ some (d ∷ t) ]

unfoldable pub choose_port : ℕ → Bytes → Option Bytes
choose_port draw port = set_last (b'0' + draw % 4 + 2) port

-- `req->version`, which stays the library's default for any other text.
abbrev pub request_version : ℕ → Bytes → ℕ
request_version default version =
    if same version (codes "HTTP/1.1")
    then 11
    else (if same version (codes "HTTP/1.0") then 10 else default)

module _ (b : Beast) where
  open b use {Fields, set}

  -- The request as it is sent: its method, version, target, fields and body.
  pub record HttpRequest : Type 0 where
    pub method : b.Verb
    pub version : ℕ
    pub target : Bytes
    pub fields : Fields
    pub body : Bytes

  -- The loop over the headers.
  unfoldable pub set_headers : Headers → Fields → Fields
  set_headers [] req = req
  set_headers ((header, value) ∷ hs) req =
      set_headers hs (if has_break header || has_break value then req else set header value req)

  -- The request that is built of a message: all of the `try` block before the network, with the
  -- headers in the order in which the map gives them. An unknown method throws.
  unfoldable pub build_request : Message → Bytes → Bytes → Result HttpRequest
  unfolding set_headers
  build_request m client arrived = elim (b.string_to_verb m.method) [
    | none ↦ err invalid_argument
    | some verb ↦
        let version = request_version b.default_version m.version in
        let headed = set_headers (b.order m.headers) b.no_fields in
        let marked =
          set (codes "X-Client-ID") client (set (codes "X-Arrived-time") arrived headed) in
        ok (record {
          method = verb;
          version = version;
          target = m.url;
          fields = if empty m.body then marked else b.prepare_payload m.body marked;
          body = m.body;
        })
  ]

  -- `req->set(http::field::host, host)`, after the connection is made.
  abbrev pub set_host : Bytes → HttpRequest → HttpRequest
  set_host host req = record req { fields = set (codes "Host") host req.fields }

  abbrev pub error_text : Bytes
  error_text = codes "error"

  -- What a call of the client has done: its result, and the request that was written, if any.
  pub record Exchange : Type 0 where
    pub result : Bytes
    pub sent : Option HttpRequest

  module _ (n : Network HttpRequest) where
    -- The network part: each step that fails returns "error".
    unfoldable pub exchange : Bytes → Bytes → HttpRequest → Exchange
    exchange host port req =
        let with_host = set_host host req in
        if not (n.resolve host port)
        then record { result = error_text; sent = none }
        else (if not (n.connect host port)
            then record { result = error_text; sent = none }
            else (if not (n.write with_host)
                then record { result = error_text; sent = some with_host }
                else elim (n.read with_host) [
                  | none ↦ record { result = error_text; sent = some with_host }
                  | some res ↦ record { result = build_response res; sent = some with_host }
                ]))

    -- The `try` block; its `catch` returns "error".
    abbrev pub caught : Bytes → Bytes → Result HttpRequest → Exchange
    caught host port (err e) = record { result = error_text; sent = none }
    caught host port (ok req) = exchange host port req

    -- `asyncHttpClient` with the number that the generator draws: the port that it leaves in the
    -- listener, and what it does. With an empty port text the behaviour is not defined.
    unfoldable pub async_http_client :
        ℕ → Bytes → Bytes → Bytes → Bytes → Bytes → Option (Bytes × Exchange)
    unfolding exchange
    async_http_client draw msg host port client arrived = elim (choose_port draw port) [
      | none ↦ none
      | some port' ↦
          some
            (port', caught host port' (create_request msg >>= λ m. build_request m client arrived))
    ]
