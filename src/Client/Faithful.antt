-- ===== src/Client/Faithful.antt =====
-- A request that a client sends as text, against the request that src/utilis/boostBeastClient.h
-- writes for it.
use wsgateway.Prelude.{ℕ, ◌≡◌, ◌≤◌, some, Bytes, lookup, bytes_eq, arith, length}
use wsgateway.Std.Number.{ok, to_string, int_max}
use wsgateway.Http.Parser.{Message, content_length}
use wsgateway.Http.Parser.RoundTrip.{print, IsRequest, create_request-print}
use wsgateway.Client.Library.{Beast, Network}
use wsgateway.Client.{
  HttpRequest, Exchange, build_request, set_host, request_version, async_http_client,
}
use wsgateway.Client.Sent.{sent_built}

module _ (b : Beast) where
  -- The request says what the message says: the method, the version, the target and the body.
  pub record Agrees (m : Message) (verb : b.Verb) (req : HttpRequest b) : Type 0 where
    pub method : req.method ≡ verb
    pub version : req.version ≡ request_version b.default_version m.version
    pub target : req.target ≡ m.url
    pub body : req.body ≡ m.body

  pub build_request-Agrees :
      (m : Message) (verb : b.Verb) (client arrived host : Bytes) (q : HttpRequest b)
      → b.string_to_verb m.method ≡ some verb
      → build_request b m client arrived ≡ ok q
      → Agrees m verb (set_host b host q)
  unfolding build_request
  build_request-Agrees m verb client arrived host q known e = record {
    method = ground arith;
    version = ground arith;
    target = ground arith;
    body = ground arith;
  }

  -- A message that is the text of a request, with a method that the library knows, is forwarded as
  -- what it says: a request that is written has its method, version, target and body. The request's
  -- first line is three words, it has a header, its headers have distinct names and fit their
  -- lines, and its Content-Length is the length of its body, at most the greatest int.
  pub sent-Agrees :
      (n : Network (HttpRequest b)) (m : Message) (verb : b.Verb)
      → IsRequest m
      → lookup content_length m.headers ≡ some (to_string (length m.body))
      → length m.body ≤ int_max
      → b.string_to_verb m.method ≡ some verb
      → (draw : ℕ) (host port client arrived port' : Bytes) (x : Exchange b) (req : HttpRequest b)
      → async_http_client b n draw (print m) host port client arrived ≡ some (port', x)
      → x.sent ≡ some req
      → Agrees m verb req
  sent-Agrees n m verb is_request counted fits known draw host port client arrived port' x req e s =
      let (q, built, same_one) =
        sent_built b n draw (print m) host port client arrived port' x req e s in
      let parsed = create_request-print m is_request counted fits in
      rw same_one (build_request-Agrees m verb client arrived host q known (rw parsed at built))
