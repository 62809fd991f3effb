-- ===== src/Client/Up.antt =====
-- What `asyncHttpClient` of src/utilis/boostBeastClient.h gives for a request on a network and an
-- application that do not fail.
use wsgateway.Prelude.{◌≡◌, ◌≤◌, refl, ap, ◌∙◌, true, some, Bytes, lookup, bytes_eq, arith, length}
use wsgateway.Std.Number.{Result, ok, err, to_string, int_max, ◌>>=◌}
use wsgateway.Http.Parser.{Message, content_length, create_request}
use wsgateway.Http.Parser.RoundTrip.{print, IsRequest, create_request-print}
use wsgateway.Http.Response.{Response, build_response}
use wsgateway.Client.Library.{Beast, BeastLaws, Network}
use wsgateway.Client.{HttpRequest, build_request, set_host, exchange, caught}
use wsgateway.Client.Faithful.{Agrees, build_request-Agrees}
use wsgateway.Client.Marks.{Marked, Marked-built}

-- The text of a request: its first line is three words, it has a header, its headers have distinct
-- names and fit their lines, and its Content-Length is the length of its body, at most the greatest
-- int; the library knows its method.
pub record Says (b : Beast) (s : Bytes) (m : Message) (verb : b.Verb) : Type 0 where
  pub printed : s ≡ print m
  pub is_request : IsRequest m
  pub counted : lookup content_length m.headers ≡ some (to_string (length m.body))
  pub fits : length m.body ≤ int_max
  pub known : b.string_to_verb m.method ≡ some verb

-- The network brings every request to an application, which replies.
pub record IsUp (b : Beast) (n : Network (HttpRequest b)) (reply : HttpRequest b → Response)
    : Type 0 where
  pub resolves : (host port : Bytes) → n.resolve host port ≡ true
  pub connects : (host port : Bytes) → n.connect host port ≡ true
  pub writes : (q : HttpRequest b) → n.write q ≡ true
  pub replies : (q : HttpRequest b) → n.read q ≡ some (reply q)

module _ (b : Beast) (laws : BeastLaws b) (n : Network (HttpRequest b))
    (reply : HttpRequest b → Response) (up : IsUp b n reply) where
  exchange-IsUp :
      (host port : Bytes) (q : HttpRequest b)
      → (exchange b n host port q).result ≡ build_response (reply (set_host b host q))
  unfolding exchange
  exchange-IsUp host port q =
      rw
        (
          up.resolves host port,
          up.connects host port,
          up.writes (set_host b host q),
          up.replies (set_host b host q),
        )
        refl

  build_request_known :
      (m : Message) (verb : b.Verb) (client arrived : Bytes)
      → b.string_to_verb m.method ≡ some verb
      → (q : HttpRequest b) × (build_request b m client arrived ≡ ok q)
  unfolding build_request
  build_request_known m verb client arrived known =
      by_result (build_request b m client arrived) refl
    where
      by_result :
          (r : Result (HttpRequest b))
          → build_request b m client arrived ≡ r
          → (q : HttpRequest b) × (build_request b m client arrived ≡ ok q)
      by_result (err x) e = absurd (ground (arith, known))
      by_result (ok q) e = (q, e)

  -- The text of a request is read and built, and the function in one piece gives the application's
  -- reply to it, whatever the port.
  pub record Replied (s : Bytes) (m : Message) (verb : b.Verb) (host client arrived : Bytes)
      : Type 0 where
    pub built : HttpRequest b
    pub is_built : (create_request s >>= λ h. build_request b h client arrived) ≡ ok built
    pub agrees : Agrees b m verb (set_host b host built)
    pub marked : Marked b laws client arrived host (set_host b host built).fields
    pub result :
        (port : Bytes)
        → (caught b n host port (create_request s >>= λ h. build_request b h client arrived)).result
          ≡ build_response (reply (set_host b host built))

  pub Says-Replied :
      (s : Bytes) (m : Message) (verb : b.Verb) (host client arrived : Bytes)
      → Says b s m verb
      → Replied s m verb host client arrived
  Says-Replied s m verb host client arrived says =
      let (q, from_message) = build_request_known m verb client arrived says.known in
      let parsed : create_request s ≡ ok m =
        ap create_request says.printed
        ∙ create_request-print m says.is_request says.counted says.fits in
      let made : (create_request s >>= λ h. build_request b h client arrived) ≡ ok q =
        ap (λ r. r >>= λ h. build_request b h client arrived) parsed ∙ from_message in
      record {
        built = q;
        is_built = made;
        agrees = build_request-Agrees b m verb client arrived host q says.known from_message;
        marked = Marked-built b laws client arrived host (create_request s) q made;
        result = λ port. rw made (exchange-IsUp host port q);
      }
