-- ===== src/Tests/Client.antt =====
-- src/utilis/boostBeastClient.h and src/websocket/WebSocketListener.cpp at concrete inputs.
use wsgateway.Prelude.{
  arith, ◌≡◌, refl, true, List, [], ◌∷◌, some, Bytes, codes, lower, same, same_refl, lookup, insert,
  lookup-insert, bytes_eq, length,
}
use wsgateway.Std.Number.{ok, to_string, stoi}
use wsgateway.Std.Stream.{read_word, getline, read_into}
use wsgateway.Http.Parser.{
  Message, Headers, create_request, read_headers, read_header, try_emplace, body_of,
}
use wsgateway.Http.Response.{Response, build_response}
use wsgateway.Client.Library.{Beast, BeastLaws, Network}
use wsgateway.Client.{
  HttpRequest, Exchange, async_http_client, choose_port, set_headers, build_request, exchange,
}
use wsgateway.Websocket.Registry.{add_client}
use wsgateway.Http.Parser.{content_length}
use wsgateway.Http.Parser.RoundTrip.{print, create_request-print}
use wsgateway.Tests.Http.{sample, sample-IsRequest}
use wsgateway.Tests.Registry.{car}
use wsgateway.Tests.Websocket.{one_socket}

-- A container of fields as a dictionary by their names in lower case.
abbrev pub beast : Beast
beast = record {
  Verb = Bytes;
  string_to_verb = some;
  default_version = 11;
  Fields = List (Bytes × Bytes);
  no_fields = [];
  get = λ j f. lookup (lower j) f;
  set = λ k v f. insert (lower k) v f;
  prepare_payload = λ body f. insert (lower (codes "Content-Length")) (to_string (length body)) f;
  same_name = λ k j. same (lower k) (lower j);
  order = λ hs. hs;
}

abbrev pub beast_laws : BeastLaws beast
unfolding lookup
beast_laws = record {
  get_none = λ j. refl;
  get-set = λ k j v f. lookup-insert (lower k) (lower j) v f;
  same_self = λ k. same_refl (lower k);
  same_lower = λ k j h. h;
  get-prepare_payload = λ body j f h k.
      rw (lookup-insert (lower (codes "Content-Length")) (lower j) (to_string (length body)) f, h);
}

abbrev pub reply : Response
reply = record {
  version = 11;
  result_int = 200;
  reason = codes "OK";
  fields = [];
  body = codes "hi";
}

abbrev pub network : Network (HttpRequest beast)
network = record {
  resolve = λ host port. true;
  connect = λ host port. true;
  write = λ q. true;
  read = λ q. some reply;
}

-- A message that claims to come from another client.
abbrev pub forged : Bytes
forged = codes "GET / HTTP/1.1\r\nX-Client-ID: car2\r\n\r\n"

abbrev pub forged_message : Message
forged_message = record {
  method = codes "GET";
  url = codes "/";
  version = codes "HTTP/1.1";
  headers = (codes "X-Client-ID", codes "car2") ∷ [];
  body = [];
}

pub forged_parsed : create_request forged ≡ ok forged_message
unfolding create_request read_word getline read_headers read_header try_emplace body_of read_into
    lookup stoi
forged_parsed = refl

abbrev sent_request : HttpRequest beast
sent_request = record {
  method = codes "GET";
  version = 11;
  target = codes "/";
  fields =
      (codes "x-client-id", codes "car1")
      ∷ (codes "x-arrived-time", codes "5")
      ∷ (codes "host", codes "app")
      ∷ [];
  body = [];
}

abbrev answered : Exchange beast
answered = record { result = build_response reply; sent = some sent_request }

forwarded :
    async_http_client beast network 1 forged (codes "app") (codes "8080") (codes "car1") (codes "5")
    ≡ some (codes "8083", answered)
unfolding async_http_client choose_port exchange build_request set_headers insert
forwarded = rw forged_parsed

-- The second header's value holds a line break.
abbrev mixed_headers : Headers
mixed_headers = (codes "Accept", codes "text") ∷ (codes "X-Bad", codes "a\r\nHost: evil") ∷ []

mixed_set : lookup (codes "accept") (set_headers beast mixed_headers []) ≡ some (codes "text")
unfolding set_headers lookup insert
mixed_set = refl

car_found : lookup car one_socket.registry.clients ≡ some 7
unfolding lookup add_client insert
car_found = refl

abbrev sample_sent : HttpRequest beast
sample_sent = record {
  method = codes "POST";
  version = 11;
  target = codes "/v1/state";
  fields =
      (codes "accept", codes "*/*")
      ∷ (codes "content-length", codes "5")
      ∷ (codes "x-arrived-time", codes "5")
      ∷ (codes "x-client-id", codes "car1")
      ∷ (codes "host", codes "app")
      ∷ [];
  body = codes "hello";
}

abbrev sample_answered : Exchange beast
sample_answered = record { result = build_response reply; sent = some sample_sent }

pub sample_counted : lookup content_length sample.headers ≡ some (to_string (length sample.body))
unfolding lookup to_string
sample_counted = refl

sample_read : create_request (print sample) ≡ ok sample
sample_read = create_request-print sample sample-IsRequest sample_counted (omega arith)

sample_forwarded :
    async_http_client beast network 1
      (print sample)
      (codes "app")
      (codes "8080")
      (codes "car1")
      (codes "5")
    ≡ some (codes "8083", sample_answered)
unfolding async_http_client choose_port exchange build_request set_headers insert to_string
sample_forwarded = rw sample_read
