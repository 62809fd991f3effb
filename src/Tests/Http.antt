-- ===== src/Tests/Http.antt =====
-- src/utilis/HttpParser.h at concrete inputs.
use wsgateway.Prelude.{ℕ, ◌≡◌, refl, ◌⊎◌, [], ◌∷◌, some, Bytes, codes, lookup, bytes_eq, arith}
use wsgateway.Std.Stream.{Stream, open_text, getline, read_word, read_into}
use wsgateway.Std.Number.{negsuc, ok, err, stoi, to_string, invalid_argument, length_error}
use wsgateway.Http.Parser.{
  Message, Headers, create_request, content_length, read_headers, read_header, try_emplace, body_of,
}
use wsgateway.Http.Parser.RoundTrip.{print, IsRequest, create_request-print, create_request-body}
use wsgateway.Http.Parser.Total.{create_request_throws, header_phase, read_headers_fuel}
use wsgateway.Http.Response.{Response, build_response}
use wsgateway.Http.Response.ReadBack.{create_request-build_response, SaysAll}

abbrev pub sample : Message
sample = record {
  method = codes "POST";
  url = codes "/v1/state";
  version = codes "HTTP/1.1";
  headers = (codes "Accept", codes "*/*") ∷ (codes "Content-Length", codes "5") ∷ [];
  body = codes "hello";
}

pub sample-IsRequest : IsRequest sample
sample-IsRequest = record {
  method_token = ((λ e. cc), (refl, (refl, (refl, (refl, tt)))));
  url_token =
      ((λ e. cc), (refl, (refl, (refl, (refl, (refl, (refl, (refl, (refl, (refl, tt))))))))));
  version_token = ((λ e. cc), (refl, (refl, (refl, (refl, (refl, (refl, (refl, (refl, tt)))))))));
  some_header = λ e. cc;
  good_headers = omega arith;
  distinct = (((λ e. cc), tt), (tt, tt));
}

-- The parser on the text of a request, run.
sample_parsed :
    create_request
      (codes "POST /v1/state HTTP/1.1\r\nAccept: */*\r\nContent-Length: 5\r\n\r\nhello")
    ≡ ok sample
unfolding create_request read_word getline read_headers read_header try_emplace body_of read_into
    lookup stoi
sample_parsed = refl

-- With no header the blank line is kept as a header, and the body is not read.
no_headers :
    create_request (codes "GET / HTTP/1.1\r\n\r\nbody")
    ≡ ok (record {
      method = codes "GET";
      url = codes "/";
      version = codes "HTTP/1.1";
      headers = (codes "\r", []) ∷ [];
      body = [];
    })
unfolding create_request read_word getline read_headers read_header try_emplace body_of read_into
    lookup stoi
no_headers = refl

create_request-print_example : create_request (print sample) ≡ ok sample
unfolding lookup to_string
create_request-print_example = create_request-print sample sample-IsRequest refl (omega arith)

-- The text says 8 bytes and only 5 came.
abbrev short_sample : Message
short_sample = record sample { headers = (codes "Content-Length", codes "8") ∷ [] }

short-IsRequest : IsRequest short_sample
short-IsRequest = record {
  method_token = sample-IsRequest.method_token;
  url_token = sample-IsRequest.url_token;
  version_token = sample-IsRequest.version_token;
  some_header = λ e. cc;
  good_headers = omega arith;
  distinct = (tt, tt);
}

create_request-body_example :
    create_request (print short_sample) ≡ ok (record short_sample { body = codes "hello000" })
unfolding lookup to_string
create_request-body_example = create_request-body short_sample short-IsRequest 8 refl (omega arith)

abbrev silent_sample : Message
silent_sample = record sample { headers = (codes "Accept", codes "*/*") ∷ [] }

silent-IsRequest : IsRequest silent_sample
silent-IsRequest = record {
  method_token = sample-IsRequest.method_token;
  url_token = sample-IsRequest.url_token;
  version_token = sample-IsRequest.version_token;
  some_header = λ e. cc;
  good_headers = omega arith;
  distinct = (tt, tt);
}

-- A Content-Length that is no number.
abbrev unread : Bytes
unread = codes "GET / HTTP/1.1\r\nContent-Length: x\r\n\r\n"

unread_throws : create_request unread ≡ err invalid_argument
unfolding create_request read_word getline read_headers read_header try_emplace body_of read_into
    lookup stoi
unread_throws = refl

create_request_throws_example :
    (p : Stream × Headers) × (v : Bytes) × (header_phase unread ≡ ok p)
    × (lookup content_length p.1 ≡ some v)
    × ((stoi v ≡ err invalid_argument)
        ⊎ ((n : ℕ) × (stoi v ≡ ok (negsuc n)) × (invalid_argument ≡ length_error)))
create_request_throws_example = create_request_throws unread invalid_argument unread_throws

read_headers_fuel_example :
    read_headers 10 (open_text (codes "a: b\r\n")) [] 0 []
    ≡ read_headers 99 (open_text (codes "a: b\r\n")) [] 0 []
read_headers_fuel_example =
    read_headers_fuel 10 99 (open_text (codes "a: b\r\n")) [] 0 [] (omega arith) (omega arith)

abbrev sample_response : Response
sample_response = record {
  version = 11;
  result_int = 200;
  reason = codes "OK";
  fields = (codes "Content-Length", codes "2") ∷ [];
  body = codes "ok";
}

create_request-build_response_example :
    (msg : Message) × (create_request (build_response sample_response) ≡ ok msg)
    × SaysAll sample_response msg
unfolding lookup to_string
create_request-build_response_example =
    create_request-build_response sample_response ((λ e. cc), (refl, (refl, tt))) (λ e. cc)
      (omega arith) (tt, tt) refl (omega arith)
