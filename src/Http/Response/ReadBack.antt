-- ===== src/Http/Response/ReadBack.antt =====
-- A response that the gateway writes, read back with the parser that it has for requests.
use wsgateway.Prelude.{
  ℕ, ◌/◌, ◌%◌, ◌≤◌, ◌≡◌, refl, sym, ◌∙◌, ◌≢◌, List, [], some, true, false, ◌∷◌, ◌++◌, append_assoc,
  append-nil, arith, Bytes, codes, All, All-append, length, lookup, bytes_eq,
}
use wsgateway.Std.Stream.{is_space, Solid}
use wsgateway.Std.Number.{ok, to_string, IsDigit, int_max, starts_digit}
use wsgateway.Std.Number.RoundTrip.{to_string_digits, starts_digit-to_string}
use wsgateway.Http.Parser.{Message, create_request, content_length}
use wsgateway.Http.Parser.Lines.{print_headers, IsHeader, Distinct}
use wsgateway.Http.Parser.RoundTrip.{print, IsToken, create_request-print}
use wsgateway.Http.Response.{
  Response, version_text, version_text_lem, write_fields, build_response, crlf,
}

-- The parts of a response in the places of a request's parts.
abbrev pub as_message : Response → Message
as_message r = record {
  method = version_text r.version;
  url = to_string r.result_int;
  version = r.reason;
  headers = r.fields;
  body = r.body;
}

-- The parser keeps the headers in an unordered map: a message is compared with a response by the
-- value of each name.
pub record SaysAll (r : Response) (msg : Message) : Type 0 where
  pub version : msg.method ≡ version_text r.version
  pub status : msg.url ≡ to_string r.result_int
  pub reason : msg.version ≡ r.reason
  pub body : msg.body ≡ r.body
  pub fields : (name : Bytes) → lookup name msg.headers ≡ lookup name r.fields

write_fields-print :
    (fs : List (Bytes × Bytes)) (oss : Bytes) → write_fields fs oss ≡ oss ++ print_headers fs
unfolding write_fields crlf
write_fields-print [] oss = sym (append-nil oss)
write_fields-print ((name, value) ∷ fs) oss = simp (write_fields-print fs, append_assoc)

build_response-print : (r : Response) → build_response r ≡ print (as_message r)
unfolding build_response crlf
build_response-print r = simp (write_fields-print r.fields, append_assoc)

digits-Solid : (s : Bytes) → All IsDigit s → Solid s
digits-Solid [] h = tt
digits-Solid (c ∷ s) h = (ground arith, digits-Solid s h.1)

number-IsToken : (n : ℕ) → IsToken (to_string n)
number-IsToken n =
    (not_empty (to_string n) (starts_digit-to_string n), digits-Solid _ (to_string_digits n))
  where
    not_empty : (s : Bytes) → starts_digit s ≡ true → s ≢ []
    not_empty [] h e = cc
    not_empty (c ∷ s) h e = cc

version-IsToken : (v : ℕ) → IsToken (version_text v)
version-IsToken v = rw (version_text_lem v) (
  (λ e. cc),
  solid_append (codes "HTTP/" ++ to_string (v / 10) ++ codes ".") (to_string (v % 10))
      (solid_append (codes "HTTP/" ++ to_string (v / 10)) (codes ".")
        (solid_append (codes "HTTP/") (to_string (v / 10))
          (refl, (refl, (refl, (refl, (refl, tt))))) (number-IsToken (v / 10)).1)
        (refl, tt))
      (number-IsToken (v % 10)).1,
)
  where
    solid_append : (s t : Bytes) → Solid s → Solid t → Solid (s ++ t)
    solid_append = All-append (λ c. is_space c ≡ false)

-- The text of a response holds all its parts: the parser gives back the version, the status code,
-- the reason, the body and for every name the value of its field, if the reason is one word, there
-- is a field, the names of the fields are distinct, each field fits its line, and Content-Length is
-- the length of the body, at most the greatest int.
pub create_request-build_response :
    (r : Response)
    → IsToken r.reason
    → r.fields ≢ []
    → All IsHeader r.fields
    → Distinct r.fields
    → lookup content_length r.fields ≡ some (to_string (length r.body))
    → length r.body ≤ int_max
    → (msg : Message) × (create_request (build_response r) ≡ ok msg) × SaysAll r msg
create_request-build_response r reason some_field fields names e fits = (
  as_message r,
  rw (build_response-print r) (
      create_request-print (as_message r)
        (record {
          method_token = version-IsToken r.version;
          url_token = number-IsToken r.result_int;
          version_token = reason;
          some_header = some_field;
          good_headers = fields;
          distinct = names;
        })
        e fits),
  record { version = refl; status = refl; reason = refl; body = refl; fields = λ name. refl },
)

append-ne-nil : (s t : Bytes) → s ≢ [] → s ++ t ≢ []
append-ne-nil [] t h e = h refl
append-ne-nil (c ∷ s) t h e = cc

-- The text of a response is never empty.
pub build_response-ne-nil : (r : Response) → build_response r ≢ []
build_response-ne-nil r e =
    append-ne-nil (version_text r.version) _ (version-IsToken r.version).0
      (sym (build_response-print r) ∙ e)
