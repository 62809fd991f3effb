-- ===== src/Http/Response.antt =====
-- `buildResponseStringBuffer` of src/utilis/HttpParser.h.
pub mod ReadBack
use wsgateway.Prelude.{
  ℕ, zero, suc, ◌+◌, ◌*◌, ◌/◌, ◌%◌, ◌≤◌, ◌<◌, ◌≡◌, refl, sym, ap, ◌∙◌, List, [], ◌⊎◌, inl, inr,
  true, false, ◌∷◌, ◌++◌, append_assoc, append-nil, arith, ltb, ◌==◌, ==_iff, if◌then◌else◌, Bytes,
  codes, Bool-cases,
}
use wsgateway.Std.Number.{to_string}
use wsgateway.Std.Number.RoundTrip.{to_string_step}

-- What the function reads of `boost::beast::http::response<string_body>`: the version as ten times
-- its major number and its minor number, and the fields in their order.
pub record Response : Type 0 where
  pub version : ℕ
  pub result_int : ℕ
  pub reason : Bytes
  pub fields : List (Bytes × Bytes)
  pub body : Bytes

-- The switch over `res.version()`.
unfoldable pub version_text : ℕ → Bytes
version_text v =
    if v == 10
    then codes "HTTP/1.0"
    else (if v == 11
        then codes "HTTP/1.1"
        else codes "HTTP/" ++ to_string (v / 10) ++ codes "." ++ to_string (v % 10))

crlf : Bytes
crlf = codes "\r\n"

-- The loop over the fields, which writes behind what is written.
unfoldable pub write_fields : List (Bytes × Bytes) → Bytes → Bytes
unfolding crlf
write_fields [] oss = oss
write_fields ((name, value) ∷ fs) oss =
    write_fields fs (oss ++ (name ++ codes ": " ++ value ++ crlf))

-- `buildResponseStringBuffer`
unfoldable pub build_response : Response → Bytes
unfolding crlf
build_response res =
    write_fields res.fields (
      version_text res.version
      ++ codes " "
      ++ to_string res.result_int
      ++ codes " "
      ++ res.reason
      ++ crlf)
    ++ crlf
    ++ res.body

-- The two named versions are written as the default writes them.
pub version_text_lem :
    (v : ℕ)
    → version_text v ≡ codes "HTTP/" ++ to_string (v / 10) ++ codes "." ++ to_string (v % 10)
unfolding version_text
version_text_lem v = elim (Bool-cases (v == 10)) [
  | inl ten ↦ rw (ten, (==_iff v 10).0 ten) (unfold to_string in refl)
  | inr other ↦ elim (Bool-cases (v == 11)) [
    | inl eleven ↦ rw (other, eleven, (==_iff v 11).0 eleven) (unfold to_string in refl)
    | inr more ↦ rw (other, more)
  ]
]
