-- ===== src/Http/Parser.antt =====
-- `createRequestFromBuffer` of src/utilis/HttpParser.h.
pub mod Lines
pub mod RoundTrip
pub mod Total
use wsgateway.Prelude.{
  ℕ, zero, suc, ◌+◌, ◌-◌, ◌^◌, ◌≤◌, ◌<◌, ◌≡◌, refl, Bool, true, false, not, ◌&&◌, ◌||◌, List, [],
  ◌∷◌, ◌++◌, Option, none, some, arith, ltb, leb, ◌==◌, if◌then◌else◌, length, take, drop,
  replicate, Bytes, codes, empty, lookup, bytes_eq,
}
use wsgateway.Std.Stream.{Stream, open_text, getline, read_word, read_into}
use wsgateway.Std.Number.{
  ℤ, pos, negsuc, stoi, Result, ok, err, Exception, out_of_range, length_error, ◌>>=◌,
}

abbrev pub Headers : Type 0
Headers = List (Bytes × Bytes)

-- The tuple that the parser returns.
pub record Message : Type 0 where
  pub method : Bytes
  pub url : Bytes
  pub version : Bytes
  pub headers : Headers
  pub body : Bytes

-- `headerLine.find(": ")`; `none` is `npos`.
abbrev pub find_separator : Bytes → Option ℕ
find_separator [] = none
find_separator (c ∷ []) = none
find_separator (c ∷ d ∷ s) =
    let later = find_separator (d ∷ s) in
    if c == b':' && d == b' ' then some 0 else elim later [ none ↦ none | some n ↦ some (suc n) ]

-- `size_t` subtraction of numbers below 2 ^ 64.
abbrev pub sub64 : ℕ → ℕ → ℕ
sub64 a b = if leb b a then a - b else a + 2 ^ 64 - b

-- `npos + 2` is 1.
abbrev pub value_start : Option ℕ → ℕ
value_start none = 1
value_start (some n) = n + 2

-- `s.substr(start, count)` throws where it starts behind the end.
abbrev pub substr : ℕ → ℕ → Bytes → Result Bytes
substr start count s =
    if leb start (length s) then ok (take count (drop start s)) else err out_of_range

-- `s.substr(0, n)`, whole at `npos`.
abbrev pub header_name : Option ℕ → Bytes → Bytes
header_name none s = s
header_name (some n) s = take n s

-- The name and the value of a header line. The value loses its last byte, the '\r'.
unfoldable pub read_header : Bytes → Result (Bytes × Bytes)
read_header line =
    let delimiter = find_separator line in
    let start = value_start delimiter in
    do
      value ← substr start (sub64 (sub64 (length line) start) 1) line
      ok (header_name delimiter line, value)

-- `headers.try_emplace(name, value)`: the first value of a name stays.
unfoldable pub try_emplace : Bytes × Bytes → Headers → Headers
try_emplace h headers = elim (lookup h.0 headers) [ none ↦ headers ++ h ∷ [] | some v ↦ headers ]

-- `delimiterPos == npos && mycount > 1`
abbrev pub is_break : Option ℕ → ℕ → Bool
is_break none count = ltb 1 count
is_break (some n) count = false

-- The loop over the header lines, on fuel: each round takes a byte off the stream or sets its eof
-- bit. Its state is the stream, the last line, the line counter and the map.
unfoldable pub read_headers : ℕ → Stream → Bytes → ℕ → Headers → Result (Stream × Headers)
read_headers zero stream line count headers = ok (stream, headers)
read_headers (suc f) stream line count headers =
    let r = getline b'\n' stream line in
    let more =
      read_header r.1 >>= λ h. read_headers f r.0 r.1 (count + 1) (try_emplace h headers) in
    if r.0.fail || empty r.1
    then ok (r.0, headers)
    else (if is_break (find_separator r.1) (count + 1) then ok (r.0, headers) else more)

-- `body.insert(0, n, '0')` and the read over it. A negative length is a size that no string has.
abbrev pub read_body : Stream → ℤ → Result Bytes
read_body stream (pos n) = ok (read_into stream n (replicate n b'0')).1
read_body stream (negsuc n) = err length_error

abbrev pub content_length : Bytes
content_length = codes "Content-Length"

-- What follows the headers.
unfoldable pub body_of : Stream → Headers → Result Bytes
body_of stream headers = elim (lookup content_length headers) [
  | none ↦ ok []
  | some v ↦ stoi v >>= read_body stream
]

-- `createRequestFromBuffer`
unfoldable pub create_request : Bytes → Result Message
create_request buffer =
    let m = read_word (open_text buffer) [] in
    let u = read_word m.0 [] in
    let v = read_word u.0 [] in
    let first = getline b'\n' v.0 [] in
    do
      parsed ← read_headers (length buffer + 2) first.0 first.1 0 []
      body ← body_of parsed.0 parsed.1
      ok (record { method = m.1; url = u.1; version = v.1; headers = parsed.1; body = body })
