-- ===== src/Http/Parser/RoundTrip.antt =====
-- The parser on well-formed messages.
use wsgateway.Prelude.{
  ℕ, zero, suc, ◌+◌, ◌-◌, ◌≤◌, ◌<◌, ◌≡◌, refl, ap, ◌∙◌, ◌≢◌, inl, true, false, [], ◌∷◌, ◌++◌,
  append-nil, none, some, arith, length, take, drop, replicate, Bytes, lookup, bytes_eq, All,
  length-append, take_all, replicate_eq,
}
use wsgateway.Std.Stream.{
  open_text, getline, read_word, read_into, word-append, skip_space, is_space, Solid,
}
use wsgateway.Std.Number.{ok, ◌>>=◌, to_string, int_max}
use wsgateway.Std.Number.RoundTrip.{stoi-to_string}
use wsgateway.Http.Parser.{Message, Headers, create_request, body_of, content_length}
use wsgateway.Http.Parser.Lines.{print_headers, header_line, IsHeader, Distinct, read_headers_lines}

-- The text of a request, as a client writes it.
abbrev pub print : Message → Bytes
print m =
    m.method
    ++ b' '
      ∷ (m.url
          ++ b' '
            ∷ (m.version ++ b'\r' ∷ b'\n' ∷ (print_headers m.headers ++ b'\r' ∷ b'\n' ∷ m.body)))

abbrev pub IsToken : Bytes → Type 0
IsToken p = (p ≢ []) × Solid p

-- The three words of the first line hold no white space; there is a header; the names of the
-- headers are distinct, and each header fits its line.
pub record IsRequest (m : Message) : Type 0 where
  pub method_token : IsToken m.method
  pub url_token : IsToken m.url
  pub version_token : IsToken m.version
  pub some_header : m.headers ≢ []
  pub good_headers : All IsHeader m.headers
  pub distinct : Distinct m.headers

skip_solid : (c : ℕ) (s : Bytes) → is_space c ≡ false → skip_space (c ∷ s) ≡ c ∷ s
skip_solid c s h = rw h

-- A good stream before a word, with one space in front or none, gives the word.
read_word_token :
    (s p : Bytes) (c : ℕ) (rest last : Bytes)
    → IsToken p
    → is_space c ≡ true
    → skip_space s ≡ skip_space (p ++ c ∷ rest)
    → read_word (open_text s) last ≡ (open_text (c ∷ rest), p)
unfolding read_word
read_word_token s [] c rest last h sp e = absurd (h.0 refl)
read_word_token s (b ∷ p) c rest last h sp e =
    rw (e, skip_solid b (p ++ c ∷ rest) h.1.0, word-append (b ∷ p) c rest h.1 sp)

All-fresh : (hs : Headers) → All (λ k. lookup {V = Bytes} k.0 [] ≡ none) hs
unfolding lookup
All-fresh [] = tt
All-fresh (k ∷ hs) = (refl, All-fresh hs)

length-print_headers : (hs : Headers) → length hs ≤ length (print_headers hs)
length-print_headers [] = omega arith
length-print_headers (h ∷ hs) =
    omega (arith, length-print_headers hs, length-append (header_line h) (b'\n' ∷ print_headers hs))

-- What stands behind the first word, the second word and the third.
abbrev after_version : Message → Bytes
after_version m = b'\r' ∷ b'\n' ∷ (print_headers m.headers ++ b'\r' ∷ b'\n' ∷ m.body)

length-behind : (p : Bytes) (c : ℕ) (s : Bytes) → length s < length (p ++ c ∷ s)
length-behind p c s = omega (arith, length-append p (c ∷ s))

fuel_enough : (m : Message) → length m.headers < length (print m) + 2
fuel_enough m = omega (
  arith,
  length-print_headers m.headers,
  length-append (print_headers m.headers) (b'\r' ∷ b'\n' ∷ m.body),
  length-append m.version (after_version m),
  length-behind m.url b' ' (m.version ++ after_version m),
  length-behind m.method b' ' (m.url ++ b' ' ∷ (m.version ++ after_version m)),
)

first_line :
    (rest : Bytes)
    → getline b'\n' (open_text (b'\r' ∷ b'\n' ∷ rest)) [] ≡ (open_text rest, b'\r' ∷ [])
unfolding getline
first_line rest = refl

module _ (m : Message) (h : IsRequest m) where
  -- Every part of a request but its body is read back; the body is what `body_of` reads.
  pub parts :
      create_request (print m)
      ≡ (body_of (open_text m.body) m.headers >>= λ b. ok (record m { body = b }))
  unfolding create_request
  parts = rw (
    read_word_token (print m) m.method b' ' _ [] h.method_token refl refl,
    read_word_token (b' ' ∷ (m.url ++ b' ' ∷ (m.version ++ after_version m))) m.url b' ' _ []
        h.url_token refl refl,
    read_word_token (b' ' ∷ (m.version ++ after_version m)) m.version b'\r' _ [] h.version_token
        refl refl,
    first_line (print_headers m.headers ++ b'\r' ∷ b'\n' ∷ m.body),
    read_headers_lines (length (print m) + 2) 0 m.headers [] m.body (b'\r' ∷ []) (fuel_enough m)
        h.good_headers h.distinct (All-fresh m.headers) (inl h.some_header),
  )

-- What a read of n bytes leaves of a buffer of n bytes behind the bytes that it got.
drop-replicate :
    (n : ℕ) (s : Bytes) (a : ℕ)
    → drop (length (take n s)) (replicate n a) ≡ replicate (n - length s) a
drop-replicate zero s a = replicate_eq a 0 (0 - length s) (omega arith)
drop-replicate (suc n) [] a = replicate_eq a (suc n) (suc n - 0) (omega arith)
drop-replicate (suc n) (c ∷ s) a =
    drop-replicate n s a ∙ replicate_eq a (n - length s) (suc n - suc (length s)) (omega arith)

whole : (s : Bytes) → take (length s) s ++ replicate (length s - length s) b'0' ≡ s
whole s =
    let none_left : length s - length s ≡ 0 = omega arith in
    rw (none_left, append-nil) (take_all (length s) s (omega arith))

read-body :
    (s : Bytes) (n : ℕ)
    → (read_into (open_text s) n (replicate n b'0')).1 ≡ take n s ++ replicate (n - length s) b'0'
unfolding read_into
read-body s n = ap (◌++◌ (take n s)) (drop-replicate n s b'0')

module _ (m : Message) (h : IsRequest m) where
  -- For such a request with a Content-Length of n, at most the greatest int, the body is the first
  -- n bytes behind the headers; where fewer came, it is filled up with the character '0'. The other
  -- parts are read back.
  pub create_request-body :
      (n : ℕ)
      → lookup content_length m.headers ≡ some (to_string n)
      → n ≤ int_max
      → create_request (print m)
        ≡ ok (record m { body = take n m.body ++ replicate (n - length m.body) b'0' })
  unfolding body_of
  create_request-body n e fits =
      rw (parts m h, e, body_of, stoi-to_string n fits, read-body m.body n)

  -- The text of a request is parsed back into the request: its first line is three words, it has a
  -- header, its headers have distinct names and fit their lines, and its Content-Length is the
  -- length of its body, at most the greatest int.
  pub create_request-print :
      lookup content_length m.headers ≡ some (to_string (length m.body))
      → length m.body ≤ int_max
      → create_request (print m) ≡ ok m
  create_request-print e fits =
      create_request-body (length m.body) e fits
      ∙ ap (λ b. ok (record m { body = b })) (whole m.body)

  -- Without a Content-Length the body is empty, whatever stands behind the headers.
  pub create_request-no_length :
      lookup content_length m.headers ≡ none
      → create_request (print m) ≡ ok (record m { body = [] })
  unfolding body_of
  create_request-no_length e = rw (parts m h, e, body_of)
