-- ===== src/Http/Parser/Total.antt =====
-- The header loop ends by itself and throws nothing; what the parser may throw.
use wsgateway.Prelude.{
  ℕ, zero, suc, ◌+◌, ◌≤◌, ◌<◌, ◌≡◌, refl, sym, ◌∙◌, ◌⊎◌, inl, inr, true, false, ◌||◌, [], ◌∷◌, some,
  arith, length, take, drop, Bytes, empty, lookup, bytes_eq, Bool-cases, Option-cases,
}
use wsgateway.Std.Stream.{Stream, open_text, getline, cut_at, read_word, good, length-cut_at_found}
use wsgateway.Std.Number.{ℤ, pos, negsuc, stoi, Result, ok, err, Exception, length_error, ◌>>=◌}
use wsgateway.Http.Parser.{
  Headers, find_separator, value_start, sub64, header_name, read_header, try_emplace, is_break,
  read_headers, read_body, body_of, create_request, content_length,
}

find_separator_bound : (s : Bytes) (n : ℕ) → find_separator s ≡ some n → n + 2 ≤ length s
find_separator_bound [] n h = absurd (cc)
find_separator_bound (c ∷ []) n h = absurd (cc)
find_separator_bound (c ∷ d ∷ s) zero h = omega arith
find_separator_bound (c ∷ d ∷ s) (suc n) h = ground (arith, find_separator_bound (d ∷ s) n)

value_start_inside : (s : Bytes) → empty s ≡ false → value_start (find_separator s) ≤ length s
value_start_inside [] h = absurd (cc)
value_start_inside (c ∷ s) h = elim (Option-cases (find_separator (c ∷ s))) [
  | inl e ↦ rw e (omega arith)
  | inr (n, e) ↦ rw e (find_separator_bound (c ∷ s) n e)
]

-- A line that is not empty gives a name and a value: no `substr` starts behind its end.
read_header_total : (s : Bytes) → empty s ≡ false → (h : Bytes × Bytes) × (read_header s ≡ ok h)
unfolding read_header
read_header_total s ne =
    let start = value_start (find_separator s) in
    (
      (header_name (find_separator s) s, take (sub64 (sub64 (length s) start) 1) (drop start s)),
      ground (arith, value_start_inside s ne),
    )

-- The header loop throws no exception, whatever the stream holds.
read_headers_total :
    (f : ℕ) (s : Stream) (line : Bytes) (count : ℕ) (hs : Headers)
    → (p : Stream × Headers) × (read_headers f s line count hs ≡ ok p)
unfolding read_headers
read_headers_total zero s line count hs = ((s, hs), refl)
read_headers_total (suc f) s line count hs =
    let r = getline b'\n' s line in
    elim (Bool-cases (r.0.fail || empty r.1)) [
      | inl stop ↦ ((r.0, hs), rw stop)
      | inr go ↦ elim (Bool-cases (is_break (find_separator r.1) (count + 1))) [
        | inl stop ↦ ((r.0, hs), rw (go, stop))
        | inr more ↦
            let (h, e) = read_header_total r.1 (ground arith) in
            let (p, e') = read_headers_total f r.0 r.1 (count + 1) (try_emplace h hs) in
            (p, rw (go, more, e) e')
      ]
    ]

-- What a line leaves to read.
getline_shorter :
    (s : Stream) (line : Bytes)
    → (getline b'\n' s line).0.fail ≡ false
    → (length (getline b'\n' s line).0.rest < length s.rest)
      ⊎ (((getline b'\n' s line).0.eof ≡ true) × (0 < length s.rest))
unfolding getline
getline_shorter s line h = elim (Bool-cases (good s)) [
  | inr bad ↦ absurd (ground arith)
  | inl ready ↦ elim (Bool-cases (cut_at b'\n' s.rest).2) [
    | inl found ↦ inl (ground (arith, length-cut_at_found b'\n' s.rest))
    | inr last ↦ inr (ground arith, some_left s.rest (ground arith))
  ]
]
  where
    some_left : (t : Bytes) → empty (cut_at b'\n' t).0 ≡ false → 0 < length t
    some_left [] e = absurd (cc)
    some_left (c ∷ t) e = omega arith

-- A stream that has met its end has no more lines.
read_headers_eof :
    (f : ℕ) (s : Stream) (line : Bytes) (count : ℕ) (hs : Headers)
    → s.eof ≡ true
    → 0 < f
    → read_headers f s line count hs ≡ ok (record s { fail = true }, hs)
unfolding read_headers getline
read_headers_eof zero s line count hs e h = elim h [ ]
read_headers_eof (suc f) s line count hs e h = ground arith

same_rest :
    (f g : ℕ) (s : Stream) (line : Bytes) (count : ℕ) (hs : Headers)
    → length s.rest < suc f
    → length s.rest < suc g
    → (getline b'\n' s line).0.fail ≡ false
    → (length (getline b'\n' s line).0.rest < length s.rest
        → read_headers f (getline b'\n' s line).0 (getline b'\n' s line).1 count hs
          ≡ read_headers g (getline b'\n' s line).0 (getline b'\n' s line).1 count hs)
    → read_headers f (getline b'\n' s line).0 (getline b'\n' s line).1 count hs
      ≡ read_headers g (getline b'\n' s line).0 (getline b'\n' s line).1 count hs
same_rest f g s line count hs h k ready ih = elim (getline_shorter s line ready) [
  | inl shorter ↦ ih shorter
  | inr (at_end, some_left) ↦
      let r = getline b'\n' s line in
      read_headers_eof f r.0 r.1 count hs at_end (omega arith)
      ∙ sym (read_headers_eof g r.0 r.1 count hs at_end (omega arith))
]

-- The loop ends by itself: any two fuels beyond the length of the unread text give the same.
pub read_headers_fuel :
    (f g : ℕ) (s : Stream) (line : Bytes) (count : ℕ) (hs : Headers)
    → length s.rest < f
    → length s.rest < g
    → read_headers f s line count hs ≡ read_headers g s line count hs
unfolding read_headers
read_headers_fuel zero g s line count hs h k = elim h [ ]
read_headers_fuel (suc f) zero s line count hs h k = elim k [ ]
read_headers_fuel (suc f) (suc g) s line count hs h k =
    let r = getline b'\n' s line in
    elim (Bool-cases (r.0.fail || empty r.1)) [
      | inl stop ↦ rw stop
      | inr go ↦ elim (Bool-cases (is_break (find_separator r.1) (count + 1))) [
        | inl stop ↦ rw (go, stop)
        | inr more ↦
            let (x, e) = read_header_total r.1 (ground arith) in
            rw (go, more, e)
              (same_rest f g s line (count + 1) (try_emplace x hs) h k (ground arith) (λ shorter.
                read_headers_fuel f g r.0 r.1 (count + 1) (try_emplace x hs) (omega arith)
                  (omega arith)))
      ]
    ]

-- The message that the parser makes of a buffer's headers, or its exception.
abbrev pub header_phase : Bytes → Result (Stream × Headers)
header_phase buffer =
    let m = read_word (open_text buffer) [] in
    let u = read_word m.0 [] in
    let v = read_word u.0 [] in
    let first = getline b'\n' v.0 [] in read_headers (length buffer + 2) first.0 first.1 0 []

headers_read : (buffer : Bytes) → (p : Stream × Headers) × (header_phase buffer ≡ ok p)
headers_read buffer = read_headers_total _ _ _ 0 []

bind_throws {ℓ} :
    {A B : Type ℓ} (r : Result A) (f : A → B) (e : Exception)
    → (r >>= λ a. ok (f a)) ≡ err e
    → r ≡ err e
bind_throws (ok a) f e h = absurd (cc)
bind_throws (err x) f e h = cc

length_throws :
    (s : Stream) (z : Result ℤ) (e : Exception)
    → (z >>= read_body s) ≡ err e
    → (z ≡ err e) ⊎ ((n : ℕ) × (z ≡ ok (negsuc n)) × (e ≡ length_error))
length_throws s (ok (pos n)) e h = absurd (cc)
length_throws s (ok (negsuc n)) e h = inr (n, refl, cc)
length_throws s (err x) e h = inl (cc)

body_of_throws :
    (s : Stream) (hs : Headers) (e : Exception)
    → body_of s hs ≡ err e
    → (v : Bytes) × (lookup content_length hs ≡ some v)
      × ((stoi v ≡ err e) ⊎ ((n : ℕ) × (stoi v ≡ ok (negsuc n)) × (e ≡ length_error)))
unfolding body_of
body_of_throws s hs e h = elim (Option-cases (lookup content_length hs)) [
  | inl missing ↦ absurd (ground arith)
  | inr (v, found) ↦ (v, found, length_throws s (stoi v) e (ground arith))
]

-- The parser throws only over the value of Content-Length among the headers that it has read: an
-- exception of `stoi`, or that of a negative length.
pub create_request_throws :
    (buffer : Bytes) (e : Exception)
    → create_request buffer ≡ err e
    → (p : Stream × Headers) × (v : Bytes) × (header_phase buffer ≡ ok p)
      × (lookup content_length p.1 ≡ some v)
      × ((stoi v ≡ err e) ⊎ ((n : ℕ) × (stoi v ≡ ok (negsuc n)) × (e ≡ length_error)))
unfolding create_request
create_request_throws buffer e h =
    let (p, phase) = headers_read buffer in
    let (v, found, bad) =
      body_of_throws p.0 p.1 e (bind_throws (body_of p.0 p.1) _ e (rw phase at h)) in
    (p, v, phase, found, bad)
