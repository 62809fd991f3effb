-- ===== src/Http/Parser/Lines.antt =====
-- The header lines of a message as the parser reads them.
use wsgateway.Prelude.{
  ℕ, zero, suc, ◌+◌, ◌≤◌, ◌<◌, ◌≡◌, refl, sym, ap, ◌≢◌, ◌⊎◌, inl, inr, true, false, [], ◌∷◌, ◌++◌,
  append_assoc, append-nil, none, some, arith, leb, length, drop, Bytes, empty, lookup, bytes_eq,
  Lacks, All, All-append, length-append, take-append, drop-append_more, same-eq,
}
use wsgateway.Std.Stream.{open_text, getline, cut_at-append}
use wsgateway.Std.Number.{ok}
use wsgateway.Http.Parser.{
  Headers, find_separator, sub64, substr, read_header, try_emplace, read_headers,
}

-- A header line without its line feed.
abbrev pub header_line : Bytes × Bytes → Bytes
header_line (name, value) = name ++ b':' ∷ b' ' ∷ (value ++ b'\r' ∷ [])

-- Header lines, each with its line feed.
abbrev pub print_headers : Headers → Bytes
print_headers [] = []
print_headers (h ∷ hs) = header_line h ++ b'\n' ∷ print_headers hs

-- A name that holds no colon and no line feed, and a value that holds no line feed.
abbrev pub IsHeader : Bytes × Bytes → Type 0
IsHeader (name, value) = Lacks b':' name × Lacks b'\n' name × Lacks b'\n' value

abbrev pub Distinct : Headers → Type 0
Distinct [] = Unit {0}
Distinct (h ∷ hs) = All (λ k. k.0 ≢ h.0) hs × Distinct hs

-- No name of the lines stands in the map.
abbrev Fresh : Headers → Headers → Type 0
Fresh acc = All (λ h. lookup h.0 acc ≡ none)

find_separator-append :
    (name rest : Bytes)
    → Lacks b':' name
    → find_separator (name ++ b':' ∷ b' ' ∷ rest) ≡ some (length name)
find_separator-append [] rest h = refl
find_separator-append (c ∷ []) rest h = ground arith
find_separator-append (c ∷ d ∷ name) rest h =
    ground (arith, find_separator-append (d ∷ name) rest h.1)

substr_value :
    (n : ℕ) (line value : Bytes)
    → length line ≡ n + 2 + suc (length value)
    → drop (n + 2) line ≡ value ++ b'\r' ∷ []
    → substr (n + 2) (sub64 (sub64 (length line) (n + 2)) 1) line ≡ ok value
substr_value n line value e f =
    let count : sub64 (sub64 (length line) (n + 2)) 1 ≡ length value = ground arith in
    let inside : leb (n + 2) (length line) ≡ true = ground arith in
    rw (count, inside, f) (ap ok (take-append value (b'\r' ∷ [])))

-- A well-formed header line is read back into its name and its value.
pub read_header_line :
    (name value : Bytes)
    → Lacks b':' name
    → read_header (header_line (name, value)) ≡ ok (name, value)
unfolding read_header
read_header_line name value h = rw (
  find_separator-append name (value ++ b'\r' ∷ []) h,
  substr_value (length name) (header_line (name, value)) value
      (omega (
        arith,
        length-append name (b':' ∷ b' ' ∷ (value ++ b'\r' ∷ [])),
        length-append value (b'\r' ∷ []),
      ))
      (drop-append_more name _ 2),
  take-append name (b':' ∷ b' ' ∷ (value ++ b'\r' ∷ [])),
)

lookup-append :
    (k : Bytes) (h : Bytes × Bytes) (acc : Headers)
    → lookup k acc ≡ none
    → h.0 ≢ k
    → lookup k (acc ++ h ∷ []) ≡ none
unfolding lookup
lookup-append k h [] e d = ground (arith, same-eq h.0 k)
lookup-append k h ((j, v) ∷ acc) e d = ground (arith, lookup-append k h acc)

Fresh-step :
    (h : Bytes × Bytes) (acc hs : Headers)
    → Fresh acc hs
    → All (λ k. k.0 ≢ h.0) hs
    → Fresh (acc ++ h ∷ []) hs
Fresh-step h acc [] f d = tt
Fresh-step h acc (k ∷ hs) f d =
    (lookup-append k.0 h acc f.0 (λ e. d.0 (sym e)), Fresh-step h acc hs f.1 d.1)

line-Lacks : (h : Bytes × Bytes) → IsHeader h → Lacks b'\n' (header_line h)
line-Lacks (name, value) (colon, name_ok, value_ok) =
    All-append _ name _ name_ok
      ((omega arith), ((omega arith), All-append _ value _ value_ok ((omega arith), tt)))

line-nonempty : (h : Bytes × Bytes) → empty (header_line h) ≡ false
line-nonempty ([], value) = refl
line-nonempty (c ∷ name, value) = refl

getline_line :
    (line rest last : Bytes)
    → Lacks b'\n' line
    → getline b'\n' (open_text (line ++ b'\n' ∷ rest)) last ≡ (open_text rest, line)
unfolding getline
getline_line line rest last h = rw (cut_at-append b'\n' line rest h)

emplace_new :
    (h : Bytes × Bytes) (acc : Headers) → lookup h.0 acc ≡ none → try_emplace h acc ≡ acc ++ h ∷ []
unfolding try_emplace
emplace_new h acc new = rw (new, try_emplace)

-- One round of the loop at a well-formed line whose name is new.
round :
    (f count : ℕ) (h : Bytes × Bytes) (rest last : Bytes) (acc : Headers)
    → IsHeader h
    → lookup h.0 acc ≡ none
    → read_headers (suc f) (open_text (header_line h ++ b'\n' ∷ rest)) last count acc
      ≡ read_headers f (open_text rest) (header_line h) (count + 1) (acc ++ h ∷ [])
unfolding read_headers
round f count (name, value) rest last acc ok_h new =
    let h : Bytes × Bytes = (name, value) in
    rw (
      getline_line (header_line h) rest last (line-Lacks h ok_h),
      line-nonempty h,
      find_separator-append name (value ++ b'\r' ∷ []) ok_h.0,
      read_header_line name value ok_h.0,
      emplace_new h acc new,
    )

-- The loop reads well-formed header lines into the map, and stops at the blank line behind them.
pub read_headers_lines :
    (f count : ℕ) (hs acc : Headers) (rest last : Bytes)
    → length hs < f
    → All IsHeader hs
    → Distinct hs
    → Fresh acc hs
    → (hs ≢ []) ⊎ (1 ≤ count)
    → read_headers f (open_text (print_headers hs ++ b'\r' ∷ b'\n' ∷ rest)) last count acc
      ≡ ok (open_text rest, acc ++ hs)
read_headers_lines zero count hs acc rest last h a d fr k = absurd (omega arith)
read_headers_lines (suc f) count [] acc rest last h a d fr (inl ne) = absurd (ne refl)
read_headers_lines (suc f) count [] acc rest last h a d fr (inr k) =
    unfold read_headers getline in rw append-nil (ground arith)
read_headers_lines (suc f) count (x ∷ hs) acc rest last h a d fr k = rw (
  append_assoc (header_line x) (b'\n' ∷ print_headers hs) (b'\r' ∷ b'\n' ∷ rest),
  round f count x (print_headers hs ++ b'\r' ∷ b'\n' ∷ rest) last acc a.0 fr.0,
  read_headers_lines f (count + 1) hs (acc ++ x ∷ []) rest (header_line x) (omega arith) a.1 d.1
      (Fresh-step x acc hs fr.1 d.0) (inr (omega arith)),
  append_assoc acc (x ∷ []) hs,
)
