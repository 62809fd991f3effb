-- ===== src/Utilis/Split.antt =====
-- src/utilis/split.h: cutting a text into tokens with `std::getline`.
pub mod RoundTrip
use wsgateway.Prelude.{
  ℕ, zero, suc, ◌+◌, ◌≤◌, ◌<◌, ◌≡◌, refl, ap, sym, ◌∙◌, ◌≢◌, Bool, true, false, not, ◌&&◌, ◌||◌,
  List, [], ◌∷◌, ◌++◌, append_assoc, append-nil, arith, ltb, leb, ◌==◌, if◌then◌else◌, length,
  Bytes, Lacks, All, empty, Bool-cases, inl, inr,
}
use wsgateway.Std.Stream.{
  Stream, open_text, good, cut_at, getline, cut_at-append, cut_at_lacking, length-cut_at_found,
  cut_at-Lacks, cut_at-last,
}

-- `while (std::getline(ss, token, d)) tokens.push_back(token);` on fuel: each round that goes on
-- takes a byte off the stream or sets its eof bit.
unfoldable pub read_tokens : ℕ → ℕ → Stream → Bytes → List Bytes → List Bytes
unfolding getline
read_tokens zero d ss token tokens = tokens
read_tokens (suc f) d ss token tokens =
    let r = getline d ss token in
    let more = read_tokens f d r.0 r.1 (tokens ++ r.1 ∷ []) in if r.0.fail then tokens else more

-- `split(str, delimiter)`
unfoldable pub split : Bytes → ℕ → List Bytes
unfolding read_tokens
split str delimiter = read_tokens (length str + 2) delimiter (open_text str) [] []

-- The tokens that a text spells, by recursion on the text: no token follows a delimiter at the end.
abbrev pub prepend : ℕ → List Bytes → List Bytes
prepend c [] = (c ∷ []) ∷ []
prepend c (t ∷ ts) = (c ∷ t) ∷ ts

abbrev pub tokens_of : ℕ → Bytes → List Bytes
tokens_of d [] = []
tokens_of d (c ∷ s) = let ts = tokens_of d s in if c == d then [] ∷ ts else prepend c ts

-- The first token of a text that is not empty, and those behind it.
tokens_of_cut :
    (d c : ℕ) (s : Bytes)
    → tokens_of d (c ∷ s) ≡ (cut_at d (c ∷ s)).0 ∷ tokens_of d (cut_at d (c ∷ s)).1
tokens_of_cut d c [] = ground arith
tokens_of_cut d c (b ∷ s) = ground (arith, tokens_of_cut d b s)

-- A stream that has met its end yields no more tokens.
tokens_at_end :
    (f d : ℕ) (ss : Stream) (token : Bytes) (tokens : List Bytes)
    → ss.eof ≡ true
    → read_tokens f d ss token tokens ≡ tokens
unfolding read_tokens
tokens_at_end zero d ss token tokens h = refl
tokens_at_end (suc f) d ss token tokens h = ground arith

-- The loop reads exactly the tokens of the stream's text, with any fuel beyond its length.
pub read_tokens-tokens_of :
    (f d : ℕ) (s : Bytes) (token : Bytes) (tokens : List Bytes)
    → length s < f
    → read_tokens f d (open_text s) token tokens ≡ tokens ++ tokens_of d s
unfolding read_tokens
read_tokens-tokens_of zero d s token tokens h = elim h [ ]
read_tokens-tokens_of (suc f) d [] token tokens h = rw append-nil
read_tokens-tokens_of (suc f) d (c ∷ s) token tokens h =
    let line = (cut_at d (c ∷ s)).0 in
    let rest = (cut_at d (c ∷ s)).1 in
    elim (Bool-cases (cut_at d (c ∷ s)).2) [
      | inl found ↦ ground (
        arith,
        read_tokens-tokens_of f d rest line (tokens ++ line ∷ []),
        length-cut_at_found d (c ∷ s),
        tokens_of_cut d c s,
        append_assoc tokens (line ∷ []) (tokens_of d rest),
      )
      | inr last ↦ ground (
        arith,
        tokens_at_end f d (record { rest = rest; eof = true; fail = false }) line
            (tokens ++ line ∷ []),
        cut_at-last d (c ∷ s),
        tokens_of_cut d c s,
      )
    ]
