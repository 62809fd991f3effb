-- ===== src/Std/Stream.antt =====
-- `std::istringstream` as its unread bytes and its two state bits, with `std::getline`, `>>` into
-- a string and `read`.
use wsgateway.Prelude.{
  ℕ, ◌≤◌, ◌<◌, ◌≡◌, refl, Bool, true, false, not, ◌&&◌, ◌||◌, [], ◌∷◌, ◌++◌, arith, ltb, leb, ◌==◌,
  if◌then◌else◌, length, take, drop, Bytes, Lacks, All, empty,
}

pub record Stream : Type 0 where
  pub rest : Bytes
  pub eof : Bool
  pub fail : Bool

abbrev pub open_text : Bytes → Stream
open_text s = record { rest = s; eof = false; fail = false }

abbrev pub good : Stream → Bool
good s = not s.eof && not s.fail

-- The bytes before the first delimiter, what stands behind it, and whether there is one.
abbrev pub cut_at : ℕ → Bytes → Bytes × Bytes × Bool
cut_at d [] = ([], [], false)
cut_at d (c ∷ s) = let r = cut_at d s in if c == d then ([], s, true) else (c ∷ r.0, r.1, r.2)

-- `std::getline(stream, line, d)`. A stream that is not good sets the fail bit and leaves the line.
-- At the end of the text the eof bit is set, and the fail bit too if nothing was extracted.
unfoldable pub getline : ℕ → Stream → Bytes → Stream × Bytes
getline d s line =
    let r = cut_at d s.rest in
    if good s
    then (record { rest = r.1; eof = not r.2; fail = not r.2 && empty r.0 }, r.0)
    else (record s { fail = true }, line)

-- `isspace` in the C locale.
abbrev pub is_space : ℕ → Bool
is_space c = c == 32 || (leb 9 c && leb c 13)

abbrev pub skip_space : Bytes → Bytes
skip_space [] = []
skip_space (c ∷ s) = if is_space c then skip_space s else c ∷ s

-- The bytes before the first white space, and the rest from there.
abbrev pub word : Bytes → Bytes × Bytes
word [] = ([], [])
word (c ∷ s) = let r = word s in if is_space c then ([], c ∷ s) else (c ∷ r.0, r.1)

-- What `>>` leaves of a good stream: the word, and the two bits.
take_word : Bytes → Stream × Bytes
take_word s =
    let r = word (skip_space s) in (record { rest = r.1; eof = empty r.1; fail = empty r.0 }, r.0)

-- `stream >> x` at a string. White space is skipped first; reaching the end sets the eof bit; no
-- character sets the fail bit. A stream that is not good keeps the string.
unfoldable pub read_word : Stream → Bytes → Stream × Bytes
unfolding take_word
read_word s x =
    if good s
    then (if empty (skip_space s.rest)
        then (record { rest = []; eof = true; fail = true }, x)
        else take_word s.rest)
    else (record s { fail = true }, x)

-- `stream.read(&x[0], n)` into a buffer of n bytes: what was read covers the buffer's front.
unfoldable pub read_into : Stream → ℕ → Bytes → Stream × Bytes
read_into s n x =
    if good s
    then (
      record { rest = drop n s.rest; eof = ltb (length s.rest) n; fail = ltb (length s.rest) n },
      take n s.rest ++ drop (length (take n s.rest)) x,
    )
    else (record s { fail = true }, x)

-- A line that holds no delimiter is cut whole at the delimiter behind it.
pub cut_at-append :
    (d : ℕ) (p rest : Bytes) → Lacks d p → cut_at d (p ++ d ∷ rest) ≡ (p, rest, true)
cut_at-append d [] rest h = ground arith
cut_at-append d (c ∷ p) rest h = ground (arith, cut_at-append d p rest h.1)

pub cut_at_lacking : (d : ℕ) (p : Bytes) → Lacks d p → cut_at d p ≡ (p, [], false)
cut_at_lacking d [] h = refl
cut_at_lacking d (c ∷ p) h = ground (arith, cut_at_lacking d p h.1)

pub cut_at-Lacks : (d : ℕ) (s : Bytes) → Lacks d (cut_at d s).0
cut_at-Lacks d [] = tt
cut_at-Lacks d (c ∷ s) = ground (arith, cut_at-Lacks d s)

-- The unread text gets shorter where a delimiter is found.
pub length-cut_at : (d : ℕ) (s : Bytes) → length (cut_at d s).1 ≤ length s
length-cut_at d [] = omega arith
length-cut_at d (c ∷ s) = ground (arith, length-cut_at d s)

pub length-cut_at_found :
    (d : ℕ) (s : Bytes) → (cut_at d s).2 ≡ true → length (cut_at d s).1 < length s
length-cut_at_found d [] h = cc
length-cut_at_found d (c ∷ s) h = ground (arith, length-cut_at_found d s, length-cut_at d s)

-- A word that holds no white space is taken whole up to the white space behind it.
abbrev pub Solid : Bytes → Type 0
Solid = All (λ c. is_space c ≡ false)

pub word-append :
    (p : Bytes) (c : ℕ) (rest : Bytes)
    → Solid p
    → is_space c ≡ true
    → word (p ++ c ∷ rest) ≡ (p, c ∷ rest)
word-append [] c rest h sp = rw sp
word-append (b ∷ p) c rest h sp = rw (h.0, word-append p c rest h.1 sp)

-- Where no delimiter is found, nothing is left.
pub cut_at-last : (d : ℕ) (s : Bytes) → (cut_at d s).2 ≡ false → (cut_at d s).1 ≡ []
cut_at-last d [] h = refl
cut_at-last d (c ∷ s) h = ground (arith, cut_at-last d s)
