-- ===== src/Utilis/Split/RoundTrip.antt =====
-- `split` against the texts that it cuts.
use wsgateway.Prelude.{
  ℕ, ◌+◌, ◌≡◌, refl, ap, sym, ◌≢◌, ◌⊎◌, inl, inr, List, [], ◌∷◌, ◌++◌, append_assoc, arith, ◌==◌,
  ==_iff, length, Bytes, Lacks, All, Bool-cases,
}
use wsgateway.Utilis.Split.{split, read_tokens-tokens_of, tokens_of, prepend}

-- `split` gives the tokens of the text: its fuel is enough.
pub split-tokens_of : (s : Bytes) (d : ℕ) → split s d ≡ tokens_of d s
unfolding split
split-tokens_of s d = read_tokens-tokens_of (length s + 2) d s [] [] (omega arith)

-- Each token with a delimiter behind it.
abbrev pub terminated : ℕ → List Bytes → Bytes
terminated d [] = []
terminated d (t ∷ ts) = t ++ d ∷ terminated d ts

-- What an unfinished last token adds.
abbrev pub last_token : Bytes → List Bytes
last_token [] = []
last_token (c ∷ s) = (c ∷ s) ∷ []

tokens_of_solid : (d : ℕ) (s : Bytes) → Lacks d s → tokens_of d s ≡ last_token s
tokens_of_solid d [] h = refl
tokens_of_solid d (c ∷ []) h = ground arith
tokens_of_solid d (c ∷ b ∷ s) h = ground (arith, tokens_of_solid d (b ∷ s) h.1)

tokens_of-append :
    (d : ℕ) (t rest : Bytes) → Lacks d t → tokens_of d (t ++ d ∷ rest) ≡ t ∷ tokens_of d rest
tokens_of-append d [] rest h = ground arith
tokens_of-append d (c ∷ t) rest h = ground (arith, tokens_of-append d t rest h.1)

pub tokens_of-terminated :
    (d : ℕ) (ts : List Bytes) (last : Bytes)
    → All (Lacks d) ts
    → Lacks d last
    → tokens_of d (terminated d ts ++ last) ≡ ts ++ last_token last
tokens_of-terminated d [] last h k = tokens_of_solid d last k
tokens_of-terminated d (t ∷ ts) last (ht, hts) k =
    rw
      (append_assoc t (d ∷ terminated d ts) last, tokens_of-append d t (terminated d ts ++ last) ht)
      (ap (◌∷◌ t) (tokens_of-terminated d ts last hts k))

prepend-Lacks :
    (d c : ℕ) (ts : List Bytes) → c ≢ d → All (Lacks d) ts → All (Lacks d) (prepend c ts)
prepend-Lacks d c [] h a = ((h, tt), tt)
prepend-Lacks d c (t ∷ ts) h a = ((h, a.0), a.1)

tokens_of-Lacks : (d : ℕ) (s : Bytes) → All (Lacks d) (tokens_of d s)
tokens_of-Lacks d [] = tt
tokens_of-Lacks d (c ∷ s) = ground (arith, tokens_of-Lacks d s, prepend-Lacks d c (tokens_of d s))

prepend-ne-nil : (c : ℕ) (ts : List Bytes) → prepend c ts ≢ []
prepend-ne-nil c [] e = cc
prepend-ne-nil c (t ∷ ts) e = cc

tokens_of-ne-nil : (d c : ℕ) (s : Bytes) → tokens_of d (c ∷ s) ≢ []
tokens_of-ne-nil d c s = ground (arith, prepend-ne-nil c (tokens_of d s))

abbrev pub Spells : ℕ → Bytes → List Bytes → Type 0
Spells d s ts = (terminated d ts ≡ s) ⊎ (terminated d ts ≡ s ++ d ∷ [])

prepend-Spells :
    (d c b : ℕ) (s : Bytes) (ts : List Bytes)
    → ts ≡ tokens_of d (b ∷ s)
    → Spells d (b ∷ s) ts
    → Spells d (c ∷ b ∷ s) (prepend c ts)
prepend-Spells d c b s [] e k = absurd (tokens_of-ne-nil d b s (sym e))
prepend-Spells d c b s (t ∷ ts) e (inl k) = inl (ap (◌∷◌ c) k)
prepend-Spells d c b s (t ∷ ts) e (inr k) = inr (ap (◌∷◌ c) k)

delimiter-Spells :
    (d : ℕ) (s : Bytes) (ts : List Bytes) → Spells d s ts → Spells d (d ∷ s) ([] ∷ ts)
delimiter-Spells d s ts (inl k) = inl (ap (◌∷◌ d) k)
delimiter-Spells d s ts (inr k) = inr (ap (◌∷◌ d) k)

pub tokens_of-Spells : (d : ℕ) (s : Bytes) → Spells d s (tokens_of d s)
tokens_of-Spells d [] = inl refl
tokens_of-Spells d (c ∷ []) = elim (Bool-cases (c == d)) [
  | inl hit ↦ rw hit (inl (ground arith))
  | inr miss ↦ rw miss (inr refl)
]
tokens_of-Spells d (c ∷ b ∷ s) = elim (Bool-cases (c == d)) [
  | inl hit ↦
      rw (hit, (==_iff c d).0 hit) (delimiter-Spells d (b ∷ s) _ (tokens_of-Spells d (b ∷ s)))
  | inr miss ↦ rw miss (prepend-Spells d c b s _ refl (tokens_of-Spells d (b ∷ s)))
]

-- Splitting cuts a text without loss: no token holds the delimiter, and the tokens, each with a
-- delimiter behind it, spell the text or the text with one more delimiter.
pub split_tokens :
    (s : Bytes) (d : ℕ)
    → All (Lacks d) (split s d)
      × ((terminated d (split s d) ≡ s) ⊎ (terminated d (split s d) ≡ s ++ d ∷ []))
split_tokens s d = rw (split-tokens_of s d) (tokens_of-Lacks d s, tokens_of-Spells d s)

-- Tokens that do not hold the delimiter, each with a delimiter behind it, are split back into
-- themselves; what follows the last delimiter is one more token unless it is empty.
pub split-terminated :
    (d : ℕ) (ts : List Bytes) (last : Bytes)
    → All (Lacks d) ts
    → Lacks d last
    → split (terminated d ts ++ last) d ≡ ts ++ last_token last
split-terminated d ts last h k =
    rw (split-tokens_of (terminated d ts ++ last) d) (tokens_of-terminated d ts last h k)
