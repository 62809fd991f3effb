-- ===== src/Client/Passed.antt =====
-- Which fields of a message are passed on in the request that src/utilis/boostBeastClient.h builds.
use wsgateway.Prelude.{
  ◌≡◌, refl, ap, ◌∙◌, Bool, true, false, not, ◌&&◌, ◌||◌, [], ◌∷◌, Option, none, some, Bytes, codes,
  lower, same, if◌then◌else◌, arith,
}
use wsgateway.Std.Number.{ok}
use wsgateway.Http.Parser.{Message, Headers}
use wsgateway.Client.Library.{Beast, BeastLaws}
use wsgateway.Client.{HttpRequest, has_break, set_headers, build_request, set_host}
use wsgateway.Client.Marks.{get-set_other, mark, payload, get-payload, build_request-mark}

module _ (b : Beast) where
  open b use {Fields, get, set, same_name, prepare_payload}

  -- The value that a list of headers gives to a name: the last one among the headers that have the
  -- name, for the library, and no line break.
  abbrev pub passed : Bytes → Headers → Option Bytes
  passed j [] = none
  passed j ((name, value) ∷ hs) =
      let later = passed j hs in
      elim later [
        | some v ↦ some v
        | none ↦
            if same_name name j && not (has_break name || has_break value) then some value else none
      ]

  -- The names of the fields that the gateway sets itself.
  abbrev pub is_own : Bytes → Bool
  is_own j =
      same (lower (codes "Host")) (lower j)
      || same (lower (codes "X-Client-ID")) (lower j)
      || same (lower (codes "X-Arrived-time")) (lower j)
      || same (lower (codes "Content-Length")) (lower j)
      || same (lower (codes "Transfer-Encoding")) (lower j)

  abbrev or_else : Option Bytes → Option Bytes → Option Bytes
  or_else (some v) o = some v
  or_else none o = o

  module _ (laws : BeastLaws b) where
    get-step :
        (name value j : Bytes) (broken : Bool) (f : Fields)
        → get j (if broken then f else set name value f)
          ≡ (if same_name name j && not broken then some value else get j f)
    get-step name value j true f = ground arith
    get-step name value j false f = ground (arith, laws.get-set name j value f)

    or_else-step :
        (later old : Option Bytes) (takes : Bool) (value : Bytes)
        → or_else later (if takes then some value else old)
          ≡ or_else (elim later [ some v ↦ some v | none ↦ if takes then some value else none ]) old
    or_else-step (some v) old takes value = refl
    or_else-step none old true value = refl
    or_else-step none old false value = refl

    get-set_headers :
        (hs : Headers) (f : Fields) (j : Bytes)
        → get j (set_headers b hs f) ≡ or_else (passed j hs) (get j f)
    unfolding set_headers
    get-set_headers [] f j = refl
    get-set_headers ((name, value) ∷ hs) f j =
        let broken = has_break name || has_break value in
        get-set_headers hs (if broken then f else set name value f) j
        ∙ ap (or_else (passed j hs)) (get-step name value j broken f)
        ∙ or_else-step (passed j hs) (get j f) (same_name name j && not broken) value

    or_else-none : (o : Option Bytes) → or_else o none ≡ o
    or_else-none none = refl
    or_else-none (some v) = refl

    own_names :
        (j : Bytes)
        → is_own j ≡ false
        → (same (lower (codes "Host")) (lower j) ≡ false)
          × (same (lower (codes "X-Client-ID")) (lower j) ≡ false)
          × (same (lower (codes "X-Arrived-time")) (lower j) ≡ false)
          × (same (lower (codes "Content-Length")) (lower j) ≡ false)
          × (same (lower (codes "Transfer-Encoding")) (lower j) ≡ false)
    own_names j e = of_tests _ _ _ _ _ e
      where
        of_tests :
            (h i t n c : Bool)
            → (h || i || t || n || c) ≡ false
            → (h ≡ false) × (i ≡ false) × (t ≡ false) × (n ≡ false) × (c ≡ false)
        of_tests false false false false false e = (refl, refl, refl, refl, refl)
        of_tests true i t n c e = cc
        of_tests false true t n c e = cc
        of_tests false false true n c e = cc
        of_tests false false false true c e = cc
        of_tests false false false false true e = cc

    -- A field of the request that is sent, of a name that the gateway does not set itself.
    pub get-build_request :
        (m : Message) (client arrived host j : Bytes) (q : HttpRequest b)
        → build_request b m client arrived ≡ ok q
        → is_own j ≡ false
        → get j (set_host b host q).fields ≡ passed j (b.order m.headers)
    get-build_request m client arrived host j q e other =
        let f = set_headers b (b.order m.headers) b.no_fields in
        let marked = mark b laws client arrived f in
        let fields : q.fields ≡ payload b laws client arrived m.body marked =
          build_request-mark b laws client arrived m q e in
        let (h, i, t, n, c) = own_names j other in
        get-set_other b laws (codes "Host") j host q.fields h
        ∙ ap (get j) fields
        ∙ get-payload b laws client arrived m.body j marked n c
        ∙ get-set_other b laws (codes "X-Client-ID") j client
            (set (codes "X-Arrived-time") arrived f) i
        ∙ get-set_other b laws (codes "X-Arrived-time") j arrived f t
        ∙ get-set_headers (b.order m.headers) b.no_fields j
        ∙ ap (or_else (passed j (b.order m.headers))) (laws.get_none j)
        ∙ or_else-none (passed j (b.order m.headers))
