-- ===== src/Client/Forward.antt =====
-- What a call of the client returns, which port it uses, and which headers it passes on.
use wsgateway.Prelude.{
  ℕ, ◌+◌, ◌%◌, ◌≤◌, ◌≡◌, ◌≢◌, refl, sym, ◌∙◌, ◌⊎◌, inl, inr, true, false, ◌||◌, [], ◌∷◌, ◌++◌, some,
  some, Bytes, arith, Bool-cases, Option-cases,
}
use wsgateway.Std.Number.{Result, ok, err, ◌>>=◌}
use wsgateway.Http.Parser.{Headers, create_request}
use wsgateway.Http.Response.{Response, build_response}
use wsgateway.Http.Response.ReadBack.{build_response-ne-nil}
use wsgateway.Client.Library.{Beast, BeastLaws, Network}
use wsgateway.Client.{
  HttpRequest, has_break, set_last, set_headers, build_request, set_host, exchange,
  async_http_client, caught, choose_port, Exchange, error_text,
}

set_last-append : (c d : ℕ) (p : Bytes) → set_last c (p ++ d ∷ []) ≡ some (p ++ c ∷ [])
set_last-append c d [] = refl
set_last-append c d (e ∷ []) = refl
set_last-append c d (e ∷ f ∷ p) = ground (arith, set_last-append c d (f ∷ p))

-- The port that a call uses is the listener's, a text that is not empty, with its last byte
-- replaced by one of the digits 2, 3, 4 and 5: its other bytes, and so its length, stay.
pub choose_port_lem :
    (draw : ℕ) (p : Bytes) (d : ℕ)
    → (last : ℕ) × (choose_port draw (p ++ d ∷ []) ≡ some (p ++ last ∷ []))
      × (b'2' ≤ last)
      × (last ≤ b'5')
unfolding choose_port
choose_port_lem draw p d = (b'0' + draw % 4 + 2, set_last-append _ d p, omega arith, omega arith)

set_last_total : (c : ℕ) (s : Bytes) → s ≢ [] → (t : Bytes) × (set_last c s ≡ some t)
set_last_total c [] h = absurd (h refl)
set_last_total c (d ∷ []) h = (c ∷ [], refl)
set_last_total c (d ∷ e ∷ s) h =
    let (t, rest) = set_last_total c (e ∷ s) (λ x. cc) in (d ∷ t, ground arith)

set_last_full : (c : ℕ) (s t : Bytes) → set_last c s ≡ some t → t ≢ []
set_last_full c [] t h = absurd (cc)
set_last_full c (d ∷ []) t h = λ e. cc
set_last_full c (d ∷ e ∷ s) t h = λ x. ground (arith, h)

pub choose_port-ne-nil : (draw : ℕ) (port t : Bytes) → choose_port draw port ≡ some t → t ≢ []
unfolding choose_port
choose_port-ne-nil draw port t h = set_last_full _ port t h

pub choose_port_total :
    (draw : ℕ) (port : Bytes) → port ≢ [] → (t : Bytes) × (choose_port draw port ≡ some t)
unfolding choose_port
choose_port_total draw port h = set_last_total _ port h

module _ (b : Beast) (n : Network (HttpRequest b)) where
  -- The whole exchange went through: the response was read to the request that was written, and the
  -- result is its text.
  abbrev pub Answered : Bytes → Bytes → Exchange b → Type 0
  Answered host port x =
      (req : HttpRequest b) × (res : Response) × (n.resolve host port ≡ true)
      × (n.connect host port ≡ true)
      × (n.write req ≡ true)
      × (x.sent ≡ some req)
      × (n.read req ≡ some res)
      × (x.result ≡ build_response res)

  exchange_cases :
      (host port : Bytes) (q : HttpRequest b)
      → ((exchange b n host port q).result ≡ error_text b)
        ⊎ Answered host port (exchange b n host port q)
  unfolding exchange
  exchange_cases host port q = elim (Bool-cases (n.resolve host port)) [
    | inr off ↦ inl (rw off)
    | inl named ↦ elim (Bool-cases (n.connect host port)) [
      | inr off ↦ inl (rw (named, off))
      | inl joined ↦ elim (Bool-cases (n.write (set_host b host q))) [
        | inr off ↦ inl (rw (named, joined, off))
        | inl written ↦ elim (Option-cases (n.read (set_host b host q))) [
          | inl off ↦ inl (ground arith)
          | inr (res, got) ↦
              inr (set_host b host q, res, named, joined, written, ground arith, got, ground arith)
        ]
      ]
    ]
  ]

  caught_cases :
      (host port : Bytes) (r : Result (HttpRequest b))
      → ((caught b n host port r).result ≡ error_text b)
        ⊎ Answered host port (caught b n host port r)
  caught_cases host port (err x) = inl refl
  caught_cases host port (ok q) = exchange_cases host port q

  never_empty :
      (host port : Bytes) (x : Exchange b)
      → (x.result ≡ error_text b) ⊎ Answered host port x
      → x.result ≢ []
  never_empty host port x (inl e) f = cc
  never_empty host port x (inr a) f = build_response-ne-nil a.1 (sym a.7 ∙ f)

  -- Unless the listener's port text is empty, a call returns, and its result is the text "error" or
  -- the text of the response that was read to the request that it wrote; so it is never empty.
  pub async_http_client_result :
      (draw : ℕ) (msg host port client arrived : Bytes)
      → port ≢ []
      → (port' : Bytes) × (x : Exchange b) × (async_http_client b n draw msg host port client
            arrived
          ≡ some (port', x))
        × ((x.result ≡ error_text b) ⊎ Answered host port' x)
        × (x.result ≢ [])
  unfolding async_http_client
  async_http_client_result draw msg host port client arrived h =
      let (port', chosen) = choose_port_total draw port h in
      let built = create_request msg >>= λ m. build_request b m client arrived in
      let cases = caught_cases host port' built in
      (
        port',
        caught b n host port' built,
        rw (chosen, async_http_client),
        cases,
        never_empty host port' _ cases,
      )

  -- The port that a call leaves in the listener is the one that is chosen first.
  pub chosen_port :
      (draw : ℕ) (msg host port client arrived port' : Bytes) (x : Exchange b)
      → async_http_client b n draw msg host port client arrived ≡ some (port', x)
      → choose_port draw port ≡ some port'
  unfolding async_http_client
  chosen_port draw msg host port client arrived port' x e =
      elim (Option-cases (choose_port draw port)) [
        | inl none_chosen ↦ ground (arith, none_chosen)
        | inr (p, chosen) ↦ ground (arith, chosen)
      ]

-- A header among the headers that has the name, for the library, and the value, and neither a
-- carriage return nor a line feed in them.
abbrev pub Comes : (b : Beast) → Bytes → Bytes → Headers → Type 0
Comes b j v [] = ⊥
Comes b j v ((name, value) ∷ hs) =
    ((b.same_name name j ≡ true)
      × (value ≡ v)
      × (has_break name ≡ false)
      × (has_break value ≡ false))
    ⊎ Comes b j v hs

module _ (b : Beast) (laws : BeastLaws b) where
  -- Every field that the loop over the headers adds comes from a header without line breaks.
  pub set_headers-Comes :
      (hs : Headers) (f : b.Fields) (j v : Bytes)
      → b.get j (set_headers b hs f) ≡ some v
      → Comes b j v hs ⊎ (b.get j f ≡ some v)
  unfolding set_headers
  set_headers-Comes [] f j v e = inr e
  set_headers-Comes ((name, value) ∷ hs) f j v e =
      elim (Bool-cases (has_break name || has_break value)) [
        | inl broken ↦ skipped (set_headers-Comes hs f j v (rw broken at e))
        | inr whole ↦ added whole (set_headers-Comes hs (b.set name value f) j v (rw whole at e))
      ]
    where
      skipped :
          Comes b j v hs ⊎ (b.get j f ≡ some v)
          → Comes b j v ((name, value) ∷ hs) ⊎ (b.get j f ≡ some v)
      skipped (inl later) = inl (inr later)
      skipped (inr old) = inr old

      added :
          (has_break name || has_break value) ≡ false
          → Comes b j v hs ⊎ (b.get j (b.set name value f) ≡ some v)
          → Comes b j v ((name, value) ∷ hs) ⊎ (b.get j f ≡ some v)
      added whole (inl later) = inl (inr later)
      added whole (inr now) = elim (Bool-cases (b.same_name name j)) [
        | inl hit ↦
            inl (inl (hit, ground (arith, laws.get-set name j value f), ground arith, ground arith))
        | inr miss ↦ inr (ground (arith, laws.get-set name j value f))
      ]
