-- ===== src/Client/Marks.antt =====
-- The fields that a forwarded request carries.
use wsgateway.Prelude.{
  ℕ, ◌≡◌, refl, sym, ◌∙◌, inl, inr, true, false, [], ◌∷◌, some, some, Bytes, codes, empty, lower,
  same, if◌then◌else◌, arith, Bool-cases,
}
use wsgateway.Std.Number.{Result, ok, err, ◌>>=◌}
use wsgateway.Http.Parser.{Message, create_request}
use wsgateway.Client.Library.{Beast, BeastLaws, Network}
use wsgateway.Client.Sent.{sent_built}
use wsgateway.Client.{
  HttpRequest, set_headers, build_request, set_host, async_http_client, Exchange,
}

true_not_false : ¬ (true ≡ false)
true_not_false e = cc

module _ (b : Beast) (laws : BeastLaws b) where
  open b use {Fields, get, set, same_name, prepare_payload}

  abbrev host_name : Bytes
  host_name = codes "Host"

  abbrev id_name : Bytes
  id_name = codes "X-Client-ID"

  abbrev time_name : Bytes
  time_name = codes "X-Arrived-time"

  pub differ : (k j : Bytes) → same (lower k) (lower j) ≡ false → same_name k j ≡ false
  differ k j h = elim (Bool-cases (same_name k j)) [
    | inl e ↦ absurd (true_not_false (sym (laws.same_lower k j e) ∙ h))
    | inr e ↦ e
  ]

  pub get-set_other :
      (k j v : Bytes) (f : Fields) → same (lower k) (lower j) ≡ false → get j (set k v f) ≡ get j f
  get-set_other k j v f h = rw (laws.get-set k j v f, differ k j h)

  get-set_self : (k v : Bytes) (f : Fields) → get k (set k v f) ≡ some v
  get-set_self k v f = rw (laws.get-set k k v f, laws.same_self k)

  -- The three names that the gateway sets.
  abbrev pub Marked : Bytes → Bytes → Bytes → Fields → Type 0
  Marked client arrived host f =
      (get (codes "X-Client-ID") f ≡ some client)
      × (get (codes "X-Arrived-time") f ≡ some arrived)
      × (get (codes "Host") f ≡ some host)

  module _ (client arrived : Bytes) where
    abbrev pub mark : Fields → Fields
    mark f = set (codes "X-Client-ID") client (set (codes "X-Arrived-time") arrived f)

    abbrev pub payload : Bytes → Fields → Fields
    payload body f = if empty body then f else prepare_payload body f

    pub get-payload :
        (body j : Bytes) (f : Fields)
        → same (lower (codes "Content-Length")) (lower j) ≡ false
        → same (lower (codes "Transfer-Encoding")) (lower j) ≡ false
        → get j (payload body f) ≡ get j f
    get-payload [] j f h k = refl
    get-payload (c ∷ body) j f h k =
        laws.get-prepare_payload (c ∷ body) j f (differ _ j h) (differ _ j k)

    Marked-mark :
        (host body : Bytes) (f : Fields)
        → Marked client arrived host (set (codes "Host") host (payload body (mark f)))
    Marked-mark host body f = (
      get-set_other host_name id_name host (payload body (mark f)) refl
          ∙ get-payload body id_name (mark f) refl refl
          ∙ get-set_self id_name client (set time_name arrived f),
      get-set_other host_name time_name host (payload body (mark f)) refl
          ∙ get-payload body time_name (mark f) refl refl
          ∙ get-set_other id_name time_name client (set time_name arrived f) refl
          ∙ get-set_self time_name arrived f,
      get-set_self host_name host (payload body (mark f)),
    )

    pub build_request-mark :
        (m : Message) (q : HttpRequest b)
        → build_request b m client arrived ≡ ok q
        → q.fields ≡ payload m.body (mark (set_headers b (b.order m.headers) b.no_fields))
    unfolding build_request
    build_request-mark m q e = ground arith

    pub Marked-built :
        (host : Bytes) (r : Result Message) (q : HttpRequest b)
        → (r >>= λ m. build_request b m client arrived) ≡ ok q
        → Marked client arrived host (set_host b host q).fields
    Marked-built host (err x) q e = absurd (cc)
    Marked-built host (ok m) q e =
        rw (build_request-mark m q e)
          (Marked-mark host m.body (set_headers b (b.order m.headers) b.no_fields))

  -- Whatever a message says, a request that is written carries the connection's own client name,
  -- the arrival time and the host as its X-Client-ID, X-Arrived-time and Host: no header of the
  -- message can forge them.
  pub sent-Marked :
      (n : Network (HttpRequest b)) (draw : ℕ) (msg host port client arrived port' : Bytes)
      (x : Exchange b) (req : HttpRequest b)
      → async_http_client b n draw msg host port client arrived ≡ some (port', x)
      → x.sent ≡ some req
      → Marked client arrived host req.fields
  sent-Marked n draw msg host port client arrived port' x req e s =
      let (q, built, same_one) = sent_built b n draw msg host port client arrived port' x req e s in
      rw same_one (Marked-built client arrived host (create_request msg) q built)
