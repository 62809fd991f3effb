-- ===== src/Websocket/Flights/Named.antt =====
-- Of which message and for which client the requests of the flights are, whatever happens to their
-- sockets meanwhile.
use wsgateway.Prelude.{
  at, ℕ, ◌≡◌, ◌≢◌, refl, sym, ◌∙◌, inl, inr, Bool, true, false, List, [], ◌∷◌, Option, none, some,
  All, Bytes, nat_eq, ◌==◌, Bool-cases, if◌then◌else◌,
}
use wsgateway.Std.Number.{Result, ok, err, ◌>>=◌}
use wsgateway.Http.Parser.{create_request}
use wsgateway.Http.Response.{Response}
use wsgateway.Http.Response.ReadBack.{build_response-ne-nil}
use wsgateway.Client.Library.{Beast, Network}
use wsgateway.Client.{HttpRequest, build_request, set_host, error_text}
use wsgateway.Websocket.Listener.{Listener, Request}
use wsgateway.Websocket.Flights.{
  answer, Flight, Stage, absent, waiting, resolving, connecting, writing, reading, done, answered,
  begin, advance, Written, log_written, object_of,
}
use wsgateway.Websocket.Flights.Objects.{Listeners, Keeps}

module _ (b : Beast) where
  -- The request that is built of a message for a client.
  abbrev pub made : Bytes → Request → Result (HttpRequest b)
  made client r = create_request r.message >>= λ m. build_request b m client r.arrived

module _ (b : Beast) (host : Bytes) where
  -- A request is the one that is built of a message, with the host set.
  abbrev pub IsMade : Bytes → Request → HttpRequest b → Type 0
  IsMade client r req = (q : HttpRequest b) × (made b client r ≡ ok q) × (req ≡ set_host b host q)

  -- What a stage says of the request that is on its way, for a client and a message; a result is
  -- never empty.
  abbrev pub StageOk : Bytes → Request → Stage b → Type 0
  StageOk client r absent = Unit
  StageOk client r waiting = Unit
  StageOk client r (resolving port q) = made b client r ≡ ok q
  StageOk client r (connecting port q) = made b client r ≡ ok q
  StageOk client r (writing q) = IsMade client r q
  StageOk client r (reading q) = IsMade client r q
  StageOk client r (done s) = s ≢ []
  StageOk client r answered = Unit

  pub StageOk-begin :
      (client port : Bytes) (r : Request) → StageOk client r (begin b port (made b client r))
  StageOk-begin client port r = of_result (made b client r) refl
    where
      of_result :
          (x : Result (HttpRequest b)) → x ≡ made b client r → StageOk client r (begin b port x)
      of_result (err e) h = λ x. cc
      of_result (ok q) h = sym h

  StageOk-if :
      (client : Bytes) (r : Request) (c : Bool) (s : Stage b)
      → StageOk client r s
      → StageOk client r (if c then s else done (error_text b))
  StageOk-if client r true s h = h
  StageOk-if client r false s h = λ x. cc

  StageOk-answer :
      (client : Bytes) (r : Request) (o : Option Response) → StageOk client r (answer b o)
  StageOk-answer client r none = λ x. cc
  StageOk-answer client r (some res) = build_response-ne-nil res

  pub StageOk-advance :
      (n : Network (HttpRequest b)) (client : Bytes) (r : Request) (s : Stage b)
      → StageOk client r s
      → StageOk client r (advance b n host s)
  StageOk-advance n client r absent h = tt
  StageOk-advance n client r waiting h = tt
  StageOk-advance n client r (resolving port q) h =
      StageOk-if client r (n.resolve host port) (connecting port q) h
  StageOk-advance n client r (connecting port q) h =
      StageOk-if client r (n.connect host port) (writing (set_host b host q)) (q, h, refl)
  StageOk-advance n client r (writing q) h = StageOk-if client r (n.write q) (reading q) h
  StageOk-advance n client r (reading q) h = StageOk-answer client r (n.read q)
  StageOk-advance n client r (done s) h = h
  StageOk-advance n client r answered h = tt

  -- A flight's socket holds a listener for the host with a port, and the request on its way is the
  -- one of its message for that listener's client.
  pub record Served (live closed : Listeners) (f : Flight b) : Type 0 where
    pub listener : Listener
    pub held : object_of live closed f.socket ≡ some listener
    pub port : listener.http_server_port ≢ []
    pub address : listener.http_server_address ≡ host
    pub fits : StageOk listener.client_id f.request f.stage

  abbrev pub AllServed : Listeners → Listeners → (ℕ → Flight b) → Type 0
  AllServed live closed flight = (i : ℕ) → (flight i).stage ≢ absent → Served live closed (flight i)

  -- A request that was written is the one that is built of its message for the client of the
  -- listener that its socket holds.
  abbrev pub IsNamed : Listeners → Listeners → Written b → Type 0
  IsNamed live closed w =
      (l : Listener) × (object_of live closed w.socket ≡ some l)
      × IsMade l.client_id w.request w.sent

  module _ (live closed live' closed' : Listeners) (keeps : Keeps live closed live' closed') where
    Served-keeps : (f : Flight b) → Served live closed f → Served live' closed' f
    Served-keeps f s =
        let (l, held, same_one) = keeps f.socket s.listener s.held in
        record {
          listener = l;
          held = held;
          port = same_one.port s.port;
          address = same_one.address ∙ s.address;
          fits = rw same_one.client s.fits;
        }

    pub AllServed-keeps :
        (flight : ℕ → Flight b) → AllServed live closed flight → AllServed live' closed' flight
    AllServed-keeps flight s i h = Served-keeps (flight i) (s i h)

    pub IsNamed-keeps :
        (ws : List (Written b)) → All (IsNamed live closed) ws → All (IsNamed live' closed') ws
    IsNamed-keeps [] h = tt
    IsNamed-keeps (w ∷ ws) h =
        let (x, held, built) = h.0 in
        let (l, held', same_one) = keeps w.socket x held in
        ((l, held', rw same_one.client built), IsNamed-keeps ws h.1)

  module _ (live closed : Listeners) where
    pub AllServed-at :
        (flight : ℕ → Flight b) (i : ℕ) (f : Flight b)
        → AllServed live closed flight
        → Served live closed f
        → AllServed live closed (at i f flight)
    AllServed-at flight i f s new j h = elim (Bool-cases (i == j)) [
      | inl hit ↦ rw hit new
      | inr miss ↦ rw miss (s j (rw miss at h))
    ]

    pub Served-stage :
        (f : Flight b) (s : Served live closed f) (stage : Stage b)
        → StageOk s.listener.client_id f.request stage
        → Served live closed (record f { stage = stage })
    Served-stage f s stage ok_now = record {
      listener = s.listener;
      held = s.held;
      port = s.port;
      address = s.address;
      fits = ok_now;
    }

    pub IsNamed-log :
        (f : Flight b) (ws : List (Written b))
        → Served live closed f
        → All (IsNamed live closed) ws
        → All (IsNamed live closed) (log_written b f ws)
    IsNamed-log f ws s h = of_stage f.stage s.fits
      where
        of_stage :
            (g : Stage b)
            → StageOk s.listener.client_id f.request g
            → All (IsNamed live closed) (log_written b (record f { stage = g }) ws)
        of_stage absent k = h
        of_stage waiting k = h
        of_stage (resolving port q) k = h
        of_stage (connecting port q) k = h
        of_stage (writing q) k = ((s.listener, s.held, k), h)
        of_stage (reading q) k = h
        of_stage (done r) k = h
        of_stage answered k = h
