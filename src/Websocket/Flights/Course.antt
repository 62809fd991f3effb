-- ===== src/Websocket/Flights/Course.antt =====
-- One coroutine that `readMessage` of src/websocket/WebSocketListener.cpp starts, through every run
-- over one network, whatever happens in between.
use mathlib.Core.Path.{subst}
use wsgateway.Prelude.{
  All, ℕ, ◌<◌, ◌≡◌, refl, sym, ◌∙◌, inl, inr, true, false, List, [], ◌∷◌, Option, none, some, arith,
  Bytes, nat_eq, nat-eq, nat_refl, ◌==◌, Bool-cases, Option-cases,
}
use wsgateway.Scylla.Driver.{Driver}
use wsgateway.Scylla.Manager.{ScyllaManager}
use wsgateway.Client.Library.{Beast, Network}
use wsgateway.Client.{HttpRequest}
use wsgateway.Websocket.Registry.{text}
use wsgateway.Websocket.Listener.{Listener, Request, returned, on_complete}
use wsgateway.Websocket.Gateway.{Target}
use wsgateway.Websocket.Flights.{
  Air, Flight, Stage, to_write, waiting, done, answered, advance, begin, at_wait, set_stage, launch,
  log_send, log_written, object, Written, Send, Step, creates, closes, reads, destroys, starts,
  starts_closed, advances, completes, Reach, here, next,
}
use wsgateway.Websocket.Flights.Named.{made}
use wsgateway.Websocket.Flights.Steps.{AirKeeps, Step-Keeps, read-Keeps}
use wsgateway.Websocket.Flights.Objects.{Keeps-refl}
use wsgateway.Websocket.Flights.Over.{StepOver, IsOver}

-- What holds of a flight's stage and of what was written, from its start to its handler, with the
-- result of the flight: it survives what others write, the first part of the coroutine for any
-- port, and each wait.
pub record Plan (b : Beast) (n : Network (HttpRequest b)) (host client : Bytes) (socket : ℕ)
    (r : Request) (result : Bytes) : Type 1 where
  pub Holds : Stage b → List (Written b) → Type 0
  pub others : (s : Stage b) (w : Written b) (ws : List (Written b)) → Holds s ws → Holds s (w ∷ ws)
  pub begins :
      (port : Bytes) (ws : List (Written b))
      → Holds waiting ws
      → Holds (begin b port (made b client r)) ws
  pub goes_on :
      (s : Stage b) (ws : List (Written b))
      → at_wait b s ≡ true
      → Holds s ws
      → Holds
          (advance b n host s)
          (log_written b (record { socket = socket; request = r; stage = s }) ws)
  pub ends : (x : Bytes) (ws : List (Written b)) → Holds (done x) ws → x ≡ result
  pub handled : (x : Bytes) (ws : List (Written b)) → Holds (done x) ws → Holds answered ws

module _ (b : Beast) (d : Driver) (m : ScyllaManager) (t : Target) (n : Network (HttpRequest b))
    (i socket : ℕ) (client : Bytes) (r : Request) (result : Bytes)
    (plan : Plan b n t.http_request_address client socket r result) where
  open d use {State}

  -- A frame of the flight is its result, for its socket.
  abbrev pub OwnSend : Send b → Type 0
  OwnSend x = x.number ≡ i → x ≡ record { number = i; socket = socket; frame = text result }

  pub record IsOn (a : Air b State) : Type 0 where
    pub born : i < a.dispatched
    pub listener : Listener
    pub held : object a socket ≡ some listener
    pub same_client : listener.client_id ≡ client
    pub same_host : listener.http_server_address ≡ t.http_request_address
    pub at_socket : (a.flight i).socket ≡ socket
    pub of_request : (a.flight i).request ≡ r
    pub fits : plan.Holds (a.flight i).stage a.written
    pub sent : All OwnSend a.sends

  IsOn-step :
      (a c : Air b State)
      → AirKeeps b d m t a c
      → IsOn a
      → i < c.dispatched
      → (c.flight i).socket ≡ (a.flight i).socket
      → (c.flight i).request ≡ (a.flight i).request
      → plan.Holds (c.flight i).stage c.written
      → All OwnSend c.sends
      → IsOn c
  IsOn-step a c keeps v born same_socket same_request fits sent =
      let (l, held, same_one) = keeps socket v.listener v.held in
      record {
        born = born;
        listener = l;
        held = held;
        same_client = same_one.client ∙ v.same_client;
        same_host = same_one.address ∙ v.same_host;
        at_socket = same_socket ∙ v.at_socket;
        of_request = same_request ∙ v.of_request;
        fits = fits;
        sent = sent;
      }

  IsOn-launch : (a : Air b State) (k : ℕ) (q : Option Request) → IsOn a → IsOn (launch a k q)
  IsOn-launch a k none v = v
  IsOn-launch a k (some q) v =
      let miss : (a.dispatched == i) ≡ false = ground (arith, v.born) in
      IsOn-step a (launch a k (some q)) (Keeps-refl a.gateway.listeners a.closed) v
        (omega (arith, v.born)) (rw miss refl) (rw miss refl) (rw miss v.fits) v.sent

  -- Some flight goes to another stage.
  IsOn-stage :
      (a c : Air b State) (j : ℕ) (s : Stage b)
      → AirKeeps b d m t a c
      → IsOn a
      → c.flight ≡ (set_stage a j s).flight
      → c.dispatched ≡ a.dispatched
      → ((j == i) ≡ true → plan.Holds s c.written)
      → plan.Holds (a.flight i).stage c.written
      → All OwnSend c.sends
      → IsOn c
  IsOn-stage a c j s keeps v same_flight same_number own other sent = elim (Bool-cases (j == i)) [
    | inl hit ↦
        IsOn-step a c keeps v (rw same_number v.born) (rw (same_flight, hit, nat-eq j i hit) refl)
          (rw (same_flight, hit, nat-eq j i hit) refl) (rw (same_flight, hit) (own hit)) sent
    | inr miss ↦
        IsOn-step a c keeps v (rw same_number v.born) (rw (same_flight, miss) refl)
          (rw (same_flight, miss) refl) (rw (same_flight, miss) other) sent
  ]

  -- What is known of the flight where a step names it by another number.
  record Own (a : Air b State) (j : ℕ) : Type 0 where
    at_socket : (a.flight j).socket ≡ socket
    of_request : (a.flight j).request ≡ r
    fits : plan.Holds (a.flight j).stage a.written
    held :
        (l : Listener)
        → object a (a.flight j).socket ≡ some l
        → (l.client_id ≡ client) × (l.http_server_address ≡ t.http_request_address)

  own : (a : Air b State) (j : ℕ) → IsOn a → (j == i) ≡ true → Own a j
  own a j v hit = subst (Own a) (sym (nat-eq j i hit)) (record {
    at_socket = v.at_socket;
    of_request = v.of_request;
    fits = v.fits;
    held = λ l e.
        let there : object a socket ≡ some l = subst (λ k. object a k ≡ some l) v.at_socket e in
        let same_one : l ≡ v.listener = ground (arith, v.held) in
        rw same_one (v.same_client, v.same_host);
  })

  begins_own :
      (a : Air b State) (j : ℕ) (l : Listener) (port : Bytes)
      → IsOn a
      → (a.flight j).stage ≡ waiting
      → object a (a.flight j).socket ≡ some l
      → (j == i) ≡ true
      → plan.Holds (begin b port (made b l.client_id (a.flight j).request)) a.written
  begins_own a j l port v at_start held hit =
      let o = own a j v hit in
      rw (o.of_request, (o.held l held).0) (plan.begins port a.written (rw at_start at o.fits))

  goes_on_own :
      (a : Air b State) (j : ℕ) (n' : Network (HttpRequest b)) (l : Listener)
      → n' ≡ n
      → IsOn a
      → at_wait b (a.flight j).stage ≡ true
      → object a (a.flight j).socket ≡ some l
      → (j == i) ≡ true
      → plan.Holds
          (advance b n' l.http_server_address (a.flight j).stage)
          (log_written b (a.flight j) a.written)
  goes_on_own a j n' l same_network v waits held hit =
      let o = own a j v hit in
      rw (same_network, (o.held l held).1, o.at_socket, o.of_request)
        (plan.goes_on (a.flight j).stage a.written waits o.fits)

  -- What a flight writes leaves the others' plans alone.
  others_log :
      (f : Flight b) (s : Stage b) (ws : List (Written b))
      → plan.Holds s ws
      → plan.Holds s (log_written b f ws)
  others_log f s ws h = elim (Option-cases (to_write b f.stage)) [
    | inl idle ↦ rw (log_written, idle) h
    | inr (q, writes) ↦
        rw (log_written, writes)
          (plan.others s (record { socket = f.socket; request = f.request; sent = q }) ws h)
  ]

  sends_own :
      (a : Air b State) (j : ℕ) (x : Bytes)
      → IsOn a
      → (a.flight j).stage ≡ done x
      → All OwnSend (log_send b j (on_complete (a.flight j).socket (returned x)) a.sends)
  unfolding on_complete
  sends_own a j [] v e = v.sent
  sends_own a j (c ∷ x) v e = (λ same_number. is_own same_number, v.sent)
    where
      is_own :
          j ≡ i
          → ◌≡◌ {A = Send b}
              (record { number = j; socket = (a.flight j).socket; frame = text (c ∷ x) })
              (record { number = i; socket = socket; frame = text result })
      is_own same_number =
          let o = own a j v (rw same_number (nat_refl i)) in
          let same_result : c ∷ x ≡ result = plan.ends (c ∷ x) a.written (rw e at o.fits) in
          rw (o.at_socket, same_number, same_result) refl

  Step-IsOn : {a c : Air b State} (s : Step b d m t a c) → StepOver b d m t n s → IsOn a → IsOn c
  Step-IsOn (creates a g k params peer dropped new new' e) over v =
      IsOn-step a _ (Step-Keeps b d m t (creates a g k params peer dropped new new' e)) v v.born
        refl refl v.fits v.sent
  Step-IsOn (closes a g k e) over v =
      IsOn-step a _ (Step-Keeps b d m t (closes a g k e)) v v.born refl refl v.fits v.sent
  Step-IsOn (reads a g k size input now q e) over v =
      IsOn-launch (record a { gateway = g }) k q
        (IsOn-step a (record a { gateway = g })
          (read-Keeps b d m t a.gateway g a.closed k size input now q e) v v.born refl refl v.fits
          v.sent)
  Step-IsOn (destroys a k l held) over v =
      IsOn-step a _ (Step-Keeps b d m t (destroys a k l held)) v v.born refl refl v.fits v.sent
  Step-IsOn (starts a j draw l port at_start held chosen) over v =
      IsOn-stage a _ j _ (Step-Keeps b d m t (starts a j draw l port at_start held chosen)) v refl
        refl (begins_own a j l port v at_start (ground (arith, held))) v.fits v.sent
  Step-IsOn (starts_closed a j draw l port at_start gone held chosen) over v =
      IsOn-stage a _ j _
        (Step-Keeps b d m t (starts_closed a j draw l port at_start gone held chosen)) v refl refl
        (begins_own a j l port v at_start (ground (arith, gone, held))) v.fits v.sent
  Step-IsOn (advances a j n' l waits held) over v =
      IsOn-stage a _ j _ (Step-Keeps b d m t (advances a j n' l waits held)) v refl refl
        (goes_on_own a j n' l over v waits held)
        (others_log (a.flight j) (a.flight i).stage a.written v.fits) v.sent
  Step-IsOn (completes a j x e) over v =
      IsOn-stage a _ j answered (Step-Keeps b d m t (completes a j x e)) v refl refl
        (λ hit. let o = own a j v hit in plan.handled x a.written (rw e at o.fits)) v.fits
        (sends_own a j x v e)

  -- Over this network, the flight stays on its course, however callbacks and other coroutines are
  -- interleaved with it.
  pub Reach-IsOn :
      {a c : Air b State} (q : Reach b d m t a c) → IsOver b d m t n q → IsOn a → IsOn c
  Reach-IsOn here over v = v
  Reach-IsOn (next q s) over v = Step-IsOn s over.1 (Reach-IsOn q over.0 v)
