-- ===== src/Websocket/Flights/Landing.antt =====
-- Every coroutine that `readMessage` of src/websocket/WebSocketListener.cpp starts can be run to
-- its handler, whatever the network does.
use wsgateway.Prelude.{
  ℕ, zero, suc, ◌≤◌, ◌<◌, ◌≡◌, ◌≢◌, refl, ap, ◌∙◌, inl, inr, false, [], ◌∷◌, some, ◌==◌, arith,
  Option-cases, nat_refl, Bytes, lookup, insert, nat_eq,
}
use wsgateway.Scylla.Driver.{Driver}
use wsgateway.Scylla.Manager.{ScyllaManager}
use wsgateway.Client.Library.{Beast, Network}
use wsgateway.Client.{HttpRequest, build_request}
use wsgateway.Client.Forward.{choose_port_total}
use wsgateway.Websocket.Registry.{text}
use wsgateway.Websocket.Listener.{Listener}
use wsgateway.Websocket.Listener.Answers.{sends_all}
use wsgateway.Websocket.Gateway.{Gateway, Target, port_left}
use wsgateway.Websocket.Gateway
use wsgateway.Websocket.Gateway.Invariant.{IsValid, Reach-IsValid}
use wsgateway.Websocket.Flights.Steps.{Step-gateway}
use wsgateway.Websocket.Flights.{
  Air, Stage, absent, waiting, resolving, connecting, writing, reading, done, answered, advance,
  begin, begun, at_rest, set_stage, log_send, log_written, Send, Step, starts, starts_closed,
  advances, completes, Reach, here, next,
}
use wsgateway.Websocket.Flights.Over.{reach_trans, StepOver, IsOver, IsOver-reach_trans}
use wsgateway.Websocket.Flights.Named.{Served}
use wsgateway.Websocket.Flights.Delivery.{IsTracked, Step-IsTracked, Reach-IsTracked}
use wsgateway.Websocket.Flights.Once.{finished, is_absent, Reach-IsCounted}
use wsgateway.Std.Number.{◌>>=◌}
use wsgateway.Http.Parser.{create_request}
use wsgateway.Websocket.Flights.Outcome.{Outcome, Outcome-advance, Outcome-begin}
use wsgateway.Websocket.Flights.{object}
use wsgateway.Client.{choose_port}
use wsgateway.Websocket.Flights.Waits.{
  rank, IsUnderway, begin-IsUnderway, rank-begin, advance-IsUnderway,
}

module _ (b : Beast) (d : Driver) (m : ScyllaManager) (t : Target) where
  open d use {State}

  -- Flight i is run to its end, and no other, over the network n: it has sent one frame, to the
  -- socket that its message came from, with what the function in one piece gives.
  pub record Lands (n : Network (HttpRequest b)) (i : ℕ) (a a' : Air b State) : Type 0 where
    pub steps : Reach b d m t a a'
    pub over : IsOver b d m t n steps
    pub landed : (a'.flight i).stage ≡ answered
    pub as_many : a'.dispatched ≡ a.dispatched
    pub others : (j : ℕ) → (i == j) ≡ false → a'.flight j ≡ a.flight j
    pub send : Send b
    pub number : send.number ≡ i
    pub socket : send.socket ≡ (a.flight i).socket
    pub sent : a'.sends ≡ send ∷ a.sends
    pub result : Bytes
    pub frame : send.frame ≡ text result
    pub outcome : Outcome b n t.http_request_address a i result

  module _ (n : Network (HttpRequest b)) (i : ℕ) where
    abbrev host : Bytes
    host = t.http_request_address

    -- One step of flight i before it lands.
    Lands-after :
        (a c : Air b State) (s : Stage b)
        → (step : Step b d m t a c) → StepOver b d m t n step
        → c.flight ≡ (set_stage a i s).flight
        → c.sends ≡ a.sends
        → c.dispatched ≡ a.dispatched
        → ((r : Bytes) → Outcome b n host c i r → Outcome b n host a i r)
        → (e : Air b State) × Lands n i c e
        → (e : Air b State) × Lands n i a e
    Lands-after a c s step over same_flight same_sends same_number back (e, l) = (
      e,
      record {
        steps = reach_trans b d m t (next here step) l.steps;
        over = IsOver-reach_trans b d m t n (next here step) l.steps (tt, over) l.over;
        landed = l.landed;
        as_many = l.as_many ∙ same_number;
        others = λ j miss. l.others j miss ∙ (rw (same_flight, miss));
        send = l.send;
        number = l.number;
        socket = l.socket ∙ (rw (same_flight, nat_refl i));
        sent = l.sent ∙ ap (λ x. l.send ∷ x) same_sends;
        result = l.result;
        frame = l.frame;
        outcome = back l.result l.outcome;
      },
    )

    Lands-done :
        (a : Air b State) (r : Bytes)
        → (a.flight i).stage ≡ done r
        → r ≢ []
        → (e : Air b State) × Lands n i a e
    Lands-done a r e full = (
      _,
      record {
        steps = next here (completes a i r e);
        over = (tt, tt);
        landed = rw (nat_refl i);
        as_many = refl;
        others = λ j miss. rw miss;
        send = record { number = i; socket = (a.flight i).socket; frame = text r };
        number = refl;
        socket = refl;
        sent = ap (λ o. log_send b i o a.sends) (sends_all (a.flight i).socket r full);
        result = r;
        frame = refl;
        outcome = record { from_start = λ x. cc; from_wait = λ on. rw e refl };
      },
    )

    -- From a wait or the result on: at each wait the network n does what it does.
    land_underway :
        (f : ℕ) (a : Air b State)
        → IsValid t a.gateway
        → IsTracked b d m t a
        → rank (a.flight i).stage ≤ f
        → IsUnderway (a.flight i).stage
        → (e : Air b State) × Lands n i a e
    land_underway f a valid v fuel (inr (r, e)) = Lands-done a r e (full (v.served i (λ x. cc)))
      where
        full : Served b t.http_request_address a.gateway.listeners a.closed (a.flight i) → r ≢ []
        full s = rw e at s.fits
    land_underway zero a valid v fuel (inl waits) =
        absurd (
          omega (arith, (advance-IsUnderway b n t.http_request_address (a.flight i).stage waits).1))
    land_underway (suc f) a valid v fuel (inl waits) =
        let s = v.served i (λ x. ground arith) in
        let l = s.listener in
        let stage = advance b n l.http_server_address (a.flight i).stage in
        let step = advances a i n l waits s.held in
        let c = record (set_stage a i stage) { written = log_written b (a.flight i) a.written } in
        let (on, less) = advance-IsUnderway b n l.http_server_address (a.flight i).stage waits in
        let there : (c.flight i).stage ≡ stage = rw (nat_refl i) in
        let same_host : l.http_server_address ≡ host = s.address in
        let moved : (c.flight i).stage ≡ advance b n host (a.flight i).stage =
          there ∙ ap (λ h. advance b n h (a.flight i).stage) same_host in
        let back : (r : Bytes) → Outcome b n host c i r → Outcome b n host a i r =
          λ r. Outcome-advance b n host a c i r moved waits (rw there on) in
        Lands-after a c stage step refl refl refl refl back (
          land_underway f c valid (Step-IsTracked b d m t step valid v)
            (rw there (omega (arith, less))) (rw there on))

    -- A step that begins the flight, and its end behind it.
    land_begun :
        t.http_request_port ≢ []
        → (a h : Air b State) (l : Listener) (draw : ℕ) (port : Bytes)
        → (a.flight i).stage ≡ waiting
        → object a (a.flight i).socket ≡ some l
        → choose_port draw l.http_server_port ≡ some port
        → h.flight ≡ a.flight
        → h.sends ≡ a.sends
        → h.dispatched ≡ a.dispatched
        → (step : Step b d m t a (begun b d m i l port h)) → StepOver b d m t n step
        → IsValid t a.gateway
        → IsTracked b d m t a
        → (e : Air b State) × Lands n i a e
    land_begun given a h l draw port at_start held chosen same_flight same_sends same_number step
          over valid v =
        let r = create_request (h.flight i).request.message >>= λ q.
        build_request b q l.client_id (h.flight i).request.arrived in
        let c = begun b d m i l port h in
        let valid' =
          Reach-IsValid d m t given (Step-gateway b d m t a.gateway Gateway.here step) valid in
        let there : (c.flight i).stage ≡ begin b port r = rw (nat_refl i) in
        let on = begin-IsUnderway b port r in
        let moved =
          there
          ∙ ap
              (λ f. begin b port (
                create_request (f i).request.message >>= λ q.
                build_request b q l.client_id (f i).request.arrived))
              same_flight in
        let back : (x : Bytes) → Outcome b n host c i x → Outcome b n host a i x = λ x.
          Outcome-begin b n host a c i x draw l port at_start held chosen moved (rw there on) in
        Lands-after a c (begin b port r) step over (rw same_flight) same_sends same_number back (
          land_underway 4 c valid' (Step-IsTracked b d m t step valid' v)
            (rw there (rank-begin b port r)) (rw there on))

    land_waiting :
        t.http_request_port ≢ []
        → (a : Air b State) → IsValid t a.gateway
        → IsTracked b d m t a
        → (a.flight i).stage ≡ waiting
        → (e : Air b State) × Lands n i a e
    land_waiting given a valid v at_start =
        let s = v.served i (λ x. cc) in
        let (port, chosen) = choose_port_total 0 s.listener.http_server_port s.port in
        let socket = (a.flight i).socket in
        let x = record s.listener { http_server_port = port } in
        elim (Option-cases (lookup socket a.gateway.listeners)) [
          | inl gone ↦
              land_begun given a (record a { closed = insert socket x a.closed }) s.listener 0 port
                at_start s.held chosen refl refl refl
                (starts_closed a i 0 s.listener port at_start gone (ground (arith, s.held)) chosen)
                tt valid v
          | inr (l, live) ↦
              let held : lookup socket a.gateway.listeners ≡ some s.listener =
                ground (arith, s.held) in
              land_begun given a
                (record a { gateway = port_left d m a.gateway socket s.listener port }) s.listener 0
                port at_start s.held chosen refl refl refl
                (starts a i 0 s.listener port at_start held chosen) tt valid v
        ]

    pub land :
        t.http_request_port ≢ []
        → (a : Air b State) → IsValid t a.gateway
        → IsTracked b d m t a
        → is_absent b (a.flight i).stage ≡ 0
        → finished b (a.flight i).stage ≡ 0
        → (e : Air b State) × Lands n i a e
    land given a valid v present running = by_stage (a.flight i).stage refl
      where
        by_stage : (s : Stage b) → (a.flight i).stage ≡ s → (e : Air b State) × Lands n i a e
        by_stage absent e = absurd (ground arith)
        by_stage waiting e = land_waiting given a valid v e
        by_stage (resolving port q) e = land_underway 4 a valid v (rw e (omega arith)) (inl (rw e))
        by_stage (connecting port q) e = land_underway 4 a valid v (rw e (omega arith)) (inl (rw e))
        by_stage (writing q) e = land_underway 4 a valid v (rw e (omega arith)) (inl (rw e))
        by_stage (reading q) e = land_underway 4 a valid v (rw e (omega arith)) (inl (rw e))
        by_stage (done r) e = land_underway 4 a valid v (rw e (omega arith)) (inr (r, e))
        by_stage answered e = absurd (ground arith)

  module _ (given : t.http_request_port ≢ []) (g : Gateway State) (valid : IsValid t g) where
    -- At every state that is reached from a valid gateway without flights, with a port for the
    -- application, each flight that was dispatched and has not been answered can be run to its
    -- handler on its own, whatever the network does at its waits: it then has sent one frame, to
    -- the socket that its message came from, also if that socket has been destroyed. On one
    -- network, a flight that had not begun has sent what the function in one piece returns for its
    -- message and the listener of its socket, and any other one what is left of that.
    pub Reach-Lands :
        {a : Air b State}
        → Reach b d m t (at_rest b g) a
        → (n : Network (HttpRequest b)) (i : ℕ) → i < a.dispatched
        → finished b (a.flight i).stage ≡ 0
        → (e : Air b State) × Lands n i a e
    Reach-Lands {a} r n i below running =
        let (valid', tracked) = Reach-IsTracked b d m t given g valid r in
        land n i given a valid' tracked ((Reach-IsCounted b d m t given g valid r).born i below)
          running
