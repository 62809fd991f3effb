-- ===== src/Websocket/Flights/Delivery.antt =====
-- What every state of the flights keeps, from a gateway that has none in the air.
use mathlib.Core.Path.{subst}
use wsgateway.Prelude.{
  ℕ, ◌≡◌, ◌≢◌, refl, ap, sym, ◌∙◌, [], Option, none, some, All, Bytes, arith, lookup, insert,
  lookup-insert_self, nat_eq,
}
use wsgateway.Std.Number.{ℤ}
use wsgateway.Scylla.Driver.{Driver}
use wsgateway.Scylla.Manager.{ScyllaManager}
use wsgateway.Client.{choose_port}
use wsgateway.Client.Library.{Beast}
use wsgateway.Client.Forward.{choose_port-ne-nil}
use wsgateway.Websocket.Listener.{Listener, Request, read_message}
use wsgateway.Websocket.Gateway
use wsgateway.Websocket.Gateway.{Gateway, Target, on_read, read_at, port_left}
use wsgateway.Websocket.Gateway.Invariant.{IsValid, Reach-IsValid, mapped}
use wsgateway.Websocket.Flights.{
  begin, object_of, at_rest, buried, advance, Air, Flight, answered, launch, Step, creates, closes,
  reads, destroys, starts, starts_closed, advances, completes, Reach, here, next, at,
}
use wsgateway.Websocket.Flights.Objects.{Listeners, Keeps}
use wsgateway.Websocket.Flights.Steps.{Step-gateway, Step-Keeps, read-Keeps, launch-gateway}
use wsgateway.Websocket.Flights.Named.{
  Served, AllServed, IsNamed, AllServed-keeps, IsNamed-keeps, AllServed-at, made, Served-stage,
  IsNamed-log, StageOk-begin, StageOk-advance,
}

module _ (b : Beast) (d : Driver) (m : ScyllaManager) (t : Target) where
  open d use {State}

  abbrev host : Bytes
  host = t.http_request_address

  -- Every flight that was dispatched has its listener, and every request that was written is the one
  -- of its message, for the client of the socket that the message came from.
  pub record IsTracked (a : Air b State) : Type 0 where
    pub served : AllServed b host a.gateway.listeners a.closed a.flight
    pub named : All (IsNamed b host a.gateway.listeners a.closed) a.written

  -- The listeners and the flights of a state that has just made a step, before its own flight.
  IsTracked-Keeps :
      (a a' : Air b State)
      → Keeps a.gateway.listeners a.closed a'.gateway.listeners a'.closed
      → a'.flight ≡ a.flight
      → a'.written ≡ a.written
      → IsTracked a
      → IsTracked a'
  IsTracked-Keeps a a' keeps same_flight same_written v = record {
    served = rw same_flight (AllServed-keeps b host _ _ _ _ keeps a.flight v.served);
    named = rw same_written (IsNamed-keeps b host _ _ _ _ keeps a.written v.named);
  }

  IsTracked-launch :
      (a : Air b State) (socket : ℕ) (r : Option Request) (l : Listener)
      → lookup socket a.gateway.listeners ≡ some l
      → l.http_server_port ≢ []
      → l.http_server_address ≡ host
      → IsTracked a
      → IsTracked (launch a socket r)
  IsTracked-launch a socket none l held port address v = v
  IsTracked-launch a socket (some r) l held port address v = record {
    served =
        AllServed-at b host a.gateway.listeners a.closed a.flight a.dispatched _ v.served
          (record { listener = l; held = ground arith; port = port; address = address; fits = tt });
    named = v.named;
  }

  -- The socket that a frame was read at is live behind the read.
  read_live :
      (g g' : Gateway State) (socket : ℕ) (size : ℤ) (input : Bytes) (now : ℕ) (r : Option Request)
      → on_read d m g socket size input now ≡ some (g', r)
      → (l : Listener) × (lookup socket g'.listeners ≡ some l)
  unfolding on_read
  read_live g g' socket size input now r e =
      let (l, held, same_state) =
        mapped (read_at d m g socket size input now) (lookup socket g.listeners) e in
      let x = (read_message l size input now).0 in
      (
        x,
        subst (λ k. lookup socket k.listeners ≡ some x) (ap (λ p. p.0) same_state)
            (lookup-insert_self socket x g.listeners),
      )

  -- Flight i stands at a stage that fits its listener.
  IsTracked-at :
      (a : Air b State) (i : ℕ) (f : Flight b)
      → Served b host a.gateway.listeners a.closed f
      → IsTracked a
      → IsTracked (record a { flight = at i f a.flight })
  IsTracked-at a i f s v = record {
    served = AllServed-at b host a.gateway.listeners a.closed a.flight i f v.served s;
    named = v.named;
  }

  -- A flight that has just begun with the listener l and the port that it leaves there.
  Served-begun :
      (live closed : Listeners) (f : Flight b) (l : Listener) (port : Bytes) (draw : ℕ)
      → choose_port draw l.http_server_port ≡ some port
      → l.http_server_address ≡ host
      → object_of live closed f.socket ≡ some (record l { http_server_port = port })
      → Served b host live closed (record f { stage = begin b port (made b l.client_id f.request) })
  Served-begun live closed f l port draw chosen address held = record {
    listener = record l { http_server_port = port };
    held = held;
    port = choose_port-ne-nil draw l.http_server_port port chosen;
    address = address;
    fits = StageOk-begin b host l.client_id port f.request;
  }

  pub Step-IsTracked :
      {a a' : Air b State} → Step b d m t a a' → IsValid t a'.gateway → IsTracked a → IsTracked a'
  Step-IsTracked (creates a g socket params peer dropped new new' e) valid v =
      IsTracked-Keeps a (record a { gateway = g })
        (Step-Keeps b d m t (creates a g socket params peer dropped new new' e)) refl refl v
  Step-IsTracked (closes a g socket e) valid v =
      IsTracked-Keeps a (record a { gateway = g }) (Step-Keeps b d m t (closes a g socket e)) refl
        refl v
  Step-IsTracked (reads a g socket size input now r e) valid v =
      let (l, held) = read_live a.gateway g socket size input now r e in
      let h = record a { gateway = g } in
      let aims = (subst (IsValid t) (launch-gateway h socket r).0 valid).aims socket l held in
      IsTracked-launch h socket r l held aims.1 aims.0 (
        IsTracked-Keeps a h (read-Keeps b d m t a.gateway g a.closed socket size input now r e) refl
          refl v)
  Step-IsTracked (destroys a socket l held) valid v =
      IsTracked-Keeps a (buried b d m a socket l) (Step-Keeps b d m t (destroys a socket l held))
        refl refl v
  Step-IsTracked (starts a i draw l port at_start held chosen) valid v =
      let h = record a { gateway = port_left d m a.gateway (a.flight i).socket l port } in
      let s = v.served i (λ e. cc) in
      let one : s.listener ≡ l = ground (arith, s.held) in
      IsTracked-at h i _
        (Served-begun h.gateway.listeners h.closed (a.flight i) l port draw chosen
          (ap (λ x. x.http_server_address) (sym one) ∙ s.address)
          (ground (
            arith,
            lookup-insert_self (a.flight i).socket (record l { http_server_port = port })
                a.gateway.listeners,
          )))
        (IsTracked-Keeps a h (Step-Keeps b d m t (starts a i draw l port at_start held chosen)) refl
          refl v)
  Step-IsTracked (starts_closed a i draw l port at_start gone held chosen) valid v =
      let h = record a {
        closed = insert (a.flight i).socket (record l { http_server_port = port }) a.closed;
      } in
      let s = v.served i (λ e. cc) in
      let one : s.listener ≡ l = ground (arith, s.held) in
      IsTracked-at h i _
        (Served-begun h.gateway.listeners h.closed (a.flight i) l port draw chosen
          (ap (λ x. x.http_server_address) (sym one) ∙ s.address)
          (ground (
            arith,
            lookup-insert_self (a.flight i).socket (record l { http_server_port = port }) a.closed,
          )))
        (IsTracked-Keeps a h
          (Step-Keeps b d m t (starts_closed a i draw l port at_start gone held chosen)) refl refl
          v)
  Step-IsTracked (advances a i n l waits held) valid v =
      let f = a.flight i in
      let s = v.served i (λ e. ground arith) in
      let one : s.listener ≡ l = ground (arith, s.held) in
      let address : l.http_server_address ≡ host =
        ap (λ x. x.http_server_address) (sym one) ∙ s.address in
      let v' =
        IsTracked-at a i (record f { stage = advance b n l.http_server_address f.stage })
          (Served-stage b host a.gateway.listeners a.closed f s
            (advance b n l.http_server_address f.stage)
            (rw address (StageOk-advance b host n s.listener.client_id f.request f.stage s.fits)))
          v in
      record {
        served = v'.served;
        named = IsNamed-log b host a.gateway.listeners a.closed f a.written s v.named;
      }
  Step-IsTracked (completes a i result e) valid v =
      let f = a.flight i in
      let s = v.served i (λ x. cc) in
      let v' =
        IsTracked-at a i (record f { stage = answered })
          (Served-stage b host a.gateway.listeners a.closed f s answered tt) v in
      record { served = v'.served; named = v'.named }

  IsTracked-at_rest : (g : Gateway State) → IsTracked (at_rest b g)
  IsTracked-at_rest g = record { served = λ i h. absurd (h refl); named = tt }

  Reach-gateway :
      (g : Gateway State) {a : Air b State}
      → Reach b d m t (at_rest b g) a
      → Gateway.Reach d m t g a.gateway
  Reach-gateway g here = Gateway.here
  Reach-gateway g (next r s) = Step-gateway b d m t g (Reach-gateway g r) s

  -- If the configured port of the application is not empty, then from a valid gateway without
  -- flights, however callbacks and coroutines are interleaved: the gateway stays valid, every
  -- flight that was dispatched finds the listener of its socket, also behind the socket's end, and
  -- every request that the network was given to write is the one that is built of its message and
  -- its time of arrival for the client name of the socket that the message came from, with the
  -- application's address as its host.
  pub Reach-IsTracked :
      t.http_request_port ≢ []
      → (g : Gateway State) {a : Air b State} → IsValid t g
      → Reach b d m t (at_rest b g) a
      → IsValid t a.gateway × IsTracked a
  Reach-IsTracked given g valid here = (valid, IsTracked-at_rest g)
  Reach-IsTracked given g valid (next r s) =
      let v = Reach-IsTracked given g valid r in
      let now = Reach-IsValid d m t given (Reach-gateway g (next r s)) valid in
      (now, Step-IsTracked s now v.1)
