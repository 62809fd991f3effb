-- ===== src/Websocket/Flights/Steps.antt =====
-- Each step of the flights as steps of the gateway of src/websocket/WebSocketListener.cpp, and what
-- it keeps of the listeners.
use mathlib.Core.Path.{subst}
use wsgateway.Prelude.{ℕ, ◌≡◌, refl, ap, sym, Option, none, some, Bytes, arith, lookup, nat_eq}
use wsgateway.Std.Number.{ℤ, pos, negsuc}
use wsgateway.Scylla.Driver.{Driver}
use wsgateway.Scylla.Manager.{ScyllaManager}
use wsgateway.Client.{choose_port}
use wsgateway.Client.Forward.{choose_port-ne-nil}
use wsgateway.Client.Library.{Beast}
use wsgateway.Websocket.Registry.{Registry}
use wsgateway.Websocket.Listener.{Request, Listener, new_listener, on_close, read_message}
use wsgateway.Websocket.Gateway
use wsgateway.Websocket.Gateway.{
  Gateway, Target, register, on_before_destroy, on_close_frame, on_read, on_choose_port,
  destroyed_at, closed_at, read_at, port_left,
}
use wsgateway.Websocket.Gateway.Invariant.{mapped, created}
use wsgateway.Websocket.Flights.{
  Air, launch, Step, creates, closes, reads, destroys, starts, starts_closed, advances, completes,
}
use wsgateway.Websocket.Flights.Objects.{
  Listeners, Same, Keeps, Keeps-refl, Keeps-new, Keeps-live, Keeps-closed, Keeps-buried,
}

-- The launch of a flight leaves the gateway and the listeners alone.
pub launch-gateway :
    {b : Beast} {S : Type 0} (a : Air b S) (socket : ℕ) (r : Option Request)
    → ((launch a socket r).gateway ≡ a.gateway) × ((launch a socket r).closed ≡ a.closed)
launch-gateway a socket none = (refl, refl)
launch-gateway a socket (some r) = (refl, refl)

Same-read :
    (l : Listener) (size : ℤ) (input : Bytes) (now : ℕ) → Same l (read_message l size input now).0
unfolding read_message
Same-read l (pos n) input now = record {
  client = ground arith;
  address = ground arith;
  port = λ h. ground arith;
}
Same-read l (negsuc n) input now = record { client = refl; address = refl; port = λ h. h }

pub Same-port :
    (l : Listener) (draw : ℕ) (port : Bytes)
    → choose_port draw l.http_server_port ≡ some port
    → Same l (record l { http_server_port = port })
Same-port l draw port e = record {
  client = refl;
  address = refl;
  port = λ h. choose_port-ne-nil draw l.http_server_port port e;
}

module _ (b : Beast) (d : Driver) (m : ScyllaManager) (t : Target) where
  open d use {State}

  Same-close : (l : Listener) (r : Registry State) → Same l (on_close d m l r).0
  unfolding on_close
  Same-close l r = record { client = refl; address = refl; port = λ h. h }

  -- What a step does to the gateway is a run of the gateway's own steps.
  pub Step-gateway :
      {a a' : Air b State} (g : Gateway State)
      → Gateway.Reach d m t g a.gateway
      → Step b d m t a a'
      → Gateway.Reach d m t g a'.gateway
  unfolding on_before_destroy on_choose_port
  Step-gateway g r (creates a g' socket params peer dropped new new' e) =
      Gateway.next r (Gateway.creates socket params peer dropped new e)
  Step-gateway g r (closes a g' socket e) = Gateway.next r (Gateway.closes socket e)
  Step-gateway g r (reads a g' socket size input now q e) =
      subst (Gateway.Reach d m t g) (sym (launch-gateway (record a { gateway = g' }) socket q).0)
        (Gateway.next r (Gateway.reads socket size input now q e))
  Step-gateway g r (destroys a socket l held) =
      Gateway.next r (Gateway.destroys socket (rw (on_before_destroy, held)))
  Step-gateway g r (starts a i draw l port at_start held chosen) =
      Gateway.next r (Gateway.chooses (a.flight i).socket draw (rw (on_choose_port, held, chosen)))
  Step-gateway g r (starts_closed a i draw l port at_start gone held chosen) = r
  Step-gateway g r (advances a i n l waits held) = r
  Step-gateway g r (completes a i result e) = r

  abbrev pub AirKeeps : Air b State → Air b State → Type 0
  AirKeeps a a' = Keeps a.gateway.listeners a.closed a'.gateway.listeners a'.closed

  pub read-Keeps :
      (g g' : Gateway State) (closed : Listeners) (socket : ℕ) (size : ℤ) (input : Bytes) (now : ℕ)
      (q : Option Request)
      → on_read d m g socket size input now ≡ some (g', q)
      → Keeps g.listeners closed g'.listeners closed
  unfolding on_read
  read-Keeps g g' closed socket size input now q e =
      let (l, held, done) =
        mapped (read_at d m g socket size input now) (lookup socket g.listeners) e in
      subst (λ x. Keeps g.listeners closed x.listeners closed) (ap (λ p. p.0) done)
        (Keeps-live g.listeners closed socket l _ held (Same-read l size input now))

  pub Step-Keeps : {a a' : Air b State} → Step b d m t a a' → AirKeeps a a'
  unfolding on_close_frame on_read
  Step-Keeps (creates a g socket params peer dropped new new' e) =
      let (client, done) = created d m t a.gateway g socket params peer dropped e in
      subst (λ x. Keeps a.gateway.listeners a.closed x.listeners a.closed) done
        (Keeps-new a.gateway.listeners a.closed socket
          (new_listener client t.http_request_address t.http_request_port) new new')
  Step-Keeps (closes a g socket e) =
      let (l, held, done) =
        mapped (closed_at d m a.gateway socket) (lookup socket a.gateway.listeners) e in
      subst (λ x. Keeps a.gateway.listeners a.closed x.listeners a.closed) done
        (Keeps-live a.gateway.listeners a.closed socket l _ held (Same-close l a.gateway.registry))
  Step-Keeps (reads a g socket size input now q e) =
      let (same_gateway, same_closed) = launch-gateway (record a { gateway = g }) socket q in
      rw (same_gateway, same_closed) (read-Keeps a.gateway g a.closed socket size input now q e)
  Step-Keeps (destroys a socket l held) =
      Keeps-buried a.gateway.listeners a.closed socket l _ held (Same-close l a.gateway.registry)
  Step-Keeps (starts a i draw l port at_start held chosen) =
      Keeps-live a.gateway.listeners a.closed (a.flight i).socket l _ held
        (Same-port l draw port chosen)
  Step-Keeps (starts_closed a i draw l port at_start gone held chosen) =
      Keeps-closed a.gateway.listeners a.closed (a.flight i).socket l _ gone held
        (Same-port l draw port chosen)
  Step-Keeps (advances a i n l waits held) = Keeps-refl a.gateway.listeners a.closed
  Step-Keeps (completes a i result e) = Keeps-refl a.gateway.listeners a.closed
