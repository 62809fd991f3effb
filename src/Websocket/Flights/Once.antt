-- ===== src/Websocket/Flights/Once.antt =====
-- How often the handler that `readMessage` of src/websocket/WebSocketListener.cpp leaves with a
-- coroutine sends.
use wsgateway.Prelude.{
  ltb, All-map, ℕ, ◌+◌, ◌≤◌, ◌<◌, ◌≡◌, ◌≢◌, refl, inl, inr, true, List, [], ◌∷◌, Option, none, some,
  All, if◌then◌else◌, ◌==◌, arith, Bool-cases, nat-eq, Bytes,
}
use wsgateway.Scylla.Driver.{Driver}
use wsgateway.Scylla.Manager.{ScyllaManager}
use wsgateway.Client.Library.{Beast, Network}
use wsgateway.Websocket.Listener.{Request, returned, on_complete}
use wsgateway.Websocket.Gateway.{Gateway, Target}
use wsgateway.Websocket.Gateway.Invariant.{IsValid}
use wsgateway.Websocket.Flights.{
  Air, Stage, absent, waiting, resolving, connecting, writing, reading, done, answered, at_wait,
  advance, begin, at_rest, launch, set_stage, log_send, Send, Step, creates, closes, reads,
  destroys, starts, starts_closed, advances, completes, Reach, here, next,
}
use wsgateway.Websocket.Flights.Named.{Served}
use wsgateway.Websocket.Flights.Delivery.{IsTracked, Reach-IsTracked}
use wsgateway.Std.Number.{Result, ok, err}
use wsgateway.Client.{HttpRequest}

module _ (b : Beast) where
  -- The frames of a flight.
  abbrev pub count : ℕ → List (Send b) → ℕ
  count i [] = 0
  count i (s ∷ ss) = (if s.number == i then 1 else 0) + count i ss

  abbrev pub finished : Stage b → ℕ
  finished answered = 1
  finished s = 0

  abbrev pub is_absent : Stage b → ℕ
  is_absent absent = 1
  is_absent s = 0

  -- A frame went to the socket that its flight's message came from.
  abbrev pub IsReturned : {S : Type 0} → Air b S → Send b → Type 0
  IsReturned a s = (s.number < a.dispatched) × ((a.flight s.number).socket ≡ s.socket)

  -- The numbers below `dispatched` are those of the flights; a flight has sent one frame if its
  -- handler has run and none before, and it was sent to the socket that its message came from.
  pub record IsCounted {S : Type 0} (a : Air b S) : Type 0 where
    pub born : (i : ℕ) → i < a.dispatched → is_absent (a.flight i).stage ≡ 0
    pub unborn : (i : ℕ) → a.dispatched ≤ i → is_absent (a.flight i).stage ≡ 1
    pub once : (i : ℕ) → count i a.sends ≡ finished (a.flight i).stage
    pub sockets : All (IsReturned a) a.sends

  absent_of : (s : Stage b) → is_absent s ≡ 1 → finished s ≡ 0
  absent_of absent h = refl
  absent_of answered h = cc
  absent_of waiting h = refl
  absent_of (resolving port q) h = refl
  absent_of (connecting port q) h = refl
  absent_of (writing q) h = refl
  absent_of (reading q) h = refl
  absent_of (done r) h = refl

  module _ {S : Type 0} (a : Air b S) (v : IsCounted a) where
    IsCounted-launch : (socket : ℕ) (r : Option Request) → IsCounted (launch a socket r)
    IsCounted-launch socket none = v
    IsCounted-launch socket (some r) = record {
      born = λ i h. ground (arith, v.born i);
      unborn = λ i h. ground (arith, v.unborn i);
      once = λ i. ground (arith, v.once i, v.unborn i, absent_of (a.flight i).stage);
      sockets = All-map (λ s h. (omega arith, ground arith)) a.sends v.sockets;
    }

    -- A flight that goes on to another stage, before its handler.
    IsCounted-stage :
        (i : ℕ) (s : Stage b)
        → is_absent (a.flight i).stage ≡ 0
        → finished (a.flight i).stage ≡ 0
        → is_absent s ≡ 0
        → finished s ≡ 0
        → IsCounted (set_stage a i s)
    IsCounted-stage i s present running present' running' = record {
      born = λ j h. ground (arith, v.born j);
      unborn = λ j h. ground (arith, v.unborn j);
      once = λ j. ground (arith, v.once j);
      sockets = All-map (λ x h. (h.0, ground arith)) a.sends v.sockets;
    }

    -- The handler sends a result that is not empty, as one frame.
    IsCounted-completes :
        (i : ℕ) (result : Bytes)
        → (a.flight i).stage ≡ done result
        → result ≢ []
        → IsCounted (record (set_stage a i answered) {
          sends = log_send b i (on_complete (a.flight i).socket (returned result)) a.sends;
        })
    unfolding on_complete
    IsCounted-completes i [] e full = absurd (full refl)
    IsCounted-completes i (c ∷ r) e full = record {
      born = λ j h. ground (arith, v.born j);
      unborn = λ j h. ground (arith, v.unborn j);
      once = λ j. ground (arith, v.once j, nat-eq i j);
      sockets = (
        (below i (ground arith), ground arith),
        All-map (λ x h. (h.0, ground arith)) a.sends v.sockets,
      );
    }
      where
        below : (j : ℕ) → is_absent (a.flight j).stage ≡ 0 → j < a.dispatched
        below j h = elim (Bool-cases (ltb j a.dispatched)) [
          | inl yes_below ↦ ground arith
          | inr above ↦ absurd (ground (arith, v.unborn j))
        ]

pub at_wait_running :
    (b : Beast) (s : Stage b) → at_wait b s ≡ true → (is_absent b s ≡ 0) × (finished b s ≡ 0)
at_wait_running b absent h = cc
at_wait_running b waiting h = cc
at_wait_running b (resolving port q) h = (refl, refl)
at_wait_running b (connecting port q) h = (refl, refl)
at_wait_running b (writing q) h = (refl, refl)
at_wait_running b (reading q) h = (refl, refl)
at_wait_running b (done r) h = cc
at_wait_running b answered h = cc

begin_running :
    (b : Beast) (port : Bytes) (r : Result (HttpRequest b))
    → (is_absent b (begin b port r) ≡ 0) × (finished b (begin b port r) ≡ 0)
begin_running b port (err e) = (refl, refl)
begin_running b port (ok q) = (refl, refl)

advance_running :
    (b : Beast) (n : Network (HttpRequest b)) (host : Bytes) (s : Stage b)
    → at_wait b s ≡ true
    → (is_absent b (advance b n host s) ≡ 0) × (finished b (advance b n host s) ≡ 0)
advance_running b n host absent h = cc
advance_running b n host waiting h = cc
advance_running b n host (resolving port q) h = ground arith
advance_running b n host (connecting port q) h = ground arith
advance_running b n host (writing q) h = ground arith
advance_running b n host (reading q) h = ground arith
advance_running b n host (done r) h = cc
advance_running b n host answered h = cc

module _ (b : Beast) (d : Driver) (m : ScyllaManager) (t : Target) where
  open d use {State}

  -- A step that is no flight's own.
  same_flights :
      (a a' : Air b State)
      → a'.flight ≡ a.flight
      → a'.dispatched ≡ a.dispatched
      → a'.sends ≡ a.sends
      → IsCounted b a
      → IsCounted b a'
  same_flights a a' f n s v = record {
    born = λ i h. rw f (v.born i (rw n at h));
    unborn = λ i h. rw f (v.unborn i (rw n at h));
    once = λ i. rw (f, s) (v.once i);
    sockets = rw (f, n, s) v.sockets;
  }

  Step-IsCounted :
      {a a' : Air b State}
      → Step b d m t a a'
      → IsTracked b d m t a
      → IsCounted b a
      → IsCounted b a'
  Step-IsCounted (creates a g socket params peer dropped new new' e) k v =
      same_flights a _ refl refl refl v
  Step-IsCounted (closes a g socket e) k v = same_flights a _ refl refl refl v
  Step-IsCounted (reads a g socket size input now r e) k v =
      IsCounted-launch b (record a { gateway = g }) (same_flights a _ refl refl refl v) socket r
  Step-IsCounted (destroys a socket l held) k v = same_flights a _ refl refl refl v
  Step-IsCounted (starts a i draw l port at_start held chosen) k v =
      let run = begin_running b port _ in
      IsCounted-stage b _ (same_flights a _ refl refl refl v) i _ (ground arith) (ground arith)
        run.0 run.1
  Step-IsCounted (starts_closed a i draw l port at_start gone held chosen) k v =
      let run = begin_running b port _ in
      IsCounted-stage b _ (same_flights a _ refl refl refl v) i _ (ground arith) (ground arith)
        run.0 run.1
  Step-IsCounted (advances a i n l waits held) k v =
      let old = at_wait_running b (a.flight i).stage waits in
      let run = advance_running b n l.http_server_address (a.flight i).stage waits in
      same_flights (set_stage a i (advance b n l.http_server_address (a.flight i).stage)) _ refl
        refl refl
        (IsCounted-stage b a v i (advance b n l.http_server_address (a.flight i).stage) old.0 old.1
          run.0 run.1)
  Step-IsCounted (completes a i result e) k v =
      IsCounted-completes b a v i result e (full (k.served i (λ x. cc)))
    where
      full : Served b t.http_request_address a.gateway.listeners a.closed (a.flight i) → result ≢ []
      full s = rw e at s.fits

  IsCounted-at_rest : (g : Gateway State) → IsCounted b (at_rest b g)
  IsCounted-at_rest g = record {
    born = λ i h. absurd (omega arith);
    unborn = λ i h. refl;
    once = λ i. refl;
    sockets = tt;
  }

  -- From a valid gateway without flights, with a port for the application, however callbacks and
  -- coroutines are interleaved: the flights are those that were dispatched, a flight has sent
  -- exactly one frame if its handler has run and none before, and each frame went to the socket
  -- that its flight's message came from.
  pub Reach-IsCounted :
      t.http_request_port ≢ []
      → (g : Gateway State) {a : Air b State} → IsValid t g
      → Reach b d m t (at_rest b g) a
      → IsCounted b a
  Reach-IsCounted given g valid here = IsCounted-at_rest g
  Reach-IsCounted given g valid (next r s) =
      Step-IsCounted s (Reach-IsTracked b d m t given g valid r).1 (Reach-IsCounted given g valid r)
