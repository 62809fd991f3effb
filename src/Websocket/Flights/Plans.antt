-- ===== src/Websocket/Flights/Plans.antt =====
-- What a coroutine of src/utilis/boostBeastClient.h ends with and has written, at each of its
-- waits, on a network that does the same at all times.
use wsgateway.Prelude.{◌≡◌, refl, ap, ◌∙◌, ◌⊎◌, inl, inr, true, List, [], ◌∷◌, ◌++◌, Bytes, arith}
use wsgateway.Std.Number.{ok}
use wsgateway.Http.Response.{Response}
use wsgateway.Client.Library.{Beast, Network}
use wsgateway.Client.{HttpRequest, caught, set_host}
use wsgateway.Client.Up.{IsUp}
use wsgateway.Websocket.Listener.{Request}
use wsgateway.Websocket.Flights.{
  Stage, absent, waiting, resolving, connecting, writing, reading, done, answered, advance, begin,
  at_wait, Written, log_written,
}
use wsgateway.Websocket.Flights.Named.{made}
use wsgateway.Websocket.Flights.Waits.{IsUnderway, begin-IsUnderway, advance-IsUnderway}
use wsgateway.Websocket.Flights.Single.{run_waits, caught-run_waits}
use wsgateway.Websocket.Flights.Outcome.{run_waits-advance}
use wsgateway.Websocket.Flights.Course.{Plan}
use wsgateway.Prelude.{ℕ}

-- A request is one of those that were written.
abbrev pub IsAmong : {b : Beast} → Written b → List (Written b) → Type 0
IsAmong w [] = ⊥
IsAmong w (x ∷ ws) = (x ≡ w) ⊎ IsAmong w ws

module _ (b : Beast) (n : Network (HttpRequest b)) (host client : Bytes) (socket : ℕ) (r : Request)
    (result : Bytes) where
  -- What is ahead of the stage gives the result.
  abbrev Ends : Stage b → Type 0
  Ends absent = Unit
  Ends waiting = Unit
  Ends answered = Unit
  Ends s = run_waits b n host s ≡ done result

  Ends-underway : (s : Stage b) → IsUnderway s → run_waits b n host s ≡ done result → Ends s
  Ends-underway absent on e = tt
  Ends-underway waiting on e = tt
  Ends-underway (resolving port q) on e = e
  Ends-underway (connecting port q) on e = e
  Ends-underway (writing q) on e = e
  Ends-underway (reading q) on e = e
  Ends-underway (done x) on e = e
  Ends-underway answered on e = tt

  run_waits-Ends : (s : Stage b) → at_wait b s ≡ true → Ends s → run_waits b n host s ≡ done result
  run_waits-Ends absent on e = cc
  run_waits-Ends waiting on e = cc
  run_waits-Ends (resolving port q) on e = e
  run_waits-Ends (connecting port q) on e = e
  run_waits-Ends (writing q) on e = e
  run_waits-Ends (reading q) on e = e
  run_waits-Ends (done x) on e = e
  run_waits-Ends answered on e = cc

  pub Ends-done : (x : Bytes) → Ends (done x) → x ≡ result
  Ends-done x e = ground (arith, e)

  pub Ends-advance : (s : Stage b) → at_wait b s ≡ true → Ends s → Ends (advance b n host s)
  Ends-advance s on e =
      Ends-underway (advance b n host s) (advance-IsUnderway b n host s on).0
        (run_waits-advance b n host s ∙ run_waits-Ends s on e)

  module _
      (is_result : (port : Bytes) → (caught b n host port (made b client r)).result ≡ result) where
    pub Ends-begin : (port : Bytes) → Ends (begin b port (made b client r))
    Ends-begin port =
        Ends-underway (begin b port (made b client r)) (begin-IsUnderway b port (made b client r))
          (caught-run_waits b n host port (made b client r) ∙ ap done (is_result port))

    -- Whatever the port, the function in one piece gives the result: so does the coroutine.
    abbrev pub ends_with : Plan b n host client socket r result
    ends_with = record {
      Holds = λ s ws. Ends s;
      others = λ s w ws h. h;
      begins = λ port ws h. Ends-begin port;
      goes_on = λ s ws waits h. Ends-advance s waits h;
      ends = λ x ws h. Ends-done x h;
      handled = λ x ws h. tt;
    }

    module _ (reply : HttpRequest b → Response) (up : IsUp b n reply) (q : HttpRequest b)
        (is_made : made b client r ≡ ok q) (before : List (Written b)) where
      abbrev own_written : Written b
      own_written = record { socket = socket; request = r; sent = set_host b host q }

      -- Which request is on its way, or has been written since the start.
      abbrev Told : Stage b → List (Written b) → Type 0
      Told absent ws = Unit
      Told waiting ws = Unit
      Told (resolving port q') ws = q' ≡ q
      Told (connecting port q') ws = q' ≡ q
      Told (writing q') ws = q' ≡ set_host b host q
      Told s ws = IsAmong own_written ws

      pub Told-others :
          (s : Stage b) (w : Written b) (ws : List (Written b)) → Told s ws → Told s (w ∷ ws)
      Told-others absent w ws h = tt
      Told-others waiting w ws h = tt
      Told-others (resolving port q') w ws h = h
      Told-others (connecting port q') w ws h = h
      Told-others (writing q') w ws h = h
      Told-others (reading q') w ws h = inr h
      Told-others (done x) w ws h = inr h
      Told-others answered w ws h = inr h

      abbrev Since : Stage b → List (Written b) → Type 0
      Since s ws = (new : List (Written b)) × (ws ≡ new ++ before) × Told s new

      pub Since-begin :
          (port : Bytes) (ws : List (Written b))
          → Since waiting ws
          → Since (begin b port (made b client r)) ws
      Since-begin port ws (new, e, h) = (new, e, rw is_made refl)

      pub Since-advance :
          (s : Stage b) (ws : List (Written b))
          → at_wait b s ≡ true
          → Since s ws
          → Since
              (advance b n host s)
              (log_written b (record { socket = socket; request = r; stage = s }) ws)
      Since-advance absent ws on (new, e, h) = cc
      Since-advance waiting ws on (new, e, h) = cc
      Since-advance (resolving port q') ws on (new, e, h) = (new, e, rw (up.resolves host port) h)
      Since-advance (connecting port q') ws on (new, e, h) =
          (new, e, rw (up.connects host port) (ap (set_host b host) h))
      Since-advance (writing q') ws on (new, e, h) = (
        record { socket = socket; request = r; sent = q' } ∷ new,
        ap (λ x. record { socket = socket; request = r; sent = q' } ∷ x) e,
        rw (up.writes q') (inl (rw h refl)),
      )
      Since-advance (reading q') ws on (new, e, h) = (new, e, rw (up.replies q') h)
      Since-advance (done x) ws on (new, e, h) = cc
      Since-advance answered ws on (new, e, h) = cc

      -- The network works: the request is the one that is made of the message, with the host, and
      -- it has been written behind its wait.
      abbrev pub replied : Plan b n host client socket r result
      replied = record {
        Holds = λ s ws. Ends s × Since s ws;
        others = λ s w ws h. (h.0, (w ∷ h.1.0, ap (λ x. w ∷ x) h.1.1, Told-others s w h.1.0 h.1.2));
        begins = λ port ws h. (Ends-begin port, Since-begin port ws h.1);
        goes_on = λ s ws waits h. (Ends-advance s waits h.0, Since-advance s ws waits h.1);
        ends = λ x ws h. Ends-done x h.0;
        handled = λ x ws h. (tt, h.1);
      }
