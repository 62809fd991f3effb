-- ===== src/Websocket/Flights/Outcome.antt =====
-- What a coroutine of src/utilis/boostBeastClient.h ends with when one network serves all its
-- waits.
use wsgateway.Prelude.{ℕ, ◌≡◌, refl, ap, sym, ◌∙◌, inl, inr, true, some, Bytes, arith}
use wsgateway.Std.Number.{◌>>=◌}
use wsgateway.Http.Parser.{create_request}
use wsgateway.Client.Library.{Beast, Network}
use wsgateway.Client.{HttpRequest, Exchange, async_http_client, build_request, caught, choose_port}
use wsgateway.Websocket.Listener.{Listener}
use wsgateway.Websocket.Flights.{
  Air, Stage, absent, waiting, resolving, connecting, writing, reading, done, answered, advance,
  begin, object, at_wait,
}
use wsgateway.Websocket.Flights.Waits.{IsUnderway}
use wsgateway.Websocket.Flights.Single.{run_waits, caught-run_waits}

module _ (b : Beast) (n : Network (HttpRequest b)) (host : Bytes) where
  -- From its start, a flight ends with what the function in one piece returns for its listener;
  -- from a wait, with what is left of it.
  pub record Outcome {S : Type 0} (a : Air b S) (i : ℕ) (r : Bytes) : Type 0 where
    pub from_start :
        (a.flight i).stage ≡ waiting
        → (l : Listener) × (draw : ℕ) × (port : Bytes) × (x : Exchange b) × (object a
              (a.flight i).socket
            ≡ some l)
          × (async_http_client b n draw
                (a.flight i).request.message
                host
                l.http_server_port
                l.client_id
                (a.flight i).request.arrived
              ≡ some (port, x))
          × (x.result ≡ r)
    pub from_wait : IsUnderway (a.flight i).stage → run_waits b n host (a.flight i).stage ≡ done r

  pub run_waits-advance :
      (s : Stage b) → run_waits b n host (advance b n host s) ≡ run_waits b n host s
  run_waits-advance absent = refl
  run_waits-advance waiting = refl
  run_waits-advance (resolving port q) = ground arith
  run_waits-advance (connecting port q) = ground arith
  run_waits-advance (writing q) = ground arith
  run_waits-advance (reading q) = ground arith
  run_waits-advance (done r) = refl
  run_waits-advance answered = refl

  -- The function in one piece, for a port that was chosen.
  pub async_http_client-begin :
      (draw : ℕ) (msg port client arrived port' r : Bytes)
      → choose_port draw port ≡ some port'
      → run_waits b n host
          (begin b port' (create_request msg >>= λ q. build_request b q client arrived))
        ≡ done r
      → (x : Exchange b) × (async_http_client b n draw msg host port client arrived
          ≡ some (port', x))
        × (x.result ≡ r)
  unfolding async_http_client
  async_http_client-begin draw msg port client arrived port' r chosen ends =
      let x =
        caught b n host port' (create_request msg >>= λ q. build_request b q client arrived) in
      let same : done x.result ≡ done r = sym (caught-run_waits b n host port' _) ∙ ends in
      (x, rw (chosen, async_http_client) refl, ground (arith, same))

  module _ {S : Type 0} (a c : Air b S) (i : ℕ) (r : Bytes) where
    -- Back over one wait.
    pub Outcome-advance :
        (c.flight i).stage ≡ advance b n host (a.flight i).stage
        → at_wait b (a.flight i).stage ≡ true
        → IsUnderway (c.flight i).stage
        → Outcome c i r
        → Outcome a i r
    Outcome-advance there waits on o = record {
      from_start = λ e. absurd (ground (arith, e, waits));
      from_wait = λ x.
          sym (run_waits-advance (a.flight i).stage)
          ∙ ap (run_waits b n host) (sym there)
          ∙ o.from_wait on;
    }

    -- Back over the first part of the coroutine.
    pub Outcome-begin :
        (draw : ℕ) (l : Listener) (port : Bytes)
        → (a.flight i).stage ≡ waiting
        → object a (a.flight i).socket ≡ some l
        → choose_port draw l.http_server_port ≡ some port
        → (c.flight i).stage
          ≡ begin b port (
              create_request (a.flight i).request.message >>= λ q.
              build_request b q l.client_id (a.flight i).request.arrived)
        → IsUnderway (c.flight i).stage
        → Outcome c i r
        → Outcome a i r
    Outcome-begin draw l port at_start held chosen there on o = record {
      from_start = λ e.
          let (x, forwarded, same) =
            async_http_client-begin draw _ l.http_server_port l.client_id _ port r chosen
              (ap (run_waits b n host) (sym there) ∙ o.from_wait on) in
          (l, draw, port, x, held, forwarded, same);
      from_wait = λ x. not_started x;
    }
      where
        not_started : IsUnderway (a.flight i).stage → run_waits b n host (a.flight i).stage ≡ done r
        not_started (inl waits) = absurd (ground (arith, at_start, waits))
        not_started (inr (s, e)) = absurd (ground (arith, at_start, e))
