-- ===== src/Websocket/Flights/Responses.antt =====
-- Which response a frame is made of that the handler in `readMessage` of
-- src/websocket/WebSocketListener.cpp sends.
use wsgateway.Prelude.{ℕ, ◌≢◌, refl, List, [], arith, nat_eq, nat_refl, ◌==◌, if◌then◌else◌}
use wsgateway.Http.Response.{Response}
use wsgateway.Scylla.Driver.{Driver}
use wsgateway.Scylla.Manager.{ScyllaManager}
use wsgateway.Client.Library.{Beast}
use wsgateway.Websocket.Gateway.{Gateway, Target}
use wsgateway.Websocket.Gateway.Invariant.{IsValid}
use wsgateway.Websocket.Flights.{
  Air, advance, at_rest, Step, creates, closes, reads, destroys, starts, starts_closed, advances,
  completes, Reach, here, next,
}
use wsgateway.Websocket.Flights.Once.{IsCounted, Reach-IsCounted}
use wsgateway.Websocket.Flights.Heard.{
  heard, IsHeard, heard-HeardAt, begin-HeardAt, IsHeard-at, IsHeard-launch, IsHeard-completes,
}

module _ (b : Beast) (d : Driver) (m : ScyllaManager) (t : Target) where
  open d use {State}

  -- The responses that the network gave to a flight in a run, the latest first.
  abbrev pub hear : {a c : Air b State} → Step b d m t a c → ℕ → List Response → List Response
  hear (advances a i n l waits held) j rs = if i == j then heard b n (a.flight i).stage rs else rs
  hear s j rs = rs

  abbrev pub responses : {a c : Air b State} → Reach b d m t a c → ℕ → List Response
  responses here j = []
  responses (next r s) j = hear s j (responses r j)

  Step-IsHeard :
      {a c : Air b State} (s : Step b d m t a c) (rs : ℕ → List Response)
      → IsCounted b a
      → IsHeard b a rs
      → IsHeard b c (λ j. hear s j (rs j))
  Step-IsHeard (creates a g socket params peer dropped new new' e) rs k v = record {
    at_stage = v.at_stage;
    sent = v.sent;
  }
  Step-IsHeard (closes a g socket e) rs k v = record { at_stage = v.at_stage; sent = v.sent }
  Step-IsHeard (reads a g socket size input now r e) rs k v =
      IsHeard-launch b (record a { gateway = g }) rs
        (record { at_stage = v.at_stage; sent = v.sent }) socket r
        (record { born = k.born; unborn = k.unborn; once = k.once; sockets = k.sockets })
  Step-IsHeard (destroys a socket l held) rs k v = record { at_stage = v.at_stage; sent = v.sent }
  Step-IsHeard (starts a i draw l port at_start held chosen) rs k v =
      IsHeard-at b a _ rs rs i _ refl refl (λ j miss. refl) (λ e. ground (arith, e, at_start))
        (begin-HeardAt b port _ (rs i) (rw at_start at (v.at_stage i))) v
  Step-IsHeard (starts_closed a i draw l port at_start gone held chosen) rs k v =
      IsHeard-at b a _ rs rs i _ refl refl (λ j miss. refl) (λ e. ground (arith, e, at_start))
        (begin-HeardAt b port _ (rs i) (rw at_start at (v.at_stage i))) v
  Step-IsHeard (advances a i n l waits held) rs k v =
      let s = (a.flight i).stage in
      IsHeard-at b a _ rs (λ j. if i == j then heard b n s (rs j) else rs j) i
        (record (a.flight i) { stage = advance b n l.http_server_address s }) refl refl
        (λ j miss. rw miss refl) (λ e. ground (arith, e, waits))
        (rw (nat_refl i) (heard-HeardAt b n l.http_server_address s (rs i) waits (v.at_stage i))) v
  Step-IsHeard (completes a i result e) rs k v = IsHeard-completes b a rs v i result e

  -- From a valid gateway without flights, with a port for the application, however callbacks and
  -- coroutines are interleaved: every frame that was sent is of a flight whose handler has run, and
  -- its text is the error text of a flight for which no response was read, or the one response that
  -- the network gave to this flight, printed. No response goes out for another flight.
  pub Reach-IsHeard :
      t.http_request_port ≢ []
      → (g : Gateway State) {a : Air b State} → IsValid t g
      → (r : Reach b d m t (at_rest b g) a) → IsHeard b a (responses r)
  Reach-IsHeard given g valid here = record { at_stage = λ j. refl; sent = tt }
  Reach-IsHeard given g valid (next r s) =
      Step-IsHeard s (responses r) (Reach-IsCounted b d m t given g valid r)
        (Reach-IsHeard given g valid r)
