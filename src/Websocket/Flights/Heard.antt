-- ===== src/Websocket/Flights/Heard.antt =====
-- What a coroutine of src/utilis/boostBeastClient.h has read at each of its waits.
use mathlib.Core.Path.{subst}
use wsgateway.Prelude.{
  All, All-map, at, ℕ, ◌≡◌, ◌≢◌, refl, sym, ap, ◌⊎◌, inl, inr, List, [], ◌∷◌, Option, none, some,
  arith, Bytes, nat_eq, nat-eq, nat_refl, ◌==◌, Bool, true, false, Bool-cases, if◌then◌else◌,
}
use wsgateway.Std.Number.{Result, ok, err}
use wsgateway.Http.Response.{Response, build_response}
use wsgateway.Client.Library.{Beast, Network}
use wsgateway.Client.{HttpRequest, error_text}
use wsgateway.Websocket.Registry.{text}
use wsgateway.Websocket.Listener.{Request, returned, on_complete}
use wsgateway.Websocket.Flights.{
  Air, Flight, Stage, absent, waiting, resolving, connecting, writing, reading, done, answered,
  advance, answer, begin, at_wait, set_stage, launch, log_send, Send,
}
use wsgateway.Websocket.Flights.Once.{is_absent, IsCounted}

module _ (b : Beast) where
  -- What is read at a stage, and with it the responses of a flight.
  abbrev pub heard : Network (HttpRequest b) → Stage b → List Response → List Response
  heard n (reading q) rs = elim (n.read q) [ none ↦ rs | some res ↦ res ∷ rs ]
  heard n s rs = rs

  -- A result is the error text of a flight that has read nothing, or its one response printed.
  abbrev pub Printed : Bytes → List Response → Type 0
  Printed r rs =
      ((r ≡ error_text b) × (rs ≡ []))
      ⊎ ((res : Response) × (r ≡ build_response res) × (rs ≡ res ∷ []))

  -- What a flight has read at a stage.
  abbrev pub HeardAt : Stage b → List Response → Type 0
  HeardAt (done r) rs = Printed r rs
  HeardAt answered rs = Unit
  HeardAt s rs = rs ≡ []

  -- A frame is of a flight whose handler has run, and is its result.
  abbrev pub SendFrom : (ℕ → Flight b) → (ℕ → List Response) → Send b → Type 0
  SendFrom f rs s =
      ((f s.number).stage ≡ answered) × ((r : Bytes) × (s.frame ≡ text r) × Printed r (rs s.number))

  pub record IsHeard {S : Type 0} (a : Air b S) (rs : ℕ → List Response) : Type 0 where
    pub at_stage : (j : ℕ) → HeardAt (a.flight j).stage (rs j)
    pub sent : All (SendFrom a.flight rs) a.sends

  if-HeardAt :
      (c : Bool) (s : Stage b) (rs : List Response)
      → rs ≡ []
      → HeardAt s rs
      → HeardAt (if c then s else done (error_text b)) rs
  if-HeardAt true s rs e h = h
  if-HeardAt false s rs e h = inl (refl, e)

  answer-HeardAt :
      (o : Option Response) (rs : List Response)
      → rs ≡ []
      → HeardAt (answer b o) (elim o [ none ↦ rs | some res ↦ res ∷ rs ])
  answer-HeardAt none rs e = inl (refl, e)
  answer-HeardAt (some res) rs e = inr (res, refl, ap (λ x. res ∷ x) e)

  absent-HeardAt : (s : Stage b) (rs : List Response) → is_absent b s ≡ 1 → HeardAt s rs → rs ≡ []
  absent-HeardAt absent rs e h = h
  absent-HeardAt waiting rs e h = h
  absent-HeardAt (resolving port q) rs e h = h
  absent-HeardAt (connecting port q) rs e h = h
  absent-HeardAt (writing q) rs e h = h
  absent-HeardAt (reading q) rs e h = h
  absent-HeardAt (done r) rs e h = cc
  absent-HeardAt answered rs e h = cc

  pub heard-HeardAt :
      (n : Network (HttpRequest b)) (host : Bytes) (s : Stage b) (rs : List Response)
      → at_wait b s ≡ true
      → HeardAt s rs
      → HeardAt (advance b n host s) (heard n s rs)
  heard-HeardAt n host absent rs waits h = cc
  heard-HeardAt n host waiting rs waits h = cc
  heard-HeardAt n host (resolving port q) rs waits h = if-HeardAt (n.resolve host port) _ rs h h
  heard-HeardAt n host (connecting port q) rs waits h = if-HeardAt (n.connect host port) _ rs h h
  heard-HeardAt n host (writing q) rs waits h = if-HeardAt (n.write q) _ rs h h
  heard-HeardAt n host (reading q) rs waits h = answer-HeardAt (n.read q) rs h
  heard-HeardAt n host (done r) rs waits h = cc
  heard-HeardAt n host answered rs waits h = cc

  pub begin-HeardAt :
      (port : Bytes) (r : Result (HttpRequest b)) (rs : List Response)
      → rs ≡ []
      → HeardAt (begin b port r) rs
  begin-HeardAt port (err e) rs none_yet = inl (refl, none_yet)
  begin-HeardAt port (ok q) rs none_yet = none_yet

  -- Flight i goes to another stage, before its handler has run, and reads.
  pub IsHeard-at :
      {S : Type 0} (a c : Air b S) (rs rs' : ℕ → List Response) (i : ℕ) (x : Flight b)
      → c.flight ≡ at i x a.flight
      → c.sends ≡ a.sends
      → ((j : ℕ) → (i == j) ≡ false → rs' j ≡ rs j)
      → (a.flight i).stage ≢ answered
      → HeardAt x.stage (rs' i)
      → IsHeard a rs
      → IsHeard c rs'
  IsHeard-at a c rs rs' i x same_flight same_sends others running own v = record {
    at_stage = λ j. at_stage' j;
    sent = rw same_sends (All-map keep a.sends v.sent);
  }
    where
      at_stage' : (j : ℕ) → HeardAt (c.flight j).stage (rs' j)
      at_stage' j = elim (Bool-cases (i == j)) [
        | inl hit ↦
            subst (λ k. HeardAt (c.flight k).stage (rs' k)) (nat-eq i j hit)
              (rw (same_flight, nat_refl i) own)
        | inr miss ↦ rw (same_flight, miss, others j miss) (v.at_stage j)
      ]

      apart : (j : ℕ) → (a.flight j).stage ≡ answered → (i == j) ≡ false
      apart j on = elim (Bool-cases (i == j)) [
        | inl hit ↦
            absurd (running (subst (λ k. (a.flight k).stage ≡ answered) (sym (nat-eq i j hit)) on))
        | inr miss ↦ miss
      ]

      keep : (s : Send b) → SendFrom a.flight rs s → SendFrom c.flight rs' s
      keep s (on, (r, frame, printed)) =
          let miss = apart s.number on in
          (rw (same_flight, miss) on, (r, frame, rw (others s.number miss) printed))

  module _ {S : Type 0} (a : Air b S) (rs : ℕ → List Response) (v : IsHeard a rs) where
    pub IsHeard-launch :
        (socket : ℕ) (r : Option Request) → IsCounted b a → IsHeard (launch a socket r) rs
    IsHeard-launch socket none counted = v
    IsHeard-launch socket (some r) counted =
        let n = a.dispatched in
        let new : is_absent b (a.flight n).stage ≡ 1 = counted.unborn n (omega arith) in
        IsHeard-at a _ rs rs n (record { socket = socket; request = r; stage = waiting }) refl refl
          (λ j miss. refl) (λ e. ground (arith, e, new))
          (absent-HeardAt (a.flight n).stage (rs n) new (v.at_stage n)) v

    pub IsHeard-completes :
        (i : ℕ) (result : Bytes)
        → (a.flight i).stage ≡ done result
        → IsHeard
            (record (set_stage a i answered) {
              sends = log_send b i (on_complete (a.flight i).socket (returned result)) a.sends;
            })
            rs
    unfolding on_complete
    IsHeard-completes i result e = by_result result e
      where
        after : IsHeard (set_stage a i answered) rs
        after =
            IsHeard-at a _ rs rs i (record (a.flight i) { stage = answered }) refl refl
              (λ j miss. refl) (λ on. ground (arith, on, e)) tt v

        by_result :
            (r : Bytes)
            → (a.flight i).stage ≡ done r
            → IsHeard
                (record (set_stage a i answered) {
                  sends = log_send b i (on_complete (a.flight i).socket (returned r)) a.sends;
                })
                rs
        by_result [] on = record { at_stage = after.at_stage; sent = after.sent }
        by_result (c ∷ r) on =
            let printed : Printed (c ∷ r) (rs i) = rw on at (v.at_stage i) in
            record {
              at_stage = after.at_stage;
              sent = ((rw (nat_refl i) refl, (c ∷ r, refl, printed)), after.sent);
            }
