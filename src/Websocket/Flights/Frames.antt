-- ===== src/Websocket/Flights/Frames.antt =====
-- The messages of each socket of src/websocket/WebSocketListener.cpp are made of its own frames.
use mathlib.Core.Path.{subst}
use wsgateway.Prelude.{
  at, ℕ, suc, ◌+◌, ◌≡◌, refl, ap, ◌∙◌, inl, inr, List, [], ◌∷◌, ◌++◌, take, Option, none, some,
  arith, Bytes, lookup, insert, nat_eq, nat-eq, ◌==◌, Bool, true, false, Bool-cases, if◌then◌else◌,
}
use wsgateway.Std.Number.{ℤ, pos, negsuc, to_string}
use wsgateway.Scylla.Driver.{Driver}
use wsgateway.Scylla.Manager.{ScyllaManager}
use wsgateway.Client.Library.{Beast}
use wsgateway.Websocket.Listener.{Listener, Request, new_listener, on_close, read_message}
use wsgateway.Websocket.Gateway.{Gateway, Target, on_close_frame, on_read, closed_at, read_at}
use wsgateway.Websocket.Gateway.Invariant.{mapped, created}
use wsgateway.Websocket.Flights.{
  Air, Flight, at_rest, launch, waiting, Step, creates, closes, reads, destroys, starts,
  starts_closed, advances, completes, Reach, here, next,
}
use wsgateway.Websocket.Flights.Buffers.{
  buffer_of, buffer_of-new, buffer_of-read, buffer_of-live, buffer_of-closed, buffer_of-buried,
  requests, requests-above, requests-set_stage,
}

-- What the framework hands to `readMessage`, and when.
pub record Input : Type 0 where
  pub size : ℤ
  pub bytes : Bytes
  pub now : ℕ

-- What frames make of the bytes and the messages so far: a frame of size 0 ends a message.
abbrev pub gather_one : ℤ → Bytes → ℕ → Bytes × List Request → Bytes × List Request
gather_one (pos n) bytes now (buffer, asked) =
    if n == 0
    then ([], record { message = buffer; arrived = to_string now } ∷ asked)
    else (buffer ++ take n bytes, asked)
gather_one (negsuc n) bytes now p = p

abbrev pub gather : List Input → Bytes × List Request → Bytes × List Request
gather [] p = p
gather (x ∷ xs) p = gather_one x.size x.bytes x.now (gather xs p)

pair_if :
    {A B : Type 0} (c : Bool) {x : A} (x1 x2 : A) {y : B} (y1 y2 : B)
    → x ≡ (if c then x1 else x2)
    → y ≡ (if c then y1 else y2)
    → ◌≡◌ {A = A × B} (x, y) (if c then (x1, y1) else (x2, y2))
pair_if true x1 x2 y1 y2 e h = rw (e, h) refl
pair_if false x1 x2 y1 y2 e h = rw (e, h) refl

module _ (b : Beast) (d : Driver) (m : ScyllaManager) (t : Target) where
  open d use {State}

  -- The frames of a run at one socket, the latest first.
  abbrev pub add_frame : {a c : Air b State} → Step b d m t a c → ℕ → List Input → List Input
  add_frame (reads a g socket size input now r e) k xs =
      if socket == k then record { size = size; bytes = input; now = now } ∷ xs else xs
  add_frame s k xs = xs

  abbrev pub frames : {a c : Air b State} → Reach b d m t a c → ℕ → List Input
  frames here k = []
  frames (next r s) k = add_frame s k (frames r k)

  -- What a socket has: the bytes in its listener's buffer, and the messages dispatched for it.
  abbrev pub holds : Air b State → ℕ → Bytes × List Request
  holds a k = (buffer_of a.gateway.listeners a.closed k, requests a.flight a.dispatched k)

  holds-launch :
      (a : Air b State) (socket k : ℕ) (r : Request)
      → requests (launch a socket (some r)).flight (launch a socket (some r)).dispatched k ≡ (
          if socket == k
          then r ∷ requests a.flight a.dispatched k
          else requests a.flight a.dispatched k)
  holds-launch a socket k r =
      let n = a.dispatched in
      let x : Flight b = record { socket = socket; request = r; stage = waiting } in
      let above : requests (at n x a.flight) n k ≡ requests a.flight n k =
        requests-above a.flight x n n k (omega arith) in
      let one_more : n + 1 ≡ suc n = omega arith in
      ap (λ j. requests (at n x a.flight) j k) one_more ∙ ground (arith, above)

  abbrev asks : Option Request → List Request → List Request
  asks none rs = rs
  asks (some r) rs = r ∷ rs

  -- One read is one frame more.
  read-gather :
      (l : Listener) (size : ℤ) (input : Bytes) (now : ℕ) (rs : List Request)
      → (
        (read_message l size input now).0.message_buffer,
        asks (read_message l size input now).1 rs,
      )
        ≡ gather_one size input now (l.message_buffer, rs)
  unfolding read_message
  read-gather l (pos n) input now rs = ground arith
  read-gather l (negsuc n) input now rs = refl

  requests-launch :
      (a : Air b State) (socket k : ℕ) (r : Option Request)
      → requests (launch a socket r).flight (launch a socket r).dispatched k ≡ (
          if socket == k
          then asks r (requests a.flight a.dispatched k)
          else requests a.flight a.dispatched k)
  requests-launch a socket k none = elim (Bool-cases (socket == k)) [
    | inl hit ↦ rw hit refl
    | inr miss ↦ rw miss refl
  ]
  requests-launch a socket k (some r) = holds-launch a socket k r

  holds-at :
      (a : Air b State) (socket k : ℕ) (l : Listener) (r : Option Request)
      → holds
          (launch
            (record a {
              gateway = record a.gateway { listeners = insert socket l a.gateway.listeners };
            })
            socket
            r)
          k
        ≡ (if socket == k
            then (l.message_buffer, asks r (requests a.flight a.dispatched k))
            else holds a k)
  holds-at a socket k l none =
      pair_if (socket == k) _ _ _ _ (buffer_of-read a.gateway.listeners a.closed socket k l)
        (requests-launch a socket k none)
  holds-at a socket k l (some r) =
      pair_if (socket == k) _ _ _ _ (buffer_of-read a.gateway.listeners a.closed socket k l)
        (requests-launch a socket k (some r))

  holds-read :
      (a : Air b State) (socket k : ℕ) (size : ℤ) (input : Bytes) (now : ℕ) (l : Listener)
      → lookup socket a.gateway.listeners ≡ some l
      → let x = read_at d m a.gateway socket size input now l in
        holds (launch (record a { gateway = x.0 }) socket x.1) k
        ≡ (if socket == k then gather_one size input now (holds a k) else holds a k)
  holds-read a socket k size input now l held =
      let r = read_message l size input now in
      holds-at a socket k r.0 r.1 ∙ elim (Bool-cases (socket == k)) [
        | inl hit ↦
            let own : buffer_of a.gateway.listeners a.closed k ≡ l.message_buffer =
              ground (arith, nat-eq socket k) in
            rw (hit, own) (read-gather l size input now (requests a.flight a.dispatched k))
        | inr miss ↦ rw miss refl
      ]

  Step-holds :
      {a c : Air b State} (s : Step b d m t a c) (k : ℕ) (xs : List Input)
      (p : Bytes × List Request)
      → holds a k ≡ gather xs p
      → holds c k ≡ gather (add_frame s k xs) p
  unfolding on_close_frame on_close new_listener on_read
  Step-holds (creates a g socket params peer dropped new new' e) k xs p h =
      let (client, done) = created d m t a.gateway g socket params peer dropped e in
      subst (λ x. holds (record a { gateway = x }) k ≡ gather xs p) done
        (ap (λ s. (s, requests a.flight a.dispatched k))
            (buffer_of-new a.gateway.listeners a.closed socket k
              (new_listener client t.http_request_address t.http_request_port) new new' refl)
          ∙ h)
  Step-holds (closes a g socket e) k xs p h =
      let (l, held, done) =
        mapped (closed_at d m a.gateway socket) (lookup socket a.gateway.listeners) e in
      subst (λ x. holds (record a { gateway = x }) k ≡ gather xs p) done
        (ap (λ s. (s, requests a.flight a.dispatched k))
            (buffer_of-live a.gateway.listeners a.closed socket k l _ held refl)
          ∙ h)
  Step-holds (reads a g socket size input now r e) k xs p h =
      let (l, held, done) =
        mapped (read_at d m a.gateway socket size input now) (lookup socket a.gateway.listeners)
          e in
      subst
        (λ x.
          holds (launch (record a { gateway = x.0 }) socket x.1) k
          ≡ gather (add_frame (reads a g socket size input now r e) k xs) p)
        done
        (holds-read a socket k size input now l held ∙ elim (Bool-cases (socket == k)) [
          | inl hit ↦ rw hit (ap (gather_one size input now) h)
          | inr miss ↦ rw miss h
        ])
  Step-holds (destroys a socket l held) k xs p h =
      ap (λ s. (s, requests a.flight a.dispatched k))
        (buffer_of-buried a.gateway.listeners a.closed socket k l _ held refl)
      ∙ h
  Step-holds (starts a i draw l port at_start held chosen) k xs p h =
      let socket = (a.flight i).socket in
      ap
        (λ rs. (
          buffer_of (insert socket (record l { http_server_port = port }) a.gateway.listeners)
              a.closed k,
          rs,
        ))
        (requests-set_stage a i _ a.dispatched k)
      ∙ ap (λ s. (s, requests a.flight a.dispatched k))
          (buffer_of-live a.gateway.listeners a.closed socket k l _ held refl)
      ∙ h
  Step-holds (starts_closed a i draw l port at_start gone held chosen) k xs p h =
      let socket = (a.flight i).socket in
      ap
        (λ rs. (
          buffer_of a.gateway.listeners
              (insert socket (record l { http_server_port = port }) a.closed) k,
          rs,
        ))
        (requests-set_stage a i _ a.dispatched k)
      ∙ ap (λ s. (s, requests a.flight a.dispatched k))
          (buffer_of-closed a.gateway.listeners a.closed socket k l _ gone held refl)
      ∙ h
  Step-holds (advances a i n l waits held) k xs p h =
      ap (λ rs. (buffer_of a.gateway.listeners a.closed k, rs))
        (requests-set_stage a i _ a.dispatched k)
      ∙ h
  Step-holds (completes a i result e) k xs p h =
      ap (λ rs. (buffer_of a.gateway.listeners a.closed k, rs))
        (requests-set_stage a i _ a.dispatched k)
      ∙ h

  -- However the callbacks and the coroutines of all sockets are interleaved, from a gateway without
  -- flights: the bytes in the buffer of a socket's listener, and the messages that were dispatched
  -- for the socket in their order, are what the socket's own frames make of what its buffer held at
  -- first. No other socket's frame, no close, no end of a socket and no coroutine has a part in it.
  pub Reach-gather :
      (g : Gateway State) {a : Air b State} (r : Reach b d m t (at_rest b g) a) (k : ℕ)
      → holds a k ≡ gather (frames r k) (buffer_of g.listeners [] k, [])
  Reach-gather g here k = refl
  Reach-gather g (next r s) k =
      Step-holds s k (frames r k) (buffer_of g.listeners [] k, []) (Reach-gather g r k)
