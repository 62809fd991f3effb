-- ===== src/Websocket/Flights/Asked.antt =====
-- A message of a socket of src/websocket/WebSocketListener.cpp: its frames are read, it is
-- dispatched.
use wsgateway.Prelude.{
  ℕ, ◌+◌, ◌≡◌, ◌≢◌, refl, ap, append-nil, append_assoc, sym, ◌∙◌, List, [], ◌∷◌, ◌++◌, Option, none,
  some, All, Bytes, length, lookup, insert, lookup-insert_self, nat_eq, nat_refl, bytes_eq,
}
use wsgateway.Std.Number.{pos, to_string}
use wsgateway.Scylla.Driver.{Driver}
use wsgateway.Scylla.Manager.{ScyllaManager}
use wsgateway.Client.Library.{Beast, Network}
use wsgateway.Client.{HttpRequest}
use wsgateway.Websocket.Listener.{Listener, Request, read_message}
use wsgateway.Websocket.Listener.Messages.{concat, read_frame}
use wsgateway.Websocket.Gateway.{Target, on_read}
use wsgateway.Websocket.Flights.{Air, launch, waiting, reads, Reach, here, next}
use wsgateway.Websocket.Flights.Over.{reach_trans}
use wsgateway.Websocket.Flights.Frames.{Input, frames}
use wsgateway.Websocket.Flights.Over.{IsOver, IsOver-reach_trans, frames-reach_trans, pieces, taken}

module _ (b : Beast) (d : Driver) (m : ScyllaManager) (t : Target) where
  open d use {State}

  abbrev held_at : Air b State → ℕ → Listener → Air b State
  held_at a socket l = record a {
    gateway = record a.gateway { listeners = insert socket l a.gateway.listeners };
  }

  abbrev with_bytes : Listener → Bytes → Listener
  with_bytes l s = record l { message_buffer = s }

  on_read-live :
      (a : Air b State) (socket : ℕ) (l l' : Listener) (n : ℕ) (input : Bytes) (now : ℕ)
      (r : Option Request)
      → lookup socket a.gateway.listeners ≡ some l
      → read_message l (pos n) input now ≡ (l', r)
      → on_read d m a.gateway socket (pos n) input now ≡ some ((held_at a socket l').gateway, r)
  unfolding on_read
  on_read-live a socket l l' n input now r live e = rw (live, e) refl

  -- The frames of a message are read, and nothing else happens.
  record HasRead (a c : Air b State) (socket : ℕ) (l : Listener) (xs ys : List Input) : Type 0 where
    steps : Reach b d m t a c
    over : (n : Network (HttpRequest b)) → IsOver b d m t n steps
    read : frames b d m t steps socket ++ xs ≡ ys
    live : lookup socket c.gateway.listeners ≡ some l
    same_flight : c.flight ≡ a.flight
    same_number : c.dispatched ≡ a.dispatched
    same_sends : c.sends ≡ a.sends
    same_written : c.written ≡ a.written

  read_frames_run :
      (a : Air b State) (socket : ℕ) (l : Listener) (fs : List Bytes) (now : ℕ) (xs : List Input)
      → lookup socket a.gateway.listeners ≡ some l
      → All (λ f. f ≢ []) fs
      → (c : Air b State) × HasRead a c socket
          (with_bytes l (l.message_buffer ++ concat fs))
          xs
          (pieces now fs xs)
  read_frames_run a socket l [] now xs live full = (
    a,
    record {
      steps = here;
      over = λ n. tt;
      read = refl;
      live = live ∙ ap (λ s. some (with_bytes l s)) (sym (append-nil l.message_buffer));
      same_flight = refl;
      same_number = refl;
      same_sends = refl;
      same_written = refl;
    },
  )
  read_frames_run a socket l (f ∷ fs) now xs live full =
      let l' = with_bytes l (l.message_buffer ++ f) in
      let a' = held_at a socket l' in
      let step =
        reads a a'.gateway socket (pos (length f)) f now none
          (on_read-live a socket l l' (length f) f now none live (read_frame l f now full.0)) in
      let x : Input = record { size = pos (length f); bytes = f; now = now } in
      let (c, v) =
        read_frames_run a' socket l' fs now (x ∷ xs)
          (lookup-insert_self socket l' a.gateway.listeners) full.1 in
      let one : frames b d m t (next here step) socket ≡ x ∷ [] = rw (nat_refl socket) refl in
      (
        c,
        record {
          steps = reach_trans b d m t (next here step) v.steps;
          over = λ n. IsOver-reach_trans b d m t n (next here step) v.steps (tt, tt) (v.over n);
          read =
              ap (λ ys. ys ++ xs) (frames-reach_trans b d m t (next here step) v.steps socket)
              ∙ ap (λ ys. (frames b d m t v.steps socket ++ ys) ++ xs) one
              ∙ append_assoc (frames b d m t v.steps socket) (x ∷ []) xs
              ∙ v.read;
          live =
              v.live
              ∙ ap (λ s. some (with_bytes l s)) (append_assoc l.message_buffer f (concat fs));
          same_flight = v.same_flight;
          same_number = v.same_number;
          same_sends = v.same_sends;
          same_written = v.same_written;
        },
      )

  -- A message is read at a socket, in these frames, and dispatched, and nothing else happens.
  pub record HasAsked (a c : Air b State) (socket : ℕ) (fs : List Bytes) (now : ℕ) : Type 0 where
    pub steps : Reach b d m t a c
    pub over : (n : Network (HttpRequest b)) → IsOver b d m t n steps
    pub read : frames b d m t steps socket ≡ taken now fs
    pub flight : c.flight a.dispatched ≡ record {
      socket = socket;
      request = record { message = concat fs; arrived = to_string now };
      stage = waiting;
    }
    pub number : c.dispatched ≡ a.dispatched + 1
    pub same_sends : c.sends ≡ a.sends
    pub same_written : c.written ≡ a.written

  pub read_message_run :
      (a : Air b State) (socket : ℕ) (l : Listener) (fs : List Bytes) (now : ℕ)
      → lookup socket a.gateway.listeners ≡ some l
      → l.message_buffer ≡ []
      → All (λ f. f ≢ []) fs
      → (c : Air b State) × HasAsked a c socket fs now
        × (lookup socket c.gateway.listeners ≡ some l)
  unfolding read_message
  read_message_run a socket l fs now live none_read full =
      let (c, v) = read_frames_run a socket l fs now [] live full in
      let l2 = with_bytes l (l.message_buffer ++ concat fs) in
      let r : Request = record { message = l2.message_buffer; arrived = to_string now } in
      let c' = held_at c socket (with_bytes l []) in
      let step =
        reads c c'.gateway socket (pos 0) [] now (some r)
          (on_read-live c socket l2 (with_bytes l []) 0 [] now (some r) v.live refl) in
      let same_message : l2.message_buffer ≡ concat fs = ap (λ s. s ++ concat fs) none_read in
      let same_read : frames b d m t v.steps socket ≡ pieces now fs [] =
        sym (append-nil (frames b d m t v.steps socket)) ∙ v.read in
      (
        launch (record c { gateway = c'.gateway }) socket (some r),
        record {
          steps = next v.steps step;
          over = λ n. (v.over n, tt);
          read = rw (nat_refl socket, same_read) refl;
          flight = rw (v.same_number, nat_refl a.dispatched, same_message) refl;
          number = ap (λ k. k + 1) v.same_number;
          same_sends = v.same_sends;
          same_written = v.same_written;
        },
        lookup-insert_self socket (with_bytes l []) c.gateway.listeners
            ∙ ap (λ s. some (with_bytes l s)) (sym none_read),
      )
