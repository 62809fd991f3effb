-- ===== src/Websocket/Flights/Refusals.antt =====
-- What a socket of src/websocket/WebSocketListener.cpp gets where a message cannot be forwarded.
use wsgateway.Prelude.{
  ℕ, ◌≡◌, ◌≢◌, refl, false, List, [], none, some, arith, All, Bytes, codes, lookup, nat_eq,
}
use wsgateway.Std.Number.{Exception, err, to_string, ok, Result}
use wsgateway.Scylla.Driver.{Driver}
use wsgateway.Scylla.Manager.{ScyllaManager}
use wsgateway.Client.Library.{Beast, Network}
use wsgateway.Client.{HttpRequest, set_host, exchange, caught, error_text}
use wsgateway.Websocket.Listener.{Listener, Request}
use wsgateway.Websocket.Listener.Messages.{concat}
use wsgateway.Websocket.Gateway.{Gateway, Target}
use wsgateway.Websocket.Gateway.Invariant.{IsValid}
use wsgateway.Websocket.Flights.{Air, at_rest, Reach}
use wsgateway.Websocket.Flights.Named.{made}
use wsgateway.Websocket.Flights.Plans.{ends_with}
use wsgateway.Websocket.Flights.Concludes.{Concludes, plan-Concludes}

module _ (b : Beast) where
  -- A message that cannot be read as a request or has an unknown method, and a network that fails
  -- at one of the four waits.
  pub data Fails (n : Network (HttpRequest b)) (host client : Bytes) (r : Request) : Type 0 where
    unread : (x : Exception) → made b client r ≡ err x → Fails n host client r
    unresolved : ((port : Bytes) → n.resolve host port ≡ false) → Fails n host client r
    unconnected : ((port : Bytes) → n.connect host port ≡ false) → Fails n host client r
    unwritten : ((q : HttpRequest b) → n.write q ≡ false) → Fails n host client r
    unanswered : ((q : HttpRequest b) → n.read q ≡ none) → Fails n host client r

  module _ (n : Network (HttpRequest b)) (host client : Bytes) (r : Request) where
    exchange-Fails :
        (port : Bytes) (q : HttpRequest b)
        → Fails n host client r
        → made b client r ≡ ok q
        → (exchange b n host port q).result ≡ error_text b
    unfolding exchange
    exchange-Fails port q (unread x e) read = absurd (cc)
    exchange-Fails port q (unresolved h) read = rw (h port) refl
    exchange-Fails port q (unconnected h) read = ground (arith, h port)
    exchange-Fails port q (unwritten h) read = ground (arith, h (set_host b host q))
    exchange-Fails port q (unanswered h) read = ground (arith, h (set_host b host q))

    pub caught-Fails :
        (port : Bytes)
        → Fails n host client r
        → (caught b n host port (made b client r)).result ≡ error_text b
    caught-Fails port f = by_result (made b client r) refl
      where
        by_result :
            (x : Result (HttpRequest b))
            → made b client r ≡ x
            → (caught b n host port x).result ≡ error_text b
        by_result (err x) e = refl
        by_result (ok q) e = exchange-Fails port q f e

module _ (b : Beast) (d : Driver) (m : ScyllaManager) (t : Target) where
  open d use {State}

  -- From every state that is reached from a valid gateway without flights, with a port for the
  -- application: let a live socket whose buffer is empty be sent a message in frames that are not
  -- empty, where the message cannot be read as a request, or has a method that the library does not
  -- know, or the network fails to resolve the application's address, to connect, to write or to
  -- read. Behind one run that reads just these frames at the socket, in every run over this
  -- network, whatever is interleaved: each frame that the message's coroutine sends is the text
  -- "error" as one frame for this socket. And there is such a run in which its handler runs, so
  -- that this frame is sent, and no other frame goes to any socket.
  pub Reach-refuses :
      t.http_request_port ≢ []
      → (g : Gateway State) {a : Air b State} → IsValid t g
      → Reach b d m t (at_rest b g) a
      → (n : Network (HttpRequest b)) (socket : ℕ) (l : Listener) (fs : List Bytes) (now : ℕ)
      → lookup socket a.gateway.listeners ≡ some l
      → l.message_buffer ≡ []
      → All (λ f. f ≢ []) fs
      → Fails b n t.http_request_address l.client_id
          (record { message = concat fs; arrived = to_string now })
      → Concludes b d m t n a socket fs now (codes "error") (λ ws. Unit)
  Reach-refuses given g {a} valid r n socket l fs now live none_read full f =
      let host = t.http_request_address in
      let message : Request = record { message = concat fs; arrived = to_string now } in
      let plan =
        ends_with b n host l.client_id socket message (codes "error")
          (λ port. caught-Fails b n host l.client_id message port f) in
      plan-Concludes b d m t n given g a valid r socket l fs now (codes "error") plan live none_read
        full tt
