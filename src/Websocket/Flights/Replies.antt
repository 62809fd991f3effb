-- ===== src/Websocket/Flights/Replies.antt =====
-- A whole exchange of src/websocket/WebSocketListener.cpp and src/utilis/boostBeastClient.h: from
-- the frames of a request to the frame of its response.
use wsgateway.Prelude.{
  ℕ, ◌≡◌, refl, ◌++◌, ◌≢◌, List, [], some, All, Bytes, lookup, nat_eq, bytes_eq,
}
use wsgateway.Std.Number.{to_string}
use wsgateway.Http.Parser.{Message}
use wsgateway.Http.Response.{Response, build_response}
use wsgateway.Scylla.Driver.{Driver}
use wsgateway.Scylla.Manager.{ScyllaManager}
use wsgateway.Client.Library.{Beast, BeastLaws, Network}
use wsgateway.Client.{HttpRequest, set_host}
use wsgateway.Client.Faithful.{Agrees}
use wsgateway.Client.Marks.{Marked}
use wsgateway.Client.Up.{Says, IsUp, Says-Replied}
use wsgateway.Websocket.Listener.{Listener, Request}
use wsgateway.Websocket.Listener.Messages.{concat}
use wsgateway.Websocket.Gateway.{Gateway, Target}
use wsgateway.Websocket.Gateway.Invariant.{IsValid}
use wsgateway.Websocket.Flights.{Air, Written, at_rest, Reach}
use wsgateway.Websocket.Flights.Plans.{IsAmong, replied}
use wsgateway.Websocket.Flights.Concludes.{Concludes, plan-Concludes}

module _ (b : Beast) (d : Driver) (m : ScyllaManager) (t : Target) (laws : BeastLaws b)
    (n : Network (HttpRequest b)) (reply : HttpRequest b → Response) (up : IsUp b n reply) where
  open d use {State}

  -- The request that is written for a message, which says what the message says, under the client's
  -- name; the frame is the application's reply to it.
  pub record Replies (a : Air b State) (socket : ℕ) (client : Bytes) (fs : List Bytes) (now : ℕ)
      (msg : Message) (verb : b.Verb) : Type 0 where
    pub request : HttpRequest b
    pub agrees : Agrees b msg verb request
    pub marked : Marked b laws client (to_string now) t.http_request_address request.fields
    pub concludes : Concludes b d m t n a socket fs now (build_response (reply request)) (λ ws.
        (new : List (Written b)) × (ws ≡ new ++ a.written)
        × IsAmong
            (record {
              socket = socket;
              request = record { message = concat fs; arrived = to_string now };
              sent = request;
            })
            new)

  -- From every state that is reached from a valid gateway without flights, with a port for the
  -- application: let a live socket whose buffer is empty be sent the text of a request in frames
  -- that are not empty, however the text is cut, on a network that works and with an application
  -- that replies. The first line of the text is three words, it has a header, its headers have
  -- distinct names and fit their lines, its Content-Length is the length of its body, at most the
  -- greatest int, and the library knows its method. Then there is one request that says what the
  -- text says, with its method, version, target and body, under the name of the socket's client,
  -- the time at which the message ended and the application's address. Behind one run that reads
  -- just these frames at the socket, in every run over this network, whatever is interleaved: each
  -- frame that the message's coroutine sends is one text frame for this socket, the application's
  -- reply to that request, printed; and once its handler has run, that request has been written for
  -- this message since the first frame. And there is such a run in which its handler runs and no
  -- other frame goes to any socket.
  pub Reach-Replies :
      t.http_request_port ≢ []
      → (g : Gateway State) {a : Air b State} → IsValid t g
      → Reach b d m t (at_rest b g) a
      → (socket : ℕ) (l : Listener) (fs : List Bytes) (now : ℕ) (msg : Message) (verb : b.Verb)
      → lookup socket a.gateway.listeners ≡ some l
      → l.message_buffer ≡ []
      → All (λ f. f ≢ []) fs
      → Says b (concat fs) msg verb
      → Replies a socket l.client_id fs now msg verb
  Reach-Replies given g {a} valid r socket l fs now msg verb live none_read full says =
      let host = t.http_request_address in
      let v =
        Says-Replied b laws n reply up (concat fs) msg verb host l.client_id (to_string now) says in
      let req = set_host b host v.built in
      let message : Request = record { message = concat fs; arrived = to_string now } in
      let result = build_response (reply req) in
      let plan =
        replied b n host l.client_id socket message result v.result reply up v.built v.is_built
          a.written in
      let c =
        plan-Concludes b d m t n given g a valid r socket l fs now result plan live none_read full
          (tt, ([], refl, tt)) in
      record {
        request = req;
        agrees = v.agrees;
        marked = v.marked;
        concludes = record {
          asked = c.asked;
          reading = c.reading;
          always = c.always;
          wrote = λ e q over there. (c.wrote e q over there).1;
          behind = c.behind;
          steps = c.steps;
          over = c.over;
          landed = c.landed;
          sent = c.sent;
        };
      }
