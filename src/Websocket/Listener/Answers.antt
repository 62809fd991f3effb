-- ===== src/Websocket/Listener/Answers.antt =====
-- The answer that a connection gets to each of its messages.
use wsgateway.Prelude.{ℕ, ◌≡◌, ◌≢◌, refl, Bytes, [], ◌∷◌, some}
use wsgateway.Client.Library.{Beast, Network}
use wsgateway.Client.{HttpRequest, Exchange, async_http_client}
use wsgateway.Client.Forward.{async_http_client_result}
use wsgateway.Websocket.Registry.{text}
use wsgateway.Websocket.Listener.{returned, on_complete, Listener, Request}

pub sends_all :
    (socket : ℕ) (s : Bytes) → s ≢ [] → on_complete socket (returned s) ≡ some (socket, text s)
unfolding on_complete
sends_all socket [] h = absurd (h refl)
sends_all socket (c ∷ s) h = refl

module _ (b : Beast) (n : Network (HttpRequest b)) where
  -- Whatever a dispatched message is and whatever the network does, the call that forwards it for a
  -- listener with a port returns, and the handler sends its result, whole, as one text frame to the
  -- socket that the message came from.
  pub answers_once :
      (l : Listener) (r : Request) (draw socket : ℕ)
      → l.http_server_port ≢ []
      → (port : Bytes) × (x : Exchange b) × (async_http_client b n draw r.message
            l.http_server_address l.http_server_port l.client_id r.arrived
          ≡ some (port, x))
        × (on_complete socket (returned x.result) ≡ some (socket, text x.result))
  answers_once l r draw socket h =
      let (port, x, ran, cases, whole) =
        async_http_client_result b n draw r.message l.http_server_address l.http_server_port
          l.client_id r.arrived h in
      (port, x, ran, sends_all socket x.result whole)
