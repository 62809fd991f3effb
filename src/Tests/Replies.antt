-- ===== src/Tests/Replies.antt =====
-- A request in two frames, with two other messages of its socket in the air.
use wsgateway.Prelude.{
  ◌≡◌, ◌≢◌, refl, false, [], ◌∷◌, All, arith, some, Bytes, List, codes, lookup, insert, take, drop,
  nat_eq,
}
use wsgateway.Http.Parser.RoundTrip.{print}
use wsgateway.Client.Up.{Says, IsUp}
use wsgateway.Websocket.Listener.{Listener, new_listener}
use wsgateway.Websocket.Listener.Messages.{concat}
use wsgateway.Websocket.Flights.Replies.{Replies, Reach-Replies}
use wsgateway.Websocket.Flights.Concludes.{Concludes}
use wsgateway.Websocket.Flights.Refusals.{unresolved, Reach-refuses}
use wsgateway.Client.Library.{Network}
use wsgateway.Client.{HttpRequest}
use wsgateway.Scylla.Table.Memory.{vehicles, memory}
use wsgateway.Tests.Http.{sample, sample-IsRequest}
use wsgateway.Tests.Client.{beast, beast_laws, network, reply, sample_counted}
use wsgateway.Tests.Websocket.{target, one_socket, port_given, first_listener}
use wsgateway.Tests.Flights.{aloft, two_aloft, one_socket-IsValid}

abbrev pub two_frames : List Bytes
two_frames = take 7 (print sample) ∷ drop 7 (print sample) ∷ []

pub network-IsUp : IsUp beast network (λ q. reply)
network-IsUp = record {
  resolves = λ host port. refl;
  connects = λ host port. refl;
  writes = λ q. refl;
  replies = λ q. refl;
}

pub two_frames-Says : Says beast (concat two_frames) sample (codes "POST")
two_frames-Says = record {
  printed = refl;
  is_request = sample-IsRequest;
  counted = sample_counted;
  fits = omega arith;
  known = refl;
}

pub two_frames_full : All (λ f. f ≢ []) two_frames
two_frames_full = ((λ e. cc), ((λ e. cc), tt))

-- The listener of the socket, behind the first coroutine's draw.
abbrev drawn : Listener
drawn = record first_listener { http_server_port = codes "8083" }

drawn_live : lookup 7 aloft.gateway.listeners ≡ some drawn
unfolding lookup insert
drawn_live = refl

drawn_empty : drawn.message_buffer ≡ []
unfolding new_listener
drawn_empty = refl

Reach-Replies_example :
    Replies beast memory vehicles target beast_laws network
      (λ q. reply)
      network-IsUp
      aloft
      7
      drawn.client_id
      two_frames
      9
      sample
      (codes "POST")
Reach-Replies_example =
    Reach-Replies beast memory vehicles target beast_laws network (λ q. reply) network-IsUp
      port_given one_socket one_socket-IsValid two_aloft 7 drawn two_frames 9 sample (codes "POST")
      drawn_live drawn_empty two_frames_full two_frames-Says

-- A network on which no name resolves.
abbrev down : Network (HttpRequest beast)
down = record network { resolve = λ host port. false }

Reach-refuses_example :
    Concludes beast memory vehicles target down aloft 7 two_frames 9 (codes "error") (λ ws. Unit)
Reach-refuses_example =
    Reach-refuses beast memory vehicles target port_given one_socket one_socket-IsValid two_aloft
      down 7 drawn two_frames 9 drawn_live drawn_empty two_frames_full (unresolved (λ port. refl))
