-- ===== src/Tests/Flights.antt =====
-- Two messages of one socket in the air, with the coroutine of the first behind its request.
use wsgateway.Prelude.{
  ℕ, ◌<◌, arith, ◌≡◌, refl, [], ◌∷◌, none, some, codes, lookup, insert, bytes_eq, nat_eq,
}
use wsgateway.Std.Number.{pos, to_string, stoi}
use wsgateway.Http.Parser.{create_request, read_headers, read_header, try_emplace, body_of}
use wsgateway.Std.Stream.{read_word, getline, read_into}
use wsgateway.Client.{build_request, choose_port, HttpRequest, set_host, set_headers}
use wsgateway.Scylla.Table.Memory.{vehicles, memory, Rows}
use wsgateway.Websocket.Listener.{Listener, Request, new_listener, read_message}
use wsgateway.Websocket.Gateway.{Gateway, on_read, port_left}
use wsgateway.Websocket.Gateway.Invariant.{IsValid, Reach-IsValid}
use wsgateway.Websocket.Flights.{
  Air, at_rest, resolving, connecting, writing, reading, launch, set_stage, Stage, Send, Step,
  reads, starts, advances, Reach, here, next,
}
use wsgateway.Websocket.Flights.Delivery.{IsTracked, Reach-IsTracked}
use wsgateway.Websocket.Flights.Once.{IsCounted, Reach-IsCounted}
use wsgateway.Websocket.Flights.Landing.{Lands, Reach-Lands}
use wsgateway.Websocket.Flights.Frames.{holds, frames, gather, Reach-gather}
use wsgateway.Websocket.Flights.Buffers.{buffer_of}
use wsgateway.Websocket.Flights.Heard.{IsHeard}
use wsgateway.Websocket.Flights.Responses.{responses, Reach-IsHeard}
use wsgateway.Websocket.Flights.{done, answered, completes, log_send}
use wsgateway.Websocket.Listener.{on_complete, returned}
use wsgateway.Http.Response.{build_response, version_text, write_fields}
use wsgateway.Tests.Client.{reply}
use wsgateway.Websocket.Registry.{text}
use wsgateway.Websocket.Flights.Once.{count}
use wsgateway.Websocket.Flights.Outbox.{
  Outbox, no_frames, Works, idle, then_work, flies, sends, IsLossless, Works-Answers,
}
use wsgateway.Websocket.Flights.Reorder.{Reach-any_order}
use wsgateway.Tests.Client.{beast, beast_laws, network, forged, forged_message, forged_parsed}
use wsgateway.Websocket.Flights.Forwarded.{Forwards, Reach-Forwards}
use wsgateway.Client.Passed.{passed}
use wsgateway.Tests.Websocket.{
  target, one_socket, no_sockets-IsValid, first_opened, port_given, first_listener,
}

pub one_socket-IsValid : IsValid target one_socket
one_socket-IsValid = Reach-IsValid memory vehicles target port_given first_opened no_sockets-IsValid

-- The first message is read in one frame, and the second one is empty.
abbrev framed : Listener
framed = record first_listener { message_buffer = forged }

abbrev g1 : Gateway Rows
g1 = record one_socket { listeners = (7, framed) ∷ [] }

abbrev g2 : Gateway Rows
g2 = record one_socket { listeners = (7, first_listener) ∷ [] }

abbrev a1 : Air beast Rows
a1 = record (at_rest beast one_socket) { gateway = g1 }

abbrev first : Request
first = record { message = forged; arrived = codes "5" }

abbrev second : Request
second = record { message = []; arrived = codes "6" }

abbrev a2 : Air beast Rows
a2 = launch (record a1 { gateway = g2 }) 7 (some first)

abbrev a3 : Air beast Rows
a3 = launch (record a2 { gateway = g2 }) 7 (some second)

two_dispatched : Reach beast memory vehicles target (at_rest beast one_socket) a3
unfolding on_read lookup insert read_message to_string new_listener
two_dispatched =
    next
      (next (next here (reads _ g1 7 (pos 37) forged 0 none refl))
        (reads _ g2 7 (pos 0) [] 5 (some first) refl))
      (reads _ g2 7 (pos 0) [] 6 (some second) refl)

-- The request of the first message, without its host.
abbrev request : HttpRequest beast
request = record {
  method = codes "GET";
  version = 11;
  target = codes "/";
  fields = (codes "x-client-id", codes "car1") ∷ (codes "x-arrived-time", codes "5") ∷ [];
  body = [];
}

abbrev hosted : HttpRequest beast
hosted = set_host beast (codes "127.0.0.1") request

abbrev first_at : Stage beast → Air beast Rows
first_at s =
    set_stage
      (record a3 { gateway = port_left memory vehicles a3.gateway 7 first_listener (codes "8083") })
      0 s

first_begun : Step beast memory vehicles target a3 (first_at (resolving (codes "8083") request))
unfolding lookup insert new_listener create_request read_word getline read_headers read_header
    try_emplace body_of read_into stoi build_request set_headers choose_port
first_begun = starts a3 0 1 first_listener (codes "8083") refl refl refl

-- The last state: the first request has been written.
abbrev pub aloft : Air beast Rows
aloft =
    let c =
      set_stage (first_at (resolving (codes "8083") request)) 0
        (connecting (codes "8083") request) in
    record (set_stage (set_stage c 0 (writing hosted)) 0 (reading hosted)) {
      written = record { socket = 7; request = first; sent = hosted } ∷ [];
    }

pub two_aloft : Reach beast memory vehicles target (at_rest beast one_socket) aloft
unfolding lookup insert new_listener
two_aloft =
    next
      (next (next (next two_dispatched first_begun) (advances _ 0 network _ refl refl))
        (advances _ 0 network _ refl refl))
      (advances _ 0 network _ refl refl)

Reach-IsTracked_example :
    IsValid target aloft.gateway × IsTracked beast memory vehicles target aloft
Reach-IsTracked_example =
    Reach-IsTracked beast memory vehicles target port_given one_socket one_socket-IsValid two_aloft

Reach-Forwards_example :
    Forwards beast beast_laws memory vehicles target aloft
      (record { socket = 7; request = first; sent = hosted })
      forged_message
      (codes "GET")
    × (lookup (codes "accept") hosted.fields
        ≡ passed beast (codes "Accept") ((codes "X-Client-ID", codes "car2") ∷ []))
Reach-Forwards_example =
    Reach-Forwards beast beast_laws memory vehicles target port_given one_socket one_socket-IsValid
      two_aloft [] [] (record { socket = 7; request = first; sent = hosted }) forged_message
      (codes "GET") (codes "Accept") refl forged_parsed refl refl

Reach-IsCounted_example : IsCounted beast aloft
Reach-IsCounted_example =
    Reach-IsCounted beast memory vehicles target port_given one_socket one_socket-IsValid two_aloft

Reach-Lands_example : (e : Air beast Rows) × Lands beast memory vehicles target network 0 aloft e
Reach-Lands_example =
    Reach-Lands beast memory vehicles target port_given one_socket one_socket-IsValid two_aloft
      network 0 (omega arith) refl

-- The second message's frame before the first one's.
Reach-any_order_example :
    (e : Air beast Rows) × Reach beast memory vehicles target aloft e
    × ((x : Send beast) × (y : Send beast) × (x.number ≡ 1)
        × (y.number ≡ 0)
        × (e.sends ≡ y ∷ x ∷ []))
Reach-any_order_example =
    Reach-any_order beast memory vehicles target port_given one_socket one_socket-IsValid two_aloft
      1 0 refl (omega arith) (omega arith) refl refl network

Reach-gather_example :
    holds beast memory vehicles target aloft 7
    ≡ gather
        (frames beast memory vehicles target two_aloft 7)
        (buffer_of one_socket.listeners [] 7, [])
Reach-gather_example = Reach-gather beast memory vehicles target one_socket two_aloft 7

-- The first message is answered.
abbrev landed : Air beast Rows
landed = record (set_stage (set_stage aloft 0 (done (build_response reply))) 0 answered) {
  sends = log_send beast 0 (on_complete 7 (returned (build_response reply))) [];
}

one_landed : Reach beast memory vehicles target (at_rest beast one_socket) landed
unfolding lookup insert new_listener
one_landed =
    next (next two_aloft (advances _ 0 network _ refl refl))
      (completes _ 0 (build_response reply) refl)

Reach-IsHeard_example : IsHeard beast landed (responses beast memory vehicles target one_landed)
Reach-IsHeard_example =
    Reach-IsHeard beast memory vehicles target port_given one_socket one_socket-IsValid one_landed

-- The frame of the first message waits in the executor, and goes out.
abbrev first_frame : Send beast
first_frame = record { number = 0; socket = 7; frame = text (build_response reply) }

abbrev waiting_frame : Outbox beast Rows
waiting_frame = record { air = landed; queued = first_frame ∷ []; out = [] }

abbrev after_landing : Outbox beast Rows
after_landing = record { air = landed; queued = []; out = first_frame ∷ [] }

abbrev none_waiting : Air beast Rows → Outbox beast Rows
none_waiting a = record { air = a; queued = []; out = [] }

dispatched-Works :
    Works beast memory vehicles target (no_frames (at_rest beast one_socket)) (none_waiting a3)
unfolding on_read lookup insert read_message to_string new_listener
dispatched-Works =
    then_work
      (then_work
        (then_work idle (
          flies (none_waiting (at_rest beast one_socket))
            (reads _ g1 7 (pos 37) forged 0 none refl)))
        (flies (none_waiting a1) (reads _ g2 7 (pos 0) [] 5 (some first) refl)))
      (flies (none_waiting a2) (reads _ g2 7 (pos 0) [] 6 (some second) refl))

aloft-Works :
    Works beast memory vehicles target (no_frames (at_rest beast one_socket)) (none_waiting aloft)
unfolding lookup insert new_listener first_begun
aloft-Works =
    let r4 = then_work dispatched-Works (flies (none_waiting a3) first_begun) in
    let r5 = then_work r4 (
      flies (none_waiting (first_at (resolving (codes "8083") request)))
        (advances _ 0 network _ refl refl)) in
    let r6 = then_work r5 (
      flies
        (none_waiting (
          set_stage (first_at (resolving (codes "8083") request)) 0
            (connecting (codes "8083") request)))
        (advances _ 0 network _ refl refl)) in
    then_work r6 (flies _ (advances _ 0 network _ refl refl))

waiting-Works :
    Works beast memory vehicles target (no_frames (at_rest beast one_socket)) waiting_frame
unfolding lookup insert new_listener on_complete build_response version_text write_fields
waiting-Works = then_work (then_work aloft-Works (flies _ (advances aloft 0 network _ refl refl))) (
    flies (none_waiting (set_stage aloft 0 (done (build_response reply))))
      (completes _ 0 (build_response reply) refl))

landed-Works :
    Works beast memory vehicles target (no_frames (at_rest beast one_socket)) after_landing
landed-Works = then_work waiting-Works (sends waiting_frame [] [] first_frame refl)

Works-Answers_example :
    IsLossless beast memory vehicles target after_landing
    × ((p : Outbox beast Rows) × Works beast memory vehicles target after_landing p
        × (p.queued ≡ [])
        × ((i : ℕ) → i < 2 → count beast i p.out ≡ 1))
Works-Answers_example =
    Works-Answers beast memory vehicles target port_given one_socket one_socket-IsValid network
      landed-Works
