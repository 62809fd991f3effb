-- ===== src/Websocket/Flights/Single.antt =====
-- `asyncHttpClient` of src/utilis/boostBeastClient.h from wait to wait, against the same function
-- in one piece.
use wsgateway.Prelude.{◌≡◌, refl, Bytes, arith}
use wsgateway.Std.Number.{Result, ok, err}
use wsgateway.Client.Library.{Beast, Network}
use wsgateway.Client.{HttpRequest, caught, exchange}
use wsgateway.Websocket.Flights.{Stage, begin, advance, done}

module _ (b : Beast) (n : Network (HttpRequest b)) where
  -- The four waits, one after another.
  abbrev pub run_waits : Bytes → Stage b → Stage b
  run_waits host s = advance b n host (advance b n host (advance b n host (advance b n host s)))

  exchange-run_waits :
      (host port : Bytes) (q : HttpRequest b)
      → run_waits host (begin b port (ok q)) ≡ done (exchange b n host port q).result
  unfolding exchange
  exchange-run_waits host port q = ground arith

  pub caught-run_waits :
      (host port : Bytes) (r : Result (HttpRequest b))
      → run_waits host (begin b port r) ≡ done (caught b n host port r).result
  caught-run_waits host port (err e) = refl
  caught-run_waits host port (ok q) = exchange-run_waits host port q
