-- ===== src/Client/Sent.antt =====
-- The request that a call of `asyncHttpClient` in src/utilis/boostBeastClient.h writes.
use wsgateway.Prelude.{ℕ, ◌≡◌, refl, inl, inr, some, Bytes, arith, Option-cases}
use wsgateway.Std.Number.{Result, ok, err, ◌>>=◌}
use wsgateway.Http.Parser.{create_request}
use wsgateway.Client.Library.{Beast, Network}
use wsgateway.Client.{
  HttpRequest, Exchange, build_request, set_host, exchange, async_http_client, caught, choose_port,
}

module _ (b : Beast) (n : Network (HttpRequest b)) where
  exchange_sent :
      (host port : Bytes) (q req : HttpRequest b)
      → (exchange b n host port q).sent ≡ some req
      → req ≡ set_host b host q
  unfolding exchange
  exchange_sent host port q req e = ground arith

  caught_sent :
      (host port : Bytes) (r : Result (HttpRequest b)) (req : HttpRequest b)
      → (caught b n host port r).sent ≡ some req
      → (q : HttpRequest b) × (r ≡ ok q) × (req ≡ set_host b host q)
  caught_sent host port (err x) req e = absurd (cc)
  caught_sent host port (ok q) req e = (q, refl, exchange_sent host port q req e)

  -- It is the request that was built of the message, with the host set.
  pub sent_built :
      (draw : ℕ) (msg host port client arrived port' : Bytes) (x : Exchange b) (req : HttpRequest b)
      → async_http_client b n draw msg host port client arrived ≡ some (port', x)
      → x.sent ≡ some req
      → (q : HttpRequest b) × ((create_request msg >>= λ m. build_request b m client arrived)
          ≡ ok q)
        × (req ≡ set_host b host q)
  unfolding async_http_client
  sent_built draw msg host port client arrived port' x req e s =
      elim (Option-cases (choose_port draw port)) [
        | inl none_chosen ↦ ground (arith, none_chosen)
        | inr (p, chosen) ↦
            caught_sent host p (create_request msg >>= λ m. build_request b m client arrived) req
              (ground (arith, chosen))
      ]
