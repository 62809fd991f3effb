-- ===== src/Websocket/Flights/Waits.antt =====
-- The waits of a coroutine of src/utilis/boostBeastClient.h, each with the next one.
use wsgateway.Prelude.{
  ℕ, suc, ◌≤◌, ◌≡◌, refl, ◌⊎◌, inl, inr, Bool, true, false, Option, none, some, if◌then◌else◌,
  arith, Bytes, nat_eq,
}
use wsgateway.Client.Library.{Beast, Network}
use wsgateway.Client.{HttpRequest}
use wsgateway.Websocket.Flights.{
  answer, Stage, absent, waiting, resolving, connecting, writing, reading, done, answered, at_wait,
  advance, begin,
}
use wsgateway.Std.Number.{Result, ok, err}
use wsgateway.Http.Response.{Response}

-- How many waits are ahead.
abbrev pub rank : {b : Beast} → Stage b → ℕ
rank (resolving port q) = 4
rank (connecting port q) = 3
rank (writing q) = 2
rank (reading q) = 1
rank s = 0

-- A coroutine at a wait, or behind its result.
abbrev pub IsUnderway : {b : Beast} → Stage b → Type 0
IsUnderway {b} s = (at_wait b s ≡ true) ⊎ ((r : Bytes) × (s ≡ done r))

pub begin-IsUnderway :
    (b : Beast) (port : Bytes) (r : Result (HttpRequest b)) → IsUnderway (begin b port r)
begin-IsUnderway b port (err e) = inr (_, refl)
begin-IsUnderway b port (ok q) = inl refl

pub rank-begin : (b : Beast) (port : Bytes) (r : Result (HttpRequest b)) → rank (begin b port r) ≤ 4
rank-begin b port (err e) = omega arith
rank-begin b port (ok q) = omega arith

if-IsUnderway :
    {b : Beast} (c : Bool) (s : Stage b) (r : Bytes)
    → at_wait b s ≡ true
    → IsUnderway (if c then s else done r)
if-IsUnderway true s r h = inl h
if-IsUnderway false s r h = inr (r, refl)

answer-IsUnderway : (b : Beast) (o : Option Response) → IsUnderway {b = b} (answer b o)
answer-IsUnderway b none = inr (_, refl)
answer-IsUnderway b (some res) = inr (_, refl)

-- A wait is followed by another one or by the result, and one wait fewer is ahead.
pub advance-IsUnderway :
    (b : Beast) (n : Network (HttpRequest b)) (host : Bytes) (s : Stage b)
    → at_wait b s ≡ true
    → IsUnderway (advance b n host s) × (suc (rank (advance b n host s)) ≤ rank s)
advance-IsUnderway b n host absent h = cc
advance-IsUnderway b n host waiting h = cc
advance-IsUnderway b n host (resolving port q) h =
    (if-IsUnderway (n.resolve host port) _ _ refl, ground arith)
advance-IsUnderway b n host (connecting port q) h =
    (if-IsUnderway (n.connect host port) _ _ refl, ground arith)
advance-IsUnderway b n host (writing q) h = (if-IsUnderway (n.write q) _ _ refl, ground arith)
advance-IsUnderway b n host (reading q) h = (answer-IsUnderway b (n.read q), ground arith)
advance-IsUnderway b n host (done r) h = cc
advance-IsUnderway b n host answered h = cc
