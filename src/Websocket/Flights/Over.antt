-- ===== src/Websocket/Flights/Over.antt =====
-- Runs of the coroutines of src/utilis/boostBeastClient.h over one network, and what they read from
-- the sockets of src/websocket/WebSocketListener.cpp.
use wsgateway.Prelude.{
  ℕ, ◌≡◌, refl, ap, ◌∙◌, Bool, true, false, List, [], ◌∷◌, ◌++◌, Bytes, nat_eq, ◌==◌, length,
  if◌then◌else◌,
}
use wsgateway.Std.Number.{pos}
use wsgateway.Scylla.Driver.{Driver}
use wsgateway.Scylla.Manager.{ScyllaManager}
use wsgateway.Client.Library.{Beast, Network}
use wsgateway.Client.{HttpRequest}
use wsgateway.Websocket.Gateway.{Target}
use wsgateway.Websocket.Flights.{
  Air, Step, creates, closes, reads, destroys, starts, starts_closed, advances, completes, Reach,
  here, next,
}
use wsgateway.Websocket.Flights.Frames.{Input, frames, add_frame}

-- The frames of a message, the latest first, in front of others; a frame of size 0 is its end.
abbrev pub pieces : ℕ → List Bytes → List Input → List Input
pieces now [] xs = xs
pieces now (f ∷ fs) xs = pieces now fs (record { size = pos (length f); bytes = f; now = now } ∷ xs)

abbrev pub taken : ℕ → List Bytes → List Input
taken now fs = record { size = pos 0; bytes = []; now = now } ∷ pieces now fs []

module _ (b : Beast) (d : Driver) (m : ScyllaManager) (t : Target) where
  open d use {State}

  abbrev pub reach_trans :
      {a c e : Air b State} → Reach b d m t a c → Reach b d m t c e → Reach b d m t a e
  reach_trans r here = r
  reach_trans r (next q s) = next (reach_trans r q) s

  if-append :
      (c : Bool) (x : Input) (xs ys : List Input)
      → (if c then x ∷ xs ++ ys else xs ++ ys) ≡ (if c then x ∷ xs else xs) ++ ys
  if-append true x xs ys = refl
  if-append false x xs ys = refl

  add_frame-append :
      {a c : Air b State} (s : Step b d m t a c) (k : ℕ) (xs ys : List Input)
      → add_frame b d m t s k (xs ++ ys) ≡ add_frame b d m t s k xs ++ ys
  add_frame-append (creates a g socket params peer dropped new new' e) k xs ys = refl
  add_frame-append (closes a g socket e) k xs ys = refl
  add_frame-append (reads a g socket size input now r e) k xs ys = if-append (socket == k) _ xs ys
  add_frame-append (destroys a socket l held) k xs ys = refl
  add_frame-append (starts a i draw l port at_start held chosen) k xs ys = refl
  add_frame-append (starts_closed a i draw l port at_start gone held chosen) k xs ys = refl
  add_frame-append (advances a i n l waits held) k xs ys = refl
  add_frame-append (completes a i result e) k xs ys = refl

  -- The frames of two runs, one behind the other.
  pub frames-reach_trans :
      {a c e : Air b State} (r : Reach b d m t a c) (q : Reach b d m t c e) (k : ℕ)
      → frames b d m t (reach_trans r q) k ≡ frames b d m t q k ++ frames b d m t r k
  frames-reach_trans r here k = refl
  frames-reach_trans r (next q s) k =
      ap (add_frame b d m t s k) (frames-reach_trans r q k)
      ∙ add_frame-append s k (frames b d m t q k) (frames b d m t r k)

  module _ (n : Network (HttpRequest b)) where
    -- At each of its waits a run meets this network.
    abbrev pub StepOver : {a c : Air b State} → Step b d m t a c → Type 0
    StepOver (advances a i n' l waits held) = n' ≡ n
    StepOver s = Unit

    abbrev pub IsOver : {a c : Air b State} → Reach b d m t a c → Type 0
    IsOver here = Unit
    IsOver (next r s) = IsOver r × StepOver s

    pub IsOver-reach_trans :
        {a c e : Air b State} (r : Reach b d m t a c) (q : Reach b d m t c e)
        → IsOver r
        → IsOver q
        → IsOver (reach_trans r q)
    IsOver-reach_trans r here h k = h
    IsOver-reach_trans r (next q s) h k = (IsOver-reach_trans r q h k.0, k.1)
