-- ===== src/Websocket/Flights/Buffers.antt =====
-- The buffers of the listeners of src/websocket/WebSocketListener.cpp, and the messages that were
-- dispatched for a socket, through the steps.
use wsgateway.Prelude.{
  at, ℕ, zero, suc, ◌≤◌, ◌≡◌, refl, inl, inr, List, [], ◌∷◌, Option, none, some, arith, Bytes,
  lookup, insert, erase, lookup-insert, lookup-erase, nat_eq, nat-eq, ◌==◌, Bool-cases,
  if◌then◌else◌,
}
use wsgateway.Client.Library.{Beast}
use wsgateway.Websocket.Listener.{Listener, Request}
use wsgateway.Websocket.Flights.{Air, Flight, Stage, object_of, set_stage}
use wsgateway.Websocket.Flights.Objects.{Listeners}

abbrev pub buffer_in : Option Listener → Bytes
buffer_in none = []
buffer_in (some l) = l.message_buffer

abbrev pub buffer_of : Listeners → Listeners → ℕ → Bytes
buffer_of live closed k = buffer_in (object_of live closed k)

module _ (live closed : Listeners) (socket k : ℕ) where
  pub buffer_of-new :
      (l : Listener)
      → lookup socket live ≡ none
      → lookup socket closed ≡ none
      → l.message_buffer ≡ []
      → buffer_of (insert socket l live) closed k ≡ buffer_of live closed k
  buffer_of-new l gone gone' clear = elim (Bool-cases (socket == k)) [
    | inl hit ↦ ground (arith, nat-eq socket k, lookup-insert socket k l live)
    | inr miss ↦ ground (arith, lookup-insert socket k l live)
  ]

  pub buffer_of-read :
      (l : Listener)
      → buffer_of (insert socket l live) closed k
        ≡ (if socket == k then l.message_buffer else buffer_of live closed k)
  buffer_of-read l = elim (Bool-cases (socket == k)) [
    | inl hit ↦ ground (arith, lookup-insert socket k l live)
    | inr miss ↦ ground (arith, lookup-insert socket k l live)
  ]

  pub buffer_of-live :
      (l l' : Listener)
      → lookup socket live ≡ some l
      → l'.message_buffer ≡ l.message_buffer
      → buffer_of (insert socket l' live) closed k ≡ buffer_of live closed k
  buffer_of-live l l' held same_buffer = elim (Bool-cases (socket == k)) [
    | inl hit ↦ ground (arith, nat-eq socket k, lookup-insert socket k l' live)
    | inr miss ↦ ground (arith, lookup-insert socket k l' live)
  ]

  pub buffer_of-closed :
      (l l' : Listener)
      → lookup socket live ≡ none
      → lookup socket closed ≡ some l
      → l'.message_buffer ≡ l.message_buffer
      → buffer_of live (insert socket l' closed) k ≡ buffer_of live closed k
  buffer_of-closed l l' gone held same_buffer = elim (Bool-cases (socket == k)) [
    | inl hit ↦ ground (arith, nat-eq socket k, lookup-insert socket k l' closed)
    | inr miss ↦ ground (arith, lookup-insert socket k l' closed)
  ]

  pub buffer_of-buried :
      (l l' : Listener)
      → lookup socket live ≡ some l
      → l'.message_buffer ≡ l.message_buffer
      → buffer_of (erase socket live) (insert socket l' closed) k ≡ buffer_of live closed k
  buffer_of-buried l l' held same_buffer = elim (Bool-cases (socket == k)) [
    | inl hit ↦
        ground
          (arith, nat-eq socket k, lookup-erase socket k live, lookup-insert socket k l' closed)
    | inr miss ↦ ground (arith, lookup-erase socket k live, lookup-insert socket k l' closed)
  ]

module _ {b : Beast} where
  -- The messages of a socket among the first n flights, the latest first.
  abbrev pub requests : (ℕ → Flight b) → ℕ → ℕ → List Request
  requests f zero k = []
  requests f (suc n) k =
      let rest = requests f n k in if (f n).socket == k then (f n).request ∷ rest else rest

  pub requests-above :
      (f : ℕ → Flight b) (x : Flight b) (m n k : ℕ)
      → n ≤ m
      → requests (at m x f) n k ≡ requests f n k
  requests-above f x m zero k h = refl
  requests-above f x m (suc n) k h = ground (arith, requests-above f x m n k)

  pub requests-set_stage :
      {S : Type 0} (a : Air b S) (i : ℕ) (s : Stage b) (n k : ℕ)
      → requests (set_stage a i s).flight n k ≡ requests a.flight n k
  requests-set_stage a i s zero k = refl
  requests-set_stage a i s (suc n) k = elim (Bool-cases (i == n)) [
    | inl hit ↦ ground (arith, nat-eq i n, requests-set_stage a i s n k)
    | inr miss ↦ ground (arith, requests-set_stage a i s n k)
  ]
