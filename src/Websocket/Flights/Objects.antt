-- ===== src/Websocket/Flights/Objects.antt =====
-- The listeners of src/websocket/WebSocketListener.cpp through the steps: none is lost while a
-- coroutine may refer to it, and none changes its client or its address.
use wsgateway.Prelude.{
  ℕ, ◌≡◌, ◌≢◌, refl, ◌∙◌, inl, inr, List, [], none, some, arith, lookup, insert, erase,
  lookup-insert, lookup-erase, nat_eq, nat-eq, ◌==◌, Bool-cases,
}
use wsgateway.Websocket.Listener.{Listener}
use wsgateway.Websocket.Flights.{object_of}

abbrev pub Listeners : Type 0
Listeners = List (ℕ × Listener)

-- What no step changes of a listener.
pub record Same (l l' : Listener) : Type 0 where
  pub client : l'.client_id ≡ l.client_id
  pub address : l'.http_server_address ≡ l.http_server_address
  pub port : l.http_server_port ≢ [] → l'.http_server_port ≢ []

pub Same-refl : (l : Listener) → Same l l
Same-refl l = record { client = refl; address = refl; port = λ h. h }

pub Same-trans : {l k j : Listener} → Same l k → Same k j → Same l j
Same-trans s r = record {
  client = r.client ∙ s.client;
  address = r.address ∙ s.address;
  port = λ h. r.port (s.port h);
}

-- Each socket that holds a listener still holds it, as the same.
abbrev pub Keeps : Listeners → Listeners → Listeners → Listeners → Type 0
Keeps live closed live' closed' =
    (k : ℕ) (x : Listener)
    → object_of live closed k ≡ some x
    → (x' : Listener) × (object_of live' closed' k ≡ some x') × Same x x'

pub Keeps-refl : (live closed : Listeners) → Keeps live closed live closed
Keeps-refl live closed k x e = (x, e, Same-refl x)

module _ (live closed : Listeners) (socket : ℕ) where
  pub Keeps-new :
      (l : Listener)
      → lookup socket live ≡ none
      → lookup socket closed ≡ none
      → Keeps live closed (insert socket l live) closed
  Keeps-new l gone gone' k x e = elim (Bool-cases (socket == k)) [
    | inl hit ↦ absurd (ground (arith, nat-eq socket k))
    | inr miss ↦ (x, ground (arith, lookup-insert socket k l live), Same-refl x)
  ]

  pub Keeps-live :
      (l l' : Listener)
      → lookup socket live ≡ some l
      → Same l l'
      → Keeps live closed (insert socket l' live) closed
  Keeps-live l l' held same_one k x e = elim (Bool-cases (socket == k)) [
    | inl hit ↦
        let same_x : x ≡ l = ground (arith, nat-eq socket k) in
        (l', ground (arith, lookup-insert socket k l' live), rw same_x same_one)
    | inr miss ↦ (x, ground (arith, lookup-insert socket k l' live), Same-refl x)
  ]

  pub Keeps-closed :
      (l l' : Listener)
      → lookup socket live ≡ none
      → lookup socket closed ≡ some l
      → Same l l'
      → Keeps live closed live (insert socket l' closed)
  Keeps-closed l l' gone held same_one k x e = elim (Bool-cases (socket == k)) [
    | inl hit ↦
        let same_x : x ≡ l = ground (arith, nat-eq socket k) in
        (l', ground (arith, nat-eq socket k, lookup-insert socket k l' closed), rw same_x same_one)
    | inr miss ↦ (x, ground (arith, lookup-insert socket k l' closed), Same-refl x)
  ]

  pub Keeps-buried :
      (l l' : Listener)
      → lookup socket live ≡ some l
      → Same l l'
      → Keeps live closed (erase socket live) (insert socket l' closed)
  Keeps-buried l l' held same_one k x e = elim (Bool-cases (socket == k)) [
    | inl hit ↦
        let same_x : x ≡ l = ground (arith, nat-eq socket k) in
        (
          l',
          ground (arith, lookup-erase socket k live, lookup-insert socket k l' closed),
          rw same_x same_one,
        )
    | inr miss ↦ (
      x,
      ground (arith, lookup-erase socket k live, lookup-insert socket k l' closed),
      Same-refl x,
    )
  ]
