-- ===== src/Websocket/Gateway/Serves.antt =====
-- The sockets that the registry has and the listeners that serve them, in the gateway of
-- src/websocket/WebSocketListener.cpp.

use mathlib.Core.Path.{subst}
use wsgateway.Prelude.{
  ℕ, ◌≡◌, ◌≢◌, [], ◌∙◌, inl, inr, List, none, some, arith, Bytes, same, same-eq, same_refl, lookup,
  insert, erase, lookup-insert, lookup-erase, bytes_eq, nat_eq, nat-eq, ◌==◌, Bool-cases,
}
use wsgateway.Websocket.Registry.{Clients}
use wsgateway.Websocket.Listener.{Listener}
use wsgateway.Websocket.Gateway.{Target}

-- Each socket that the registry has for a client is live, and its listener serves that client.
abbrev pub Serves : Clients → List (ℕ × Listener) → Type 0
Serves clients listeners =
    (client : Bytes) (socket : ℕ)
    → lookup client clients ≡ some socket
    → (l : Listener) × (lookup socket listeners ≡ some l) × (l.client_id ≡ client)

-- A client is registered for a new socket.
pub insert-Serves :
    (clients : Clients) (listeners : List (ℕ × Listener)) (client : Bytes) (socket : ℕ)
    (l : Listener)
    → lookup socket listeners ≡ none
    → l.client_id ≡ client
    → Serves clients listeners
    → Serves (insert client socket clients) (insert socket l listeners)
insert-Serves clients listeners client socket l new own s c k e =
    elim (Bool-cases (same client c)) [
      | inl hit ↦ (
        l,
        ground (arith, lookup-insert client c socket clients, lookup-insert socket k l listeners),
        own ∙ same-eq client c hit,
      )
      | inr miss ↦
          let (x, live, of_client) =
            s c k (ground (arith, lookup-insert client c socket clients)) in
          (x, ground (arith, lookup-insert socket k l listeners), of_client)
    ]

-- A client is erased.
pub erase-Serves :
    (clients : Clients) (listeners : List (ℕ × Listener)) (client : Bytes)
    → Serves clients listeners
    → Serves (erase client clients) listeners
erase-Serves clients listeners client s c k e =
    s c k (ground (arith, lookup-erase client c clients))

-- A listener is replaced by one for the same client.
pub replace-Serves :
    (clients : Clients) (listeners : List (ℕ × Listener)) (socket : ℕ) (l l' : Listener)
    → lookup socket listeners ≡ some l
    → l'.client_id ≡ l.client_id
    → Serves clients listeners
    → Serves clients (insert socket l' listeners)
replace-Serves clients listeners socket l l' found own s c k e =
    let (x, live, of_client) = s c k e in
    elim (Bool-cases (socket == k)) [
      | inl hit ↦ (
        l',
        ground (arith, lookup-insert socket k l' listeners),
        ground (arith, nat-eq socket k hit),
      )
      | inr miss ↦ (x, ground (arith, lookup-insert socket k l' listeners), of_client)
    ]

-- A socket goes, with the client of its listener.
pub remove-Serves :
    (clients : Clients) (listeners : List (ℕ × Listener)) (socket : ℕ) (l : Listener)
    → lookup socket listeners ≡ some l
    → Serves clients listeners
    → Serves (erase l.client_id clients) (erase socket listeners)
remove-Serves clients listeners socket l found s c k e =
    let (x, live, of_client) = s c k (ground (arith, lookup-erase l.client_id c clients)) in
    (
      x,
      ground (
        arith,
        lookup-erase l.client_id c clients,
        lookup-erase socket k listeners,
        same_refl c,
        nat-eq socket k,
      ),
      of_client,
    )

-- A listener sends to the application's address, and its port text is not empty.
abbrev pub Aims : Target → Listener → Type 0
Aims t l = (l.http_server_address ≡ t.http_request_address) × (l.http_server_port ≢ [])

abbrev pub AllAim : Target → List (ℕ × Listener) → Type 0
AllAim t listeners = (socket : ℕ) (l : Listener) → lookup socket listeners ≡ some l → Aims t l

pub insert-AllAim :
    (t : Target) (listeners : List (ℕ × Listener)) (socket : ℕ) (l : Listener)
    → Aims t l
    → AllAim t listeners
    → AllAim t (insert socket l listeners)
insert-AllAim t listeners socket l own h k x e = elim (Bool-cases (socket == k)) [
  | inl hit ↦
      let same_one : l ≡ x = ground (arith, lookup-insert socket k l listeners) in
      subst (Aims t) same_one own
  | inr miss ↦ h k x (ground (arith, lookup-insert socket k l listeners))
]

pub erase-AllAim :
    (t : Target) (listeners : List (ℕ × Listener)) (socket : ℕ)
    → AllAim t listeners
    → AllAim t (erase socket listeners)
erase-AllAim t listeners socket h k x e = h k x (ground (arith, lookup-erase socket k listeners))
