-- ===== src/Websocket/Registry/Race.antt =====
-- `addClient`, `setClientNotAvailable` and `removeClient` of src/websocket/WebSocketComponents.h
-- run by several threads: the spin lock around the map, and the statement to the database behind
-- it.
use wsgateway.Prelude.{
  at, ℕ, zero, suc, ◌≡◌, refl, Bool, true, false, List, [], some, arith, Bytes, lookup, insert,
  erase, lookup-insert_self, bytes_eq,
}
use wsgateway.Websocket.Registry.{Clients, not_available}

pub data Operation : Type 0 where
  add : Bytes → ℕ → Operation
  leave : Bytes → Operation
  drop : Bytes → Operation

-- Where a thread stands: before the lock, with the lock before and behind the change of the map,
-- behind the lock before the statement, and at its end.
pub data Place : Type 0 where
  waiting holding changed storing : Operation → Place
  finished : Place

abbrev pub Table : Type 0
Table = List (Bytes × Bytes)

pub record System : Type 0 where
  pub lock : Bool
  pub clients : Clients
  pub table : Table
  pub place : ℕ → Place

abbrev pub change_map : Operation → Clients → Clients
change_map (add client socket) clients = insert client socket clients
change_map (leave client) clients = erase client clients
change_map (drop client) clients = erase client clients

abbrev pub change_table : Bytes → Operation → Table → Table
change_table server (add client socket) table = insert client server table
change_table server (leave client) table = insert client not_available table
change_table server (drop client) table = erase client table

-- One step of one thread; `test_and_set` takes the lock where it was clear, and a statement that
-- fails changes nothing.
pub data Move (server : Bytes) : System → System → Type 0 where
  acquires :
      (s : System) (i : ℕ) (o : Operation)
      → s.place i ≡ waiting o
      → s.lock ≡ false
      → Move server s (record s { lock = true; place = at i (holding o) s.place })
  spins :
      (s : System) (i : ℕ) (o : Operation) → s.place i ≡ waiting o → s.lock ≡ true → Move server s s
  changes :
      (s : System) (i : ℕ) (o : Operation)
      → s.place i ≡ holding o
      → Move server s
          (record s { clients = change_map o s.clients; place = at i (changed o) s.place })
  releases :
      (s : System) (i : ℕ) (o : Operation)
      → s.place i ≡ changed o
      → Move server s (record s { lock = false; place = at i (storing o) s.place })
  stores :
      (s : System) (i : ℕ) (o : Operation)
      → s.place i ≡ storing o
      → Move server s
          (record s { table = change_table server o s.table; place = at i finished s.place })
  fails :
      (s : System) (i : ℕ) (o : Operation)
      → s.place i ≡ storing o
      → Move server s (record s { place = at i finished s.place })

pub data Moves (server : Bytes) (s : System) : System → Type 0 where
  start : Moves server s s
  then_move : {t u : System} → Moves server s t → Move server t u → Moves server s u

-- Whether a thread stands between the lock and its release.
abbrev pub inside : Place → Bool
inside (waiting o) = false
inside (holding o) = true
inside (changed o) = true
inside (storing o) = false
inside finished = false

-- The lock is set while a thread is inside, and no two threads are inside.
pub record IsExclusive (s : System) : Type 0 where
  pub locked : (i : ℕ) → inside (s.place i) ≡ true → s.lock ≡ true
  pub alone : (i j : ℕ) → inside (s.place i) ≡ true → inside (s.place j) ≡ true → i ≡ j

Move-IsExclusive : {server : Bytes} {s t : System} → Move server s t → IsExclusive s → IsExclusive t
Move-IsExclusive (acquires s i o at_i clear) v = record {
  locked = λ j h. refl;
  alone = λ j k h h'. ground (arith, v.locked j, v.locked k);
}
Move-IsExclusive (spins s i o at_i taken) v = v
Move-IsExclusive (changes s i o at_i) v = record {
  locked = λ j h. ground (arith, v.locked j, v.locked i);
  alone = λ j k h h'. ground (arith, v.alone j k, v.alone i k, v.alone j i);
}
Move-IsExclusive (releases s i o at_i) v = record {
  locked = λ j h. ground (arith, v.alone i j);
  alone = λ j k h h'. ground (arith, v.alone j k);
}
Move-IsExclusive (stores s i o at_i) v = record {
  locked = λ j h. ground (arith, v.locked j);
  alone = λ j k h h'. ground (arith, v.alone j k);
}
Move-IsExclusive (fails s i o at_i) v = record {
  locked = λ j h. ground (arith, v.locked j);
  alone = λ j k h h'. ground (arith, v.alone j k);
}

-- However the threads are interleaved, from a state in which the lock is set while a thread is
-- between the lock and its release, and at most one is, every state that is reached is such a
-- state.
pub Moves-IsExclusive :
    {server : Bytes} {s t : System} → Moves server s t → IsExclusive s → IsExclusive t
Moves-IsExclusive start v = v
Moves-IsExclusive (then_move r m) v = Move-IsExclusive m (Moves-IsExclusive r v)

-- Two threads before the lock: one leaves for a client, the other adds it.
abbrev pub both : Bytes → ℕ → ℕ → Place
both client socket zero = waiting (leave client)
both client socket (suc zero) = waiting (add client socket)
both client socket (suc (suc n)) = finished

abbrev pub before : Bytes → ℕ → System
before client socket = record { lock = false; clients = []; table = []; place = both client socket }

module _ (server client : Bytes) (socket : ℕ) where
  -- Leave changes the map and lets the lock go; add runs to its end; then leave stores.
  abbrev left : System
  left = record (before client socket) {
    clients = erase client [];
    place =
        at 0 (storing (leave client))
          (at 0 (changed (leave client)) (at 0 (holding (leave client)) (both client socket)));
  }

  abbrev added : System
  added = record left {
    clients = insert client socket left.clients;
    table = insert client server [];
    place = at 1 finished (
        at 1 (storing (add client socket))
          (at 1 (changed (add client socket)) (at 1 (holding (add client socket)) left.place)));
  }

  abbrev pub raced : System
  raced = record added {
    table = insert client not_available added.table;
    place = at 0 finished added.place;
  }

  Moves-left : Moves server (before client socket) left
  Moves-left =
      then_move
        (then_move (then_move start (acquires _ 0 (leave client) refl refl))
          (changes _ 0 (leave client) refl))
        (releases _ 0 (leave client) refl)

  pub Moves-raced : Moves server (before client socket) raced
  Moves-raced =
      then_move
        (then_move
          (then_move
            (then_move (then_move Moves-left (acquires _ 1 (add client socket) refl refl))
              (changes _ 1 (add client socket) refl))
            (releases _ 1 (add client socket) refl))
          (stores _ 1 (add client socket) refl))
        (stores _ 0 (leave client) refl)

  pub all_finished : (i : ℕ) → raced.place i ≡ finished
  all_finished zero = refl
  all_finished (suc zero) = refl
  all_finished (suc (suc n)) = ground arith

  -- For every client there is an interleaving of one thread that sets it not available and one that
  -- adds it, both run to their ends, behind which the map has the client's socket and the table
  -- says that the client is not available: the lock does not cover the statements.
  pub stale_table :
      (s : System) × Moves server (before client socket) s
      × ((i : ℕ) → s.place i ≡ finished)
      × (lookup client s.clients ≡ some socket)
      × (lookup client s.table ≡ some not_available)
  stale_table = (
    raced,
    Moves-raced,
    all_finished,
    lookup-insert_self client socket _,
    lookup-insert_self client not_available _,
  )
