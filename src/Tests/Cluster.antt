-- ===== src/Tests/Cluster.antt =====
-- Gateways with the table in memory: a client connects at one and then at another one.
use wsgateway.Prelude.{
  ℕ, zero, suc, ◌≡◌, ◌≢◌, refl, ap, false, true, [], ◌∷◌, none, some, arith, Bytes, Lacks, lookup,
  insert, bytes_eq, nat_eq, ◌==◌,
}
use wsgateway.Controller.{ws_parameters}
use wsgateway.Scylla.Manager.{insert_data, execute_query, insert_query}
use wsgateway.Scylla.Cql.{IsName}
use wsgateway.Scylla.Table.Memory.{
  vehicles, memory, memory_cql, Rows, run_text, run_insert, store, strip,
}
use wsgateway.Websocket.Registry.{add_client, not_available}
use wsgateway.Websocket.Certificate.{peer_name, plain}
use wsgateway.Websocket.Listener.{new_listener}
use wsgateway.Websocket.Gateway.{Target, creates, on_after_create, on_before_destroy, destroyed_at}
use wsgateway.Websocket.Cluster.{
  Cluster, runs, Acts, still, then_act, Stored, NamesHolder, Acts-NamesHolder, manager_of, view,
  behind,
}
use wsgateway.Websocket.Cluster.Moved.{joined, moved-Lost}
use wsgateway.Tests.Registry.{car, IsName-car}
use wsgateway.Tests.Websocket.{target, no_sockets, first_listener}

abbrev ones : ℕ → Bytes
ones zero = []
ones (suc n) = b'1' ∷ ones n

-- The names of the gateways.
abbrev names : ℕ → Bytes
names i = b'g' ∷ ones i

ones-Lacks : (c n : ℕ) → c ≢ b'1' → Lacks c (ones n)
ones-Lacks c zero h = tt
ones-Lacks c (suc n) h = (λ e. ground arith, ones-Lacks c n h)

names-IsName : (i : ℕ) → IsName (names i)
names-IsName i =
    ((omega arith, ones-Lacks 39 i (omega arith)), (omega arith, ones-Lacks 0 i (omega arith)))

abbrev head_byte : Bytes → ℕ
head_byte [] = 0
head_byte (c ∷ cs) = c

names_ne_not_available : (i : ℕ) → names i ≢ not_available
names_ne_not_available i e =
    let heads : head_byte (names i) ≡ head_byte not_available = ap head_byte e in omega arith

ones_inj : (i j : ℕ) → ones i ≡ ones j → i ≡ j
ones_inj zero zero e = refl
ones_inj zero (suc j) e = cc
ones_inj (suc i) zero e = cc
ones_inj (suc i) (suc j) e = ap suc (ones_inj i j (cc))

names_differ : (i j : ℕ) → (i == j) ≡ false → names i ≢ names j
names_differ i j apart e = let same_one : i ≡ j = ones_inj i j (cc) in ground arith

abbrev targets : ℕ → Target
targets i = target

abbrev empty_cluster : Cluster Rows
empty_cluster = record { session = []; node = λ i. no_sockets }

abbrev first_gateway : Cluster Rows
first_gateway = joined memory vehicles names targets empty_cluster 0 7 car

abbrev both_gateways : Cluster Rows
both_gateways = joined memory vehicles names targets first_gateway 1 9 car

two_acts : Acts memory vehicles names targets empty_cluster both_gateways
unfolding on_after_create ws_parameters lookup peer_name
two_acts =
    then_act (then_act still (runs _ 0 _ (creates 7 (ws_parameters car none) plain [] refl refl)))
      (runs _ 1 _ (creates 9 (ws_parameters car none) plain [] refl refl))

two_acts-Stored : Stored memory vehicles names targets two_acts
unfolding two_acts on_after_create ws_parameters lookup insert insert_data execute_query
    insert_query run_text run_insert store strip add_client new_listener
two_acts-Stored = ((tt, ((IsName-car, refl), tt)), ((IsName-car, refl), tt))

none_named : NamesHolder memory vehicles names targets memory_cql empty_cluster
unfolding lookup
none_named = record { holder = λ i v e. absurd (cc) }

Acts-NamesHolder_example : NamesHolder memory vehicles names targets memory_cql both_gateways
Acts-NamesHolder_example =
    Acts-NamesHolder memory vehicles names targets memory_cql names-IsName names_ne_not_available
      names_differ two_acts two_acts-Stored none_named

live_first : lookup 7 (first_gateway.node 0).listeners ≡ some first_listener
unfolding lookup insert
live_first = refl

joins :
    (insert_data memory (manager_of vehicles (names 1)) car (names 1) first_gateway.session).value
    ≡ true
unfolding insert_data execute_query insert_query run_text run_insert store strip
joins = refl

leaves :
    (insert_data memory
      (manager_of vehicles (names 0))
      car
      not_available
      both_gateways.session).value
    ≡ true
unfolding insert_data execute_query insert_query run_text run_insert store strip
leaves = refl

gone :
    on_before_destroy memory (manager_of vehicles (names 0)) (view both_gateways 0) 7
    ≡ some (
        destroyed_at memory (manager_of vehicles (names 0)) (view both_gateways 0) 7 first_listener)
unfolding on_before_destroy lookup insert
gone = refl

moved-Lost_example :
    (lookup car both_gateways.session ≡ some (names 1))
    × (lookup car
          (behind both_gateways 0 (
            destroyed_at memory
              (manager_of vehicles (names 0))
              (view both_gateways 0)
              7
              first_listener)).session
        ≡ some not_available)
    × (lookup car ((both_gateways.node 1).registry.clients) ≡ some 9)
unfolding new_listener
moved-Lost_example =
    moved-Lost memory vehicles memory_cql names targets first_gateway 0 1 7 9 first_listener
      (destroyed_at memory (manager_of vehicles (names 0)) (view both_gateways 0) 7 first_listener)
      refl live_first IsName-car (names-IsName 1) joins leaves gone
