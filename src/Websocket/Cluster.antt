-- ===== src/Websocket/Cluster.antt =====
-- Several gateways, each a process of src/App.cpp with its own name, sockets and map of clients
-- (src/websocket/WebSocketComponents.h), over one table in the database.
pub mod Moved
use wsgateway.Prelude.{
  at, ℕ, ◌≡◌, ◌≢◌, refl, ap, inl, inr, true, false, some, Bytes, lookup, bytes_eq, nat_eq, nat-eq,
  nat_refl, ◌==◌, same, if◌then◌else◌, Bool-cases, List, [], ◌∷◌, arith, sym, ◌∙◌,
}
use mathlib.Core.Path.{subst}
use wsgateway.Scylla.Driver.{Driver}
use wsgateway.Scylla.Manager.{ScyllaManager}
use wsgateway.Scylla.Cql.{Cql, IsName}
use wsgateway.Websocket.Registry.{Registry, not_available}
use wsgateway.Websocket.Registry.Agreement.{
  is_some, Action, adds, leaves, removes, perform, perform_all, IsStored, AllStored, client_of,
  row_of, holds, holds-row, perform-lookup, perform-hosts,
}
use wsgateway.Websocket.Gateway
use wsgateway.Websocket.Gateway.{Gateway, Target}
use wsgateway.Websocket.Gateway.Calls.{step_calls, Step-perform}

-- The manager of a gateway: the same keyspace and table, and the gateway's own name.
abbrev pub manager_of : ScyllaManager → Bytes → ScyllaManager
manager_of m name = record m { m_app_server_name = name }

-- The statements do not depend on that name.
unfoldable pub cql_of :
    {d : Driver} {m : ScyllaManager} → Cql d m → (name : Bytes) → Cql d (manager_of m name)
cql_of c name = record {
  hosts = c.hosts;
  inserted = c.inserted;
  deleted = c.deleted;
  selected = c.selected;
  select_keeps = c.select_keeps;
}

-- The gateways by their numbers, and the session behind all that they have executed.
pub record Cluster (S : Type 0) : Type 0 where
  pub session : S
  pub node : ℕ → Gateway S

module _ {S : Type 0} where
  -- The gateway i as it sees the database now.
  abbrev pub view : Cluster S → ℕ → Gateway S
  view c i = let g = c.node i in record g { registry = record g.registry { session = c.session } }

  abbrev pub behind : Cluster S → ℕ → Gateway S → Cluster S
  behind c i g = record { session = g.registry.session; node = at i g c.node }

module _ (d : Driver) (m : ScyllaManager) (name : ℕ → Bytes) (t : ℕ → Target) where
  open d use {State}

  -- One gateway makes one step.
  pub data Act : Cluster State → Cluster State → Type 0 where
    runs :
        (c : Cluster State) (i : ℕ) (g : Gateway State)
        → Gateway.Step d (manager_of m (name i)) (t i) (view c i) g
        → Act c (behind c i g)

  pub data Acts (c : Cluster State) : Cluster State → Type 0 where
    still : Acts c c
    then_act : {e f : Cluster State} → Acts c e → Act e f → Acts c f

  -- The statements of the steps are of names that fit them, and succeed.
  abbrev pub StoredAct : {c e : Cluster State} → Act c e → Type 0
  StoredAct (runs c i g s) =
      AllStored d (manager_of m (name i)) (view c i).registry
        (step_calls d (manager_of m (name i)) (t i) s)

  abbrev pub Stored : {c e : Cluster State} → Acts c e → Type 0
  Stored still = Unit
  Stored (then_act r a) = Stored r × StoredAct a

  module _ (cql : Cql d m) where
    open cql use {hosts}

    -- Whatever gateway the table names for a client, that gateway's map has a socket for it.
    pub record NamesHolder (c : Cluster State) : Type 0 where
      pub holder :
          (i : ℕ) (v : Bytes)
          → hosts c.session v ≡ some (name i)
          → is_some (lookup v (c.node i).registry.clients) ≡ true

    module _ (fits : (i : ℕ) → IsName (name i)) (named : (i : ℕ) → name i ≢ not_available)
        (differ : (i j : ℕ) → (i == j) ≡ false → name i ≢ name j) where
      -- The registry of gateway i, as far as the table names the gateway.
      abbrev Holds : ℕ → Registry State → Type 0
      Holds i r =
          (v : Bytes) → hosts r.session v ≡ some (name i) → is_some (lookup v r.clients) ≡ true

      module _ (i : ℕ) where
        abbrev own : ScyllaManager
        own = manager_of m (name i)

        abbrev own_cql : Cql d own
        own_cql = cql_of cql (name i)

        hosts_lem :
            (r : Registry State) (a : Action) (v : Bytes)
            → IsStored d own r a
            → hosts (perform d own r a).session v ≡ (
                if same (client_of d own own_cql a) v
                then row_of d own own_cql a
                else hosts r.session v)
        unfolding cql_of
        hosts_lem r a v s = perform-hosts d own own_cql (fits i) r a v s

        perform-Holds :
            (r : Registry State) (a : Action)
            → IsStored d own r a
            → Holds i r
            → Holds i (perform d own r a)
        perform-Holds r a s h v e = elim (Bool-cases (same (client_of d own own_cql a) v)) [
          | inl hit ↦
              perform-lookup d own own_cql r a v
              ∙ rw hit (
                  (holds-row d own own_cql (fits i) (named i) a).1
                    (rw (hosts_lem r a v s, hit) at e))
          | inr miss ↦
              perform-lookup d own own_cql r a v ∙ rw miss (h v (rw (hosts_lem r a v s, miss) at e))
        ]

        -- No call of gateway i makes the table name another gateway.
        row-other : (j : ℕ) (a : Action) → (i == j) ≡ false → row_of d own own_cql a ≢ some (name j)
        row-other j (adds client socket) miss e = differ i j miss (cc)
        row-other j (leaves client) miss e = named j (cc)
        row-other j (removes client) miss e = cc

        perform-other :
            (r : Registry State) (a : Action) (j : ℕ) (v : Bytes)
            → IsStored d own r a
            → (i == j) ≡ false
            → hosts (perform d own r a).session v ≡ some (name j)
            → hosts r.session v ≡ some (name j)
        perform-other r a j v s miss e = elim (Bool-cases (same (client_of d own own_cql a) v)) [
          | inl hit ↦ absurd (row-other j a miss (rw (hosts_lem r a v s, hit) at e))
          | inr apart ↦ rw (hosts_lem r a v s, apart) at e
        ]

        perform_all-Holds :
            (r : Registry State) (more : List Action)
            → AllStored d own r more
            → Holds i r
            → Holds i (perform_all d own r more)
        perform_all-Holds r [] s h = h
        perform_all-Holds r (a ∷ more) s h =
            perform_all-Holds (perform d own r a) more s.1 (perform-Holds r a s.0 h)

        perform_all-other :
            (r : Registry State) (more : List Action) (j : ℕ) (v : Bytes)
            → AllStored d own r more
            → (i == j) ≡ false
            → hosts (perform_all d own r more).session v ≡ some (name j)
            → hosts r.session v ≡ some (name j)
        perform_all-other r [] j v s miss e = e
        perform_all-other r (a ∷ more) j v s miss e =
            perform-other r a j v s.0 miss
              (perform_all-other (perform d own r a) more j v s.1 miss e)

      Step-Holds :
          (c : Cluster State) (i : ℕ) (g : Gateway State)
          (s : Gateway.Step d (manager_of m (name i)) (t i) (view c i) g)
          → StoredAct (runs c i g s)
          → NamesHolder c
          → Holds i g.registry
      Step-Holds c i g s stored h =
          let calls = step_calls d (own i) (t i) s in
          subst (Holds i) (Step-perform d (own i) (t i) s)
            (perform_all-Holds i (view c i).registry calls stored (h.holder i))

      Step-other :
          (c : Cluster State) (i j : ℕ) (g : Gateway State)
          (s : Gateway.Step d (manager_of m (name i)) (t i) (view c i) g) (v : Bytes)
          → StoredAct (runs c i g s)
          → (i == j) ≡ false
          → hosts g.registry.session v ≡ some (name j)
          → hosts c.session v ≡ some (name j)
      Step-other c i j g s v stored miss e =
          let calls = step_calls d (own i) (t i) s in
          let made = Step-perform d (own i) (t i) s in
          perform_all-other i (view c i).registry calls j v stored miss
            (ap (λ r. hosts r.session v) made ∙ e)

      holder_behind :
          (c : Cluster State) (i j : ℕ) (g : Gateway State)
          (s : Gateway.Step d (manager_of m (name i)) (t i) (view c i) g) (v : Bytes)
          → StoredAct (runs c i g s)
          → NamesHolder c
          → hosts g.registry.session v ≡ some (name j)
          → is_some (lookup v (at i g c.node j).registry.clients) ≡ true
      holder_behind c i j g s v stored h on = elim (Bool-cases (i == j)) [
        | inl hit ↦
            subst
              (λ k.
                hosts g.registry.session v ≡ some (name k)
                → is_some (lookup v (at i g c.node k).registry.clients) ≡ true)
              (nat-eq i j hit) (rw (nat_refl i) (Step-Holds c i g s stored h v)) on
        | inr miss ↦ rw miss (h.holder j v (Step-other c i j g s v stored miss on))
      ]

      Act-NamesHolder :
          {c e : Cluster State} (a : Act c e) → StoredAct a → NamesHolder c → NamesHolder e
      Act-NamesHolder (runs c i g s) stored h = record {
        holder = λ j v on. holder_behind c i j g s v stored h on;
      }

      -- On a database that keeps its promises, for gateways with distinct names, none of them "NA"
      -- and all without a quote and a NUL: if the table names a gateway only for clients that this
      -- gateway's map has a socket for, this still holds after any steps of the gateways, one after
      -- another in any order, whose statements are of names without a quote and a NUL and succeed.
      pub Acts-NamesHolder :
          {c e : Cluster State} (r : Acts c e) → Stored r → NamesHolder c → NamesHolder e
      Acts-NamesHolder still stored h = h
      Acts-NamesHolder (then_act r a) stored h =
          Act-NamesHolder a stored.1 (Acts-NamesHolder r stored.0 h)
