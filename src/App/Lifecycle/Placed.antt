-- ===== src/App/Lifecycle/Placed.antt =====
-- What is known at each place of the main thread of src/App.cpp.
use wsgateway.Prelude.{at, ℕ, suc, ◌≤◌, ◌<◌, ◌≡◌, ◌≢◌, refl, Bool, true, false, arith}
use wsgateway.App.Lifecycle.{
  Thread, not_started, running, ended, Main, building, spawning, joining, resetting, joining_io,
  destroying, leaving, gone,
}

-- 0 for a thread that was never started.
abbrev pub begun_of : Thread → ℕ
begun_of not_started = 0
begun_of t = 1

-- The thread that runs the `io_context`, and the calls of `destroy`, for each place of the main
-- thread; what else is known of the servers there.
abbrev pub Placed : Main → ℕ → (ℕ → Thread) → Thread → Bool → ℕ → Type 0
Placed building n server io guard k = (n ≡ 0) × (io ≡ not_started) × (guard ≡ true) × (k ≡ 0)
Placed (spawning ps) n server io guard k = (io ≡ running) × (guard ≡ true) × (k ≡ 0)
Placed (joining j) n server io guard k =
    (io ≡ running) × (guard ≡ true) × (k ≡ 0) × ((i : ℕ) → i < j → server i ≡ ended) × (j ≤ n)
Placed resetting n server io guard k =
    (io ≡ running) × (guard ≡ true) × (k ≡ 0) × ((i : ℕ) → i < n → server i ≡ ended)
Placed joining_io n server io guard k =
    (io ≢ not_started) × (guard ≡ false) × (k ≡ 0) × ((i : ℕ) → i < n → server i ≡ ended)
Placed destroying n server io guard k =
    (io ≡ ended) × (k ≡ 0) × ((i : ℕ) → i < n → server i ≡ ended)
Placed leaving n server io guard k =
    (io ≢ running) × (k ≡ begun_of io) × ((i : ℕ) → i < n → server i ≡ ended)
Placed gone n server io guard k =
    (io ≢ running) × (k ≡ suc (begun_of io)) × ((i : ℕ) → i < n → server i ≡ ended)

-- A server that ends, and the end of the `io_context`, at each place.
pub Placed-stops :
    (m : Main) (n : ℕ) (server : ℕ → Thread) (io : Thread) (guard : Bool) (k i : ℕ)
    → Placed m n server io guard k
    → Placed m n (at i ended server) io guard k
Placed-stops building n server io guard k i p = p
Placed-stops (spawning ps) n server io guard k i p = p
Placed-stops (joining l) n server io guard k i p =
    (p.0, p.1, p.2, (λ j h. ground (arith, p.3 j)), p.4)
Placed-stops resetting n server io guard k i p = (p.0, p.1, p.2, λ j h. ground (arith, p.3 j))
Placed-stops joining_io n server io guard k i p = (p.0, p.1, p.2, λ j h. ground (arith, p.3 j))
Placed-stops destroying n server io guard k i p = (p.0, p.1, λ j h. ground (arith, p.2 j))
Placed-stops leaving n server io guard k i p = (p.0, p.1, λ j h. ground (arith, p.2 j))
Placed-stops gone n server io guard k i p = (p.0, p.1, λ j h. ground (arith, p.2 j))

pub Placed-io_ends :
    (m : Main) (n : ℕ) (server : ℕ → Thread) (io : Thread) (guard : Bool) (k : ℕ)
    → io ≡ running
    → guard ≡ false
    → Placed m n server io guard k
    → Placed m n server ended guard k
Placed-io_ends building n server io guard k on off p = absurd (ground (arith, p.2))
Placed-io_ends (spawning ps) n server io guard k on off p = absurd (ground (arith, p.1))
Placed-io_ends (joining l) n server io guard k on off p = absurd (ground (arith, p.1))
Placed-io_ends resetting n server io guard k on off p = absurd (ground (arith, p.1))
Placed-io_ends joining_io n server io guard k on off p = ((λ x. cc), p.1, p.2, p.3)
Placed-io_ends destroying n server io guard k on off p = (refl, p.1, p.2)
Placed-io_ends leaving n server io guard k on off p = absurd (p.0 on)
Placed-io_ends gone n server io guard k on off p = absurd (p.0 on)

-- A server that runs needs the main thread before the end of the joins.
pub held_by_server :
    (m : Main) (n : ℕ) (server : ℕ → Thread) (io : Thread) (guard : Bool) (k i : ℕ)
    → Placed m n server io guard k
    → i < n
    → server i ≡ running
    → (io ≡ running) × (guard ≡ true) × (k ≡ 0)
held_by_server building n server io guard k i p h on = absurd (omega (arith, p.0))
held_by_server (spawning ps) n server io guard k i p h on = p
held_by_server (joining j) n server io guard k i p h on = (p.0, p.1, p.2)
held_by_server resetting n server io guard k i p h on = (p.0, p.1, p.2)
held_by_server joining_io n server io guard k i p h on = absurd (ground (arith, p.3 i))
held_by_server destroying n server io guard k i p h on = absurd (ground (arith, p.2 i))
held_by_server leaving n server io guard k i p h on = absurd (ground (arith, p.2 i))
held_by_server gone n server io guard k i p h on = absurd (ground (arith, p.2 i))

-- The environment stands while the `io_context` runs.
pub held_by_io :
    (m : Main) (n : ℕ) (server : ℕ → Thread) (io : Thread) (guard : Bool) (k : ℕ)
    → Placed m n server io guard k
    → io ≡ running
    → k ≡ 0
held_by_io building n server io guard k p on = p.3
held_by_io (spawning ps) n server io guard k p on = p.2
held_by_io (joining j) n server io guard k p on = p.2
held_by_io resetting n server io guard k p on = p.2
held_by_io joining_io n server io guard k p on = p.2
held_by_io destroying n server io guard k p on = p.1
held_by_io leaving n server io guard k p on = absurd (p.0 on)
held_by_io gone n server io guard k p on = absurd (p.0 on)
