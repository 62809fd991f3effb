-- ===== src/Tests/Threads.antt =====
-- Interleavings of the threads of src/websocket/WebSocketComponents.h and src/App.cpp.
use wsgateway.Prelude.{at, ℕ, suc, ◌≤◌, ◌≡◌, ◌≢◌, refl, true, List, [], ◌∷◌, codes}
use wsgateway.App.Providers.{Provider, tcp}
use wsgateway.App.Lifecycle.{
  Process, started, spawning, gone, running, Reach, here, next, builds, spawns,
}
use wsgateway.App.Lifecycle.Sound.{Reach-stands}
use wsgateway.App.Lifecycle.Placed.{begun_of}
use wsgateway.App.Lifecycle.Ends.{Ends, Reach-Ends}

abbrev providers : List Provider
providers = tcp (record { host = codes "0.0.0.0"; port = 8000 }) ∷ []

-- One server runs.
abbrev serving : Process
serving = record started {
  main = spawning [];
  server = at 0 running started.server;
  spawned = 1;
  io = running;
}

serving_reached : Reach providers started serving
serving_reached = next (next here (builds started refl)) (spawns _ _ [] refl)

Reach-stands_example :
    (1 ≤ 1)
    × ((i : ℕ)
        → serving.server i ≡ running
        → (running ≡ running) × (true ≡ true) × (serving.destroyed ≡ 0))
    × (running ≡ running → serving.destroyed ≡ 0)
    × (spawning [] ≡ gone
        → ((i : ℕ) → serving.server i ≢ running) × (serving.destroyed ≡ suc (begun_of running)))
Reach-stands_example = Reach-stands providers serving_reached

Reach-Ends_example : Ends providers serving
Reach-Ends_example = Reach-Ends providers serving_reached
