-- ===== src/App/Lifecycle.antt =====
-- The threads of `run` and `main` of src/App.cpp from the first server to the process's end: one
-- thread for each server, one that runs the `io_context`, and the main thread that joins them and
-- destroys the environment, in which all of them look up their components.
pub mod Placed
pub mod Sound
pub mod Ends
use wsgateway.Prelude.{at, ℕ, ◌+◌, ◌<◌, ◌≡◌, Bool, true, false, List, [], ◌∷◌}
use wsgateway.App.Providers.{Provider}

pub data Thread : Type 0 where
  not_started running ended : Thread

-- Where the main thread stands: before the `io_context` runs, in the loop over the providers that
-- are left, joining the server of a number, behind the servers, before the end of the `io_context`,
-- before the environment is destroyed in `run`, behind `run` and behind `main`.
pub data Main : Type 0 where
  building : Main
  spawning : List Provider → Main
  joining : ℕ → Main
  resetting joining_io destroying leaving gone : Main

-- `guard` keeps the `io_context` running without work; `destroyed` counts the calls of
-- `Environment::destroy`.
pub record Process : Type 0 where
  pub main : Main
  pub server : ℕ → Thread
  pub spawned : ℕ
  pub io : Thread
  pub guard : Bool
  pub work : ℕ
  pub destroyed : ℕ

abbrev pub started : Process
started = record {
  main = building;
  server = λ i. not_started;
  spawned = 0;
  io = not_started;
  guard = true;
  work = 0;
  destroyed = 0;
}

-- One step of one thread. What comes before the loop may throw, a thread that cannot be started is
-- left out, a server runs until it is stopped, and the coroutines come and go. The call of
-- `destroy` in `run` may throw too: `run` catches that and ends as well.
pub data Step (providers : List Provider) : Process → Process → Type 0 where
  throws : (s : Process) → s.main ≡ building → Step providers s (record s { main = leaving })
  builds :
      (s : Process)
      → s.main ≡ building
      → Step providers s (record s { main = spawning providers; io = running })
  spawns :
      (s : Process) (p : Provider) (ps : List Provider)
      → s.main ≡ spawning (p ∷ ps)
      → Step providers s (record s {
        main = spawning ps;
        server = at s.spawned running s.server;
        spawned = s.spawned + 1;
      })
  skips :
      (s : Process) (p : Provider) (ps : List Provider)
      → s.main ≡ spawning (p ∷ ps)
      → Step providers s (record s { main = spawning ps })
  all_spawned :
      (s : Process) → s.main ≡ spawning [] → Step providers s (record s { main = joining 0 })
  stops :
      (s : Process) (i : ℕ)
      → s.server i ≡ running
      → Step providers s (record s { server = at i ended s.server })
  joins :
      (s : Process) (i : ℕ)
      → s.main ≡ joining i
      → i < s.spawned
      → s.server i ≡ ended
      → Step providers s (record s { main = joining (i + 1) })
  all_joined :
      (s : Process) → s.main ≡ joining s.spawned → Step providers s (record s { main = resetting })
  works : (s : Process) (n : ℕ) → Step providers s (record s { work = n })
  resets :
      (s : Process)
      → s.main ≡ resetting
      → Step providers s (record s { main = joining_io; guard = false })
  io_ends :
      (s : Process)
      → s.io ≡ running
      → s.guard ≡ false
      → s.work ≡ 0
      → Step providers s (record s { io = ended })
  io_joins :
      (s : Process)
      → s.main ≡ joining_io
      → s.io ≡ ended
      → Step providers s (record s { main = destroying })
  destroys :
      (s : Process)
      → s.main ≡ destroying
      → Step providers s (record s { main = leaving; destroyed = s.destroyed + 1 })
  leaves :
      (s : Process)
      → s.main ≡ leaving
      → Step providers s (record s { main = gone; destroyed = s.destroyed + 1 })

pub data Reach (providers : List Provider) (s : Process) : Process → Type 0 where
  here : Reach providers s s
  next : {t u : Process} → Reach providers s t → Step providers t u → Reach providers s u
