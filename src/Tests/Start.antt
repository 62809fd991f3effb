-- ===== src/Tests/Start.antt =====
-- The components of src/AppComponent.h in an environment that is a list.
use wsgateway.Prelude.{◌≡◌, true, false, refl, List, [], ◌∷◌, Option, none, some, Bytes}
use wsgateway.App.Providers.{Provider, connection_providers}
use wsgateway.App.Components.Library.{Kind, Environment, EnvironmentLaws, of_kind, named}
use wsgateway.App.Components.{Component}
use wsgateway.App.Launch.{ended, launch, Starts, launch_lem}
use wsgateway.App.Order.{run_all, statements}
use wsgateway.Config.{new_config}
use wsgateway.Scylla.Driver.{Driver}
use wsgateway.Scylla.Manager
use wsgateway.Scylla.Manager.{execute_query}
use wsgateway.Scylla.Table.Memory.{Rows}
use wsgateway.Tests.Utilis.{no_env, offline}
use wsgateway.Tests.App.{openssl, opens, joins}

abbrev only : List Component → Option Component
only [] = none
only (c ∷ []) = some c
only (c ∷ d ∷ cs) = none

abbrev created :
    Option Component
    → Kind
    → Bytes
    → Component
    → List (Kind × Bytes × Component)
    → Option (List (Kind × Bytes × Component))
created none k n c s = some ((k, n, c) ∷ s)
created (some d) k n c s = none

abbrev pub environment : Environment Component
environment = record {
  State = List (Kind × Bytes × Component);
  empty = [];
  create = λ k n c s. created (named k n s) k n c s;
  get = λ k s. only (of_kind k s);
  get_named = λ k n s. named k n s;
}

pub environment_laws : EnvironmentLaws environment
environment_laws = record {
  held = λ s. s;
  held_empty = refl;
  create_new = λ k n c s e. ((k, n, c) ∷ s, rw e refl, refl);
  get_only = λ k s c e. rw e refl;
  get_held = λ k n s c e. e;
}

-- A database to which every statement succeeds.
abbrev pub willing : Driver
willing = record { State = Rows; execute = λ q rows. (rows, some []) }

launch_lem_example :
    let c = new_config no_env offline in
    (connection_providers openssl opens c ≡ none
      → launch environment openssl opens willing joins no_env offline [] ≡ ended [])
    × ((ps : List Provider)
        → connection_providers openssl opens c ≡ some ps
        → (true ≡ false
            → launch environment openssl opens willing joins no_env offline [] ≡ ended [])
          × (true ≡ true
              → (run_all willing (statements c) []).1 ≡ false
              → launch environment openssl opens willing joins no_env offline []
                ≡ ended (run_all willing (statements c) []).0)
          × (true ≡ true
              → (run_all willing (statements c) []).1 ≡ true
              → Starts environment openssl opens willing joins environment_laws no_env offline []
                  ps))
unfolding wsgateway.Scylla.Manager.connect
launch_lem_example =
    launch_lem environment openssl opens willing joins environment_laws no_env offline []

pub willing_stored : (run_all willing (statements (new_config no_env offline)) []).1 ≡ true
unfolding execute_query
willing_stored = refl
