-- ===== src/App/Components/Library.antt =====
-- `oatpp::Environment` as src/AppComponent.h and src/App.cpp use it: components by their types and
-- names.
use wsgateway.Prelude.{
  ◌&&◌, ℕ, ◌≡◌, ◌==◌, List, [], ◌∷◌, Option, none, some, Bytes, if◌then◌else◌, same,
}

-- The types of the components.
pub data Kind : Type 0 where
  config_kind executor_kind providers_kind router_kind handler_kind json_mapper_kind : Kind
  data_mapper_kind manager_kind request_executor_kind io_context_kind work_guard_kind : Kind

abbrev pub kind_code : Kind → ℕ
kind_code config_kind = 0
kind_code executor_kind = 1
kind_code providers_kind = 2
kind_code router_kind = 3
kind_code handler_kind = 4
kind_code json_mapper_kind = 5
kind_code data_mapper_kind = 6
kind_code manager_kind = 7
kind_code request_executor_kind = 8
kind_code io_context_kind = 9
kind_code work_guard_kind = 10

-- `create` registers a component, `get` and `get_named` look one up; `none` where they throw.
pub record Environment (C : Type 0) : Type 1 where
  pub State : Type 0
  pub empty : State
  pub create : Kind → Bytes → C → State → Option State
  pub get : Kind → State → Option C
  pub get_named : Kind → Bytes → State → Option C

module _ {C : Type 0} where
  -- The components of a kind, and the one of a kind and a name.
  abbrev pub of_kind : Kind → List (Kind × Bytes × C) → List C
  of_kind k [] = []
  of_kind k ((j, n, c) ∷ cs) = if kind_code j == kind_code k then c ∷ of_kind k cs else of_kind k cs

  abbrev pub named : Kind → Bytes → List (Kind × Bytes × C) → Option C
  named k n [] = none
  named k n ((j, x, c) ∷ cs) =
      if (kind_code j == kind_code k) && same x n then some c else named k n cs

  -- What is documented: an environment is empty at first, a component is registered where there is
  -- none of its type and name, `get` finds the one of a type that has only one, and `get_named` the
  -- one of a type and a name.
  pub record EnvironmentLaws (e : Environment C) : Type 0 where
    pub held : e.State → List (Kind × Bytes × C)
    pub held_empty : held e.empty ≡ []
    pub create_new :
        (k : Kind) (n : Bytes) (c : C) (s : e.State)
        → named k n (held s) ≡ none
        → (t : e.State) × (e.create k n c s ≡ some t) × (held t ≡ (k, n, c) ∷ held s)
    pub get_only :
        (k : Kind) (s : e.State) (c : C) → of_kind k (held s) ≡ c ∷ [] → e.get k s ≡ some c
    pub get_held :
        (k : Kind) (n : Bytes) (s : e.State) (c : C)
        → named k n (held s) ≡ some c
        → e.get_named k n s ≡ some c
