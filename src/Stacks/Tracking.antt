-- ===== src/Stacks/Tracking.antt =====
-- What is up and what is registered while a Start takes its steps, for internal/stack/stack.go
-- and internal/realdss/stack.go.
use aero_arc_testing_harness.Prelude.{◌≡◌, ◌⊎◌, List, [], ◌∷◌, ◌++◌, none, some, Text, Dict, lookup}
use aero_arc_testing_harness.Stacks.Types.{ContainerRequest, Launch, launched, not_launched, Docker}
use aero_arc_testing_harness.Stacks.Lifecycle.{start_container}
use aero_arc_testing_harness.Stacks.Upkeep.{keys}
use aero_arc_testing_harness.Stacks.Actions.{Failure, message, Result, value, raised, Action}

module _ {C W : Type 0} (Up : C → W → Type 0) where
  -- A call that brings nothing up.
  abbrev pub IsQuiet : {A : Type 0} → (W → W × A) → Type 0
  IsQuiet f = (d : C) (w : W) → Up d (f w).0 → Up d w

  -- What a launch hands back.
  abbrev pub Handed : C → Launch C → Type 0
  Handed d (launched c) = c ≡ d
  Handed d (not_launched left e) = left ≡ some d

  -- What up means: a launch brings up at most the container that it hands back, and the other
  -- calls of Docker bring up none. A termination that reports no error takes its container down.
  pub record IsLifetime (docker : Docker C W) : Type 0 where
    pub launching :
        (request : ContainerRequest) (d : C) (w : W)
        → Up d (docker.generic_container request w).0
        → Up d w ⊎ Handed d (docker.generic_container request w).1
    pub new_network_quiet : (labels : Dict Text) → IsQuiet (docker.new_network labels)
    pub host_quiet : (c : C) → IsQuiet (docker.host c)
    pub mapped_port_quiet : (c : C) (port : Text) → IsQuiet (docker.mapped_port c port)
    pub exit_code_quiet : (c : C) → IsQuiet (docker.exit_code c)
    pub terminate_quiet : (c : C) → IsQuiet (docker.terminate c)
    pub remove_network_quiet : (network : Text) → IsQuiet (docker.remove_network network)
    pub terminated :
        (c : C) (w : W) → (docker.terminate c w).1 ≡ none → ¬ (Up c (docker.terminate c w).0)

-- What is followed: the containers of Docker that are up, the registry of an environment and how
-- it registers a container, the world before, and the order of the names.
pub record Tracking (C W E : Type 0) : Type 1 where
  pub docker : Docker C W
  pub Up : C → W → Type 0
  pub registry : E → Dict C
  pub register : Text → C → E → E
  pub before : W
  pub order : List Text

module _ {C W E : Type 0} (t : Tracking C W E) where
  -- A container that a launch handed back with the error, which some words were put before: the
  -- launch of the name that comes next in the order, and it ended in this state.
  pub record IsLeft (failure : Failure) (s : W × E) (d : C) : Type 0 where
    pub network : Text
    pub alias : Text
    pub request : ContainerRequest
    pub earlier : W
    pub what : Text
    pub error : Text
    pub later : List Text
    pub handed :
        start_container t.docker network alias request earlier ≡ (s.0, not_launched (some d) error)
    pub told : failure ≡ message (what ++ error)
    pub next : (keys (t.registry s.1) ++ alias ∷ []) ++ later ≡ t.order

  -- Of the order, these names are registered, and what is up is registered or accounted for.
  pub record IsTracked (Known : C → Type 0) (names : List Text) (s : W × E) : Type 0 where
    pub covers :
        (d : C) → t.Up d s.0 → Known d ⊎ ((name : Text) × (lookup name (t.registry s.1) ≡ some d))
    pub registered : keys (t.registry s.1) ≡ names
    pub ahead : (rest : List Text) × (names ++ rest ≡ t.order)

  abbrev pub WasUp : C → Type 0
  WasUp d = t.Up d t.before

  -- After a step, what is not registered was up before; after one that failed, it may have been
  -- handed back with the error.
  abbrev pub Kept : {A : Type 0} → List Text → (W × E) × Result A → Type 0
  Kept names (s, value a) = IsTracked WasUp names s
  Kept names (s, raised e) =
      (some_names : List Text) × IsTracked (λ d. t.Up d t.before ⊎ IsLeft e s d) some_names s

  -- A step that leads from some registered names to others, and leaves the tracking as it is when
  -- it fails.
  pub record Leads {A : Type 0} (names more : List Text) (m : Action (W × E) A) : Type 0 where
    pub kept : (s : W × E) → IsTracked WasUp names s → Kept more (m s)
