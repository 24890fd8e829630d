-- ===== src/Stacks/Sparing.antt =====
-- What Close of internal/stack/stack.go, and the clean-up of a Start that fails, leave alone.
use aero_arc_testing_harness.Prelude.{◌≡◌, ◌⊎◌, Text}
use aero_arc_testing_harness.Stacks.Types.{Docker}
use aero_arc_testing_harness.Stacks.Tracking.{IsQuiet}

module _ {C W : Type 0} (Gone : C → W → Type 0) where
  -- What gone means: a container goes by its own termination alone, and not by the removal of a
  -- network.
  pub record GoesAlone (docker : Docker C W) : Type 0 where
    pub own : (c d : C) (w : W) → Gone d (docker.terminate c w).0 → (c ≡ d) ⊎ Gone d w
    pub network_spares : (n : Text) → IsQuiet Gone (docker.remove_network n)
