-- ===== src/Assertions/Types.antt =====
-- The data of assertions/invariants.go. A message is kept as its format with its arguments.
use aero_arc_testing_harness.Prelude.{ℤ, Bool, List, Text}

pub record Snapshot : Type 0 where
  pub observed_at : ℤ
  pub intent_id : Text
  pub local_version : ℤ
  pub local_status : Text
  pub desired_version : ℤ
  pub published_version : ℤ
  pub desired_dss_state : Text
  pub confirmed_dss_state : Text
  pub publication_sync_status : Text
  pub publication_ovn : Text
  pub dss_reference_exists : Bool
  pub dss_version : ℤ
  pub dss_state : Text
  pub dss_ovn : Text

pub data Message : Type 0 where
  not_active active_backed not_blocked not_published : Message
  forbidden_active : (local_version published_version : ℤ) (confirmed dss : Text) → Message
  blocked_visible : (desired_version dss_version : ℤ) → Message

-- A value of the map that a result reports.
pub data Value : Type 0 where
  int : ℤ → Value
  str : Text → Value

pub record Result : Type 0 where
  pub name : Text
  pub passed : Bool
  pub message : Message
  pub observed : List (Text × Value)

pub record DssReference : Type 0 where
  pub exists : Bool
  pub version : ℤ
  pub state : Text
  pub ovn : Text
  pub manager : Text
  pub uss_base_url : Text
