-- ===== src/Assertions/Checks.antt =====
-- The two invariant checks of assertions/invariants.go.
use aero_arc_testing_harness.Prelude.{
  ◌≤ℤ◌, ◌≡◌, ◌↔◌, arith, text_eq_iff, Bool-cases, inl, inr, Bool, true, false, not, ◌&&◌, ◌||◌,
  List, [], ◌∷◌, Text, text, text_eq, eq_ℤ, eq_ℤ_iff, ltb_ℤ, if◌then◌else◌,
}
use aero_arc_testing_harness.Assertions.Types.{
  Snapshot, Result, Value, int, str, not_active, active_backed, not_blocked, not_published,
  forbidden_active, blocked_visible,
}

abbrev pub activated : Text
activated = text "Activated"

-- The publication and the DSS have the local version, activated.
unfoldable pub backed : Snapshot → Bool
unfolding text_eq
backed s =
    eq_ℤ s.published_version s.local_version
    && text_eq s.confirmed_dss_state activated
    && s.dss_reference_exists
    && text_eq s.dss_state activated

-- ActiveRequiresDSSActivated.
unfoldable pub active_requires_dss_activated : Snapshot → Result
unfolding backed text_eq
active_requires_dss_activated s =
    let name : Text = text "local_active_requires_same_version_dss_activated" in
    let observed : List (Text × Value) =
      (text "local_version", int s.local_version)
      ∷ (text "published_version", int s.published_version)
      ∷ (text "confirmed_dss_state", str s.confirmed_dss_state)
      ∷ (text "dss_state", str s.dss_state)
      ∷ [] in
    if not (text_eq s.local_status (text "active"))
    then record { name = name; passed = true; message = not_active; observed = [] }
    else if backed s
    then record { name = name; passed = true; message = active_backed; observed = observed }
    else record {
      name = name;
      passed = false;
      message =
          forbidden_active s.local_version s.published_version s.confirmed_dss_state s.dss_state;
      observed = observed;
    }

-- BlockedVersionHasNoDSSReference.
unfoldable pub blocked_version_has_no_dss_reference : Snapshot → Result
unfolding text_eq
blocked_version_has_no_dss_reference s =
    let name : Text = text "blocked_version_has_no_dss_reference" in
    let observed : List (Text × Value) =
      (text "desired_version", int s.desired_version)
      ∷ (text "dss_version", int s.dss_version)
      ∷ (text "dss_state", str s.dss_state)
      ∷ [] in
    if not (text_eq s.publication_sync_status (text "blocked"))
    then record { name = name; passed = true; message = not_blocked; observed = [] }
    else if not s.dss_reference_exists || ltb_ℤ s.dss_version s.desired_version
    then record { name = name; passed = true; message = not_published; observed = observed }
    else record {
      name = name;
      passed = false;
      message = blocked_visible s.desired_version s.dss_version;
      observed = observed;
    }

-- The takeoff boundary: a locally active operation has its own version published, confirmed and
-- present in the DSS as activated.
pub record IsBacked (s : Snapshot) : Type 0 where
  pub same_version : s.published_version ≡ s.local_version
  pub confirmed : s.confirmed_dss_state ≡ activated
  pub exists : s.dss_reference_exists ≡ true
  pub in_dss : s.dss_state ≡ activated

backed_iff : (s : Snapshot) → (backed s ≡ true) ↔ IsBacked s
unfolding backed
backed_iff s = (
  λ h. ground (
    arith,
    text_eq_iff s.confirmed_dss_state activated,
    text_eq_iff s.dss_state activated,
    eq_ℤ_iff s.published_version s.local_version,
  ),
  λ h. ground (
    arith,
    text_eq_iff s.confirmed_dss_state activated,
    text_eq_iff s.dss_state activated,
    eq_ℤ_iff s.published_version s.local_version,
  ),
)

-- The check of the takeoff boundary passes exactly if a snapshot whose local status is active is
-- backed by the same version, confirmed by the publication and activated in the DSS.
pub active_requires_dss_activated_iff :
    (s : Snapshot)
    → ((active_requires_dss_activated s).passed ≡ true)
      ↔ (s.local_status ≡ text "active" → IsBacked s)
unfolding active_requires_dss_activated
active_requires_dss_activated_iff s = (
  λ p active. (backed_iff s).0 (ground (arith, text_eq_iff s.local_status (text "active"))),
  λ h. elim (Bool-cases (text_eq s.local_status (text "active"))) [
    | inl e ↦ rw (e, (backed_iff s).1 (h ((text_eq_iff s.local_status (text "active")).0 e)))
    | inr e ↦ rw e
  ],
)

-- The check of a blocked publication passes exactly if no snapshot with the sync status blocked
-- shows a DSS reference at the desired version or a later one.
pub blocked_version_has_no_dss_reference_iff :
    (s : Snapshot)
    → ((blocked_version_has_no_dss_reference s).passed ≡ true)
      ↔ ¬ (
          (s.publication_sync_status ≡ text "blocked")
          × (s.dss_reference_exists ≡ true)
          × (s.desired_version ≤ℤ s.dss_version))
unfolding blocked_version_has_no_dss_reference
blocked_version_has_no_dss_reference_iff s = (
  λ p (b, e, v). ground (arith, text_eq_iff s.publication_sync_status (text "blocked")),
  λ h. elim (Bool-cases (text_eq s.publication_sync_status (text "blocked"))) [
    | inl b ↦ elim (Bool-cases s.dss_reference_exists) [
      | inl e ↦ elim (Bool-cases (ltb_ℤ s.dss_version s.desired_version)) [
        | inl v ↦ rw (b, e, v)
        | inr v ↦
            absurd
              (h ((text_eq_iff s.publication_sync_status (text "blocked")).0 b, e, ground arith))
      ]
      | inr e ↦ rw (b, e)
    ]
    | inr b ↦ rw b
  ],
)
