-- ===== src/Assertions/Probe.antt =====
-- The probe of assertions/invariants.go: one observation of all authorities. What the database
-- and the DSS answer are arguments.
use aero_arc_testing_harness.Prelude.{
  ℤ, pos, ◌≡◌, refl, true, false, List, [], ◌∷◌, Option, none, some, Text, text_eq, eq_ℤ,
  if◌then◌else◌, Outcome, ok, failed,
}
use aero_arc_testing_harness.Assertions.Types.{Snapshot, DssReference}
use aero_arc_testing_harness.Assertions.Checks.{blocked_version_has_no_dss_reference}

-- The newest row of operational_intents.
pub record LocalRow : Type 0 where
  pub version : ℤ
  pub status : Text

-- The row of operational_intent_publications; two of its columns can be NULL.
pub record PublicationRow : Type 0 where
  pub desired_version : ℤ
  pub published_version : ℤ
  pub desired_state : Text
  pub sync_status : Text
  pub confirmed_state : Option Text
  pub ovn : Option Text

pub data ProbeError : Type 0 where
  query_local_intent query_dss_reference : (error : Text) → ProbeError

pub data Observation : Type 0 where
  observed : Snapshot → Observation
  unobserved : ProbeError → Observation

abbrev pub or_empty : Option Text → Text
or_empty none = []
or_empty (some t) = t

-- Scan fills the row, as far as it gets if there is an error; the columns that can be NULL are
-- copied only if there is none.
unfoldable pub with_publication : PublicationRow → Option Text → Snapshot → Snapshot
with_publication row err s =
    let scanned = record s {
      desired_version = row.desired_version;
      published_version = row.published_version;
      desired_dss_state = row.desired_state;
      publication_sync_status = row.sync_status;
    } in
    elim err [
      | some e ↦ scanned
      | none ↦ record scanned {
        confirmed_dss_state = or_empty row.confirmed_state;
        publication_ovn = or_empty row.ovn;
      }
    ]

-- What a query that gives no row leaves.
abbrev pub unscanned : PublicationRow
unscanned = record {
  desired_version = pos 0;
  published_version = pos 0;
  desired_state = [];
  sync_status = [];
  confirmed_state = none;
  ovn = none;
}

unfoldable pub with_reference : DssReference → Snapshot → Snapshot
with_reference d s = record s {
  dss_reference_exists = d.exists;
  dss_version = d.version;
  dss_state = d.state;
  dss_ovn = d.ovn;
}

abbrev pub begin_snapshot : ℤ → Text → LocalRow → Snapshot
begin_snapshot now intent_id row = record {
  observed_at = now;
  intent_id = intent_id;
  local_version = row.version;
  local_status = row.status;
  desired_version = pos 0;
  published_version = pos 0;
  desired_dss_state = [];
  confirmed_dss_state = [];
  publication_sync_status = [];
  publication_ovn = [];
  dss_reference_exists = false;
  dss_version = pos 0;
  dss_state = [];
  dss_ovn = [];
}

-- Probe.Snapshot.
unfoldable pub snapshot :
    (now : ℤ) (intent_id : Text)
    → Outcome LocalRow
    → PublicationRow × Option Text
    → Outcome DssReference
    → Observation
unfolding with_publication with_reference
snapshot now intent_id (failed error) publication reference = unobserved (query_local_intent error)
snapshot now intent_id (ok row) publication (failed error) = unobserved (query_dss_reference error)
snapshot now intent_id (ok row) (publication, err) (ok reference) =
    observed (
      with_reference reference
        (with_publication publication err (begin_snapshot now intent_id row)))

-- An entry of the list that the fixture's state endpoint returns.
pub record ListedReference : Type 0 where
  pub id : Text
  pub version : ℤ
  pub state : Text
  pub ovn : Text
  pub manager : Text
  pub uss_base_url : Text

pub data ObserveError : Type 0 where
  query_failed decode_failed : (error : Text) → ObserveError
  bad_status : ℤ → ObserveError

abbrev pub no_reference : DssReference
no_reference = record {
  exists = false;
  version = pos 0;
  state = [];
  ovn = [];
  manager = [];
  uss_base_url = [];
}

abbrev pub reference_of : ListedReference → DssReference
reference_of r = record {
  exists = true;
  version = r.version;
  state = r.state;
  ovn = r.ovn;
  manager = r.manager;
  uss_base_url = r.uss_base_url;
}

-- The first listed reference with the id.
unfoldable pub find_reference : Text → List ListedReference → DssReference
unfolding text_eq
find_reference intent_id [] = no_reference
find_reference intent_id (r ∷ rest) =
    if text_eq r.id intent_id then reference_of r else find_reference intent_id rest

pub data Observed : Type 0 where
  reference : DssReference → Observed
  error : ObserveError → Observed

-- fixtureDSSObserver.ObserveDSSReference, from the outcome of the request: the status and what
-- the body decodes to.
unfoldable pub observe_dss_reference :
    Text → Outcome (ℤ × Outcome (List ListedReference)) → Observed
unfolding find_reference
observe_dss_reference intent_id (failed e) = error (query_failed e)
observe_dss_reference intent_id (ok (status, ok listed)) =
    if eq_ℤ status (pos 200)
    then reference (find_reference intent_id listed)
    else error (bad_status status)
observe_dss_reference intent_id (ok (status, failed e)) =
    if eq_ℤ status (pos 200) then error (decode_failed e) else error (bad_status status)

-- A query for the publication that fails before it gives a row, for whatever reason, makes the
-- check of blocked publications pass: it is no error of the snapshot, which has no sync status
-- then, whatever the local row and the DSS say.
pub unread_publication_passes :
    (now : ℤ) (intent_id : Text) (row : LocalRow) (e : Text) (d : DssReference)
    → (s : Snapshot) × (snapshot now intent_id (ok row) (unscanned, some e) (ok d) ≡ observed s)
      × ((blocked_version_has_no_dss_reference s).passed ≡ true)
      × (s.dss_version ≡ d.version)
      × (s.dss_reference_exists ≡ d.exists)
unfolding snapshot with_reference with_publication blocked_version_has_no_dss_reference
unread_publication_passes now intent_id row e d = (_, refl, refl, refl, refl)
