-- ===== src/Stacks/Upkeep.antt =====
-- Capture and Reset of internal/stack/stack.go. The connection pool, the HTTP client and the files
-- are arguments.
use aero_arc_testing_harness.Prelude.{
  ℕ, List, [], ◌∷◌, ◌++◌, Option, none, some, Text, text, text_less, if◌then◌else◌, ◌==◌, decimal,
  Dict, lookup, Outcome, ok, failed, sort,
}
use aero_arc_testing_harness.Stacks.Types.{Stack}
use aero_arc_testing_harness.Stacks.Lifecycle.{first_error}

-- What Reset calls: pgxpool.New, Exec, http.NewRequest and Do, with the status of the response.
pub record Clients (W : Type 0) : Type 0 where
  pub open_pool : (database_url : Text) → W → W × Option Text
  pub exec : (statement : Text) → W → W × Option Text
  pub bad_url : Text → Option Text
  pub post : (url : Text) → W → W × Outcome ℕ

-- The calls of Capture on a world with containers `C`; a path is the list of parts.
pub record LogFiles (C W : Type 0) : Type 0 where
  pub make_directory : (path : List Text) → W → W × Option Text
  pub logs : C → W → W × Outcome Text
  pub create : (path : List Text) → W → W × Option Text
  pub copy : (path : List Text) → Text → W → W × Option Text

-- The statement without its line breaks.
abbrev pub truncate : Text
truncate =
    text "TRUNCATE mission_deployments, mission_items, missions, flight_records, "
    ++ text "received_peer_notifications, peer_notifications, "
    ++ text "operational_intent_publications, conflict_findings, "
    ++ text "operational_volumes, operational_intents"

module _ {C W : Type 0} (clients : Clients W) where
  unfoldable pub reset : Stack C → W → W × Option Text
  reset s w =
      let o = clients.open_pool s.database_url w in
      elim o.1 [
        | some e ↦ (o.0, some (text "open reset database connection: " ++ e))
        | none ↦
            let t = clients.exec truncate o.0 in
            elim t.1 [
              | some e ↦ (t.0, some (text "reset Aero Arc state: " ++ e))
              | none ↦
                  let url = s.fixture_control_url ++ text "/control/reset" in
                  elim (clients.bad_url url) [
                    | some e ↦ (t.0, some (text "create fixture reset request: " ++ e))
                    | none ↦
                        let r = clients.post url t.0 in
                        elim r.1 [
                          | failed e ↦ (r.0, some (text "reset DSS fixture: " ++ e))
                          | ok status ↦ (
                            r.0,
                            if status == 204
                                then none
                                else some (text "reset DSS fixture returned " ++ decimal status),
                          )
                        ]
                  ]
            ]
      ]

abbrev pub keys : {C : Type 0} → Dict C → List Text
keys [] = []
keys ((k, c) ∷ m) = k ∷ keys m

module _ {C W : Type 0} (files : LogFiles C W) where
  -- The log of one container, after the first error so far.
  unfoldable pub capture_one : (path : List Text) → C → (first : Option Text) → W → W × Option Text
  capture_one path c first w =
      let l = files.logs c w in
      elim l.1 [
        | failed e ↦ (l.0, first_error first [] (some e))
        | ok content ↦
            let made = files.create path l.0 in
            elim made.1 [
              | some e ↦ (made.0, first_error first [] (some e))
              | none ↦
                  let copied = files.copy path content made.0 in
                  (copied.0, first_error first [] copied.1)
            ]
      ]

  abbrev pub capture_all :
      (logs_dir : List Text) → List Text → Dict C → (first : Option Text) → W → W × Option Text
  capture_all logs_dir [] containers first w = (w, first)
  capture_all logs_dir (name ∷ rest) containers first w = elim (lookup name containers) [
    | none ↦ capture_all logs_dir rest containers first w
    | some c ↦
        let r = capture_one (logs_dir ++ (name ++ text ".log") ∷ []) c first w in
        capture_all logs_dir rest containers r.1 r.0
  ]

  -- Capture; `range` is the order in which the map of containers is ranged over.
  unfoldable pub capture : (range : Dict C → Dict C) → Stack C → W → W × Option Text
  capture range s w =
      let logs_dir = s.artifact_dir ∷ text "logs" ∷ [] in
      let made = files.make_directory logs_dir w in
      elim made.1 [
        | some e ↦ made
        | none ↦
            let names = sort (λ t. t) text_less (keys (range s.containers)) in
            capture_all logs_dir names s.containers none made.0
      ]
