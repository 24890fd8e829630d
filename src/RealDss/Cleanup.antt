-- ===== src/RealDss/Cleanup.antt =====
-- What Start of internal/realdss/stack.go leaves, whether it succeeds or fails.
use aero_arc_testing_harness.Prelude.{
  ◌≡◌, refl, ◌⊎◌, inl, inr, false, ◌||◌, List, [], ◌∷◌, ◌++◌, none, Text, text, text_eq, Outcome,
  Option-cases, Bool-cases, All,
}
use aero_arc_testing_harness.Stacks.Types.{ContainerRequest}
use aero_arc_testing_harness.Stacks.Lifecycle.{terminate_all}
use aero_arc_testing_harness.Stacks.Upkeep.{keys}
use aero_arc_testing_harness.Stacks.Actions.{
  Failure, Result, Done, value, raised, launch, first_missing,
}
use aero_arc_testing_harness.Stacks.Startup.{Host}
use aero_arc_testing_harness.Stacks.Names.{listed}
use aero_arc_testing_harness.Stacks.Tracking.{IsLifetime, Tracking, Leads}
use aero_arc_testing_harness.Stacks.Steps.{
  bind-Leads, call-Leads, effect-Leads, update-Leads, launch-Leads,
}
use aero_arc_testing_harness.Stacks.Aftermath.{
  Downs, Course, IsLeftBehind, turned_down, Kept-Course, Course-leaves, Course-close,
  terminated-down,
}
use aero_arc_testing_harness.Stacks.Quiet.{AreQuiet, endpoint-IsQuiet}
use aero_arc_testing_harness.RealDss.Types.{
  Config, Environment, Manifest, crdb, scd_migration, migration_name, bounded, required,
  new_environment, register,
}
use aero_arc_testing_harness.RealDss.Operations.{closing_order, close, capture, clean_up}
use aero_arc_testing_harness.RealDss.Startup.{start_postgis, migrate, migrate_all, provision, start}
use aero_arc_testing_harness.RealDss.Quiet.{
  require_successful_exit-quiet, participant-quiet, write_manifest-quiet, capture-quiet,
}

-- The order in which Start launches the containers.
abbrev pub starting_order : List Text
starting_order =
    crdb
    ∷ scd_migration
    ∷ text "interuss-rid-migration"
    ∷ text "interuss-aux-migration"
    ∷ text "interuss-oauth"
    ∷ text "interuss-dss"
    ∷ text "postgis-a"
    ∷ text "postgis-b"
    ∷ text "uss-a"
    ∷ text "uss-b"
    ∷ []

abbrev pub environment_tracking :
    {C W : Type 0} → Host C W → (Up : C → W → Type 0) → (before : W) → Tracking C W (Environment C)
environment_tracking host Up before = record {
  docker = host.docker;
  Up = Up;
  registry = λ e. e.containers;
  register = register;
  before = before;
  order = starting_order;
}

-- The steps of a Start, and the environment that they end with.
abbrev pub start_steps :
    {C W : Type 0}
    → Host C W
    → (Manifest → Outcome Text)
    → Config
    → W
    → (W × Environment C) × Result Done
start_steps host marshal config w =
    let fresh = new_environment (host.now w) config in
    provision host marshal (bounded config) fresh.run_id (w, fresh)

module _ {C W : Type 0} (host : Host C W) (marshal : Manifest → Outcome Text) (Up : C → W → Type 0)
    (life : IsLifetime Up host.docker) (still : AreQuiet Up host.files host.logs) where
  started :
      {before : W} (network what alias : Text) {names : List Text} (request : ContainerRequest)
      → listed alias names ≡ false
      → (rest : List Text) × ((names ++ alias ∷ []) ++ rest ≡ starting_order)
      → Leads
          (environment_tracking host Up before)
          names
          (names ++ alias ∷ [])
          (launch host.docker register network what alias request)
  started network what alias request =
      launch-Leads network what alias request life (λ name c s. refl)

  migrated :
      {before : W} (network what alias label : Text) {names : List Text}
      (request : ContainerRequest)
      → listed alias names ≡ false
      → (rest : List Text) × ((names ++ alias ∷ []) ++ rest ≡ starting_order)
      → Leads
          (environment_tracking host Up before)
          names
          (names ++ alias ∷ [])
          (migrate host network what alias label request)
  unfolding migrate
  migrated network what alias label request new ahead =
      bind-Leads (started network what alias request new ahead) λ migration.
        effect-Leads _ (λ env. require_successful_exit-quiet Up host.docker life migration label)

  provision-Leads :
      (before : W) (config : Config) (run_id : Text)
      → Leads
          (environment_tracking host Up before)
          []
          starting_order
          (provision host marshal config run_id)
  unfolding provision start_postgis migrate_all migration_name text_eq
  provision-Leads before config run_id =
      let reach = endpoint-IsQuiet Up host.docker life in
      let joins = participant-quiet Up host.docker life in
      bind-Leads (call-Leads _ _ (life.new_network_quiet _)) λ network.
        bind-Leads (update-Leads _ (λ e. refl)) λ _.
          bind-Leads (started network _ crdb _ refl (_, refl)) λ database.
            bind-Leads (migrated network _ scd_migration _ _ refl (_, refl)) λ _.
              bind-Leads
                (bind-Leads (migrated network _ (text "interuss-rid-migration") _ _ refl (_, refl))
                  λ _.
                    bind-Leads
                      (migrated network _ (text "interuss-aux-migration") _ _ refl (_, refl))
                      λ _. record { kept = λ s h. h })
                λ _.
                  bind-Leads (started network _ (text "interuss-oauth") _ refl (_, refl)) λ oauth.
                    bind-Leads (call-Leads _ _ (reach oauth _ _)) λ oauth_at.
                      bind-Leads (update-Leads _ (λ e. refl)) λ _.
                        bind-Leads (started network _ (text "interuss-dss") _ refl (_, refl))
                          λ core. bind-Leads (call-Leads _ _ (reach core _ _)) λ dss_at.
                            bind-Leads (update-Leads _ (λ e. refl)) λ _.
                              bind-Leads (started network _ (text "postgis-a") _ refl (_, refl))
                                λ postgis_a.
                                  bind-Leads (started network _ (text "postgis-b") _ refl (_, refl))
                                    λ postgis_b.
                                      bind-Leads (started network _ (text "uss-a") _ refl (_, refl))
                                        λ api_a.
                                          bind-Leads
                                            (started network _ (text "uss-b") _ refl (_, refl))
                                            λ api_b.
                                              bind-Leads
                                                (call-Leads _ _ (joins _ _ api_a postgis_a))
                                                λ a. bind-Leads (update-Leads _ (λ e. refl)) λ _.
                                                  bind-Leads
                                                    (call-Leads _ _ (joins _ _ api_b postgis_b))
                                                    λ b.
                                                      bind-Leads (update-Leads _ (λ e. refl)) λ _.
                                                        effect-Leads _ (λ env d w.
                                                          write_manifest-quiet Up host.files
                                                            host.logs still marshal (host.now w)
                                                            config env d w)

  abbrev reversed : (P : Text → Type 0) → All P closing_order → All P starting_order
  reversed P h = (
    h.1.1.1.1.1.1.1.1.1.0,
    (
      h.1.1.1.1.1.1.1.1.0,
      (
        h.1.1.1.1.1.1.1.0,
        (
          h.1.1.1.1.1.1.0,
          (h.1.1.1.1.1.0, (h.1.1.1.1.0, (h.1.1.1.0, (h.1.1.0, (h.1.0, (h.0, tt)))))),
        ),
      ),
    ),
  )

  close-Downs :
      (before : W)
      → ((c : C) (v : W) → (host.docker.terminate c v).1 ≡ none)
      → Downs (environment_tracking host Up before) (λ s w. (close host.docker s w).0)
  unfolding close
  close-Downs before good = record {
    down = λ s w names rest registered ahead d up.
        terminated-down life closing_order s.containers w names rest good registered ahead reversed
          d
          (elim (Option-cases s.network) [
            | inl never ↦ rw (close, never) at up
            | inr (n, there) ↦
                life.remove_network_quiet n d
                  (terminate_all host.docker closing_order s.containers none w).0
                  (rw (close, there) at up)
          ]);
  }

  clean_up-Downs :
      (before : W)
      → ((c : C) (v : W) → (host.docker.terminate c v).1 ≡ none)
      → Downs (environment_tracking host Up before) (clean_up host)
  unfolding clean_up
  clean_up-Downs before good = record {
    down = λ s w names rest registered ahead d up.
        let captured = (capture host.logs host.range s w).0 in
        let (there, unregistered) =
          (close-Downs before good).down s captured names rest registered ahead d up in
        (capture-quiet Up host.files host.logs still host.range s d w there, unregistered);
  }

  start-Course :
      (config : Config) (w : W)
      → Course
          (environment_tracking host Up w)
          (clean_up host)
          (start_steps host marshal config w)
          (start host marshal config w)
  unfolding start
  start-Course config w =
      elim (Bool-cases (
        text_eq config.root_dir []
        || text_eq config.api_source []
        || text_eq config.interuss_source []
        || text_eq config.artifact_dir [])) [
          | inl bad ↦ rw (start, bad) (turned_down _)
          | inr fine ↦ elim (Option-cases (first_missing host.stat (required config) w)) [
            | inr (m, missing) ↦ rw (start, fine, missing) (turned_down _)
            | inl there ↦
                let fresh = new_environment (host.now w) config in
                rw (start, fine, there)
                  (Kept-Course (environment_tracking host Up w) (clean_up host)
                    (provision host marshal (bounded config) fresh.run_id (w, fresh))
                    ((provision-Leads w (bounded config) fresh.run_id).kept (w, fresh)
                      (record {
                        covers = λ d up. inl up;
                        registered = refl;
                        ahead = (starting_order, refl);
                      })))
          ]
        ]

  -- A Start of the real DSS that fails leaves up at most what was up before it, when every
  -- termination succeeds, and a container of which all of this holds: it was handed back by
  -- GenericContainer with an error, in the last launch before the steps of Start stopped; Start
  -- returns that very error, with the words that it puts before it; the launch was that of the
  -- name that comes next after the registered ones; and at that time, when the clean-up begins,
  -- the container was registered under no name.
  pub start-leaves_real_dss :
      (config : Config) (w : W) (e : Failure)
      → ((c : C) (v : W) → (host.docker.terminate c v).1 ≡ none)
      → (start host marshal config w).1 ≡ raised e
      → (d : C) → Up d (start host marshal config w).0
      → Up d w
        ⊎ IsLeftBehind
            (environment_tracking host Up w)
            (clean_up host)
            (start_steps host marshal config w)
            (start host marshal config w).0
            e
            d
  start-leaves_real_dss config w e good h =
      Course-leaves (environment_tracking host Up w) (clean_up host)
        (start_steps host marshal config w) (start host marshal config w) e (clean_up-Downs w good)
        (start-Course config w) h

  -- A Start of the real DSS that succeeds has registered the ten containers in the order in which
  -- it launched them, and a Close right after it, when every termination succeeds, leaves up only
  -- what was up before the Start.
  pub start-close_real_dss :
      (config : Config) (w : W) (s : Environment C)
      → ((c : C) (v : W) → (host.docker.terminate c v).1 ≡ none)
      → (start host marshal config w).1 ≡ value s
      → (keys s.containers ≡ starting_order)
        × ((d : C) → Up d (close host.docker s (start host marshal config w).0).0 → Up d w)
  start-close_real_dss config w s good h =
      Course-close (environment_tracking host Up w) (clean_up host)
        (λ x v. (close host.docker x v).0) (start_steps host marshal config w)
        (start host marshal config w) s (close-Downs w good) (start-Course config w) h
