-- ===== src/Stacks/Cleanup.antt =====
-- What Start of internal/stack/stack.go leaves, whether it succeeds or fails.
use aero_arc_testing_harness.Prelude.{
  ◌≡◌, refl, ◌⊎◌, inl, inr, false, ◌||◌, List, [], ◌∷◌, ◌++◌, none, Text, text, text_eq, Outcome,
  Option-cases, Bool-cases,
}
use aero_arc_testing_harness.Injection.Client.{Call}
use aero_arc_testing_harness.Stacks.Types.{ContainerRequest, Stack, Manifest, api}
use aero_arc_testing_harness.Stacks.Lifecycle.{closing_order, close, terminate_all}
use aero_arc_testing_harness.Stacks.Upkeep.{keys, capture}
use aero_arc_testing_harness.Stacks.Actions.{
  Failure, Result, Done, value, raised, launch, first_missing,
}
use aero_arc_testing_harness.Stacks.Requests.{Config}
use aero_arc_testing_harness.Stacks.Startup.{
  Host, Control, register, bounded, required, new_stack, provision, clean_up, start,
}
use aero_arc_testing_harness.Stacks.Names.{listed}
use aero_arc_testing_harness.Stacks.Tracking.{IsQuiet, IsLifetime, Tracking, Leads}
use aero_arc_testing_harness.Stacks.Steps.{
  bind-Leads, call-Leads, effect-Leads, proxying-Leads, update-Leads, launch-Leads,
}
use aero_arc_testing_harness.Stacks.Aftermath.{
  Downs, Course, IsLeftBehind, turned_down, Kept-Course, Course-leaves, Course-close,
  terminated-down,
}
use aero_arc_testing_harness.Stacks.Quiet.{
  AreQuiet, endpoint-IsQuiet, write_manifest-quiet, capture-quiet, create_proxy-quiet,
}

-- The order in which Start launches the containers.
abbrev pub starting_order : List Text
starting_order = text "postgis" ∷ text "fixture" ∷ text "toxiproxy" ∷ api ∷ []

-- What holds of what is up in a world: its containers have lifetimes, and the files, the logs and
-- Toxiproxy bring none up.
pub record IsSettled {C W : Type 0} (Up : C → W → Type 0) (host : Host C W) (control : Control W)
    : Type 1 where
  pub life : IsLifetime Up host.docker
  pub still : AreQuiet Up host.files host.logs
  pub silent : (base_url : Text) (c : Call) → IsQuiet Up (control.send base_url c)

abbrev pub stack_tracking :
    {C W : Type 0} → Host C W → (Up : C → W → Type 0) → (before : W) → Tracking C W (Stack C)
stack_tracking host Up before = record {
  docker = host.docker;
  Up = Up;
  registry = λ s. s.containers;
  register = register;
  before = before;
  order = starting_order;
}

-- The steps of a Start, and the environment that they end with.
abbrev pub start_steps :
    {C W : Type 0}
    → Host C W
    → Control W
    → (Manifest → Outcome Text)
    → Config
    → W
    → (W × Stack C) × Result Done
start_steps host control marshal config w =
    let fresh = new_stack (host.now w) config in
    provision host control marshal (bounded config) fresh.run_id (w, fresh)

module _ {C W : Type 0} (host : Host C W) (control : Control W) (marshal : Manifest → Outcome Text)
    (Up : C → W → Type 0) (settled : IsSettled Up host control) where
  started :
      {before : W} (network what alias : Text) {names : List Text} (request : ContainerRequest)
      → listed alias names ≡ false
      → (rest : List Text) × ((names ++ alias ∷ []) ++ rest ≡ starting_order)
      → Leads
          (stack_tracking host Up before)
          names
          (names ++ alias ∷ [])
          (launch host.docker register network what alias request)
  started network what alias request =
      launch-Leads network what alias request settled.life (λ name c s. refl)

  provision-Leads :
      (before : W) (config : Config) (run_id : Text)
      → Leads
          (stack_tracking host Up before)
          []
          starting_order
          (provision host control marshal config run_id)
  unfolding provision text_eq
  provision-Leads before config run_id =
      let life = settled.life in
      let reach = endpoint-IsQuiet Up host.docker life in
      bind-Leads (call-Leads _ _ (life.new_network_quiet _)) λ network.
        bind-Leads (update-Leads _ (λ e. refl)) λ _.
          bind-Leads (started network _ (text "postgis") _ refl (_, refl)) λ postgis.
            bind-Leads (started network _ (text "fixture") _ refl (_, refl)) λ fixture.
              bind-Leads (call-Leads _ _ (reach fixture _ _)) λ fixture_url.
                bind-Leads (update-Leads _ (λ e. refl)) λ _.
                  bind-Leads (started network _ (text "toxiproxy") _ refl (_, refl)) λ toxi.
                    bind-Leads (call-Leads _ _ (reach toxi _ _)) λ toxi_url.
                      bind-Leads (update-Leads _ (λ e. refl)) λ _.
                        bind-Leads (call-Leads _ _ (λ d w up. up)) λ client.
                          bind-Leads (update-Leads _ (λ e. refl)) λ _.
                            bind-Leads
                              (proxying-Leads _ (
                                create_proxy-quiet Up (control.send client) control.escape
                                  (settled.silent client) _ _ _))
                              λ _. bind-Leads (started network _ api _ refl (_, refl)) λ server.
                                bind-Leads (call-Leads _ _ (reach server _ _)) λ api_url.
                                  bind-Leads (update-Leads _ (λ e. refl)) λ _.
                                    bind-Leads (call-Leads _ _ (reach postgis _ _)) λ database.
                                      bind-Leads (update-Leads _ (λ e. refl)) λ _.
                                        effect-Leads _ (λ s d w.
                                          write_manifest-quiet Up host.files host.logs settled.still
                                            marshal (host.now w) s d w)

  close-Downs :
      (before : W)
      → ((c : C) (v : W) → (host.docker.terminate c v).1 ≡ none)
      → Downs (stack_tracking host Up before) (λ s w. (close host.docker s w).0)
  unfolding close
  close-Downs before good = record {
    down = λ s w names rest registered ahead d up.
        terminated-down settled.life closing_order s.containers w names rest good registered ahead
          (λ P h. (h.1.1.1.1.0, (h.1.1.1.0, (h.1.1.0, (h.0, tt))))) d
          (elim (Option-cases s.network) [
            | inl never ↦ rw (close, never) at up
            | inr (n, there) ↦
                settled.life.remove_network_quiet n d
                  (terminate_all host.docker closing_order s.containers none w).0
                  (rw (close, there) at up)
          ]);
  }

  clean_up-Downs :
      (before : W)
      → ((c : C) (v : W) → (host.docker.terminate c v).1 ≡ none)
      → Downs (stack_tracking host Up before) (clean_up host)
  unfolding clean_up
  clean_up-Downs before good = record {
    down = λ s w names rest registered ahead d up.
        let captured = (capture host.logs host.range s w).0 in
        let (still, unregistered) =
          (close-Downs before good).down s captured names rest registered ahead d up in
        (capture-quiet Up host.files host.logs settled.still host.range s d w still, unregistered);
  }

  start-Course :
      (config : Config) (w : W)
      → Course
          (stack_tracking host Up w)
          (clean_up host)
          (start_steps host control marshal config w)
          (start host control marshal config w)
  unfolding start
  start-Course config w =
      elim (Bool-cases (
        text_eq config.root_dir []
        || text_eq config.api_source []
        || text_eq config.artifact_dir [])) [
          | inl bad ↦ rw (start, bad) (turned_down _)
          | inr fine ↦ elim (Option-cases (first_missing host.stat (required config) w)) [
            | inr (m, missing) ↦ rw (start, fine, missing) (turned_down _)
            | inl there ↦
                let fresh = new_stack (host.now w) config in
                rw (start, fine, there)
                  (Kept-Course (stack_tracking host Up w) (clean_up host)
                    (provision host control marshal (bounded config) fresh.run_id (w, fresh))
                    ((provision-Leads w (bounded config) fresh.run_id).kept (w, fresh)
                      (record {
                        covers = λ d up. inl up;
                        registered = refl;
                        ahead = (starting_order, refl);
                      })))
          ]
        ]

  -- A Start that fails leaves up at most what was up before it, when every termination succeeds,
  -- and a container of which all of this holds: it was handed back by GenericContainer with an
  -- error, in the last launch before the steps of Start stopped; Start returns that very error,
  -- with the words that it puts before it; the launch was that of the name that comes next after
  -- the registered ones; and at that time, when the clean-up begins, the container was registered
  -- under no name.
  pub start-leaves :
      (config : Config) (w : W) (e : Failure)
      → ((c : C) (v : W) → (host.docker.terminate c v).1 ≡ none)
      → (start host control marshal config w).1 ≡ raised e
      → (d : C) → Up d (start host control marshal config w).0
      → Up d w
        ⊎ IsLeftBehind
            (stack_tracking host Up w)
            (clean_up host)
            (start_steps host control marshal config w)
            (start host control marshal config w).0
            e
            d
  start-leaves config w e good h =
      Course-leaves (stack_tracking host Up w) (clean_up host)
        (start_steps host control marshal config w) (start host control marshal config w) e
        (clean_up-Downs w good) (start-Course config w) h

  -- A Start that succeeds has registered the four containers in the order in which it launched
  -- them, and a Close right after it, when every termination succeeds, leaves up only what was up
  -- before the Start.
  pub start-close :
      (config : Config) (w : W) (s : Stack C)
      → ((c : C) (v : W) → (host.docker.terminate c v).1 ≡ none)
      → (start host control marshal config w).1 ≡ value s
      → (keys s.containers ≡ starting_order)
        × ((d : C) → Up d (close host.docker s (start host control marshal config w).0).0 → Up d w)
  start-close config w s good h =
      Course-close (stack_tracking host Up w) (clean_up host) (λ x v. (close host.docker x v).0)
        (start_steps host control marshal config w) (start host control marshal config w) s
        (close-Downs w good) (start-Course config w) h
