-- ===== src/Stacks/Tests.antt =====
-- A world of numbered containers, and the results at it for internal/stack/stack.go.
use aero_arc_testing_harness.Prelude.{
  ℕ, pos, ◌+◌, ◌≡◌, ◌≢◌, ◌⊎◌, refl, arith, Bool, true, false, ◌||◌, List, [], ◌∷◌, Option, length,
  none, some, Text, text, text_eq, if◌then◌else◌, ◌==◌, lookup, insert, Outcome, ok, All,
}
use aero_arc_testing_harness.Reports.Bundle.{Files}
use aero_arc_testing_harness.Stacks.Types.{Manifest, Docker, launched, Stack, api, crashed}
use aero_arc_testing_harness.Stacks.Readiness.{Round, finished, wait_rounds, wait_for_api}
use aero_arc_testing_harness.Stacks.Waiting.{IsModerate, wait_for_api-ready}
use aero_arc_testing_harness.Stacks.Lifecycle.{
  endpoint, start_container, terminate_all, closing_order, close, start_replacement_api,
  api_request, write_manifest,
}
use aero_arc_testing_harness.Stacks.Teardown.{GoesAway, close-IsDown}
use aero_arc_testing_harness.Stacks.Replacement.{start_replacement_api-drops}

-- The next container's number, and those that are gone.
abbrev World : Type 0
World = ℕ × List ℕ

abbrev listed : ℕ → List ℕ → Bool
listed c [] = false
listed c (d ∷ l) = c == d || listed c l

abbrev docker : Docker ℕ World
docker = record {
  new_network = λ labels w. (w, ok (text "net"));
  generic_container = λ request w. ((w.0 + 1, w.1), launched w.0);
  stop = λ c w. (w, none);
  start = λ c w. (w, none);
  is_running = λ c w. false;
  host = λ c w. (w, ok (text "localhost"));
  mapped_port = λ c port w. (w, ok (text "49153"));
  exit_code = λ c w. (w, ok (pos 0));
  terminate = λ c w. ((w.0, c ∷ w.1), none);
  remove_network = λ n w. (w, none);
}

abbrev Gone : ℕ → World → Type 0
Gone c w = listed c w.1 ≡ true

docker-GoesAway : GoesAway docker Gone
docker-GoesAway = record {
  terminated = λ c w h. ground arith;
  stays = λ c d w h. ground (arith, h);
  network = λ c n w h. h;
}

abbrev up : Stack ℕ
up = record {
  run_id = text "e2e-1-1";
  seed = pos 1;
  artifact_dir = text "artifacts";
  api_base_url = text "http://localhost:49152";
  fixture_control_url = [];
  database_url = [];
  toxiproxy_url = [];
  toxiproxy = none;
  network = some (text "net");
  containers = (text "postgis", 0) ∷ (text "fixture", 1) ∷ (text "toxiproxy", 2) ∷ (api, 3) ∷ [];
  root_dir = text ".";
}

closed-none : (close docker up (4, [])).1 ≡ none
unfolding close terminate_all lookup text_eq
closed-none = refl

close-IsDown_example :
    All
      (λ name. (c : ℕ) → lookup name up.containers ≡ some c → Gone c (close docker up (4, [])).0)
      closing_order
close-IsDown_example = close-IsDown docker Gone up (4, []) docker-GoesAway closed-none

abbrev files : Files World
files = record {
  make_directory = λ directory w. (w, none);
  write_file = λ directory name content w. (w, none);
}

abbrev marshal : Manifest → Outcome Text
marshal m = ok m.run_id

abbrev once : (World × Stack ℕ) × Option Text
once = start_replacement_api docker files marshal (pos 9) (text "net") up (4, [])

abbrev twice : (World × Stack ℕ) × Option Text
twice = start_replacement_api docker files marshal (pos 9) (text "net") once.0.1 (5, [])

start_replacement_api-drops_example :
    (d : ℕ) × (e : ℕ) × ((start_container docker (text "net") api (api_request up) (4, [])).1
      ≡ launched d)
    × ((start_container docker (text "net") api (api_request once.0.1) (5, [])).1 ≡ launched e)
    × (lookup crashed once.0.1.containers ≡ some 3)
    × ((name : Text)
        → lookup name twice.0.1.containers ≡ (
            if text_eq api name
            then some e
            else if text_eq crashed name
            then some d
            else lookup name up.containers))
    × ((name : Text)
        → lookup name twice.0.1.containers ≡ some 3
        → ((3 ≡ d) ⊎ (3 ≡ e))
          ⊎ ((name ≢ api) × (name ≢ crashed) × (lookup name up.containers ≡ some 3)))
start_replacement_api-drops_example =
    start_replacement_api-drops docker files marshal (pos 9) (text "net") up once.0.1 twice.0.1
      (4, []) (5, []) (5, []) (6, []) 3 (unfold lookup text_eq in refl)
      (unfold start_replacement_api write_manifest start_container endpoint lookup text_eq insert in
        refl)
      (unfold start_replacement_api write_manifest start_container endpoint lookup text_eq insert in
        refl)

abbrev quiet : Round
quiet = record { ready = false; context_ended = none }

abbrev answering : Round
answering = record { ready = true; context_ended = none }

wait_for_api-ready_example :
    (wait_for_api none (quiet ∷ quiet ∷ answering ∷ []) ≡ finished none)
    × (length (wait_rounds (quiet ∷ quiet ∷ answering ∷ []) 50_000_000 []).0 ≡ 2)
    × All IsModerate (wait_rounds (quiet ∷ quiet ∷ answering ∷ []) 50_000_000 []).0
wait_for_api-ready_example =
    wait_for_api-ready (quiet ∷ quiet ∷ []) [] answering ((refl, refl), ((refl, refl), tt)) refl
