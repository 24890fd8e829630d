-- ===== src/Fixture/Numbers.antt =====
-- The numbers of the journal of internal/fixture/server.go over a history of requests.
use aero_arc_testing_harness.Prelude.{
  ℕ, suc, ◌+◌, ◌<◌, ◌≡◌, refl, ap, ◌∙◌, List, [], ◌∷◌, ◌++◌, length, arith, two_64,
}
use mathlib.Core.List.{append_assoc}
use aero_arc_testing_harness.Fixture.Types.{Event, Server, Request}
use aero_arc_testing_harness.Fixture.Wire.{next_sequence}
use aero_arc_testing_harness.Fixture.Router.{Route, handle, run}
use aero_arc_testing_harness.Fixture.Budget.{IsServing}
use aero_arc_testing_harness.Fixture.Journal.{handle-IsRecorded}

pub next_sequence-small : (n : ℕ) → suc n < two_64 → next_sequence n ≡ suc n
unfolding next_sequence
next_sequence-small n h = omega arith

-- What a history of requests to the endpoints leaves in the journal: the entries before it, as
-- many entries as there are requests, and the last of them under the count of all.
pub record IsNumbered (history : List (Route × Request)) (s : Server) (n : ℕ) : Type 0 where
  pub between : List Event
  pub last : Event
  pub appended : (run history s).events ≡ s.events ++ (between ++ last ∷ [])
  pub number_is : last.sequence ≡ n
  pub many : suc (length between) ≡ length history

pub run-IsNumbered :
    (route : Route) (r : Request) (rest : List (Route × Request)) (s : Server)
    → IsServing ((route, r) ∷ rest)
    → s.sequence + length ((route, r) ∷ rest) < two_64
    → IsNumbered ((route, r) ∷ rest) s (s.sequence + length ((route, r) ∷ rest))
unfolding run
run-IsNumbered route r [] s ((o, named), _) small =
    let recorded = handle-IsRecorded route r s named in
    record {
      between = [];
      last = recorded.event;
      appended = recorded.appended;
      number_is = recorded.number_is ∙ next_sequence-small s.sequence (omega arith) ∙ omega arith;
      many = refl;
    }
run-IsNumbered route r ((route', r') ∷ rest) s ((o, named), serving) small =
    let recorded = handle-IsRecorded route r s named in
    let s' = (handle route r s).0 in
    let counted : s'.sequence ≡ suc s.sequence =
      recorded.counted ∙ next_sequence-small s.sequence (omega arith) in
    let later = run-IsNumbered route' r' rest s' serving (omega arith) in
    record {
      between = recorded.event ∷ later.between;
      last = later.last;
      appended =
          later.appended
          ∙ ap (λ l. l ++ (later.between ++ later.last ∷ [])) recorded.appended
          ∙ append_assoc s.events (recorded.event ∷ []) (later.between ++ later.last ∷ []);
      number_is = later.number_is ∙ omega arith;
      many = ap (λ n. suc n) later.many;
    }
