-- ===== src/Injection/Tests.antt =====
-- Faults and servers, and the results at them for faults/fault.go and the injectors.
use aero_arc_testing_harness.Prelude.{
  ℤ, pos, ◌≡◌, ◌↔◌, ◌⊎◌, refl, List, [], ◌∷◌, ◌++◌, none, some, inr, text, text_eq, Dict, lookup,
  insert, erase, Outcome, ok, if◌then◌else◌,
}
use aero_arc_testing_harness.Fixture.Types.{FaultPlan, Request, decoded, new}
use aero_arc_testing_harness.Fixture.Samples.{config, request}
use aero_arc_testing_harness.Fixture.Faults.{snapshot, handle_fault}
use aero_arc_testing_harness.Fixture.Router.{Route}
use aero_arc_testing_harness.Fixture.Budget.{taken, budget}
use aero_arc_testing_harness.Injection.Fault.{
  Fault, Receipt, request_failed, Attribute, http_status, latency,
}
use aero_arc_testing_harness.Injection.ByFixture
use aero_arc_testing_harness.Injection.ByFixture.{plan_of, confirm}
use aero_arc_testing_harness.Injection.ByToxiproxy
use aero_arc_testing_harness.Injection.ByToxiproxy.{
  duration_millis, duration_millis-zero, toxic_of, creation, deletion, enable-disable,
}
use aero_arc_testing_harness.Injection.Client.{Call, Payload, nothing, new_proxy, new_toxic, Toxic}
use aero_arc_testing_harness.Injection.Delivery.{
  Transport, delivered, answer_lost, arm, clear, uses, IsArmedUnseen, enable-taken, enable-refused,
  disable-faults,
}

abbrev outage : Fault
outage = record {
  name = text "dss-outage";
  kind = http_status;
  target = text "dss";
  operation = text "dss.query_references";
  count = pos 2;
  duration = pos 0;
  attributes = some ((text "status", Attribute.int (pos 503)) ∷ []);
}

-- The same fault with a status that the server refuses.
abbrev refused_outage : Fault
refused_outage = record outage { attributes = some ((text "status", Attribute.int (pos 600)) ∷ []) }

abbrev slow : Fault
slow = record outage { kind = latency; duration = pos 250_000_000 }

abbrev queries : List (Route × Request)
queries =
    (Route.query_references, request [] [])
    ∷ (Route.query_subscriptions, request [] [])
    ∷ (Route.query_references, request [] [])
    ∷ (Route.query_references, request [] [])
    ∷ []

abbrev receipt_slow : Receipt
receipt_slow = record {
  fault = slow;
  injector = text "toxiproxy";
  external_id = slow.name;
  enabled_at = pos 1;
}

disable-faults_example :
    ByFixture.disable
      (clear delivered)
      (record { fault = outage; injector = []; external_id = []; enabled_at = pos 0 })
      (new config)
    ≡ (record (new config) { faults = [] }, none)
disable-faults_example =
    disable-faults (record { fault = outage; injector = []; external_id = []; enabled_at = pos 0 })
      (new config)

-- The answer to the arming request comes too late.
abbrev late : Transport
late = answer_lost (text "context deadline exceeded")

enable-refused_example :
    ((ByFixture.enable (arm late (λ p. decoded p)) (pos 1) outage (new config)).0 ≡ new config)
    ⊎ IsArmedUnseen late
        (λ p. decoded p)
        outage
        (new config)
        (ByFixture.enable (arm late (λ p. decoded p)) (pos 1) outage (new config)).0
        (request_failed (text "context deadline exceeded"))
unfolding ByFixture.enable handle_fault
enable-refused_example =
    enable-refused late (λ p. decoded p) (pos 1) outage (new config)
      (request_failed (text "context deadline exceeded")) refl

-- A status that the server refuses is not armed.
enable-refuses :
    (ByFixture.enable (arm delivered (λ p. decoded p)) (pos 1) refused_outage (new config)).0
    ≡ new config
unfolding ByFixture.enable handle_fault
enable-refuses = refl

enable-taken_example :
    (p : FaultPlan) × (plan_of outage ≡ inr p)
    × (taken outage.operation queries
          (ByFixture.enable (arm delivered (λ p. decoded p)) (pos 1) outage (new config)).0
        ≡ budget (uses outage.count) (snapshot p) outage.operation queries)
unfolding ByFixture.enable handle_fault
enable-taken_example =
    enable-taken delivered (λ p. decoded p) (pos 1) outage (new config) _ _ queries (λ p. refl) refl
      ((_, refl), ((_, refl), ((_, refl), ((_, refl), tt))))

-- A Toxiproxy that keeps the paths at which toxics stand.
post : Payload → Dict Toxic → Dict Toxic × Outcome ℤ
unfolding insert
post nothing w = (w, ok (pos 400))
post (new_proxy name listen upstream) w = (w, ok (pos 201))
post (new_toxic t) w = (insert (text "/proxies/dss/toxics/" ++ t.name) t w, ok (pos 200))

toxiproxy : Call → Dict Toxic → Dict Toxic × Outcome ℤ
unfolding post erase lookup text_eq
toxiproxy call w =
    if text_eq call.method (text "POST")
    then post call.payload w
    else (erase call.path w, ok (elim (lookup call.path w) [ none ↦ pos 404 | some t ↦ pos 204 ]))

enable-disable_example :
    (t : Toxic) × (toxic_of slow ≡ inr t)
    × (t.name ≡ slow.name)
    × ((toxiproxy (creation toxiproxy (λ t. t) (text "dss") t) []
          ≡ ((ByToxiproxy.enable toxiproxy (λ t. t) (text "dss") (pos 1) slow []).0, ok (pos 200)))
        ⊎ (toxiproxy (creation toxiproxy (λ t. t) (text "dss") t) [] ≡ (
          (ByToxiproxy.enable toxiproxy (λ t. t) (text "dss") (pos 1) slow []).0,
          ok (pos 201),
        )))
    × ((later : Dict Toxic)
        → ((ByToxiproxy.disable toxiproxy (λ t. t) (text "dss") receipt_slow later).0
            ≡ (toxiproxy (deletion toxiproxy (λ t. t) (text "dss") slow.name) later).0)
          × (((ByToxiproxy.disable toxiproxy (λ t. t) (text "dss") receipt_slow later).1 ≡ none) ↔ (
              ((toxiproxy (deletion toxiproxy (λ t. t) (text "dss") slow.name) later).1
                ≡ ok (pos 204))
              ⊎ ((toxiproxy (deletion toxiproxy (λ t. t) (text "dss") slow.name) later).1
                  ≡ ok (pos 404)))))
unfolding ByToxiproxy.enable toxiproxy
enable-disable_example =
    enable-disable toxiproxy (λ t. t) (text "dss") (pos 1) slow [] _ receipt_slow refl
