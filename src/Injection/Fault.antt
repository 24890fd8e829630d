-- ===== src/Injection/Fault.antt =====
-- The faults of faults/fault.go. A duration is a number of nanoseconds.
use aero_arc_testing_harness.Prelude.{
  ℤ, pos, negsuc, suc, ◌/◌, ◌-ℤ◌, ◌<ℤ◌, ◌≤ℤ◌, ◌≡◌, refl, ◌≢◌, ◌↔◌, ◌⊎◌, inl, inr, ◌&&◌, ◌||◌, not,
  [], Option, none, some, Text, text, text_eq, text_eq_iff, Dict, lookup, eq_ℤ, ltb_ℤ,
  if◌then◌else◌, arith,
}

-- A value of the attributes. Of a float64 only its conversion to an int is kept, and nothing of
-- a value of another type.
pub data Attribute : Type 0 where
  int : ℤ → Attribute
  float64 : (converted : ℤ) → Attribute
  other : Attribute

pub record Fault : Type 0 where
  pub name : Text
  pub kind : Text
  pub target : Text
  pub operation : Text
  pub count : ℤ
  pub duration : ℤ
  pub attributes : Option (Dict Attribute)

abbrev pub drop_response_after_commit : Text
drop_response_after_commit = text "drop_response_after_commit"

abbrev pub http_status : Text
http_status = text "http_status"

abbrev pub malformed_response : Text
malformed_response = text "malformed_response"

abbrev pub latency : Text
latency = text "latency"

abbrev pub timeout : Text
timeout = text "timeout"

abbrev pub connection_reset : Text
connection_reset = text "connection_reset"

abbrev pub container_kill : Text
container_kill = text "container_kill"

pub record Receipt : Type 0 where
  pub fault : Fault
  pub injector : Text
  pub external_id : Text
  pub enabled_at : ℤ

-- The errors of faults/fault.go and of the two injectors.
pub data InjectError : Type 0 where
  incomplete_fault negative_bound : InjectError
  unbounded without_operation : (name : Text) → InjectError
  another_injector : (kind : Text) → InjectError
  bad_request request_failed : (message : Text) → InjectError
  bad_status : ℤ → InjectError

-- Fault.Validate: the error, if there is one.
unfoldable pub validate : Fault → Option InjectError
unfolding text_eq
validate f =
    if text_eq f.name [] || text_eq f.kind [] || text_eq f.target []
    then some incomplete_fault
    else if ltb_ℤ f.count (pos 0) || ltb_ℤ f.duration (pos 0)
    then some negative_bound
    else if eq_ℤ f.count (pos 0) && eq_ℤ f.duration (pos 0) && not (text_eq f.kind container_kill)
    then some (unbounded f.name)
    else none

-- Duration.Milliseconds, which cuts off towards zero.
unfoldable pub milliseconds : ℤ → ℤ
unfolding ◌-ℤ◌
milliseconds (pos n) = pos (n / 1_000_000)
milliseconds (negsuc n) = pos 0 -ℤ pos (suc n / 1_000_000)

-- attributeInt of faults/fixture/injector.go.
unfoldable pub attribute_int : Option (Dict Attribute) → Text → ℤ → ℤ
unfolding lookup
attribute_int none key fallback = fallback
attribute_int (some attributes) key fallback = elim (lookup key attributes) [
  | none ↦ fallback
  | some a ↦ elim a [ int v ↦ v | float64 v ↦ v | other ↦ fallback ]
]

-- intAttribute of faults/toxiproxy/injector.go.
unfoldable pub int_attribute : Option (Dict Attribute) → Text → ℤ
unfolding lookup
int_attribute none key = pos 0
int_attribute (some attributes) key = elim (lookup key attributes) [
  | none ↦ pos 0
  | some a ↦ elim a [ int v ↦ v | float64 v ↦ v | other ↦ pos 0 ]
]

pub sum_cases : {A B : Type 0} (x : A ⊎ B) → ((a : A) × (x ≡ inl a)) ⊎ ((b : B) × (x ≡ inr b))
sum_cases (inl a) = inl (a, refl)
sum_cases (inr b) = inr (b, refl)

-- What a fault needs: its three names, no negative bound, and a bound that is not zero, which
-- only the kill of a container may lack.
pub record IsBounded (f : Fault) : Type 0 where
  pub named : f.name ≢ []
  pub kinded : f.kind ≢ []
  pub targeted : f.target ≢ []
  pub counted : pos 0 ≤ℤ f.count
  pub lasting : pos 0 ≤ℤ f.duration
  pub bounded : (pos 0 <ℤ f.count) ⊎ (pos 0 <ℤ f.duration) ⊎ (f.kind ≡ container_kill)

-- Validate accepts exactly the faults that have their names and are bounded by a positive count
-- or a positive duration, neither of them negative, or that kill a container.
pub validate_iff : (f : Fault) → (validate f ≡ none) ↔ IsBounded f
unfolding validate
validate_iff f =
    let n = text_eq_iff f.name [] in
    let k = text_eq_iff f.kind [] in
    let t = text_eq_iff f.target [] in
    let c = text_eq_iff f.kind container_kill in
    (
      λ h. record {
        named = λ e. ground (arith, n);
        kinded = λ e. ground (arith, k);
        targeted = λ e. ground (arith, t);
        counted = ground arith;
        lasting = ground arith;
        bounded = ground (arith, c);
      },
      λ b.
          ground
            (arith, n, k, t, c, b.named, b.kinded, b.targeted, b.counted, b.lasting, b.bounded),
    )
