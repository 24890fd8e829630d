-- ===== src/Fixture/Reading.antt =====
-- The helpers for clients of internal/fixture/server.go: DecodeEvents and ParseRetryAfter.
use aero_arc_testing_harness.Prelude.{
  ℕ, ℤ, pos, ◌*◌, ◌≤◌, ◌≡◌, ◌↔◌, ap, List, Option, none, some, Text, ltb_ℤ, eq_ℤ, if◌then◌else◌,
  Outcome, ok, failed, wrap_64, ◌*ℤ◌, arith,
}
use aero_arc_testing_harness.Fixture.Types.{Event, Decoded, decoded, undecodable}

pub data EventsError : Type 0 where
  nil_response : EventsError
  events_status : ℤ → EventsError
  decode_events_failed : (error : Text) → EventsError

pub data Events : Type 0 where
  read : List Event → Events
  unread : EventsError → Events

-- DecodeEvents, of a response with its status and what its body decodes to, or of nil.
unfoldable pub decode_events : Option (ℤ × Decoded (List Event)) → Events
decode_events none = unread nil_response
decode_events (some (status, body)) =
    if eq_ℤ status (pos 200)
    then elim body [
      | decoded events ↦ read events
      | undecodable e ↦ unread (decode_events_failed e)
    ]
    else unread (events_status status)

-- The error of ParseRetryAfter, for a value.
pub data RetryError : Type 0 where
  invalid_retry_after : (value : Text) → RetryError

pub data RetryAfter : Type 0 where
  duration : ℤ → RetryAfter
  invalid : RetryError → RetryAfter

-- ParseRetryAfter; `parsed` is what strconv.Atoi makes of the value without its outer spaces.
unfoldable pub parse_retry_after : (value : Text) (parsed : Outcome ℤ) → RetryAfter
unfolding wrap_64 ◌*ℤ◌
parse_retry_after value (failed e) = invalid (invalid_retry_after value)
parse_retry_after value (ok seconds) =
    if ltb_ℤ seconds (pos 0)
    then invalid (invalid_retry_after value)
    else duration (wrap_64 (seconds *ℤ pos 1_000_000_000))

seconds_of : RetryAfter → ℤ
seconds_of (duration d) = d
seconds_of (invalid e) = pos 0

-- A number of seconds that Atoi gives is returned as that duration exactly if it is at most
-- 9223372036; a larger one overflows, and is returned as another duration without an error.
pub parse_retry_after-exact :
    (value : Text) (n : ℕ)
    → (parse_retry_after value (ok (pos n)) ≡ duration (pos (n * 1_000_000_000)))
      ↔ (n ≤ 9_223_372_036)
unfolding parse_retry_after wrap_64 ◌*ℤ◌ seconds_of
parse_retry_after-exact value n = (λ h. let e = ap seconds_of h in ground arith, λ h. ground arith)
