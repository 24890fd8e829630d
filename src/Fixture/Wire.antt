-- ===== src/Fixture/Wire.antt =====
-- Writing an answer: writeJSON, respond, closeConnection, and the journal entry of a request
-- (record), of internal/fixture/server.go.
use aero_arc_testing_harness.Prelude.{
  ℕ, ℤ, pos, ◌+◌, ◌%◌, Bool, false, ◌||◌, [], ◌∷◌, ◌++◌, Option, none, some, Text, text, ltb_ℤ,
  eq_ℤ, if◌then◌else◌, two_64,
}
use aero_arc_testing_harness.Fixture.Types.{
  Event, Server, Request, FaultSnapshot, Body, nothing, incomplete, message, Reply, sent, closed,
  aborted,
}

-- What net/http does with the first status that a handler writes, and with the body after it: a
-- status that is no status makes it panic, an informational one is sent ahead of a final 200,
-- and 101, 204 and 304 have no body.
unfoldable pub write : ℤ → Body → Reply
write status body =
    if ltb_ℤ status (pos 100) || ltb_ℤ (pos 999) status
    then aborted
    else if eq_ℤ status (pos 101) || eq_ℤ status (pos 204) || eq_ℤ status (pos 304)
    then sent status nothing
    else if ltb_ℤ status (pos 200)
    then sent (pos 200) body
    else sent status body

-- writeJSON. No caller passes a nil value but under the status 204.
unfoldable pub write_json : ℤ → Body → Reply
unfolding write
write_json status value = if eq_ℤ status (pos 204) then write status nothing else write status value

-- A 64-bit counter, incremented before it is read.
unfoldable pub next_sequence : ℕ → ℕ
next_sequence n = (n + 1) % two_64

-- record.
unfoldable pub record_event : Request → Text → Text → ℤ → Option FaultSnapshot → Server → Server
unfolding next_sequence
record_event r operation intent_id status fault s =
    let event : Event = record {
      sequence = next_sequence s.sequence;
      at = r.recorded_at;
      operation = operation;
      method = r.method;
      path = r.request_uri;
      intent_id = intent_id;
      status = status;
      fault = fault;
    } in
    record s { sequence = next_sequence s.sequence; events = s.events ++ event ∷ [] }

abbrev pub malformed : Option FaultSnapshot → Bool
malformed none = false
malformed (some f) = f.malformed_json

abbrev pub closes : Option FaultSnapshot → Bool
closes none = false
closes (some f) = f.close_after_commit

-- What respond writes once the event is recorded.
unfoldable pub written : ℤ → Body → Option FaultSnapshot → Reply
unfolding write write_json
written status payload fault =
    if malformed fault then write status incomplete else write_json status payload

-- respond.
unfoldable pub respond :
    Request → Text → Text → ℤ → Body → Option FaultSnapshot → Server → Server × Reply
unfolding record_event written
respond r operation intent_id status payload fault s =
    (record_event r operation intent_id status fault s, written status payload fault)

-- closeConnection. A connection that cannot be taken over gets an answer instead.
unfoldable pub close_connection : Request → Reply
unfolding write_json
close_connection r =
    if r.can_hijack
    then closed
    else write_json (pos 503) (message (text "injected ambiguous outcome"))
