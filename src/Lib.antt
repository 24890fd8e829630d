-- ===== src/Lib.antt =====
-- Verification of the Aero Arc testing harness.
--
-- The harness runs federation scenarios against a system under test. A scenario (scenarios/)
-- drives the environment to checkpoints, injects faults by their behaviour (faults/), and checks
-- invariants across the authorities of the system (assertions/). The DSS and the peer of the
-- fixture profile are one deterministic server (internal/fixture/), in which the fixture injector
-- (faults/fixture/) arms its faults; network faults go to Toxiproxy (faults/toxiproxy/ with its
-- client, internal/toxiproxy/). The probe reads the DSS's references from that same server. What
-- a run left, go's test events and the timeline of checkpoints, is made into a report (reports/,
-- cmd/e2e-report), and the reports of repeated runs into one more (cmd/e2e-repeat-report). The
-- system under test and the fixture run in containers (internal/stack/, internal/realdss/).
--
-- Files and code:
--   Prelude        what the parts share: Go's int with its wrap-around, strings as lists of bytes,
--                  decimal numerals, maps as association lists, results of fallible calls
--   Fixture        internal/fixture/server.go. Types: FaultPlan, Reference, Event, Config, New;
--                  Wire: writeJSON, respond, record, closeConnection; Faults: handleFault,
--                  takeFault, preCommitFault; References: the handlers of references, with
--                  handlePutReference in its steps put_refusal, put_reference and conclude;
--                  Router: the other handlers, Handler and a history of requests; Reading:
--                  DecodeEvents and ParseRetryAfter. Samples: servers and requests for tests.
--                  Invariant and Preservation, Locking and Versions, Transparency, Budget,
--                  Journal, Numbers, Contents and Edges hold what is proved of them. Threads: the handlers
--                  again, as threads of sections that the mutex or the counter makes indivisible;
--                  Interleaving: such a thread alone, and interleavings of many; Specification:
--                  requests that take their effect on the references in one go. Alone, Atomic,
--                  Linear, Interleaved and Races hold what is proved of the threads
--   Assertions     assertions/invariants.go. Types; Checks: the two invariants; Probe: Snapshot
--                  and the observer of the fixture; Eventually: the sampling loop; Convergence:
--                  what is proved of the loop; Authority: the observer over the fixture server
--   Injection      Fault: faults/fault.go; ByFixture: faults/fixture/injector.go; Client:
--                  internal/toxiproxy/client.go; ByToxiproxy: faults/toxiproxy/injector.go;
--                  Delivery: the fixture injector over the fixture server, whose answer may be lost
--   Scenarios      scenarios/runner.go in Runner; Brackets reads a scenario as nested brackets
--   Reports        reports/report.go in Types, Parse, Junit, Markdown and Bundle (WriteBundle);
--                  reports/timeline.go in Timeline; LoadTimeline and cmd/e2e-report in Command.
--                  Reading, Listing, Summaries, Leaves and Packages hold what is proved of Parse,
--                  Cells of markdownDetails, Roundtrip of Record and LoadTimeline
--   Repeats        cmd/e2e-repeat-report/main.go in Types, Aggregate and Write; Percentile,
--                  Tallies, Statistics, Scenarios and Runs hold what is proved of aggregate
--   Stacks         internal/stack/stack.go. Types; Readiness: waitForAPI; Lifecycle: StopAPI,
--                  StartAPI, StartReplacementAPI, writeManifest, Close; Upkeep: Capture and Reset;
--                  Requests and Startup: Start, and NewClient of internal/toxiproxy/client.go;
--                  Actions: the steps of a Start, with startContainer and the registration of its
--                  container. Names, Tracking, Steps and Aftermath follow what is up through a
--                  Start, Quiet has the operations that bring nothing up; Inputs, Cleanup,
--                  Sparing, Waiting, Teardown and Replacement hold what is proved of Start,
--                  waitForAPI, Close and StartReplacementAPI
--   RealDss        internal/realdss/stack.go. Types and Requests; Operations: Capture, Close,
--                  writeManifest and helpers; Startup: Start with its migrations; Observer:
--                  Observer, token and ObserveDSSReference. Quiet, Cleanup, Migrations and Observed hold what is proved
--                  of them
--
-- Conventions. A handler is a function from the server's state to the new state and the reply; a
-- history is a list of requests, each handled in one go; an interleaving is a list of moves, in
-- which a request arrives or one of the threads goes through its next section. What the
-- environment decides comes as arguments: the clock's readings, whether a client outlasts a delay, whether a connection can be
-- taken over, the order in which a map is ranged over, what a request, a query or an action
-- answers. A duration is a number of nanoseconds, and an int is an integer with the wrap-around
-- of 64 bits where the code can reach it. Errors are values that keep the arguments of their
-- message. JSON is not modelled: a body is the value encoded, or what it decodes to.
--
-- The fuel of a decimal numeral is the number itself and one more, which is more rounds than it
-- has digits; that of the rounding to 53 bits is 64 halvings, enough for any product of a length
-- below 2 ^ 64. All other recursion is structural. The sampling loop and the wait for a restarted
-- API are given the rounds that they may run, and their results say whether they were enough (the
-- endings `running` and `waiting` if they were not); a round that succeeds or at whose timer the
-- context ends is enough.
--
-- A Start is a chain of steps on the world and the stack so far, which ends at the first error;
-- `up` is any predicate of containers for which Docker's calls have the documented effects
-- (Stacks.Tracking.IsLifetime). GenericContainer may hand back a container together with an error.
--
-- Not modelled: the constructors of the probe,
-- which open a connection pool; environments/, which only aliases the stacks; the fixture's
-- command (cmd/fault-fixture), which starts an HTTP server; the end-to-end tests, the scripts and
-- the deployment files. Docker, the database, the HTTP client, the file system, JSON and XML
-- encoders, the printing of floats and the case tables of Unicode are arguments.
pub mod Prelude
pub mod Fixture
pub mod Assertions
pub mod Injection
pub mod Scenarios
pub mod Reports
pub mod Repeats
pub mod Stacks
pub mod RealDss
