-- ===== src/Stacks/Actions.antt =====
-- The chains of calls in Start of internal/stack/stack.go and of internal/realdss/stack.go. A step
-- changes a world `W` and what is put together of an environment `E`, and gives a value or the
-- error that Start returns.
use aero_arc_testing_harness.Prelude.{
  List, [], ◌∷◌, ◌++◌, Option, none, some, Text, Outcome, ok, failed,
}
use aero_arc_testing_harness.Injection.Client.{ClientError}
use aero_arc_testing_harness.Stacks.Types.{ContainerRequest, launched, not_launched, Docker}
use aero_arc_testing_harness.Stacks.Lifecycle.{start_container}

-- An error: a text, or what the client of Toxiproxy says of a proxy that was not created.
pub data Failure : Type 0 where
  message : Text → Failure
  no_proxy : ClientError → Failure

pub data Result (A : Type 0) : Type 0 where
  value : A → Result A
  raised : Failure → Result A

pub data Done : Type 0 where
  done : Done

abbrev pub Action : Type 0 → Type 0 → Type 0
Action S A = S → S × Result A

infixl 5 ◌>>=◌ ◌>>◌
unfoldable pub ◌>>=◌ : {S A B : Type 0} → Action S A → (A → Action S B) → Action S B
(m >>= f) s = elim (m s).1 [ value a ↦ f a (m s).0 | raised e ↦ ((m s).0, raised e) ]

abbrev pub ◌>>◌ : {S B : Type 0} → Action S Done → Action S B → Action S B
m >> k = m >>= λ _. k

module _ {W E : Type 0} where
  -- A call that gives a value, its error after some words.
  unfoldable pub call : {A : Type 0} → (what : Text) → (W → W × Outcome A) → Action (W × E) A
  call what f s =
      let r = f s.0 in
      ((r.0, s.1), elim r.1 [ ok a ↦ value a | failed e ↦ raised (message (what ++ e)) ])

  -- A call on the environment so far that gives an error or none.
  unfoldable pub effect : (E → W → W × Option Text) → Action (W × E) Done
  effect f s =
      let r = f s.1 s.0 in
      ((r.0, s.1), elim r.1 [ none ↦ value done | some e ↦ raised (message e) ])

  unfoldable pub proxying : (W → W × Option ClientError) → Action (W × E) Done
  proxying f s =
      let r = f s.0 in ((r.0, s.1), elim r.1 [ none ↦ value done | some e ↦ raised (no_proxy e) ])

  unfoldable pub update : (E → E) → Action (W × E) Done
  update f s = ((s.0, f s.1), value done)

-- startContainer, after which the container is registered under its alias. A container that comes
-- with an error is not.
unfoldable pub launch :
    {C W E : Type 0}
    → Docker C W
    → (register : Text → C → E → E) (network what alias : Text) → ContainerRequest
    → Action (W × E) C
launch docker register network what alias request s =
    let r = start_container docker network alias request s.0 in
    elim r.1 [
      | launched c ↦ ((r.0, register alias c s.1), value c)
      | not_launched left e ↦ ((r.0, s.1), raised (message (what ++ e)))
    ]

-- os.Stat of the required files: the first one that is missing, and why.
unfoldable pub first_missing :
    {W : Type 0}
    → (stat : List Text → W → Option Text) → List (List Text)
    → W
    → Option (List Text × Text)
first_missing stat [] w = none
first_missing stat (path ∷ rest) w = elim (stat path w) [
  | some e ↦ some (path, e)
  | none ↦ first_missing stat rest w
]
