-- ===== src/RealDss/Migrations.antt =====
-- What Start of internal/realdss/stack.go has seen of the migrations when it succeeds.
use aero_arc_testing_harness.Prelude.{
  pos, eq_ℤ, eq_ℤ_iff, ◌≡◌, refl, ap, ◌∙◌, ◌⊎◌, inl, inr, ◌||◌, List, [], ◌∷◌, Text, text, text_eq,
  Dict, Outcome, ok, outcome_cases, Option-cases, Bool-cases, All,
}
use aero_arc_testing_harness.Stacks.Types.{ContainerRequest, launched, launch_cases}
use aero_arc_testing_harness.Stacks.Lifecycle.{start_container}
use aero_arc_testing_harness.Stacks.Actions.{
  Failure, Result, value, raised, Done, done, Action, ◌>>=◌, effect, launch, first_missing,
}
use aero_arc_testing_harness.Stacks.Startup.{Host}
use aero_arc_testing_harness.RealDss.Types.{
  Config, Environment, Manifest, scd_migration, migration_name, bounded, required, new_environment,
  labels_of, register,
}
use aero_arc_testing_harness.RealDss.Requests.{scd_migration_request, migration_request}
use aero_arc_testing_harness.RealDss.Operations.{require_successful_exit}
use aero_arc_testing_harness.RealDss.Startup.{migrate, migrate_all, provision, start}

Result-cases :
    {A : Type 0} (r : Result A) → ((e : Failure) × (r ≡ raised e)) ⊎ ((a : A) × (r ≡ value a))
Result-cases (value a) = inr (a, refl)
Result-cases (raised e) = inl (e, refl)

-- A chain succeeds only if its first step does, and then the rest.
bind-value :
    {S A B : Type 0} (m : Action S A) (f : A → Action S B) (s : S) (b : B)
    → ((m >>= f) s).1 ≡ value b
    → (a : A) × ((m s).1 ≡ value a) × ((f a (m s).0).1 ≡ value b)
unfolding ◌>>=◌
bind-value m f s b h = elim (Result-cases (m s).1) [
  | inl (e, bad) ↦ let k = rw (◌>>=◌, bad) at h in cc
  | inr (a, good) ↦ (a, good, rw (◌>>=◌, good) at h)
]

Done-only : (d : Done) → d ≡ done
Done-only done = refl

module _ {C W : Type 0} (host : Host C W) where
  -- A container was launched with this request in some network, under this alias, and its exit
  -- code was then read as 0.
  abbrev pub Migrated : Text × ContainerRequest → Type 0
  Migrated (alias, request) =
      (network : Text) × (c : C) × (w : W) × ((start_container host.docker network alias request
          w).1
        ≡ launched c)
      × ((host.docker.exit_code c (start_container host.docker network alias request w).0).1
          ≡ ok (pos 0))

  migrate-value :
      (network what alias label : Text) (request : ContainerRequest) (s : W × Environment C)
      → (migrate host network what alias label request s).1 ≡ value done
      → Migrated (alias, request)
  unfolding migrate ◌>>=◌ launch effect require_successful_exit
  migrate-value network what alias label request s h =
      let made = start_container host.docker network alias request s.0 in
      elim (launch_cases made.1) [
        | inl (left, e, bad) ↦ let k = rw (migrate, ◌>>=◌, launch, bad) at h in cc
        | inr (d, good) ↦
            let after = host.docker.exit_code d made.0 in
            let ran : launch host.docker register network what alias request s
                ≡ ((made.0, register alias d s.1), value d) =
              rw (launch, good) refl in
            let here = rw ran at (rw (migrate, ◌>>=◌, ran) at h) in
            elim (outcome_cases after.1) [
              | inl (e, unread) ↦ let k = rw (effect, require_successful_exit, unread) at here in cc
              | inr (code, read) ↦ elim (Bool-cases (eq_ℤ code (pos 0))) [
                | inr nonzero ↦
                    let k = rw (effect, require_successful_exit, read, nonzero) at here in cc
                | inl zero ↦
                    let e : code ≡ pos 0 = (eq_ℤ_iff code (pos 0)).0 zero in
                    (network, d, s.0, good, read ∙ ap (λ n. ok n) e)
              ]
            ]
      ]

  migrate_all-value :
      (network : Text) (config : Config) (labels : Dict Text) (schemas : List Text)
      (s : W × Environment C)
      → (migrate_all host network config labels schemas s).1 ≡ value done
      → All
          (λ schema. Migrated (migration_name schema, migration_request config labels schema))
          schemas
  unfolding migrate_all
  migrate_all-value network config labels [] s h = tt
  migrate_all-value network config labels (schema ∷ rest) s h =
      let (d, first, later) =
        bind-value _ (λ _. migrate_all host network config labels rest) s done h in
      (
        migrate-value network _ (migration_name schema) _ (migration_request config labels schema) s
            (first ∙ ap (λ x. value x) (Done-only d)),
        migrate_all-value network config labels rest _ later,
      )

  -- The migrations, with the name of each.
  abbrev pub migrations : Config → (labels : Dict Text) → List (Text × ContainerRequest)
  migrations config labels =
      (scd_migration, scd_migration_request config labels)
      ∷ (text "interuss-rid-migration", migration_request config labels (text "rid"))
      ∷ (text "interuss-aux-migration", migration_request config labels (text "aux_"))
      ∷ []

  provision-Migrated :
      (marshal : Manifest → Outcome Text) (config : Config) (run_id : Text) (s : W × Environment C)
      → (provision host marshal config run_id s).1 ≡ value done
      → All Migrated (migrations config (labels_of run_id config))
  unfolding provision migration_name text_eq
  provision-Migrated marshal config run_id s h =
      let labels = labels_of run_id config in
      let (network, _, h1) = bind-value _ _ s done h in
      let (_, _, h2) = bind-value _ _ _ done h1 in
      let (_, _, h3) = bind-value _ _ _ done h2 in
      let (scd, scd_done, h4) = bind-value _ _ _ done h3 in
      let (all, all_done, _) = bind-value _ _ _ done h4 in
      let schemas =
        migrate_all-value network config labels (text "rid" ∷ text "aux_" ∷ []) _
          (all_done ∙ ap (λ x. value x) (Done-only all)) in
      (
        migrate-value network _ scd_migration _ (scd_migration_request config labels) _
            (scd_done ∙ ap (λ x. value x) (Done-only scd)),
        schemas,
      )

  -- If Start of the real DSS succeeds, then each of the migrations of the schemas scd, rid and aux_
  -- was launched with its own request, and its exit code was read as 0.
  pub start-Migrated :
      (marshal : Manifest → Outcome Text) (config : Config) (w : W) (env : Environment C)
      → (start host marshal config w).1 ≡ value env
      → All Migrated (
          migrations
            (bounded config)
            (labels_of (new_environment {C = C} (host.now w) config).run_id (bounded config)))
  unfolding start
  start-Migrated marshal config w env h =
      elim (Bool-cases (
        text_eq config.root_dir []
        || text_eq config.api_source []
        || text_eq config.interuss_source []
        || text_eq config.artifact_dir [])) [
          | inl bad ↦ let k = rw (start, bad) at h in cc
          | inr fine ↦ elim (Option-cases (first_missing host.stat (required config) w)) [
            | inr (m, missing) ↦ let k = rw (start, fine, missing) at h in cc
            | inl there ↦
                let fresh : Environment C = new_environment (host.now w) config in
                let r = provision host marshal (bounded config) fresh.run_id (w, fresh) in
                let k = rw (start, fine, there) at h in
                elim (Result-cases r.1) [
                  | inl (e, bad) ↦ let l = rw bad at k in cc
                  | inr (d, good) ↦
                      provision-Migrated marshal (bounded config) fresh.run_id (w, fresh)
                        (good ∙ ap (λ x. value x) (Done-only d))
                ]
          ]
        ]
