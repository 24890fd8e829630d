-- ===== src/Assertions/Convergence.antt =====
-- What Eventually of assertions/invariants.go promises.
use aero_arc_testing_harness.Prelude.{
  ℕ, suc, ◌+◌, ℤ, pos, negsuc, ◌≤ℤ◌, ◌<ℤ◌, ◌≡◌, ◌≢◌, refl, sym, Bool, true, false, ◌||◌, List, [],
  ◌∷◌, ◌++◌, ◌⊎◌, inl, inr, leb_ℤ, ◌*ℤ◌, if◌then◌else◌, arith, All, All-append, Bool-cases, length,
  length-append,
}
use mathlib.Core.List.{append-nil, append_assoc}
use aero_arc_testing_harness.Assertions.Types.{Snapshot, Result}
use aero_arc_testing_harness.Assertions.Probe.{Observation, observed, unobserved, ProbeError}
use aero_arc_testing_harness.Assertions.Eventually.{
  Round, converged, expired, running, Sampling, second, next_delay, results, all_passed, sample,
  eventually,
}

Observation-cases :
    (o : Observation)
    → ((e : ProbeError) × (o ≡ unobserved e)) ⊎ ((s : Snapshot) × (o ≡ observed s))
Observation-cases (unobserved e) = inl (e, refl)
Observation-cases (observed s) = inr (s, refl)

-- A delay that a timer may have under a cap.
abbrev pub Within : ℤ → ℤ → Type 0
Within cap delay = (pos 0 <ℤ delay) × (delay ≤ℤ cap)

next_delay-Within :
    (cap delay : ℤ) → second ≤ℤ cap → Within cap delay → Within cap (next_delay delay)
unfolding next_delay ◌*ℤ◌
next_delay-Within (pos k) (pos n) c w = ground arith
next_delay-Within (pos k) (negsuc n) c w = ground arith
next_delay-Within (negsuc k) delay c w = ground arith

module _ (checks : List (Snapshot → Result)) where
  abbrev passes : Snapshot → Bool
  passes s = all_passed (results checks s)

  -- A round that does not converge leaves these samples and results.
  abbrev Waits : List Snapshot → List Result → Round → List Snapshot → List Result → Type 0
  Waits samples last round samples' last' =
      ((e : ProbeError) × (round.seen ≡ unobserved e) × (samples' ≡ samples) × (last' ≡ last))
      ⊎ ((s : Snapshot) × (round.seen ≡ observed s)
          × (passes s ≡ false)
          × (samples' ≡ samples ++ s ∷ [])
          × (last' ≡ results checks s))

  -- The ways in which one round of the loop goes on.
  sample_cases {ℓ} :
      (P : Sampling → Type ℓ) (samples : List Snapshot) (last : List Result) (timers : List ℤ)
      (delay : ℤ) (round : Round) (rest : List Round)
      → ((s : Snapshot)
          → round.seen ≡ observed s
          → passes s ≡ true
          → P (record {
            ending = converged;
            samples = samples ++ s ∷ [];
            last = results checks s;
            timers = timers;
          }))
      → ((samples' : List Snapshot) (last' : List Result)
          → Waits samples last round samples' last'
          → ((round.ends ≡ true)
              → P (record {
                ending = expired;
                samples = samples';
                last = last';
                timers = timers ++ delay ∷ [];
              }))
            × ((round.ends ≡ false)
                → P (sample checks samples' last' (timers ++ delay ∷ []) (next_delay delay) rest)))
      → P (sample checks samples last timers delay (round ∷ rest))
  unfolding sample
  sample_cases P samples last timers delay round rest done waits =
      elim (Observation-cases round.seen) [
        | inl (e, seen) ↦
            let (out, on) = waits samples last (inl (e, seen, refl, refl)) in
            elim (Bool-cases round.ends) [
              | inl ends ↦ rw (seen, sample, ends) (out ends)
              | inr goes ↦ rw (seen, sample, goes) (on goes)
            ]
        | inr (s, seen) ↦ elim (Bool-cases (passes s)) [
          | inl good ↦ rw (seen, sample, good) (done s seen good)
          | inr bad ↦
              let (out, on) =
                waits (samples ++ s ∷ []) (results checks s) (inr (s, seen, bad, refl, refl)) in
              elim (Bool-cases round.ends) [
                | inl ends ↦ rw (seen, sample, bad, ends) (out ends)
                | inr goes ↦ rw (seen, sample, bad, goes) (on goes)
              ]
        ]
      ]

  -- The results of the newest sample, none if there is no sample.
  abbrev latest : List Snapshot → List Result
  latest [] = []
  latest (s ∷ rest) = elim rest [ [] ↦ results checks s | t ∷ r ↦ latest rest ]

  abbrev Failing : List Snapshot → Type 0
  Failing samples = All (λ s. passes s ≡ false) samples

  -- The samples before the last fail some check; the last passes all of them exactly if the loop
  -- converged, and the results are those of the last sample.
  pub record IsSound (r : Sampling) : Type 0 where
    pub earlier : List Snapshot
    pub failing : Failing earlier
    pub ended :
        ((r.ending ≡ converged)
          × ((s : Snapshot) × (r.samples ≡ earlier ++ s ∷ [])
              × (passes s ≡ true)
              × (r.last ≡ results checks s)))
        ⊎ ((r.ending ≢ converged) × (r.samples ≡ earlier) × (r.last ≡ latest earlier))

  latest-append :
      (samples : List Snapshot) (s : Snapshot) → latest (samples ++ s ∷ []) ≡ results checks s
  latest-append [] s = refl
  latest-append (t ∷ []) s = refl
  latest-append (t ∷ u ∷ rest) s = latest-append (u ∷ rest) s

  Waits-Failing :
      (samples : List Snapshot) (last : List Result) (round : Round) (samples' : List Snapshot)
      (last' : List Result)
      → Waits samples last round samples' last'
      → Failing samples
      → last ≡ latest samples
      → Failing samples' × (last' ≡ latest samples')
  Waits-Failing samples last round samples' last' (inl (e, seen, ss, ll)) f l =
      (rw (ss) f, rw (ss, ll) l)
  Waits-Failing samples last round samples' last' (inr (s, seen, bad, ss, ll)) f l = (
    rw (ss) (All-append (λ t. passes t ≡ false) samples (s ∷ []) f (bad, tt)),
    rw (ss, ll) (sym (latest-append samples s)),
  )

  sample-IsSound :
      (samples : List Snapshot) (last : List Result) (timers : List ℤ) (delay : ℤ)
      (rounds : List Round)
      → Failing samples
      → last ≡ latest samples
      → IsSound (sample checks samples last timers delay rounds)
  sample-IsSound samples last timers delay [] f l =
      unfold sample in record { earlier = samples; failing = f; ended = inr (λ e. cc, refl, l) }
  sample-IsSound samples last timers delay (round ∷ rest) f l =
      sample_cases IsSound samples last timers delay round rest
        (λ s seen good. record {
          earlier = samples;
          failing = f;
          ended = inl (refl, (s, refl, good, refl));
        })
        λ samples' last' how.
          let (f', l') = Waits-Failing samples last round samples' last' how f l in
          (
            λ ends. record { earlier = samples'; failing = f'; ended = inr (λ e. cc, refl, l') },
            λ goes.
                sample-IsSound samples' last' (timers ++ delay ∷ []) (next_delay delay) rest f' l',
          )

  -- A round that ends the loop: its snapshot passes, or the context ends.
  abbrev pub decides : Round → Bool
  decides round = round.ends || elim round.seen [ observed s ↦ passes s | unobserved e ↦ false ]

  abbrev pub any_decides : List Round → Bool
  any_decides [] = false
  any_decides (round ∷ rest) = decides round || any_decides rest

  undecided :
      (samples : List Snapshot) (last : List Result) (round : Round) (rest : List Round)
      (samples' : List Snapshot) (last' : List Result)
      → Waits samples last round samples' last'
      → round.ends ≡ false
      → any_decides (round ∷ rest) ≡ true
      → any_decides rest ≡ true
  undecided samples last round rest samples' last' (inl (e, seen, ss, ll)) goes h =
      rw (goes, seen) at h
  undecided samples last round rest samples' last' (inr (s, seen, bad, ss, ll)) goes h =
      rw (goes, seen, bad) at h

  sample-ends :
      (samples : List Snapshot) (last : List Result) (timers : List ℤ) (delay : ℤ)
      (rounds : List Round)
      → any_decides rounds ≡ true
      → (sample checks samples last timers delay rounds).ending ≢ running
  sample-ends samples last timers delay [] h = cc
  sample-ends samples last timers delay (round ∷ rest) h =
      sample_cases (λ r. r.ending ≢ running) samples last timers delay round rest
        (λ s seen good e. cc)
        λ samples' last' how. (
          λ ends e. cc,
          λ goes.
              sample-ends samples' last' (timers ++ delay ∷ []) (next_delay delay) rest
                (undecided samples last round rest samples' last' how goes h),
        )

  -- The snapshots that the rounds observed, in their order.
  abbrev pub observed_in : List Round → List Snapshot
  observed_in [] = []
  observed_in (round ∷ rest) = elim round.seen [
    | observed s ↦ s ∷ observed_in rest
    | unobserved e ↦ observed_in rest
  ]

  sample-Within :
      (cap : ℤ)
      → second ≤ℤ cap
      → (samples : List Snapshot) (last : List Result) (timers : List ℤ) (delay : ℤ)
        (rounds : List Round)
      → All (Within cap) timers
      → Within cap delay
      → All (Within cap) (sample checks samples last timers delay rounds).timers
  sample-Within cap c samples last timers delay [] t d = unfold sample in t
  sample-Within cap c samples last timers delay (round ∷ rest) t d =
      let t' = All-append (Within cap) timers (delay ∷ []) t (d, tt) in
      sample_cases (λ r. All (Within cap) r.timers) samples last timers delay round rest
        (λ s seen good. t)
        λ samples' last' how. (
          λ ends. t',
          λ goes.
              sample-Within cap c samples' last' (timers ++ delay ∷ []) (next_delay delay) rest t'
                (next_delay-Within cap delay c d),
        )

  -- A loop that converges with a snapshot, after these samples and this number of timers.
  abbrev pub ConvergesWith : List Snapshot → Snapshot → ℕ → Sampling → Type 0
  ConvergesWith before s n r =
      (r.ending ≡ converged)
      × (r.samples ≡ before ++ s ∷ [])
      × (r.last ≡ results checks s)
      × (length r.timers ≡ n)

  one_more :
      (timers : List ℤ) (delay : ℤ) (run : List Round)
      → length timers + suc (length run) ≡ length (timers ++ delay ∷ []) + length run
  one_more timers delay run = omega (arith, length-append timers (delay ∷ []))

  sample-converges :
      (samples : List Snapshot) (last : List Result) (timers : List ℤ) (delay : ℤ)
      (run : List Round) (round : Round) (rest : List Round) (s : Snapshot)
      → any_decides run ≡ false
      → round.seen ≡ observed s
      → passes s ≡ true
      → ConvergesWith
          (samples ++ observed_in run)
          s
          (length timers + length run)
          (sample checks samples last timers delay (run ++ round ∷ rest))
  unfolding sample
  sample-converges samples last timers delay [] round rest s quiet seen good =
      rw (append-nil samples, seen, sample, good) (refl, refl, refl, omega arith)
  sample-converges samples last timers delay (r ∷ run) round rest s quiet seen good =
      let goes : r.ends ≡ false = ground arith in
      elim (Observation-cases r.seen) [
        | inl (e, saw) ↦
            let q : any_decides run ≡ false = rw (saw, goes) at quiet in
            let h =
              sample-converges samples last (timers ++ delay ∷ []) (next_delay delay) run round rest
                s q seen good in
            rw (saw, sample, goes, one_more timers delay run) h
        | inr (t, saw) ↦ elim (Bool-cases (passes t)) [
          | inl yes_t ↦ let q : true ≡ false = rw (goes, saw, yes_t) at quiet in cc
          | inr bad ↦
              let q : any_decides run ≡ false = rw (saw, goes, bad) at quiet in
              let h =
                sample-converges (samples ++ t ∷ []) (results checks t) (timers ++ delay ∷ [])
                  (next_delay delay) run round rest s q seen good in
              rw
                (
                  saw,
                  sample,
                  bad,
                  goes,
                  one_more timers delay run,
                  ← append_assoc samples (t ∷ []) (observed_in run),
                )
                h
        ]
      ]

start-Within :
    (cap interval : ℤ)
    → second ≤ℤ cap
    → interval ≤ℤ cap
    → Within cap (if leb_ℤ interval (pos 0) then pos 100_000_000 else interval)
start-Within (pos k) (pos n) c i = ground arith
start-Within (pos k) (negsuc n) c i = ground arith
start-Within (negsuc k) interval c i = ground arith

-- However often the rounds go on and whatever the interval is: every sample before the last fails
-- some check; Eventually converges exactly if the last sample passes all of them; and the results
-- it returns are those of the last sample.
pub eventually-IsSound :
    (checks : List (Snapshot → Result)) (interval : ℤ) (rounds : List Round)
    → IsSound checks (eventually checks interval rounds)
unfolding eventually
eventually-IsSound checks interval rounds = sample-IsSound checks [] [] [] _ rounds tt refl

-- Eventually returns within the rounds given if in one of them the context ends or the snapshot
-- passes all checks.
pub eventually-ends :
    (checks : List (Snapshot → Result)) (interval : ℤ) (rounds : List Round)
    → any_decides checks rounds ≡ true
    → (eventually checks interval rounds).ending ≢ running
unfolding eventually
eventually-ends checks interval rounds h = sample-ends checks [] [] [] _ rounds h

-- With the interval no longer than some cap of a second or more, every timer Eventually starts is
-- longer than zero and no longer than the cap, so that it neither spins nor stops sampling.
pub eventually-Within :
    (checks : List (Snapshot → Result)) (cap interval : ℤ) (rounds : List Round)
    → second ≤ℤ cap
    → interval ≤ℤ cap
    → All (Within cap) (eventually checks interval rounds).timers
unfolding eventually
eventually-Within checks cap interval rounds c i =
    sample-Within checks cap c [] [] [] _ rounds tt (start-Within cap interval c i)

-- If the snapshot of some round passes all checks, and before it no snapshot does and the context
-- does not end, then Eventually converges with that snapshot: whatever the later rounds are, its
-- samples are the snapshots observed up to there, in order, its results those of that snapshot,
-- and it has started one timer in each earlier round.
pub eventually-converges :
    (checks : List (Snapshot → Result)) (interval : ℤ) (run : List Round) (round : Round)
    (rest : List Round) (s : Snapshot)
    → any_decides checks run ≡ false
    → round.seen ≡ observed s
    → all_passed (results checks s) ≡ true
    → ConvergesWith checks
        (observed_in checks run)
        s
        (length run)
        (eventually checks interval (run ++ round ∷ rest))
unfolding eventually
eventually-converges checks interval run round rest s quiet seen good =
    let (a, b, c, d) = sample-converges checks [] [] [] _ run round rest s quiet seen good in
    (a, b, c, omega arith)
