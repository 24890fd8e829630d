-- ===== src/Stacks/Replacement.antt =====
-- Which containers StartReplacementAPI of internal/stack/stack.go registers.
use aero_arc_testing_harness.Prelude.{
  ℤ, ◌≡◌, ◌≢◌, refl, sym, ◌∙◌, ap, Option, none, some, inl, inr, Text, text, text_eq, text_eq_iff,
  false, ◌⊎◌, if◌then◌else◌, lookup, insert, lookup-insert, Outcome, outcome_cases, Bool-cases,
}
use aero_arc_testing_harness.Reports.Bundle.{Files}
use aero_arc_testing_harness.Stacks.Types.{
  Manifest, launched, launch_cases, Docker, Stack, api, crashed,
}
use aero_arc_testing_harness.Stacks.Lifecycle.{
  endpoint, start_container, api_request, replaced, start_replacement_api,
}

text_eq-differs : {a b : Text} → text_eq a b ≡ false → b ≢ a
text_eq-differs {a} {b} h e = let k = (text_eq_iff a b).1 (sym e) in cc

module _ {C W : Type 0} (docker : Docker C W) where
  -- What a replacement that succeeds registers.
  start_replacement_api-registers :
      (files : Files W) (marshal : Manifest → Outcome Text) (now : ℤ) (network : Text)
      (s s1 : Stack C) (w w1 : W) (c : C)
      → lookup api s.containers ≡ some c
      → start_replacement_api docker files marshal now network s w ≡ ((w1, s1), none)
      → (d : C) × ((start_container docker network api (api_request s) w).1 ≡ launched d)
        × ((name : Text)
            → lookup name s1.containers ≡ (
                if text_eq api name
                then some d
                else if text_eq crashed name
                then some c
                else lookup name s.containers))
  unfolding start_replacement_api
  start_replacement_api-registers files marshal now network s s1 w w1 c found h =
      elim (Bool-cases (docker.is_running c w)) [
        | inl up ↦ let k = rw (start_replacement_api, found, up) at h in cc
        | inr stopped ↦
            let started = start_container docker network api (api_request s) w in
            elim (launch_cases started.1) [
              | inl (left, e, bad) ↦
                  let k = rw (start_replacement_api, found, stopped, bad) at h in cc
              | inr (d, good) ↦
                  let at_url = endpoint docker d (text "8080/tcp") (text "http") started.0 in
                  elim (outcome_cases at_url.1) [
                    | inl (e, bad) ↦
                        let k = rw (start_replacement_api, found, stopped, good, bad) at h in cc
                    | inr (url, answered) ↦
                        let k = rw (start_replacement_api, found, stopped, good, answered) at h in
                        let same : replaced c d url s ≡ s1 =
                          ap (λ (r : (W × Stack C) × Option Text). r.0.1) k in
                        (
                          d,
                          good,
                          λ name.
                              ap (λ (x : Stack C). lookup name x.containers) (sym same)
                              ∙ lookup-insert api name d (insert crashed c s.containers)
                              ∙ ap (λ o. if text_eq api name then some d else o)
                                  (lookup-insert crashed name c s.containers),
                        )
                  ]
            ]
      ]

  replaced_twice :
      (s s1 s2 : Stack C) (c d e : C)
      → ((name : Text)
          → lookup name s1.containers ≡ (
              if text_eq api name
              then some d
              else if text_eq crashed name
              then some c
              else lookup name s.containers))
      → ((name : Text)
          → lookup name s2.containers ≡ (
              if text_eq api name
              then some e
              else if text_eq crashed name
              then some d
              else lookup name s1.containers))
      → (name : Text)
      → lookup name s2.containers ≡ (
          if text_eq api name
          then some e
          else if text_eq crashed name
          then some d
          else lookup name s.containers)
  replaced_twice s s1 s2 c d e first second name =
      second name ∙ elim (Bool-cases (text_eq api name)) [
        | inl is_api ↦ rw is_api refl
        | inr other ↦ rw other (elim (Bool-cases (text_eq crashed name)) [
          | inl is_crashed ↦ rw is_crashed refl
          | inr elsewhere ↦ rw (elsewhere, first name, other, elsewhere) refl
        ])
      ]

  -- If two replacements succeed one after the other, the second drops the container that the
  -- first one replaced. After the first, that container is registered as crashed. After both, the
  -- stack has registered the container that the first one launched, as crashed, the one that the
  -- second launched, as the API, and under other names those that it had there before; so the
  -- replaced container is registered under a name only if it is one of the two that were
  -- launched or was there before under a name other than these two.
  pub start_replacement_api-drops :
      (files : Files W) (marshal : Manifest → Outcome Text) (now : ℤ) (network : Text)
      (s s1 s2 : Stack C) (w w1 v w2 : W) (c : C)
      → lookup api s.containers ≡ some c
      → start_replacement_api docker files marshal now network s w ≡ ((w1, s1), none)
      → start_replacement_api docker files marshal now network s1 v ≡ ((w2, s2), none)
      → (d : C) × (e : C) × ((start_container docker network api (api_request s) w).1 ≡ launched d)
        × ((start_container docker network api (api_request s1) v).1 ≡ launched e)
        × (lookup crashed s1.containers ≡ some c)
        × ((name : Text)
            → lookup name s2.containers ≡ (
                if text_eq api name
                then some e
                else if text_eq crashed name
                then some d
                else lookup name s.containers))
        × ((name : Text)
            → lookup name s2.containers ≡ some c
            → ((c ≡ d) ⊎ (c ≡ e))
              ⊎ ((name ≢ api) × (name ≢ crashed) × (lookup name s.containers ≡ some c)))
  unfolding text_eq
  start_replacement_api-drops files marshal now network s s1 s2 w w1 v w2 c found h k =
      let (d, launched_d, first) =
        start_replacement_api-registers files marshal now network s s1 w w1 c found h in
      let (e, launched_e, second) =
        start_replacement_api-registers files marshal now network s1 s2 v w2 d (first api) k in
      let both = replaced_twice s s1 s2 c d e first second in
      (
        d,
        e,
        launched_d,
        launched_e,
        first crashed,
        both,
        λ name there. elim (Bool-cases (text_eq api name)) [
          | inl is_api ↦ let k = rw is_api at (sym (both name) ∙ there) in inl (inr cc)
          | inr other ↦ elim (Bool-cases (text_eq crashed name)) [
            | inl is_crashed ↦
                let k = rw (other, is_crashed) at (sym (both name) ∙ there) in inl (inl cc)
            | inr elsewhere ↦ inr (
              text_eq-differs other,
              text_eq-differs elsewhere,
              rw (other, elsewhere) at (sym (both name) ∙ there),
            )
          ]
        ],
      )
