-- ===== src/RealDss/Observed.antt =====
-- What an observation of internal/realdss/stack.go tells of the DSS.
use aero_arc_testing_harness.Prelude.{
  pos, eq_ℤ, eq_ℤ_iff, ◌≡◌, ◌≢◌, refl, sym, ap, ◌∙◌, ◌⊎◌, inl, inr, [], ◌++◌, none, some, Text,
  text, text_eq, text_eq_iff, Outcome, ok, outcome_cases, Option-cases, Bool-cases,
}
use aero_arc_testing_harness.Assertions.Types.{DssReference}
use aero_arc_testing_harness.Assertions.Probe.{no_reference}
use aero_arc_testing_harness.RealDss.Observer.{
  ReferenceObserver, Response, RemoteReference, Web, token_query, existing, token_of, token,
  reference_of, reference_url, observe_dss_reference,
}

module _ {W : Type 0} (web : Web W) where
  token_of-ok :
      (response : Response) (t : Text)
      → token_of web response ≡ ok t
      → (response.status_code ≡ pos 200) × (web.decode_token response ≡ ok t) × (t ≢ [])
  unfolding token_of
  token_of-ok response t h = elim (Bool-cases (eq_ℤ response.status_code (pos 200))) [
    | inr bad ↦ let k = rw (token_of, bad) at h in cc
    | inl fine ↦ elim (outcome_cases (web.decode_token response)) [
      | inl (e, bad) ↦ let k = rw (token_of, fine, bad) at h in cc
      | inr (u, good) ↦ elim (Bool-cases (text_eq u [])) [
        | inl empty ↦ let k = rw (token_of, fine, good, empty) at h in cc
        | inr full ↦
            let k = rw (token_of, fine, good, full) at h in
            let same : u ≡ t = cc in
            (
              (eq_ℤ_iff response.status_code (pos 200)).0 fine,
              good ∙ ap (λ x. ok x) same,
              λ e. let l = (text_eq_iff u []).1 (same ∙ e) in cc,
            )
      ]
    ]
  ]

  reference_of-ok :
      (response : Response) (r : DssReference)
      → reference_of web response ≡ ok r
      → ((response.status_code ≡ pos 404) × (r ≡ no_reference))
        ⊎ ((response.status_code ≡ pos 200)
            × (body : Text) × (v : RemoteReference) × (response.read 1_048_576 ≡ ok body)
            × (web.decode_reference body ≡ ok v)
            × (r ≡ existing v))
  unfolding reference_of
  reference_of-ok response r h = elim (Bool-cases (eq_ℤ response.status_code (pos 404))) [
    | inl absent ↦
        let k = rw (reference_of, absent) at h in
        inl ((eq_ℤ_iff response.status_code (pos 404)).0 absent, cc)
    | inr other ↦ elim (outcome_cases (response.read 1_048_576)) [
      | inl (e, bad) ↦ let k = rw (reference_of, other, bad) at h in cc
      | inr (body, good) ↦ elim (Bool-cases (eq_ℤ response.status_code (pos 200))) [
        | inr bad ↦ let k = rw (reference_of, other, good, bad) at h in cc
        | inl fine ↦ elim (outcome_cases (web.decode_reference body)) [
          | inl (e, bad) ↦ let k = rw (reference_of, other, good, fine, bad) at h in cc
          | inr (v, decoded) ↦
              let k = rw (reference_of, other, good, fine, decoded) at h in
              inr ((eq_ℤ_iff response.status_code (pos 200)).0 fine, body, v, good, decoded, cc)
        ]
      ]
    ]
  ]

  token-ok :
      (observer : ReferenceObserver) (w : W) (bearer : Text)
      → (token web observer w).1 ≡ ok bearer
      → (at : Text) × (granted : Response) × (web.url_with observer.token_url
            (token_query observer.subject)
          ≡ ok at)
        × (web.get at none w ≡ ((token web observer w).0, ok granted))
        × (granted.status_code ≡ pos 200)
        × (web.decode_token granted ≡ ok bearer)
        × (bearer ≢ [])
  unfolding token
  token-ok observer w bearer h =
      elim (outcome_cases (web.url_with observer.token_url (token_query observer.subject))) [
        | inl (e, bad) ↦ let k = rw (token, bad) at h in cc
        | inr (at, parsed) ↦ elim (Option-cases (web.bad_request at)) [
          | inr (e, bad) ↦ let k = rw (token, parsed, bad) at h in cc
          | inl proper ↦ elim (outcome_cases (web.get at none w).1) [
            | inl (e, bad) ↦ let k = rw (token, parsed, proper, bad) at h in cc
            | inr (granted, got) ↦
                let k = rw (token, parsed, proper, got) at h in
                let (fine, decoded, full) = token_of-ok granted bearer k in
                let world : (token web observer w).0 ≡ (web.get at none w).0 =
                  rw (token, parsed, proper) refl in
                (at, granted, parsed, (λ i. (sym world i, got i)), fine, decoded, full)
          ]
        ]
      ]

  -- An observation that gives a reference has asked the OAuth server first, which answered 200 with
  -- a token that is not empty, and then the DSS with that token, and says that the reference does
  -- not exist exactly when the DSS answered 404; otherwise the DSS answered 200, and the reference
  -- is the one in the body.
  pub observe_dss_reference-ok :
      (observer : ReferenceObserver) (intent_id : Text) (w w' : W) (r : DssReference)
      → observe_dss_reference web observer intent_id w ≡ (w', ok r)
      → (at bearer : Text) × (granted answer : Response) × (v : W) × (web.url_with
            observer.token_url
            (token_query observer.subject)
          ≡ ok at)
        × (web.get at none w ≡ (v, ok granted))
        × (granted.status_code ≡ pos 200)
        × (web.decode_token granted ≡ ok bearer)
        × (bearer ≢ [])
        × (web.get (reference_url web observer intent_id) (some (text "Bearer " ++ bearer)) v
            ≡ (w', ok answer))
        × (((answer.status_code ≡ pos 404) × (r ≡ no_reference))
            ⊎ ((answer.status_code ≡ pos 200)
                × (body : Text) × (x : RemoteReference) × (answer.read 1_048_576 ≡ ok body)
                × (web.decode_reference body ≡ ok x)
                × (r ≡ existing x)))
  unfolding observe_dss_reference
  observe_dss_reference-ok observer intent_id w w' r h =
      elim (outcome_cases (token web observer w).1) [
        | inl (e, bad) ↦ let k = rw (observe_dss_reference, bad) at h in cc
        | inr (bearer, good) ↦
            let url = reference_url web observer intent_id in
            let v = (token web observer w).0 in
            let (at, granted, parsed, got, fine, decoded, full) = token-ok observer w bearer good in
            elim (Option-cases (web.bad_request url)) [
              | inr (e, bad) ↦ let k = rw (observe_dss_reference, good, bad) at h in cc
              | inl proper ↦
                  let auth = some (text "Bearer " ++ bearer) in
                  let k = rw (observe_dss_reference, good, proper) at h in
                  elim (outcome_cases (web.get url auth v).1) [
                    | inl (e, bad) ↦ let l = rw bad at k in cc
                    | inr (answer, answered) ↦
                        let l = rw answered at k in
                        (
                          at,
                          bearer,
                          granted,
                          answer,
                          v,
                          parsed,
                          got,
                          fine,
                          decoded,
                          full,
                          (λ i. ((ap (λ (x : W × Outcome DssReference). x.0) l) i, answered i)),
                          reference_of-ok answer r (ap (λ (x : W × Outcome DssReference). x.1) l),
                        )
                  ]
            ]
      ]
