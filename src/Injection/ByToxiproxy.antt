-- ===== src/Injection/ByToxiproxy.antt =====
-- The injector of faults/toxiproxy/injector.go.
use aero_arc_testing_harness.Prelude.{
  ℤ, pos, negsuc, ◌<ℤ◌, ◌≡◌, ◌∙◌, ap, sym, subst, refl, arith, [], ◌∷◌, Option, none, some, ◌⊎◌,
  inl, inr, Text, text, text_eq, leb_ℤ, ◌↔◌, Option-cases, if◌then◌else◌, Outcome, ok,
}
use aero_arc_testing_harness.Injection.Fault.{
  Fault, Receipt, InjectError, another_injector, sum_cases, validate, milliseconds, int_attribute,
  latency, timeout, connection_reset,
}
use aero_arc_testing_harness.Injection.Client.{
  accepts, Toxic, Toxicity, Call, ClientError, add_toxic, remove_toxic, toxics_path, toxic_path,
  request, with_defaults, nothing, new_toxic, request-none, accepts-either,
}

-- durationMillis.
unfoldable pub duration_millis : ℤ → ℤ
unfolding milliseconds
duration_millis duration = if leb_ℤ duration (pos 0) then pos 1 else milliseconds duration

pub data EnableError : Type 0 where
  unfit : InjectError → EnableError
  not_added : ClientError → EnableError

abbrev pub begin_toxic : Fault → Toxic
begin_toxic f = record {
  name = f.name;
  kind = [];
  stream = text "downstream";
  toxicity = Toxicity.one;
  attributes = [];
}

-- The toxic that Enable makes of a fault, before any request.
unfoldable pub toxic_of : Fault → InjectError ⊎ Toxic
unfolding validate text_eq int_attribute duration_millis
toxic_of f = elim (validate f) [
  | some e ↦ inl e
  | none ↦
      let millis = duration_millis f.duration in
      if text_eq f.kind latency
      then inr (record (begin_toxic f) {
        kind = text "latency";
        attributes =
            (text "latency", millis)
            ∷ (text "jitter", int_attribute f.attributes (text "jitter_ms"))
            ∷ [];
      })
      else if text_eq f.kind timeout
      then inr (record (begin_toxic f) {
        kind = text "timeout";
        attributes = (text "timeout", millis) ∷ [];
      })
      else if text_eq f.kind connection_reset
      then inr (record (begin_toxic f) {
        kind = text "reset_peer";
        attributes = (text "timeout", millis) ∷ [];
      })
      else inl (another_injector f.kind)
]

module _ {W : Type 0} (send : Call → W → W × Outcome ℤ) (escape : Text → Text) where
  -- Enable.
  unfoldable pub enable : (proxy : Text) (now : ℤ) → Fault → W → W × (EnableError ⊎ Receipt)
  unfolding toxic_of add_toxic
  enable proxy now f w = elim (toxic_of f) [
    | inl e ↦ (w, inl (unfit e))
    | inr t ↦
        let (w', problem) = add_toxic send escape proxy t w in
        (
          w',
          elim problem [
            | some e ↦ inl (not_added e)
            | none ↦ inr (record {
              fault = f;
              injector = text "toxiproxy";
              external_id = t.name;
              enabled_at = now;
            })
          ],
        )
  ]

  -- Disable.
  unfoldable pub disable : (proxy : Text) → Receipt → W → W × Option ClientError
  unfolding remove_toxic
  disable proxy receipt = remove_toxic send escape proxy receipt.external_id

-- Positive durations below a millisecond become zero, which no other duration does, also not
-- those for which durationMillis has its guard.
pub duration_millis-zero :
    (d : ℤ) → (duration_millis d ≡ pos 0) ↔ ((pos 0 <ℤ d) × (d <ℤ pos 1_000_000))
unfolding duration_millis milliseconds
duration_millis-zero (pos n) = (λ h. (ground arith, ground arith), λ h. ground arith)
duration_millis-zero (negsuc n) = (λ h. ground arith, λ h. ground arith)

toxic_of-name : (f : Fault) (t : Toxic) → toxic_of f ≡ inr t → t.name ≡ f.name
unfolding toxic_of
toxic_of-name f t h = elim (Option-cases (validate f)) [
  | inl valid ↦ let k = rw (toxic_of, valid) at h in ground arith
  | inr (e, invalid) ↦ let k = rw (toxic_of, invalid) at h in cc
]

both : {A B : Type 0} {r : A × B} {a : A} {b : B} → r.0 ≡ a → r.1 ≡ b → r ≡ (a, b)
both {r = (x, y)} e f = rw (e, f) refl

module _ {W : Type 0} (send : Call → W → W × Outcome ℤ) (escape : Text → Text) where
  -- The request that creates a toxic, and the one that deletes the toxic of a name.
  abbrev pub creation : (proxy : Text) → Toxic → Call
  creation proxy t = record {
    method = text "POST";
    path = toxics_path send escape proxy;
    payload = new_toxic (with_defaults t);
  }

  abbrev pub deletion : (proxy name : Text) → Call
  deletion proxy name = record {
    method = text "DELETE";
    path = toxic_path send escape proxy name;
    payload = nothing;
  }

  remove_toxic_iff :
      (proxy name : Text) (w : W)
      → ((remove_toxic send escape proxy name w).1 ≡ none) ↔ (
          ((send (deletion proxy name) w).1 ≡ ok (pos 204))
          ⊎ ((send (deletion proxy name) w).1 ≡ ok (pos 404)))
  unfolding remove_toxic request accepts
  remove_toxic_iff proxy name w = (
    λ h.
        let (status, answered, fine) = request-none send escape _ (pos 204 ∷ pos 404 ∷ []) w h in
        elim (accepts-either (pos 204) (pos 404) status fine) [
          | inl e ↦ inl (answered ∙ ap (λ x. ok x) e)
          | inr e ↦ inr (answered ∙ ap (λ x. ok x) e)
        ],
    λ h. elim h [ inl e ↦ rw (remove_toxic, e) refl | inr e ↦ rw (remove_toxic, e) refl ],
  )

  -- If Enable returns a receipt, it has made a toxic of the fault, with the fault's name, and has
  -- sent one request in all, the POST of that toxic with its defaults to the proxy's toxics,
  -- which was answered with 200 or 201. Disable of that receipt, whatever happened since, sends
  -- one request in all, the DELETE of the toxic at the fault's name in the same proxy, and it
  -- reports no error exactly if that is answered with 204 or 404.
  pub enable-disable :
      (proxy : Text) (now : ℤ) (f : Fault) (w w' : W) (receipt : Receipt)
      → enable send escape proxy now f w ≡ (w', inr receipt)
      → (t : Toxic) × (toxic_of f ≡ inr t)
        × (t.name ≡ f.name)
        × ((send (creation proxy t) w ≡ (w', ok (pos 200)))
            ⊎ (send (creation proxy t) w ≡ (w', ok (pos 201))))
        × ((later : W)
            → ((disable send escape proxy receipt later).0 ≡ (send (deletion proxy f.name) later).0)
              × (((disable send escape proxy receipt later).1 ≡ none) ↔ (
                  ((send (deletion proxy f.name) later).1 ≡ ok (pos 204))
                  ⊎ ((send (deletion proxy f.name) later).1 ≡ ok (pos 404)))))
  unfolding enable disable add_toxic remove_toxic request
  enable-disable proxy now f w w' receipt h = elim (sum_cases (toxic_of f)) [
    | inl (e, bad) ↦ let k = rw (enable, bad) at h in cc
    | inr (t, good) ↦ elim (Option-cases (add_toxic send escape proxy t w).1) [
      | inl added ↦
          let k = rw (enable, good, added) at h in
          let named = toxic_of-name f t good in
          let got : (send (creation proxy t) w).0 ≡ w' = ap (λ x. x.0) k in
          let exact : receipt.external_id ≡ f.name = ground arith ∙ named in
          let (status, answered, fine) =
            request-none send escape (creation proxy t) (pos 200 ∷ pos 201 ∷ []) w added in
          (
            t,
            good,
            named,
            elim (accepts-either (pos 200) (pos 201) status fine) [
              | inl e ↦ inl (both got (answered ∙ ap (λ x. ok x) e))
              | inr e ↦ inr (both got (answered ∙ ap (λ x. ok x) e))
            ],
            λ later. (
              rw exact refl,
              subst
                  (λ n. ((remove_toxic send escape proxy n later).1 ≡ none) ↔ (
                    ((send (deletion proxy f.name) later).1 ≡ ok (pos 204))
                    ⊎ ((send (deletion proxy f.name) later).1 ≡ ok (pos 404))))
                  (sym exact) (remove_toxic_iff proxy f.name later),
            ),
          )
      | inr (e, problem) ↦ let k = rw (enable, good, problem) at h in cc
    ]
  ]
