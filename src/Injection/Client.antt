-- ===== src/Injection/Client.antt =====
-- The client of internal/toxiproxy/client.go. A request is sent to a world `W`, which answers
-- with a status or not at all; `escape` is url.PathEscape.
use aero_arc_testing_harness.Prelude.{
  ℤ, pos, Bool, true, false, ◌||◌, List, [], ◌∷◌, ◌++◌, Option, none, some, Text, text, text_eq,
  eq_ℤ, ◌≡◌, arith, ◌⊎◌, inl, inr, eq_ℤ_iff, Bool-cases, outcome_cases, if◌then◌else◌, Outcome, ok,
  failed,
}

-- A toxicity is 0, 1 or another float64.
pub data Toxicity : Type 0 where
  zero one other : Toxicity

pub record Toxic : Type 0 where
  pub name : Text
  pub kind : Text
  pub stream : Text
  pub toxicity : Toxicity
  pub attributes : List (Text × ℤ)

pub data Payload : Type 0 where
  nothing : Payload
  new_proxy : (name listen upstream : Text) → Payload
  new_toxic : Toxic → Payload

pub record Call : Type 0 where
  pub method : Text
  pub path : Text
  pub payload : Payload

pub data ClientError : Type 0 where
  incomplete_proxy : ClientError
  not_answered : (error : Text) → ClientError
  not_accepted : ℤ → ClientError

-- Whether the status is one of the accepted ones.
unfoldable pub accepts : List ℤ → ℤ → Bool
accepts [] status = false
accepts (a ∷ rest) status = eq_ℤ status a || accepts rest status

pub accepts-either :
    (a b status : ℤ) → accepts (a ∷ b ∷ []) status ≡ true → (status ≡ a) ⊎ (status ≡ b)
unfolding accepts
accepts-either a b status h = elim (Bool-cases (eq_ℤ status a)) [
  | inl e ↦ inl ((eq_ℤ_iff status a).0 e)
  | inr e ↦ inr ((eq_ℤ_iff status b).0 (ground arith))
]

abbrev pub with_defaults : Toxic → Toxic
with_defaults t = record t {
  toxicity = elim t.toxicity [ zero ↦ one | one ↦ one | other ↦ other ];
  stream = if text_eq t.stream [] then text "downstream" else t.stream;
}

module _ {W : Type 0} (send : Call → W → W × Outcome ℤ) (escape : Text → Text) where
  -- request.
  unfoldable pub request : Call → List ℤ → W → W × Option ClientError
  unfolding accepts
  request call accepted w =
      let (w', answer) = send call w in
      (
        w',
        elim answer [
          | failed e ↦ some (not_answered e)
          | ok status ↦ if accepts accepted status then none else some (not_accepted status)
        ],
      )

  -- A request without an error was answered with an accepted status.
  pub request-none :
      (call : Call) (accepted : List ℤ) (w : W)
      → (request call accepted w).1 ≡ none
      → (status : ℤ) × ((send call w).1 ≡ ok status) × (accepts accepted status ≡ true)
  unfolding request
  request-none call accepted w h = elim (outcome_cases (send call w).1) [
    | inl (e, lost) ↦ let k = rw (request, lost) at h in cc
    | inr (status, answered) ↦ elim (Bool-cases (accepts accepted status)) [
      | inl fine ↦ (status, answered, fine)
      | inr bad ↦ let k = rw (request, answered, bad) at h in cc
    ]
  ]

  abbrev pub toxics_path : Text → Text
  toxics_path proxy = text "/proxies/" ++ escape proxy ++ text "/toxics"

  abbrev pub toxic_path : Text → Text → Text
  toxic_path proxy name = toxics_path proxy ++ text "/" ++ escape name

  -- AddToxic.
  unfoldable pub add_toxic : Text → Toxic → W → W × Option ClientError
  unfolding request
  add_toxic proxy t =
      request
        (record {
          method = text "POST";
          path = toxics_path proxy;
          payload = new_toxic (with_defaults t);
        })
        (pos 200 ∷ pos 201 ∷ [])

  -- RemoveToxic.
  unfoldable pub remove_toxic : Text → Text → W → W × Option ClientError
  unfolding request
  remove_toxic proxy name =
      request (record { method = text "DELETE"; path = toxic_path proxy name; payload = nothing })
        (pos 204 ∷ pos 404 ∷ [])

  -- DeleteProxy.
  unfoldable pub delete_proxy : Text → W → W × Option ClientError
  unfolding request
  delete_proxy name =
      request
        (record {
          method = text "DELETE";
          path = text "/proxies/" ++ escape name;
          payload = nothing;
        })
        (pos 204 ∷ pos 404 ∷ [])

  -- CreateProxy, which goes on whatever becomes of the deletion.
  unfoldable pub create_proxy : (name listen upstream : Text) → W → W × Option ClientError
  unfolding request delete_proxy text_eq
  create_proxy name listen upstream w =
      if text_eq name [] || text_eq listen [] || text_eq upstream []
      then (w, some incomplete_proxy)
      else request
          (record {
            method = text "POST";
            path = text "/proxies";
            payload = new_proxy name listen upstream;
          })
          (pos 201 ∷ pos 200 ∷ []) (delete_proxy name w).0
