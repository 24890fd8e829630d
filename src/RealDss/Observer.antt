-- ===== src/RealDss/Observer.antt =====
-- Observer, ObserveDSSReference and token of internal/realdss/stack.go.
use aero_arc_testing_harness.Prelude.{
  ℕ, ℤ, pos, eq_ℤ, not, true, [], ◌∷◌, ◌++◌, Option, none, some, Text, text, text_eq, if◌then◌else◌,
  Dict, Outcome, ok, failed,
}
use aero_arc_testing_harness.Assertions.Types.{DssReference}
use aero_arc_testing_harness.Assertions.Probe.{no_reference}
use aero_arc_testing_harness.RealDss.Types.{Environment}

-- An observer; its client's timeout of five seconds is left out.
pub record ReferenceObserver : Type 0 where
  pub dss_base_url : Text
  pub token_url : Text
  pub subject : Text

-- A response: its status as a number and as a line, and what io.ReadAll gives of its body up to a
-- limit.
pub record Response : Type 0 where
  pub status_code : ℤ
  pub status : Text
  pub read : (limit : ℕ) → Outcome Text

-- The reference in the body of a response.
pub record RemoteReference : Type 0 where
  pub version : ℤ
  pub state : Text
  pub ovn : Text
  pub manager : Text
  pub uss_base_url : Text

-- What an observer calls: `url_with` is url.Parse, then Set of each pair in the URL's query, Encode
-- and String; `bad_request` is the error of NewRequest; `get` is Do, with an Authorization header or
-- none; the decoders are those of encoding/json.
pub record Web (W : Type 0) : Type 0 where
  pub url_with : (url : Text) → (query : Dict Text) → Outcome Text
  pub escape : Text → Text
  pub bad_request : (url : Text) → Option Text
  pub get : (url : Text) → (authorization : Option Text) → W → W × Outcome Response
  pub decode_reference : (body : Text) → Outcome RemoteReference
  pub decode_token : Response → Outcome Text

unfoldable pub observer_of :
    {C : Type 0} → Environment C → (subject : Text) → Outcome ReferenceObserver
observer_of env subject =
    if text_eq subject []
    then failed (text "real-DSS observer subject is required")
    else ok
        (record { dss_base_url = env.dss_base_url; token_url = env.oauth_url; subject = subject })

abbrev pub token_query : (subject : Text) → Dict Text
token_query subject =
    (text "grant_type", text "client_credentials")
    ∷ (text "scope", text "utm.strategic_coordination")
    ∷ (text "intended_audience", text "localhost")
    ∷ (text "issuer", text "localhost")
    ∷ (text "sub", subject)
    ∷ []

abbrev pub existing : RemoteReference → DssReference
existing r = record {
  exists = true;
  version = r.version;
  state = r.state;
  ovn = r.ovn;
  manager = r.manager;
  uss_base_url = r.uss_base_url;
}

module _ {W : Type 0} (web : Web W) where
  -- What token makes of its response.
  unfoldable pub token_of : Response → Outcome Text
  token_of response =
      if not (eq_ℤ response.status_code (pos 200))
      then failed (text "get InterUSS observer token returned " ++ response.status)
      else elim (web.decode_token response) [
        | failed e ↦ failed (text "decode InterUSS observer token: " ++ e)
        | ok t ↦
            if text_eq t []
            then failed (text "InterUSS observer token response was empty")
            else ok t
      ]

  unfoldable pub token : ReferenceObserver → W → W × Outcome Text
  token observer w = elim (web.url_with observer.token_url (token_query observer.subject)) [
    | failed e ↦ (w, failed e)
    | ok url ↦ elim (web.bad_request url) [
      | some e ↦ (w, failed e)
      | none ↦
          let r = web.get url none w in
          (
            r.0,
            elim r.1 [
              | failed e ↦ failed (text "get InterUSS observer token: " ++ e)
              | ok response ↦ token_of response
            ],
          )
    ]
  ]

  -- What ObserveDSSReference makes of its response.
  unfoldable pub reference_of : Response → Outcome DssReference
  reference_of response =
      if eq_ℤ response.status_code (pos 404)
      then ok no_reference
      else elim (response.read 1_048_576) [
        | failed e ↦ failed e
        | ok body ↦
            if not (eq_ℤ response.status_code (pos 200))
            then failed (
                text "get InterUSS operational intent reference returned "
                ++ response.status
                ++ text ": "
                ++ body)
            else elim (web.decode_reference body) [
              | failed e ↦ failed (text "decode InterUSS operational intent reference: " ++ e)
              | ok r ↦ ok (existing r)
            ]
      ]

  abbrev pub reference_url : ReferenceObserver → (intent_id : Text) → Text
  reference_url observer intent_id =
      observer.dss_base_url ++ text "/dss/v1/operational_intent_references/" ++ web.escape intent_id

  unfoldable pub observe_dss_reference :
      ReferenceObserver → (intent_id : Text) → W → W × Outcome DssReference
  observe_dss_reference observer intent_id w =
      let t = token observer w in
      elim t.1 [
        | failed e ↦ (t.0, failed e)
        | ok bearer ↦
            let url = reference_url observer intent_id in
            elim (web.bad_request url) [
              | some e ↦ (t.0, failed e)
              | none ↦
                  let r = web.get url (some (text "Bearer " ++ bearer)) t.0 in
                  (
                    r.0,
                    elim r.1 [
                      | failed e ↦ failed (text "get InterUSS operational intent reference: " ++ e)
                      | ok response ↦ reference_of response
                    ],
                  )
            ]
      ]
