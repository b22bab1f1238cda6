-- ===== src/Endpoint/Cedar/Laws.antt =====
-- endpoint/cedar.go: what an allow rests on.
use protobuf_interceptors.Base.{
  ◌<◌, ◌≡◌, refl, ap, sym, ◌∙◌, Bool, true, false, none, some, List, [], ◌∷◌,
}
use protobuf_interceptors.Base.Outcomes.{Outcome, returned, panicked}
use protobuf_interceptors.Text.Bytes.{Bytes, bytes, equal_sound}
use protobuf_interceptors.Core.Context.{Context}
use protobuf_interceptors.Core.Errors.{Result, ok, err}
use protobuf_interceptors.Endpoint.Asking.{exchange}
use protobuf_interceptors.Endpoint.Asking.Laws.{DecidedBy, exchange_allows}
use protobuf_interceptors.Endpoint.Backend.{Backend, Request, Response, responded, Logged, LogLine}
use protobuf_interceptors.Endpoint.Cedar.{
  CedarEndpoint, cedar_wording, cedar_request, cedar_decision, is_allow_text, principal_of,
  verify_resolved, verify_cedar,
}
use protobuf_interceptors.Endpoint.Headers.{forwarded_id}
use protobuf_interceptors.Endpoint.Http.{max_int64}
use protobuf_interceptors.Endpoint.Json.{
  Value, null, boolean, number, string, array, object, Object, at,
}
use protobuf_interceptors.Endpoint.Static.{get_bearer_token, get_request_id}

is_allow_text_sound : (v : Value) → is_allow_text v ≡ true → v ≡ string (bytes "Allow")
is_allow_text_sound (string s) h = ap string (equal_sound s (bytes "Allow") h)
is_allow_text_sound null h = cc
is_allow_text_sound (boolean b) h = cc
is_allow_text_sound (number f) h = cc
is_allow_text_sound (array vs) h = cc
is_allow_text_sound (object fs) h = cc

cedar_decision_sound :
    (obj : Object) → cedar_decision obj ≡ none → at (bytes "decision") obj ≡ string (bytes "Allow")
unfolding cedar_decision
cedar_decision_sound obj h =
    is_allow_text_sound (at (bytes "decision") obj)
      (go (is_allow_text (at (bytes "decision") obj)) refl)
  where
    go :
        (b : Bool)
        → is_allow_text (at (bytes "decision") obj) ≡ b
        → is_allow_text (at (bytes "decision") obj) ≡ true
    go true e = e
    go false e = cc

module _ {S : Type 0} (e : CedarEndpoint S) (backend : Backend S) (ctx : Context)
    (resource action : Bytes) where
  verify_resolved_asked :
      (log : List LogLine) (r : Outcome (Result Bytes) × S)
      → (verify_resolved e backend ctx resource action log r).0 ≡ returned none
      → (principal : Bytes) × (outside : S) × (r ≡ (returned (ok principal), outside))
        × (principal_of (ok principal) ≡ some principal)
        × ((exchange e.asker cedar_wording backend ctx cedar_decision
              (cedar_request e principal resource action)
              (forwarded_id e.asker.request_id_header_key (get_request_id ctx))
              (record { outside = outside; log = log })).0
            ≡ none)
  unfolding verify_resolved
  verify_resolved_asked log (panicked, outside) h = cc
  verify_resolved_asked log (returned (err x), outside) h = cc
  verify_resolved_asked log (returned (ok []), outside) h = cc
  verify_resolved_asked log (returned (ok (c ∷ id)), outside) h =
      (c ∷ id, outside, refl, refl, cc h)

  verify_cedar_resolved :
      (st : Logged S)
      → (verify_cedar e backend ctx resource action st).0 ≡ returned none
      → (token : Bytes) × (get_bearer_token ctx ≡ ok token)
        × ((verify_resolved e backend ctx resource action st.log
              (e.principal_resolver ctx token st.outside)).0
            ≡ returned none)
  unfolding verify_cedar
  verify_cedar_resolved st h = go (get_bearer_token ctx) refl
    where
      go :
          (r : Result Bytes)
          → get_bearer_token ctx ≡ r
          → (token : Bytes) × (get_bearer_token ctx ≡ ok token)
            × ((verify_resolved e backend ctx resource action st.log
                  (e.principal_resolver ctx token st.outside)).0
                ≡ returned none)
      go (err x) r = cc
      go (ok token) r = (token, r, sym (rw (verify_cedar, r)) ∙ h)

-- What an answer of the endpoint without an error rests on.
abbrev pub Allowed :
    {S : Type 0} → CedarEndpoint S → Backend S → Context → Bytes → Bytes → Logged S → Type 0
Allowed {S = S} e backend ctx resource action st =
    (token : Bytes) × (principal : Bytes) × (resolved : S) × (request : Request) × (resp : Response)
    × (outside : S) × (obj : Object) × (get_bearer_token ctx ≡ ok token)
    × (e.principal_resolver ctx token st.outside ≡ (returned (ok principal), resolved))
    × (principal_of (ok principal) ≡ some principal)
    × (backend.marshal (cedar_request e principal resource action) ≡ ok request.body)
    × (request.url ≡ e.asker.url)
    × (backend.send ctx request resolved ≡ (responded resp, outside))
    × DecidedBy cedar_decision backend.unmarshal e.asker.max_response_body_size resp obj
    × (at (bytes "decision") obj ≡ string (bytes "Allow"))

-- The endpoint returns no error only where the context has a bearer token, the resolver took it and
-- named a principal that is not empty, the UIDs of that principal, the action and the resource were
-- sent to the endpoint's URL, and the response is a 2xx whose body arrives to its end within the size
-- bound and is an object with the text Allow under the key decision. The bound is below the largest
-- int64.
pub verify_cedar-Allowed :
    {S : Type 0} (e : CedarEndpoint S) (backend : Backend S) (ctx : Context)
    (resource action : Bytes) (st : Logged S)
    → e.asker.max_response_body_size < max_int64
    → (verify_cedar e backend ctx resource action st).0 ≡ returned none
    → Allowed e backend ctx resource action st
verify_cedar-Allowed e backend ctx resource action st bound h =
    let (token, ht, hv) = verify_cedar_resolved e backend ctx resource action st h in
    let (principal, resolved, hr, hp, ha) =
      verify_resolved_asked e backend ctx resource action st.log
        (e.principal_resolver ctx token st.outside) hv in
    let (request, resp, outside, obj, hb, hu, hs, hd) =
      exchange_allows e.asker cedar_wording backend ctx bound cedar_decision
        (cedar_request e principal resource action)
        (forwarded_id e.asker.request_id_header_key (get_request_id ctx))
        (record { outside = resolved; log = st.log }) ha in
    (
      token,
      principal,
      resolved,
      request,
      resp,
      outside,
      obj,
      ht,
      hr,
      hp,
      hb,
      hu,
      hs,
      hd,
      cedar_decision_sound obj hd.4,
    )
