-- ===== src/Endpoint/O3co/Laws/Allows.antt =====
-- endpoint/o3co.go: what an allow rests on, from the context to the request and the answer.
use protobuf_interceptors.Base.{
  ◌<◌, ◌≡◌, refl, ap, sym, ◌∙◌, Bool, true, not, ◌||◌, none, some, List,
}
use protobuf_interceptors.Text.Bytes.{Bytes}
use protobuf_interceptors.Core.Context.{Context}
use protobuf_interceptors.Core.Decision.{revision_confirmed}
use protobuf_interceptors.Core.Errors.{Result, ok, err, >>=-eq-ok}
use protobuf_interceptors.Endpoint.Backend.{Backend, Response, Answered, failed, responded, LogLine}
use protobuf_interceptors.Endpoint.Backend.Laws.{wrap_error_ok, created_ok}
use protobuf_interceptors.Endpoint.Envelope.{WireDecision, to_decision}
use protobuf_interceptors.Endpoint.Http.{max_int64}
use protobuf_interceptors.Endpoint.O3co.{O3coEndpoint, request_body, request_header}
use protobuf_interceptors.Endpoint.O3co.Exchange.{
  O3coState, prepare, answer_response, verify_decision,
}
use protobuf_interceptors.Endpoint.Backend.{Request, wrap_error}
use protobuf_interceptors.Endpoint.Headers.{forwarded_id}
use protobuf_interceptors.Endpoint.O3co.Laws.{WholeAllow, judge_allows}
use protobuf_interceptors.Endpoint.Static.{get_bearer_token, get_request_id}

module _ {S : Type 0} (e : O3coEndpoint) (backend : Backend S) (ctx : Context) where
  abbrev tag : Bytes
  tag = forwarded_id e.request_id_header_key (get_request_id ctx)

  prepare_ok :
      (resource action : Bytes) (request : Request)
      → prepare e backend ctx resource action ≡ ok request
      → (token : Bytes) × (get_bearer_token ctx ≡ ok token)
        × (backend.marshal (request_body ctx resource action) ≡ ok request.body)
        × (request.url ≡ e.verify_url)
        × (request.header ≡ request_header e token tag)
  unfolding prepare
  prepare_ok resource action request h =
      let (token, ht, next) = >>=-eq-ok (get_bearer_token ctx) _ h in
      let (body, hb, made) =
        >>=-eq-ok
          (wrap_error "failed to marshal request body: %w"
            (backend.marshal (request_body ctx resource action)))
          _ next in
      let same =
        created_ok "failed to create request: %w" (backend.new_request ctx e.verify_url) _ request
          made in
      (
        token,
        ht,
        wrap_error_ok "failed to marshal request body: %w"
              (backend.marshal (request_body ctx resource action)) body hb
            ∙ ap (λ r. ok (r.body)) same,
        ap (λ r. r.url) (sym same),
        ap (λ r. r.header) (sym same),
      )

  -- A call without an error sent a request and judged a response.
  verify_decision_sent :
      (resource action : Bytes) (st : O3coState S)
      → (verify_decision e backend ctx resource action st).0.1 ≡ none
      → (request : Request) × (prepare e backend ctx resource action ≡ ok request)
        × (verify_decision e backend ctx resource action st
            ≡ answer_response e backend ctx tag st.logged.log st.hinted
                (backend.send ctx request st.logged.outside))
  unfolding verify_decision
  verify_decision_sent resource action st h = go (prepare e backend ctx resource action) refl
    where
      go :
          (r : Result Request)
          → prepare e backend ctx resource action ≡ r
          → (request : Request) × (prepare e backend ctx resource action ≡ ok request)
            × (verify_decision e backend ctx resource action st
                ≡ answer_response e backend ctx tag st.logged.log st.hinted
                    (backend.send ctx request st.logged.outside))
      go (err x) hr = cc
      go (ok request) hr = (request, hr, rw (verify_decision, hr))

  answer_response_judged :
      (log : List LogLine) (hinted : Bool) (r : Answered × S)
      → (answer_response e backend ctx tag log hinted r).0.1 ≡ none
      → (resp : Response) × (outside : S) × (r ≡ (responded resp, outside))
  unfolding answer_response
  answer_response_judged log hinted (failed f, outside) h = cc
  answer_response_judged log hinted (responded resp, outside) h = (resp, outside, refl)

-- What an answer of the endpoint without an error rests on: a bearer token, a request with the token
-- and the body for the resource and the action, which was sent, and a whole allow in the response,
-- whose decision is the one returned, with confirmed revisions where the endpoint requires them.
abbrev pub Allowed :
    {S : Type 0} → O3coEndpoint → Backend S → Context → Bytes → Bytes → O3coState S → Type 0
Allowed {S = S} e backend ctx resource action st =
    (token : Bytes) × (request : Request) × (resp : Response) × (outside : S) × (w : WireDecision)
    × (get_bearer_token ctx ≡ ok token)
    × (backend.marshal (request_body ctx resource action) ≡ ok request.body)
    × (request.url ≡ e.verify_url)
    × (request.header
        ≡ request_header e token (forwarded_id e.request_id_header_key (get_request_id ctx)))
    × (backend.send ctx request st.logged.outside ≡ (responded resp, outside))
    × WholeAllow backend.unmarshal e.max_response_body_size resp w
    × ((verify_decision e backend ctx resource action st).0.0
        ≡ to_decision (forwarded_id e.request_id_header_key (get_request_id ctx)) (some w))
    × ((not e.require_confirmed_revision
          || revision_confirmed
              (to_decision (forwarded_id e.request_id_header_key (get_request_id ctx)) (some w)))
        ≡ true)

-- The endpoint returns no error only where the context has a bearer token, the request with that
-- token and the resource and action was sent to its URL, and the response is a whole allow within
-- the size bound. The decision it then returns is the one in the body, and has confirmed revisions
-- where the endpoint requires them. The bound is below the largest int64.
pub verify_decision-Allowed :
    {S : Type 0} (e : O3coEndpoint) (backend : Backend S) (ctx : Context) (resource action : Bytes)
    (st : O3coState S)
    → e.max_response_body_size < max_int64
    → (verify_decision e backend ctx resource action st).0.1 ≡ none
    → Allowed e backend ctx resource action st
unfolding answer_response
verify_decision-Allowed e backend ctx resource action st bound h =
    let id = tag e backend ctx in
    let (request, hp, hv) = verify_decision_sent e backend ctx resource action st h in
    let sent = backend.send ctx request st.logged.outside in
    let (token, ht, hm, hu, hh) = prepare_ok e backend ctx resource action request hp in
    let h' : (answer_response e backend ctx id st.logged.log st.hinted sent).0.1 ≡ none =
      ap (λ r. r.0.1) (sym hv) ∙ h in
    let (resp, outside, hs) =
      answer_response_judged e backend ctx st.logged.log st.hinted sent h' in
    let hj : verify_decision e backend ctx resource action st
        ≡ answer_response e backend ctx id st.logged.log st.hinted (responded resp, outside) =
      hv ∙ ap (answer_response e backend ctx id st.logged.log st.hinted) hs in
    let (w, hw, hd, hc) =
      judge_allows e backend ctx bound id resp st.hinted
        (record { outside = outside; log = st.logged.log }) _ refl (ap (λ r. r.0.1) (sym hj) ∙ h) in
    (token, request, resp, outside, w, ht, hm, hu, hh, hs, hw, ap (λ r. r.0.0) hj ∙ hd, hc)
