-- ===== src/Endpoint/Opa/Laws.antt =====
-- endpoint/opa.go: what an allow rests on.
use protobuf_interceptors.Base.{◌<◌, ◌≡◌, refl, sym, ◌∙◌, true, false, none}
use protobuf_interceptors.Text.Bytes.{Bytes, bytes}
use protobuf_interceptors.Core.Context.{Context}
use protobuf_interceptors.Core.Errors.{Result, ok, err}
use protobuf_interceptors.Endpoint.Asking.{Asker, exchange}
use protobuf_interceptors.Endpoint.Asking.Laws.{DecidedBy, exchange_allows}
use protobuf_interceptors.Endpoint.Backend.{Backend, Request, Response, responded, Logged}
use protobuf_interceptors.Endpoint.Headers.{forwarded_id}
use protobuf_interceptors.Endpoint.Http.{max_int64}
use protobuf_interceptors.Endpoint.Json.{
  Value, null, boolean, number, string, array, object, Object, at,
}
use protobuf_interceptors.Endpoint.Opa.{
  opa_wording, opa_request, opa_result, opa_decision, verify_opa,
}
use protobuf_interceptors.Endpoint.Static.{get_bearer_token, get_request_id}

opa_result-boolean : (v : Value) → opa_result v ≡ none → v ≡ boolean true
opa_result-boolean (boolean true) h = refl
opa_result-boolean (boolean false) h = cc
opa_result-boolean null h = cc
opa_result-boolean (number f) h = cc
opa_result-boolean (string s) h = cc
opa_result-boolean (array vs) h = cc
opa_result-boolean (object fs) h = cc

module _ {S : Type 0} (e : Asker) (backend : Backend S) (ctx : Context) (resource action : Bytes)
    (st : Logged S) where
  verify_opa_asked :
      (verify_opa e backend ctx resource action st).0 ≡ none
      → (token : Bytes) × (get_bearer_token ctx ≡ ok token)
        × ((exchange e opa_wording backend ctx opa_decision
              (opa_request ctx token resource action)
              (forwarded_id e.request_id_header_key (get_request_id ctx))
              st).0
            ≡ none)
  unfolding verify_opa
  verify_opa_asked h = go (get_bearer_token ctx) refl
    where
      go :
          (r : Result Bytes)
          → get_bearer_token ctx ≡ r
          → (token : Bytes) × (get_bearer_token ctx ≡ ok token)
            × ((exchange e opa_wording backend ctx opa_decision
                  (opa_request ctx token resource action)
                  (forwarded_id e.request_id_header_key (get_request_id ctx))
                  st).0
                ≡ none)
      go (err x) r = cc
      go (ok token) r = (token, r, sym (rw (verify_opa, r)) ∙ h)

-- What an answer of the endpoint without an error rests on.
abbrev pub Allowed : {S : Type 0} → Asker → Backend S → Context → Bytes → Bytes → Logged S → Type 0
Allowed {S = S} e backend ctx resource action st =
    (token : Bytes) × (request : Request) × (resp : Response) × (outside : S) × (obj : Object)
    × (get_bearer_token ctx ≡ ok token)
    × (backend.marshal (opa_request ctx token resource action) ≡ ok request.body)
    × (request.url ≡ e.url)
    × (backend.send ctx request st.outside ≡ (responded resp, outside))
    × DecidedBy opa_decision backend.unmarshal e.max_response_body_size resp obj
    × (at (bytes "result") obj ≡ boolean true)

-- The endpoint returns no error only where the context has a bearer token, the token with the
-- resource, the action and what was extracted was sent to its URL, and the response is a 2xx whose
-- body arrives to its end within the size bound and is an object with true under the key result. The
-- bound is below the largest int64.
pub verify_opa-Allowed :
    {S : Type 0} (e : Asker) (backend : Backend S) (ctx : Context) (resource action : Bytes)
    (st : Logged S)
    → e.max_response_body_size < max_int64
    → (verify_opa e backend ctx resource action st).0 ≡ none
    → Allowed e backend ctx resource action st
unfolding opa_decision
verify_opa-Allowed e backend ctx resource action st bound h =
    let (token, ht, ha) = verify_opa_asked e backend ctx resource action st h in
    let (request, resp, outside, obj, hb, hu, hs, hd) =
      exchange_allows e opa_wording backend ctx bound opa_decision
        (opa_request ctx token resource action)
        (forwarded_id e.request_id_header_key (get_request_id ctx)) st ha in
    (
      token,
      request,
      resp,
      outside,
      obj,
      ht,
      hb,
      hu,
      hs,
      hd,
      opa_result-boolean (at (bytes "result") obj) hd.4,
    )
