-- ===== src/Endpoint/O3co/Laws/Accepts.antt =====
-- endpoint/o3co.go: that an allow which the verifier encoded is one for the endpoint.
use protobuf_interceptors.Base.{
  ◌<◌, ◌≤◌, ◌≡◌, refl, ap, ◌∙◌, Bool, true, false, not, ◌||◌, Option, none, some, List, [], arith,
  length,
}
use protobuf_interceptors.Text.Bytes.{Bytes, bytes, equal_iff}
use protobuf_interceptors.Core.Context.{Context}
use protobuf_interceptors.Core.Decision.{revision_confirmed}
use protobuf_interceptors.Core.Errors.{Error, ok}
use protobuf_interceptors.Endpoint.Backend.{
  ReadBody, Backend, Body, Response, Answered, responded, Logged, decode_object,
}
use protobuf_interceptors.Endpoint.Backend.Laws.{receive_whole}
use protobuf_interceptors.Endpoint.Envelope.{WireDecision, to_decision, parse_envelope}
use protobuf_interceptors.Endpoint.Http.{max_int64}
use protobuf_interceptors.Endpoint.Json.{Value}
use protobuf_interceptors.Endpoint.O3co.{O3coEndpoint, accept_allow, conclude, read_wire}
use protobuf_interceptors.Endpoint.O3co.Exchange.{
  O3coState, prepare, judge, answer_response, verify_decision,
}
use protobuf_interceptors.Core.Decision.{RuleGroup, confirm_groups}
use protobuf_interceptors.Base.{All}
use protobuf_interceptors.Endpoint.Backend.{Request}
use protobuf_interceptors.Endpoint.Envelope.Encode.{encode_allow, IsWhole}
use protobuf_interceptors.Endpoint.Envelope.RoundTrip.{read_decision-encode_allow}
use protobuf_interceptors.Endpoint.Headers.{forwarded_id}
use protobuf_interceptors.Endpoint.Json.{object}
use protobuf_interceptors.Endpoint.Static.{get_request_id}

read_wire_encoded :
    (unmarshal : Bytes → Option Value) (read : ReadBody) (resource action subject : Bytes)
    (groups : List RuleGroup)
    → All IsWhole groups
    → read.oversized ≡ false
    → unmarshal read.content ≡ some (object (encode_allow resource action subject groups))
    → read_wire unmarshal 200 read
      ≡ some (record {
        decision = bytes "allow";
        code = [];
        message = [];
        subject = subject;
        groups = groups;
      })
unfolding read_wire decode_object parse_envelope
read_wire_encoded unmarshal read resource action subject groups hg ho hu =
    rw (ho, hu, read_decision-encode_allow resource action subject groups hg)

accept_encoded :
    (e : O3coEndpoint) (w : WireDecision) (ctx_err : Option Error) (read : ReadBody) (id : Bytes)
    (hinted : Bool)
    → w.decision ≡ bytes "allow"
    → read.failure ≡ none
    → (not e.require_confirmed_revision || revision_confirmed (to_decision id (some w))) ≡ true
    → (conclude e (some w) ctx_err read 200 id hinted).answer ≡ (to_decision id (some w), none)
unfolding conclude accept_allow
accept_encoded e w ctx_err read id hinted hw hf hc =
    ground (arith, (equal_iff w.decision (bytes "allow")).1 hw)

verify_decision_of_request :
    {S : Type 0} (e : O3coEndpoint) (backend : Backend S) (ctx : Context) (resource action : Bytes)
    (st : O3coState S) (request : Request) (sent : Answered × S)
    → prepare e backend ctx resource action ≡ ok request
    → backend.send ctx request st.logged.outside ≡ sent
    → verify_decision e backend ctx resource action st
      ≡ answer_response e backend ctx
          (forwarded_id e.request_id_header_key (get_request_id ctx))
          st.logged.log
          st.hinted
          sent
unfolding verify_decision
verify_decision_of_request e backend ctx resource action st request sent hp hs =
    rw (verify_decision, hp, hs)

-- A whole allow that the verifier encoded, with the status 200 and within the size bound, is answered
-- with no error and with the decision that was encoded, for a request that was made and sent, and
-- under the endpoint's requirement that its revisions are confirmed. The conditions on the groups are
-- those of the encoding; the bound is below the largest int64.
pub verify_decision-encode_allow :
    {S : Type 0} (e : O3coEndpoint) (backend : Backend S) (ctx : Context) (resource action : Bytes)
    (st : O3coState S) (request : Request) (content : Bytes) (outside : S) (subject : Bytes)
    (groups : List RuleGroup)
    → prepare e backend ctx resource action ≡ ok request
    → backend.send ctx request st.logged.outside ≡ (
      responded (record { status = 200; body = record { content = content; broken = none } }),
      outside,
    )
    → e.max_response_body_size < max_int64
    → length content ≤ e.max_response_body_size
    → backend.unmarshal content ≡ some (object (encode_allow resource action subject groups))
    → All IsWhole groups
    → (not e.require_confirmed_revision || confirm_groups false groups) ≡ true
    → (verify_decision e backend ctx resource action st).0 ≡ (
      some (record {
        code = [];
        message = [];
        groups = groups;
        subject = subject;
        request_id = forwarded_id e.request_id_header_key (get_request_id ctx);
      }),
      none,
    )
unfolding answer_response judge
verify_decision-encode_allow {S = S} e backend ctx resource action st request content outside
      subject groups hp hs bound hl hu hg hc =
    let body : Body = record { content = content; broken = none } in
    let resp : Response = record { status = 200; body = body } in
    let tag = forwarded_id e.request_id_header_key (get_request_id ctx) in
    let read : ReadBody = record { content = content; oversized = false; failure = none } in
    let w : WireDecision = record {
      decision = bytes "allow";
      code = [];
      message = [];
      subject = subject;
      groups = groups;
    } in
    let logged : Logged S = record { outside = outside; log = st.logged.log } in
    let later = backend.elapse (backend.elapse outside) in
    ap (λ r. r.0) (verify_decision_of_request e backend ctx resource action st request _ hp hs)
    ∙ ap (λ r. (judge e backend ctx tag 200 st.hinted r).0)
        (receive_whole backend ctx e.max_response_body_size "reading the response failed"
          "failed to read response body" tag resp logged bound refl hl)
    ∙ ap (λ x. (conclude e x (backend.ctx_err ctx later) read 200 tag st.hinted).answer)
        (read_wire_encoded backend.unmarshal read resource action subject groups hg refl hu)
    ∙ accept_encoded e w (backend.ctx_err ctx later) read tag st.hinted refl refl hc
