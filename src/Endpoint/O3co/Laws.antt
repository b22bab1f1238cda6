-- ===== src/Endpoint/O3co/Laws.antt =====
-- endpoint/o3co.go: what an answer without an error says of the response it was made from.
pub mod Accepts
pub mod Allows
pub mod Headers
pub mod Hints
use protobuf_interceptors.Base.{
  ℕ, suc, ◌<◌, ◌≤◌, ◌≡◌, ◌≢◌, refl, ap, sym, ◌∙◌, ◌⊎◌, inl, inr, Bool, true, false, not, ◌&&◌, ◌||◌,
  Option, none, some, List, [], ◌∷◌, arith, ◌==◌, if◌then◌else◌, String, ltb, leb, length,
}
use protobuf_interceptors.Text.Bytes.{Bytes, bytes, equal, equal_iff}
use protobuf_interceptors.Core.Context.{Context}
use protobuf_interceptors.Core.Decision.{Decision, revision_confirmed}
use protobuf_interceptors.Core.Errors.{Error, Result, ok, err, Result-cases}
use protobuf_interceptors.Endpoint.Backend.{
  ReadBody, Backend, Body, Response, Answered, failed, responded, Logged, LogLine, Received, ended,
  received, receive, read_body, decode_object,
}
use protobuf_interceptors.Endpoint.Backend.Laws.{read_body_whole, receive-received}
use protobuf_interceptors.Endpoint.Envelope.{
  WireDecision, to_decision, read_decision, parse_envelope,
}
use protobuf_interceptors.Endpoint.Http.{max_int64, read_bounded}
use protobuf_interceptors.Endpoint.Http.Laws.{read_bounded_lem}
use protobuf_interceptors.Endpoint.Json.{Value, Object}
use protobuf_interceptors.Endpoint.O3co.{
  O3coEndpoint, is_allow, conclude, read_wire, request_body, request_header,
}
use protobuf_interceptors.Endpoint.O3co.Exchange.{
  O3coState, prepare, judge, answer_response, verify_decision,
}
use protobuf_interceptors.Endpoint.O3co.Verdicts.{conclude_allows}
use protobuf_interceptors.Endpoint.Verifier.{Answer}

-- A wire decision read from a body that was read is the decision in the object that the body holds.
read_wire_allow :
    (unmarshal : Bytes → Option Value) (status : ℕ) (read : ReadBody) (w : WireDecision)
    → status ≡ 200
    → read_wire unmarshal status read ≡ some w
    → (read.oversized ≡ false)
      × ((obj : Object) × (decode_object unmarshal read.content ≡ some obj)
          × (read_decision obj ≡ some w))
unfolding read_wire parse_envelope
read_wire_allow unmarshal status read w hs h =
    go read.oversized refl (decode_object unmarshal read.content) refl
  where
    go :
        (o : Bool)
        → read.oversized ≡ o
        → (d : Option Object) → decode_object unmarshal read.content ≡ d
        → (read.oversized ≡ false)
          × ((obj : Object) × (decode_object unmarshal read.content ≡ some obj)
              × (read_decision obj ≡ some w))
    go true ho d hd = ground arith
    go false ho none hd = ground arith
    go false ho (some obj) hd = (ho, (obj, hd, ground arith))

is_allow_lem :
    (wire : Option WireDecision)
    → is_allow wire ≡ true
    → (w : WireDecision) × (wire ≡ some w) × (w.decision ≡ bytes "allow")
is_allow_lem none h = cc
is_allow_lem (some w) h = (w, refl, (equal_iff w.decision (bytes "allow")).0 h)

-- A response that is a whole allow within the bound: its status is 200, and its body arrives to its
-- end and holds an object that is a decision envelope with the verdict allow.
abbrev pub WholeAllow : (Bytes → Option Value) → ℕ → Response → WireDecision → Type 0
WholeAllow unmarshal max resp w =
    (resp.status ≡ 200)
    × (resp.body.broken ≡ none)
    × (length resp.body.content ≤ max)
    × (w.decision ≡ bytes "allow")
    × ((obj : Object) × (decode_object unmarshal resp.body.content ≡ some obj)
        × (read_decision obj ≡ some w))

module _ {S : Type 0} (e : O3coEndpoint) (backend : Backend S) (ctx : Context)
    (bound : e.max_response_body_size < max_int64) where
  pub judge_allows :
      (id : Bytes) (resp : Response) (hinted : Bool) (st : Logged S) (r : Received × Logged S)
      → receive backend ctx e.max_response_body_size "reading the response failed"
          "failed to read response body" id resp st
        ≡ r
      → (judge e backend ctx id resp.status hinted r).0.1 ≡ none
      → (w : WireDecision) × WholeAllow backend.unmarshal e.max_response_body_size resp w
        × ((judge e backend ctx id resp.status hinted r).0.0 ≡ to_decision id (some w))
        × ((not e.require_confirmed_revision || revision_confirmed (to_decision id (some w)))
            ≡ true)
  unfolding judge
  judge_allows id resp hinted st (ended x, logged) hr h = cc
  judge_allows id resp hinted st (received read, logged) hr h =
      let outside = backend.elapse logged.outside in
      let wire = read_wire backend.unmarshal resp.status read in
      let (hs, hf, ha, hd, hc) =
        conclude_allows e wire (backend.ctx_err ctx outside) read resp.status id hinted h in
      let (w, hw, hv) = is_allow_lem wire ha in
      let (ho, (obj, hobj, hread)) = read_wire_allow backend.unmarshal resp.status read w hs hw in
      let same =
        receive-received backend ctx e.max_response_body_size "reading the response failed"
          "failed to read response body" id resp st read logged hr hf in
      let (hb, hl, hcontent) =
        read_body_whole resp.body e.max_response_body_size bound
          (ap (λ x. x.failure) (sym same) ∙ hf) (ap (λ x. x.oversized) (sym same) ∙ ho) in
      (
        w,
        (
          hs,
          hb,
          hl,
          hv,
          (
            obj,
            ap (decode_object backend.unmarshal) (sym (ap (λ x. x.content) same ∙ hcontent)) ∙ hobj,
            hread,
          ),
        ),
        hd ∙ ap (to_decision id) hw,
        ap (λ x. not e.require_confirmed_revision || revision_confirmed (to_decision id x)) (sym hw)
            ∙ hc,
      )
