-- ===== src/Endpoint/O3co/Laws/Hints.antt =====
-- endpoint/o3co.go: `noEvaluationHint`, over any sequence of calls.
use protobuf_interceptors.Base.{
  ℕ, ◌+◌, ◌≤◌, ◌≡◌, refl, Bool, true, false, Option, List, [], ◌∷◌, ◌++◌, arith, if◌then◌else◌,
}
use protobuf_interceptors.Text.Bytes.{Bytes, equal}
use protobuf_interceptors.Core.Context.{Context}
use protobuf_interceptors.Core.Errors.{Error, Result, ok, err, number, text}
use protobuf_interceptors.Endpoint.Backend.{
  ReadBody, Backend, Response, Answered, failed, responded, Logged, LogLine, Request, debug_line,
  Received, ended, received, receive,
}
use protobuf_interceptors.Endpoint.Envelope.{WireDecision}
use protobuf_interceptors.Endpoint.O3co.{O3coEndpoint, accept_allow, conclude, read_wire, hint_line}
use protobuf_interceptors.Endpoint.O3co.Exchange.{
  O3coState, prepare, judge, answer_response, verify_decision,
}

abbrev is_hint : LogLine → Bool
is_hint line = equal line.message hint_line.message

-- How many lines of a log are the hint.
unfoldable pub hints : List LogLine → ℕ
hints [] = 0
hints (line ∷ log) = (if is_hint line then 1 else 0) + hints log

-- The hint is in the log at most once, and not at all until it is done.
abbrev pub HintedOnce : Bool → List LogLine → Type 0
HintedOnce hinted log = hints log ≤ (if hinted then 1 else 0)

hints-append : (ls ms : List LogLine) → hints (ls ++ ms) ≡ hints ls + hints ms
unfolding hints
hints-append [] ms = omega arith
hints-append (l ∷ ls) ms = omega (arith, hints-append ls ms)

receive-hints :
    {S : Type 0} (backend : Backend S) (ctx : Context) (max : ℕ) (id : Bytes) (resp : Response)
    (st : Logged S)
    → hints (
        (receive backend ctx max "reading the response failed" "failed to read response body" id
          resp st).1.log)
      ≡ hints st.log
unfolding receive hints equal
receive-hints backend ctx max id resp st = ground arith

accept_allow-hints :
    (e : O3coEndpoint) (wire : Option WireDecision) (status : ℕ) (id : Bytes) (hinted : Bool)
    (n : ℕ)
    → n ≤ (if hinted then 1 else 0)
    → hints (accept_allow e wire status id hinted).lines + n
      ≤ (if (accept_allow e wire status id hinted).hinted then 1 else 0)
unfolding accept_allow hints equal
accept_allow-hints e wire status id hinted n h = ground arith

conclude-hints :
    (e : O3coEndpoint) (wire : Option WireDecision) (ctx_err : Option Error) (read : ReadBody)
    (status : ℕ) (id : Bytes) (hinted : Bool) (n : ℕ)
    → n ≤ (if hinted then 1 else 0)
    → hints (conclude e wire ctx_err read status id hinted).lines + n
      ≤ (if (conclude e wire ctx_err read status id hinted).hinted then 1 else 0)
unfolding conclude hints equal
conclude-hints e wire ctx_err read status id hinted n h =
    ground (arith, accept_allow-hints e wire status id hinted n h)

response_lines-hints :
    (status : ℕ) (id : Bytes) (oversized : Bool) (log : List LogLine)
    → hints (
        debug_line "response received" (number status ∷ text id ∷ [])
        ∷ (if oversized
            then debug_line "response body exceeds the size bound; not read as a decision"
                (number status ∷ text id ∷ [])
              ∷ log
            else log))
      ≡ hints log
unfolding hints equal
response_lines-hints status id true log = omega arith
response_lines-hints status id false log = omega arith

module _ {S : Type 0} (e : O3coEndpoint) (backend : Backend S) (ctx : Context) where
  judge-HintedOnce :
      (id : Bytes) (status : ℕ) (hinted : Bool) (r : Received × Logged S)
      → HintedOnce hinted r.1.log
      → HintedOnce
          (judge e backend ctx id status hinted r).1.hinted
          (judge e backend ctx id status hinted r).1.logged.log
  unfolding judge
  judge-HintedOnce id status hinted (ended x, logged) h = h
  judge-HintedOnce id status hinted (received read, logged) h =
      let c =
        conclude e (read_wire backend.unmarshal status read)
          (backend.ctx_err ctx (backend.elapse logged.outside)) read status id hinted in
      let rest : List LogLine =
        if read.oversized
        then debug_line "response body exceeds the size bound; not read as a decision"
            (number status ∷ text id ∷ [])
          ∷ logged.log
        else logged.log in
      grind (
        arith,
        hints-append c.lines (debug_line "response received" (number status ∷ text id ∷ []) ∷ rest),
        response_lines-hints status id read.oversized logged.log,
        conclude-hints e (read_wire backend.unmarshal status read)
            (backend.ctx_err ctx (backend.elapse logged.outside)) read status id hinted
            (hints logged.log) h,
      )

  answer_response-HintedOnce :
      (id : Bytes) (log : List LogLine) (hinted : Bool) (r : Answered × S)
      → HintedOnce hinted log
      → HintedOnce
          (answer_response e backend ctx id log hinted r).1.hinted
          (answer_response e backend ctx id log hinted r).1.logged.log
  unfolding answer_response
  answer_response-HintedOnce id log hinted (failed f, outside) h = h
  answer_response-HintedOnce id log hinted (responded resp, outside) h =
      let st : Logged S = record { outside = outside; log = log } in
      let same = receive-hints backend ctx e.max_response_body_size id resp st in
      judge-HintedOnce id resp.status hinted _ (grind (arith, same))

  verify_decision-HintedOnce :
      (resource action : Bytes) (st : O3coState S)
      → HintedOnce st.hinted st.logged.log
      → HintedOnce
          (verify_decision e backend ctx resource action st).1.hinted
          (verify_decision e backend ctx resource action st).1.logged.log
  unfolding verify_decision
  verify_decision-HintedOnce resource action st h = go (prepare e backend ctx resource action) refl
    where
      go :
          (r : Result Request)
          → prepare e backend ctx resource action ≡ r
          → HintedOnce
              (verify_decision e backend ctx resource action st).1.hinted
              (verify_decision e backend ctx resource action st).1.logged.log
      go (err x) hr = rw (verify_decision, hr) h
      go (ok request) hr =
          rw (verify_decision, hr)
            (answer_response-HintedOnce _ st.logged.log st.hinted
              (backend.send ctx request st.logged.outside) h)

-- One call after the other, each with its context, resource and action
unfoldable pub verify_all :
    {S : Type 0}
    → O3coEndpoint
    → Backend S
    → List (Context × Bytes × Bytes)
    → O3coState S
    → O3coState S
unfolding verify_decision
verify_all e backend [] st = st
verify_all e backend ((ctx, resource, action) ∷ calls) st =
    verify_all e backend calls (verify_decision e backend ctx resource action st).1

verify_all-HintedOnce :
    {S : Type 0} (e : O3coEndpoint) (backend : Backend S) (calls : List (Context × Bytes × Bytes))
    (st : O3coState S)
    → HintedOnce st.hinted st.logged.log
    → HintedOnce (verify_all e backend calls st).hinted (verify_all e backend calls st).logged.log
unfolding verify_all
verify_all-HintedOnce e backend [] st h = h
verify_all-HintedOnce e backend ((ctx, resource, action) ∷ calls) st h =
    verify_all-HintedOnce e backend calls _
      (verify_decision-HintedOnce e backend ctx resource action st h)

-- Over any calls of a new endpoint, the hint that the verifier sends no evaluation is logged at most
-- once, and only where it is recorded as done.
pub verify_all-hints :
    {S : Type 0} (e : O3coEndpoint) (backend : Backend S) (calls : List (Context × Bytes × Bytes))
    (outside : S)
    → hints
        (verify_all e backend calls
          (record { logged = record { outside = outside; log = [] }; hinted = false })).logged.log
      ≤ (if (verify_all e backend calls
            (record { logged = record { outside = outside; log = [] }; hinted = false })).hinted
          then 1
          else 0)
unfolding hints
verify_all-hints e backend calls outside =
    verify_all-HintedOnce e backend calls
      (record { logged = record { outside = outside; log = [] }; hinted = false }) (omega arith)
