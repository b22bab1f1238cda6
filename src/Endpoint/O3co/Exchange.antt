-- ===== src/Endpoint/O3co/Exchange.antt =====
-- endpoint/o3co.go: `VerifyDecision` and `Verify`, from the context to the answer.
use protobuf_interceptors.Base.{ℕ, Bool, Option, none, some, List, [], ◌∷◌, ◌++◌, if◌then◌else◌}
use protobuf_interceptors.Base.Outcomes.{Call, returned}
use protobuf_interceptors.Text.Bytes.{Bytes, bytes}
use protobuf_interceptors.Core.Context.{Context}
use protobuf_interceptors.Core.Errors.{Error, Result, err, ok, ◌>>=◌, text, number}
use protobuf_interceptors.Endpoint.Backend.{
  Backend, Request, Answered, failed, responded, Logged, LogLine, debug_line, Received, ended,
  received, receive, wrap_error, created,
}
use protobuf_interceptors.Endpoint.Failures.{transient, failure_error}
use protobuf_interceptors.Endpoint.Headers.{forwarded_id}
use protobuf_interceptors.Endpoint.Http.{request_error}
use protobuf_interceptors.Endpoint.Static.{get_bearer_token, get_request_id}
use protobuf_interceptors.Endpoint.Verifier.{Answer, Verifier, deciding}
use protobuf_interceptors.Endpoint.O3co.{
  O3coEndpoint, request_body, request_header, read_wire, conclude,
}

-- The state of a call, and whether `noEvaluationHint` is done.
pub record O3coState (S : Type 0) : Type 0 where
  pub logged : Logged S
  pub hinted : Bool

module _ {S : Type 0} (e : O3coEndpoint) (backend : Backend S) (ctx : Context) where
  -- `VerifyDecision` up to the request it sends
  unfoldable pub prepare : Bytes → Bytes → Result Request
  unfolding get_bearer_token request_header
  prepare resource action = get_bearer_token ctx >>= λ token.
      wrap_error "failed to marshal request body: %w"
        (backend.marshal (request_body ctx resource action))
      >>= λ body.
          created "failed to create request: %w" (backend.new_request ctx e.verify_url) (record {
            url = e.verify_url;
            body = body;
            header =
                request_header e token (forwarded_id e.request_id_header_key (get_request_id ctx));
          })

  -- `VerifyDecision` once the body is read
  unfoldable pub judge : Bytes → ℕ → Bool → Received × Logged S → Answer × O3coState S
  unfolding read_wire conclude
  judge id status hinted (ended x, logged) =
      ((none, some x), record { logged = logged; hinted = hinted })
  judge id status hinted (received read, logged) =
      let wire = read_wire backend.unmarshal status read in
      let outside = backend.elapse logged.outside in
      let c = conclude e wire (backend.ctx_err ctx outside) read status id hinted in
      (
        c.answer,
        record {
          logged = record {
            outside = outside;
            log =
                c.lines
                ++ debug_line "response received" (number status ∷ text id ∷ [])
                  ∷ (if read.oversized
                      then debug_line "response body exceeds the size bound; not read as a decision"
                          (number status ∷ text id ∷ [])
                        ∷ logged.log
                      else logged.log);
          };
          hinted = c.hinted;
        },
      )

  -- `VerifyDecision` once the request is sent
  unfoldable pub answer_response : Bytes → List LogLine → Bool → Answered × S → Answer × O3coState S
  unfolding receive judge request_error transient
  answer_response id log hinted (failed f, outside) = (
    (
      none,
      some (
          request_error (backend.ctx_err ctx outside) (transient f) (bytes "request failed")
            (failure_error f)),
    ),
    record { logged = record { outside = outside; log = log }; hinted = hinted },
  )
  answer_response id log hinted (responded resp, outside) = judge id resp.status hinted (
      receive backend ctx e.max_response_body_size "reading the response failed"
        "failed to read response body" id resp (record { outside = outside; log = log }))

  -- `VerifyDecision`
  unfoldable pub verify_decision : Bytes → Bytes → O3coState S → Answer × O3coState S
  unfolding prepare answer_response
  verify_decision resource action st = elim (prepare resource action) [
    | err x ↦ ((none, some x), st)
    | ok request ↦
        answer_response (forwarded_id e.request_id_header_key (get_request_id ctx)) st.logged.log
          st.hinted (backend.send ctx request st.logged.outside)
  ]

-- `Verify`
unfoldable pub verify_o3co :
    {S : Type 0}
    → O3coEndpoint
    → Backend S
    → Context
    → Bytes
    → Bytes
    → O3coState S
    → Option Error × O3coState S
unfolding verify_decision
verify_o3co e backend ctx resource action st =
    let (answer, st') = verify_decision e backend ctx resource action st in (answer.1, st')

-- The endpoint as the interceptors call it.
abbrev pub o3co_call :
    {S : Type 0} → O3coEndpoint → Backend S → Context → Bytes → Bytes → Call (O3coState S) Answer
o3co_call e backend ctx resource action st =
    let (answer, st') = verify_decision e backend ctx resource action st in (returned answer, st')

abbrev pub o3co_verifier : {S : Type 0} → O3coEndpoint → Backend S → Verifier (O3coState S)
o3co_verifier e backend = deciding (o3co_call e backend)
