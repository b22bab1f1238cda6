-- ===== src/Endpoint/O3co.antt =====
-- endpoint/o3co.go: the endpoint of auth.policy-verifier, the request that it sends and what it
-- makes of an answer.
pub mod Exchange
pub mod Laws
pub mod Verdicts
use protobuf_interceptors.Base.{
  ℕ, Bool, true, false, not, ◌&&◌, ◌||◌, Option, none, some, List, [], ◌∷◌, ◌++◌, map, ◌==◌, any,
  if◌then◌else◌, String,
}
use protobuf_interceptors.Base.Outcomes.{Call, returned}
use protobuf_interceptors.Text.Bytes.{Bytes, bytes, equal}
use protobuf_interceptors.Core.Context.{Context, extracted_fields_from_context}
use protobuf_interceptors.Core.Decision.{
  Decision, RuleGroup, RuleOutcome, is_some, revision_confirmed,
}
use protobuf_interceptors.Core.Errors.{
  Error, Result, err, ok, ◌>>=◌, text, number, errorf, errorf_w, denied, unauthenticated_error,
  unconfirmed_revision, sentinel, caller_unauthenticated,
}
use protobuf_interceptors.Endpoint.Backend.{
  Backend, Request, Response, Answered, failed, responded, Logged, LogLine, error_line, debug_line,
  ReadBody, Received, ended, received, receive, wrap_error, created, decode_object, is_success,
}
use protobuf_interceptors.Endpoint.Envelope.{
  WireDecision, decision_envelope, error_envelope, parse_envelope, to_decision,
}
use protobuf_interceptors.Endpoint.Failures.{Failure, transient, failure_error}
use protobuf_interceptors.Endpoint.Headers.{
  Header, header_set, no_content_coding, add_static, set_request_id, forwarded_id,
}
use protobuf_interceptors.Endpoint.Http.{request_error, status_error, truncated_body}
use protobuf_interceptors.Endpoint.Json.{Value, Fields, string, object, no_fields, field}
use protobuf_interceptors.Endpoint.Static.{get_bearer_token, get_request_id}
use protobuf_interceptors.Endpoint.Verifier.{Answer, Verifier, deciding}

-- `o3coEndpoint`, without its client and its logger.
pub record O3coEndpoint : Type 0 where
  pub verify_url : Bytes
  pub max_response_body_size : ℕ
  pub request_id_header_key : Bytes
  pub headers : Header
  pub require_confirmed_revision : Bool

-- `codeCallerUnauthenticated`
abbrev pub code_caller_unauthenticated : Bytes
code_caller_unauthenticated = bytes "caller_unauthenticated"

-- `carriesEvaluation`
abbrev pub outcome_evaluated : Option RuleOutcome → Bool
outcome_evaluated none = false
outcome_evaluated (some o) = is_some o.evaluation

unfoldable pub carries_evaluation : Option Decision → Bool
carries_evaluation none = false
carries_evaluation (some d) =
    any (λ g. any (λ o. is_some o.evaluation) g.evaluated || outcome_evaluated g.satisfied_by)
      d.groups

-- What the endpoint answers, whether `noEvaluationHint` is done after that, and the lines logged,
-- the last first.
pub record Concluded : Type 0 where
  pub answer : Answer
  pub hinted : Bool
  pub lines : List LogLine

abbrev pub hint_line : LogLine
hint_line =
    error_line
      "refusing allows for want of a confirmed policy revision, and the verifier sent no evaluation at all: it reports them only under verify.evaluationInResponse = \"include\", and until it does every allow is refused"
      []

abbrev pub is_allow : Option WireDecision → Bool
is_allow none = false
is_allow (some w) = equal w.decision (bytes "allow")

-- `acceptAllow`
unfoldable pub accept_allow : O3coEndpoint → Option WireDecision → ℕ → Bytes → Bool → Concluded
unfolding to_decision equal carries_evaluation revision_confirmed
accept_allow e wire status id hinted =
    let decision = to_decision id wire in
    if not (status == 200) || not (is_allow wire)
    then record {
      answer = (
        decision,
        some (errorf "authorization service error: %d without a whole allow" (number status ∷ [])),
      );
      hinted = hinted;
      lines =
          error_line "authorization server answered a success status without a whole allow"
            (number status ∷ text id ∷ [])
          ∷ [];
    }
    else if e.require_confirmed_revision && not (revision_confirmed decision)
    then record {
      answer = (decision, some (unconfirmed_revision decision));
      hinted = hinted || not (carries_evaluation decision);
      lines = if not hinted && not (carries_evaluation decision) then hint_line ∷ [] else [];
    }
    else record { answer = (decision, none); hinted = hinted; lines = [] }

-- The envelope read from a body, as its status says.
unfoldable pub read_wire : (Bytes → Option Value) → ℕ → ReadBody → Option WireDecision
unfolding parse_envelope decode_object
read_wire unmarshal status read =
    if read.oversized then none else elim (decode_object unmarshal read.content) [
      | none ↦ none
      | some obj ↦
          parse_envelope obj
            (if is_success status || status == 403 then decision_envelope else error_envelope)
    ]

abbrev pub code_of : Option WireDecision → Bytes
code_of none = []
code_of (some w) = w.code

-- The part of `VerifyDecision` for a status outside 2xx.
unfoldable pub refuse : Option WireDecision → ℕ → Bytes → Answer
unfolding to_decision equal status_error
refuse wire status id =
    let decision = to_decision id wire in
    if status == 403
    then (decision, some (denied (bytes "access denied") decision))
    else if status == 401
    then (
      none,
      some (
          if equal (code_of wire) code_caller_unauthenticated
          then sentinel caller_unauthenticated
          else unauthenticated_error (bytes "invalid or expired token")),
    )
    else (
      none,
      some (status_error status (errorf "authorization service error: %d" (number status ∷ []))),
    )

-- The part of `VerifyDecision` behind the reading of the body, given `ctx.Err()`.
unfoldable pub conclude :
    O3coEndpoint → Option WireDecision → Option Error → ReadBody → ℕ → Bytes → Bool → Concluded
unfolding accept_allow refuse request_error transient truncated_body
conclude e wire ctx_err read status id hinted =
    if is_success status
    then elim read.failure [
      | some f ↦ record {
        answer = (
          none,
          some (
              request_error ctx_err (transient f) (bytes "reading the response failed")
                (failure_error f)),
        );
        hinted = hinted;
        lines = [];
      }
      | none ↦ accept_allow e wire status id hinted
    ]
    else record {
      answer = refuse wire status id;
      hinted = hinted;
      lines =
          debug_line "error response body" (text (truncated_body read.content) ∷ text id ∷ [])
          ∷ error_line "error response from authorization server"
              (number status ∷ text (code_of wire) ∷ text id ∷ [])
          ∷ [];
    }

-- The body of a request: what is extracted goes with it where there is any.
abbrev pub string_fields : List (Bytes × Bytes) → Fields
string_fields [] = no_fields
string_fields ((k, v) ∷ m) = field k (string v) (string_fields m)

abbrev pub context_field : Option (List (Bytes × Bytes)) → Fields
context_field none = no_fields
context_field (some []) = no_fields
context_field (some (f ∷ fs)) = field (bytes "context") (object (string_fields (f ∷ fs))) no_fields

abbrev pub request_body : Context → Bytes → Bytes → Value
request_body ctx resource action = object (
    field (bytes "resource") (string resource)
      (field (bytes "action") (string action) (context_field (extracted_fields_from_context ctx))))

-- The headers of a request, in the order they are set.
unfoldable pub request_header : O3coEndpoint → Bytes → Bytes → Header
unfolding add_static header_set no_content_coding
request_header e token id =
    let static = add_static e.headers [] in
    let typed = header_set (bytes "Content-Type") (bytes "application/json") static in
    let accepting = header_set (bytes "Accept") (bytes "application/json") typed in
    let authorized =
      header_set (bytes "Authorization") (bytes "Bearer " ++ token) (no_content_coding accepting) in
    set_request_id e.request_id_header_key id authorized
