-- ===== src/Endpoint/Asking.antt =====
-- endpoint/opa.go and endpoint/cedar.go: what the two endpoints have in common, from the request to
-- the object in the body of the answer. They differ in their texts and in the key they read.
pub mod Laws
use protobuf_interceptors.Base.{
  ℕ, Bool, true, false, not, Option, none, some, List, [], ◌∷◌, ◌++◌, if◌then◌else◌, String,
}
use protobuf_interceptors.Text.Bytes.{Bytes, bytes}
use protobuf_interceptors.Core.Context.{Context}
use protobuf_interceptors.Core.Errors.{Error, Result, err, ok, ◌>>=◌, text, number, errorf}
use protobuf_interceptors.Endpoint.Backend.{
  Backend, Request, Answered, failed, responded, Logged, LogLine, error_line, debug_line, ReadBody,
  Received, ended, received, receive, wrap_error, created, decode_object, is_success,
}
use protobuf_interceptors.Endpoint.Failures.{Failure, transient, failure_error}
use protobuf_interceptors.Endpoint.Headers.{Header, header_set, no_content_coding, set_request_id}
use protobuf_interceptors.Endpoint.Http.{request_error, status_error, truncated_body}
use protobuf_interceptors.Endpoint.Json.{Value, Object}

-- The texts of an endpoint's errors and log lines.
pub record Wording : Type 0 where
  pub marshal_failed : String
  pub create_failed : String
  pub request_failed : String
  pub reading_failed : String
  pub read_line : String
  pub response_line : String
  pub refused_line : String
  pub refused : String
  pub oversized_line : String
  pub oversized : String
  pub no_object : String

-- An endpoint's configuration that the exchange reads.
pub record Asker : Type 0 where
  pub url : Bytes
  pub max_response_body_size : ℕ
  pub request_id_header_key : Bytes

-- The headers of a request, in the order they are set.
unfoldable pub json_header : Bytes → Bytes → Header
unfolding header_set no_content_coding
json_header key id =
    let typed = header_set (bytes "Content-Type") (bytes "application/json") [] in
    let accepting = header_set (bytes "Accept") (bytes "application/json") typed in
    set_request_id key id (no_content_coding accepting)

-- What a body that was read amounts to, given `ctx.Err()` and what the endpoint makes of an object,
-- with the lines logged, the last first; `none` is a nil error.
unfoldable pub weigh :
    Wording
    → (Bytes → Option Value)
    → (Object → Option Error)
    → Option Error
    → ReadBody
    → ℕ
    → Bytes
    → Option Error × List LogLine
unfolding status_error request_error transient truncated_body decode_object
weigh wording unmarshal decide ctx_err read status id =
    if not (is_success status)
    then (
      some (status_error status (errorf wording.refused (number status ∷ []))),
      debug_line "error response body" (text (truncated_body read.content) ∷ text id ∷ [])
          ∷ error_line wording.refused_line (number status ∷ text id ∷ [])
          ∷ [],
    )
    else elim read.failure [
      | some f ↦ (
        some (request_error ctx_err (transient f) (bytes wording.reading_failed) (failure_error f)),
        [],
      )
      | none ↦
          if read.oversized
          then (
            some (errorf wording.oversized []),
            error_line wording.oversized_line (number status ∷ text id ∷ []) ∷ [],
          )
          else elim (decode_object unmarshal read.content) [
            | none ↦ (some (errorf wording.no_object []), [])
            | some obj ↦ (decide obj, [])
          ]
    ]

module _ {S : Type 0} (asker : Asker) (wording : Wording) (backend : Backend S)
    (ctx : Context) where
  unfoldable pub make_request : Value → Bytes → Result Request
  unfolding json_header
  make_request body id = wrap_error wording.marshal_failed (backend.marshal body) >>= λ json.
      created wording.create_failed (backend.new_request ctx asker.url) (record {
        url = asker.url;
        body = json;
        header = json_header asker.request_id_header_key id;
      })

  unfoldable pub weigh_received :
      (Object → Option Error) → Bytes → ℕ → Received × Logged S → Option Error × Logged S
  unfolding weigh
  weigh_received decide id status (ended x, logged) = (some x, logged)
  weigh_received decide id status (received read, logged) =
      let outside = backend.elapse logged.outside in
      let (answer, lines) =
        weigh wording backend.unmarshal decide (backend.ctx_err ctx outside) read status id in
      (
        answer,
        record {
          outside = outside;
          log =
              lines ++ debug_line wording.response_line (number status ∷ text id ∷ []) ∷ logged.log;
        },
      )

  unfoldable pub weigh_answer :
      (Object → Option Error) → Bytes → List LogLine → Answered × S → Option Error × Logged S
  unfolding receive weigh_received request_error transient
  weigh_answer decide id log (failed f, outside) = (
    some (
        request_error (backend.ctx_err ctx outside) (transient f) (bytes wording.request_failed)
          (failure_error f)),
    record { outside = outside; log = log },
  )
  weigh_answer decide id log (responded resp, outside) = weigh_received decide id resp.status (
      receive backend ctx asker.max_response_body_size wording.reading_failed wording.read_line id
        resp (record { outside = outside; log = log }))

  -- A request with this body, and what its answer amounts to.
  unfoldable pub exchange :
      (Object → Option Error) → Value → Bytes → Logged S → Option Error × Logged S
  unfolding make_request weigh_answer
  exchange decide body id st = elim (make_request body id) [
    | err x ↦ (some x, st)
    | ok request ↦ weigh_answer decide id st.log (backend.send ctx request st.outside)
  ]
