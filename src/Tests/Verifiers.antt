-- ===== src/Tests/Verifiers.antt =====
-- The theorems of endpoint/o3co.go, o3co_decision.go, opa.go and cedar.go on a concrete backend.
use protobuf_interceptors.Base.{
  ℕ, suc, ◌≤◌, ◌≡◌, refl, true, false, Option, none, some, List, [], ◌∷◌, ◌++◌, arith,
  if◌then◌else◌,
}
use protobuf_interceptors.Base.Outcomes.{returned}
use protobuf_interceptors.Text.Bytes.{Bytes, bytes}
use protobuf_interceptors.Text.Numbers.{pos}
use protobuf_interceptors.Text.Runes.{runes}
use protobuf_interceptors.Core.Context.{Context}
use protobuf_interceptors.Core.Decision.{RuleGroup, RuleOutcome, Evaluation, confirm_groups}
use protobuf_interceptors.Core.Errors.{ok, as_denied, as_unauthenticated}
use protobuf_interceptors.Endpoint.Asking.{Asker}
use protobuf_interceptors.Endpoint.Backend.{Backend, responded}
use protobuf_interceptors.Endpoint.Cedar.{CedarEndpoint, verify_cedar, format_entity_uid}
use protobuf_interceptors.Endpoint.Cedar.Laws as CedarLaws
use protobuf_interceptors.Endpoint.Cedar.Laws.{verify_cedar-Allowed}
use protobuf_interceptors.Endpoint.Cedar.Uid.{read_literal, in_text, format_entity_uid-read_literal}
use protobuf_interceptors.Endpoint.Envelope.{read_decision}
use protobuf_interceptors.Endpoint.Envelope.Encode.{encode_allow}
use protobuf_interceptors.Endpoint.Envelope.RoundTrip.{read_decision-encode_allow}
use protobuf_interceptors.Endpoint.Failures.{
  Failure, failure, no_failures, failures, operation, other,
}
use protobuf_interceptors.Endpoint.Headers.{header_get, forwarded_id}
use protobuf_interceptors.Endpoint.Http.{must_be_request_id_header_key}
use protobuf_interceptors.Endpoint.Json.{Value, object, boolean, string, no_fields, field, fields}
use protobuf_interceptors.Endpoint.O3co.{O3coEndpoint, conclude, request_header}
use protobuf_interceptors.Endpoint.O3co.Exchange.{O3coState, prepare, verify_decision}
use protobuf_interceptors.Endpoint.O3co.Laws.Accepts.{verify_decision-encode_allow}
use protobuf_interceptors.Endpoint.O3co.Laws.Allows
use protobuf_interceptors.Endpoint.O3co.Laws.Allows.{verify_decision-Allowed}
use protobuf_interceptors.Endpoint.O3co.Laws.Headers.{request_header_lem}
use protobuf_interceptors.Endpoint.O3co.Laws.Hints.{hints, verify_all, verify_all-hints}
use protobuf_interceptors.Endpoint.O3co.Verdicts.{error_is, conclude-error}
use protobuf_interceptors.Endpoint.Opa.Laws as OpaLaws
use protobuf_interceptors.Endpoint.Opa.{verify_opa}
use protobuf_interceptors.Endpoint.Opa.Laws.{verify_opa-Allowed}

abbrev evaluation : Evaluation
evaluation = record {
  status = bytes "completed";
  revision = bytes "git:4f";
  loaded_revision = [];
  determining_policies = some (bytes "p1" ∷ []);
  determining_policies_omitted = pos 2;
}

abbrev outcome : RuleOutcome
outcome = record {
  code = bytes "ok";
  message = bytes "granted";
  passed = true;
  evaluation = some evaluation;
}

abbrev group : RuleGroup
group = record {
  rule_type = bytes "policy";
  passed = true;
  restricts = false;
  evaluated = outcome ∷ [];
  satisfied_by = some outcome;
}

read_decision-encode_allow_example :
    read_decision
      (fields (encode_allow (bytes "orders.o-7") (bytes "read") (bytes "alice") (group ∷ [])))
    ≡ some (record {
      decision = bytes "allow";
      code = [];
      message = [];
      subject = bytes "alice";
      groups = group ∷ [];
    })
read_decision-encode_allow_example =
    read_decision-encode_allow (bytes "orders.o-7") (bytes "read") (bytes "alice") (group ∷ [])
      ((refl, (ground arith, tt), ground arith), tt)

abbrev ctx : Context
ctx = record {
  policy = none;
  interceptor_ran = true;
  bearer_token = some (bytes "t0");
  request_id = some (bytes "r1");
  extracted_fields = some ((bytes "order", bytes "o-7") ∷ []);
  decision = none;
}

-- The body of an answer is the allow above, in whatever JSON.
abbrev allow_value : Bytes → Option Value
allow_value body =
    some (object (encode_allow (bytes "orders.o-7") (bytes "read") (bytes "alice") (group ∷ [])))

abbrev backend : (Bytes → Option Value) → Backend ℕ
backend unmarshal = record {
  marshal = λ v. ok (bytes "{}");
  unmarshal = unmarshal;
  new_request = λ c url. none;
  send = λ c request s. (
    responded (record { status = 200; body = record { content = bytes "{}"; broken = none } }),
    s,
  );
  elapse = λ s. s;
  ctx_err = λ c s. none;
}

abbrev verifier : O3coEndpoint
verifier = record {
  verify_url = bytes "https://pdp/verify";
  max_response_body_size = 1024;
  request_id_header_key = bytes "x-request-id";
  headers = (bytes "X-Caller-Token", bytes "c" ∷ []) ∷ [];
  require_confirmed_revision = true;
}

abbrev start : O3coState ℕ
start = record { logged = record { outside = 0; log = [] }; hinted = false }

verify_decision-Allowed_example :
    Allows.Allowed verifier (backend allow_value) ctx (bytes "orders.o-7") (bytes "read") start
unfolding verify_decision
verify_decision-Allowed_example =
    verify_decision-Allowed verifier (backend allow_value) ctx (bytes "orders.o-7") (bytes "read")
      start (omega arith) refl

prepared :
    prepare verifier (backend allow_value) ctx (bytes "orders.o-7") (bytes "read")
    ≡ ok (record {
      url = bytes "https://pdp/verify";
      body = bytes "{}";
      header = request_header verifier (bytes "t0") (bytes "r1");
    })
unfolding prepare
prepared = refl

confirmed : confirm_groups false (group ∷ []) ≡ true
unfolding confirm_groups
confirmed = refl

verify_decision-encode_allow_example :
    (verify_decision verifier (backend allow_value) ctx (bytes "orders.o-7") (bytes "read") start).0
    ≡ (
      some (record {
        code = [];
        message = [];
        groups = group ∷ [];
        subject = bytes "alice";
        request_id = bytes "r1";
      }),
      none,
    )
verify_decision-encode_allow_example =
    verify_decision-encode_allow verifier (backend allow_value) ctx (bytes "orders.o-7")
      (bytes "read") start
      (record {
        url = bytes "https://pdp/verify";
        body = bytes "{}";
        header = request_header verifier (bytes "t0") (bytes "r1");
      })
      (bytes "{}") 0 (bytes "alice") (group ∷ []) prepared refl (omega arith) (ground arith) refl
      ((refl, (ground arith, tt), ground arith), tt) confirmed

conclude-error_example :
    (error_is as_denied
        (conclude verifier none none
          (record { content = []; oversized = false; failure = none })
          403
          []
          false).answer.1
      ≡ true)
    × (error_is as_unauthenticated
          (conclude verifier none none
            (record { content = []; oversized = false; failure = none })
            403
            []
            false).answer.1
        ≡ false)
conclude-error_example =
    conclude-error verifier none none (record { content = []; oversized = false; failure = none })
      403 [] false refl refl

abbrev calls : List (Context × Bytes × Bytes)
calls = (ctx, bytes "orders.o-7", bytes "read") ∷ (ctx, bytes "orders.o-8", bytes "read") ∷ []

-- An allow without any evaluation
abbrev bare_value : Bytes → Option Value
bare_value body =
    some (object (encode_allow (bytes "orders.o-7") (bytes "read") (bytes "alice") []))

verify_all-hints_example :
    hints (verify_all verifier (backend bare_value) calls start).logged.log
    ≤ (if (verify_all verifier (backend bare_value) calls start).hinted then 1 else 0)
verify_all-hints_example = verify_all-hints verifier (backend bare_value) calls 0

request_header_lem_example :
    (header_get
        (bytes "Authorization")
        (request_header verifier (bytes "t0") (forwarded_id (bytes "x-request-id") (bytes "r1")))
      ≡ bytes "Bearer t0")
    × (header_get
          (bytes "Content-Type")
          (request_header verifier (bytes "t0") (forwarded_id (bytes "x-request-id") (bytes "r1")))
        ≡ bytes "application/json")
    × (header_get
          (bytes "Accept")
          (request_header verifier (bytes "t0") (forwarded_id (bytes "x-request-id") (bytes "r1")))
        ≡ bytes "application/json")
unfolding must_be_request_id_header_key
request_header_lem_example = request_header_lem verifier (bytes "t0") (bytes "r1") refl

abbrev opa_value : Bytes → Option Value
opa_value body = some (object (field (bytes "result") (boolean true) no_fields))

abbrev asker : Asker
asker = record {
  url = bytes "https://opa/v1/data/authz";
  max_response_body_size = 1024;
  request_id_header_key = bytes "x-request-id";
}

verify_opa-Allowed_example :
    OpaLaws.Allowed asker (backend opa_value) ctx (bytes "orders.o-7") (bytes "read") start.logged
unfolding verify_opa
verify_opa-Allowed_example =
    verify_opa-Allowed asker (backend opa_value) ctx (bytes "orders.o-7") (bytes "read")
      start.logged (omega arith) refl

abbrev cedar_value : Bytes → Option Value
cedar_value body = some (object (field (bytes "decision") (string (bytes "Allow")) no_fields))

abbrev cedar : CedarEndpoint ℕ
cedar = record {
  asker = asker;
  principal_prefix = bytes "User";
  action_prefix = bytes "Action";
  resource_prefix = bytes "Resource";
  principal_resolver = λ c token s. (returned (ok (bytes "alice")), suc s);
}

verify_cedar-Allowed_example :
    CedarLaws.Allowed cedar
      (backend cedar_value)
      ctx
      (bytes "orders.o-7")
      (bytes "read")
      start.logged
unfolding verify_cedar
verify_cedar-Allowed_example =
    verify_cedar-Allowed cedar (backend cedar_value) ctx (bytes "orders.o-7") (bytes "read")
      start.logged (omega arith) refl

format_entity_uid-read_literal_example :
    (literal : Bytes) × (format_entity_uid (bytes "User") (bytes "a\"b")
      ≡ bytes "User" ++ bytes "::\"" ++ literal)
    × (read_literal in_text (runes (literal ++ bytes "]"))
        ≡ some (runes (bytes "a\"b"), runes (bytes "]")))
format_entity_uid-read_literal_example =
    format_entity_uid-read_literal (bytes "User") (bytes "a\"b") (bytes "]")

-- A connection that was reset while a request was sent
abbrev reset : Failure
reset = failure other (bytes "Post: read: connection reset") (
    failures (failure (operation (bytes "read")) (bytes "read: connection reset") no_failures)
      no_failures)
