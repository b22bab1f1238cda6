-- ===== src/Endpoint/Opa.antt =====
-- endpoint/opa.go: the endpoint of an Open Policy Agent.
pub mod Laws
use protobuf_interceptors.Base.{Bool, true, false, Option, none, some, List, [], ◌∷◌}
use protobuf_interceptors.Base.Outcomes.{Call, returned}
use protobuf_interceptors.Text.Bytes.{Bytes, bytes}
use protobuf_interceptors.Core.Context.{Context, extracted_fields_from_context}
use protobuf_interceptors.Core.Errors.{Error, Result, err, ok, denied, errorf}
use protobuf_interceptors.Endpoint.Asking.{Asker, Wording, exchange}
use protobuf_interceptors.Endpoint.Backend.{Backend, Logged}
use protobuf_interceptors.Endpoint.Headers.{forwarded_id}
use protobuf_interceptors.Endpoint.Json.{
  Value, Fields, Object, null, boolean, string, object, no_fields, field, at,
}
use protobuf_interceptors.Endpoint.O3co.{context_field}
use protobuf_interceptors.Endpoint.Static.{get_bearer_token, get_request_id}
use protobuf_interceptors.Endpoint.Verifier.{Verifier, plain}

abbrev pub opa_wording : Wording
opa_wording = record {
  marshal_failed = "failed to marshal OPA request body: %w";
  create_failed = "failed to create OPA request: %w";
  request_failed = "OPA request failed";
  reading_failed = "reading the OPA response failed";
  read_line = "failed to read OPA response body";
  response_line = "OPA response received";
  refused_line = "error response from OPA";
  refused = "OPA returned non-2xx status: %d";
  oversized_line = "OPA response body exceeds the size bound";
  oversized = "OPA response body exceeds the size bound";
  no_object = "failed to parse OPA response: not a JSON object";
}

-- `opaRequest`, as it is marshalled
abbrev pub opa_request : Context → Bytes → Bytes → Bytes → Value
opa_request ctx token resource action = object (
    field (bytes "input")
      (object (
        field (bytes "resource") (string resource) (
          field (bytes "action") (string action) (
            field (bytes "token") (string token)
              (context_field (extracted_fields_from_context ctx))))))
      no_fields)

-- The switch on `obj["result"]`
abbrev pub opa_result : Value → Option Error
opa_result (boolean true) = none
opa_result (boolean false) = some (denied (bytes "access denied by policy") none)
opa_result null = some (denied (bytes "access denied by policy") none)
opa_result _ = some (errorf "failed to parse OPA response: result is not a boolean" [])

unfoldable pub opa_decision : Object → Option Error
unfolding at
opa_decision obj = opa_result (at (bytes "result") obj)

-- `Verify`
unfoldable pub verify_opa :
    {S : Type 0} → Asker → Backend S → Context → Bytes → Bytes → Logged S → Option Error × Logged S
unfolding get_bearer_token exchange opa_decision
verify_opa e backend ctx resource action st = elim (get_bearer_token ctx) [
  | err x ↦ (some x, st)
  | ok token ↦
      exchange e opa_wording backend ctx opa_decision (opa_request ctx token resource action)
        (forwarded_id e.request_id_header_key (get_request_id ctx)) st
]

-- The endpoint as the interceptors call it.
abbrev pub opa_call :
    {S : Type 0} → Asker → Backend S → Context → Bytes → Bytes → Call (Logged S) (Option Error)
opa_call e backend ctx resource action st =
    let (answer, st') = verify_opa e backend ctx resource action st in (returned answer, st')

abbrev pub opa_verifier : {S : Type 0} → Asker → Backend S → Verifier (Logged S)
opa_verifier e backend = plain (opa_call e backend)
