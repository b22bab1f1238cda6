-- ===== src/Endpoint/Cedar.antt =====
-- endpoint/cedar.go: the endpoint of a Cedar agent, and the entity UIDs in its requests.
pub mod Uid
pub mod Laws
use protobuf_interceptors.Base.{
  ℕ, ◌+◌, ◌-◌, ◌/◌, ◌%◌, Bool, true, false, not, ◌||◌, Option, none, some, List, [], ◌∷◌, ◌++◌, ltb,
  ◌==◌, if◌then◌else◌,
}
use protobuf_interceptors.Base.Outcomes.{Call, Outcome, returned, panicked}
use protobuf_interceptors.Text.Bytes.{Bytes, bytes, equal}
use protobuf_interceptors.Text.Runes.{runes}
use protobuf_interceptors.Text.Utf8.{encode_runes}
use protobuf_interceptors.Core.Context.{Context}
use protobuf_interceptors.Core.Errors.{
  Error, Result, err, ok, text, errorf, denied, unauthenticated_error,
}
use protobuf_interceptors.Endpoint.Asking.{Asker, Wording, exchange}
use protobuf_interceptors.Endpoint.Backend.{Backend, Logged, LogLine, debug_line}
use protobuf_interceptors.Endpoint.Headers.{forwarded_id}
use protobuf_interceptors.Endpoint.Json.{Value, Object, string, object, no_fields, field, at}
use protobuf_interceptors.Endpoint.Static.{get_bearer_token, get_request_id}
use protobuf_interceptors.Endpoint.Verifier.{Verifier, plain}

-- A digit of `%x`
abbrev pub hex_digit : ℕ → ℕ
hex_digit d = if ltb d 10 then b'0' + d else b'a' + (d - 10)

-- `%x` of a number below 256
abbrev pub hex : ℕ → List ℕ
hex r = if ltb r 16 then hex_digit r ∷ [] else hex_digit (r / 16) ∷ hex_digit (r % 16) ∷ []

-- What is written for one rune of an id
abbrev pub escape_rune : ℕ → List ℕ
escape_rune r =
    if r == b'"' || r == b'\\'
    then b'\\' ∷ r ∷ []
    else if ltb r 0x20 || r == 0x7f
    then b'\\' ∷ b'u' ∷ b'{' ∷ hex r ++ b'}' ∷ []
    else r ∷ []

unfoldable pub escape : List ℕ → List ℕ
escape [] = []
escape (r ∷ rs) = escape_rune r ++ escape rs

-- `formatEntityUID`
unfoldable pub format_entity_uid : Bytes → Bytes → Bytes
unfolding escape runes encode_runes
format_entity_uid entity_type id =
    entity_type ++ bytes "::\"" ++ encode_runes (escape (runes id)) ++ b'"' ∷ []

abbrev pub cedar_wording : Wording
cedar_wording = record {
  marshal_failed = "failed to marshal Cedar agent request body: %w";
  create_failed = "failed to create Cedar agent request: %w";
  request_failed = "request to the Cedar agent failed";
  reading_failed = "reading the Cedar agent response failed";
  read_line = "failed to read Cedar agent response body";
  response_line = "Cedar agent response received";
  refused_line = "error response from Cedar agent";
  refused = "the Cedar agent returned non-2xx status: %d";
  oversized_line = "Cedar agent response body exceeds the size bound";
  oversized = "the Cedar agent response body exceeds the size bound";
  no_object = "failed to parse Cedar agent response: not a JSON object";
}

-- `cedarEndpoint`. The resolver is the application's: it changes the state, and may panic.
pub record CedarEndpoint (S : Type 0) : Type 0 where
  pub asker : Asker
  pub principal_prefix : Bytes
  pub action_prefix : Bytes
  pub resource_prefix : Bytes
  pub principal_resolver : Context → Bytes → Call S (Result Bytes)

-- `cedarRequest`, as it is marshalled
unfoldable pub cedar_request : {S : Type 0} → CedarEndpoint S → Bytes → Bytes → Bytes → Value
unfolding format_entity_uid
cedar_request e principal resource action = object (
    field (bytes "principal") (string (format_entity_uid e.principal_prefix principal)) (
      field (bytes "action") (string (format_entity_uid e.action_prefix action)) (
        field (bytes "resource") (string (format_entity_uid e.resource_prefix resource))
          (field (bytes "context") (object no_fields) no_fields))))

-- `obj["decision"] == "Allow"`
abbrev pub is_allow_text : Value → Bool
is_allow_text (string s) = equal s (bytes "Allow")
is_allow_text _ = false

unfoldable pub cedar_decision : Object → Option Error
unfolding at equal
cedar_decision obj =
    if is_allow_text (at (bytes "decision") obj)
    then none
    else some (denied (bytes "access denied by policy") none)

-- The principal that a resolver names: none for an error or an empty id.
abbrev pub principal_of : Result Bytes → Option Bytes
principal_of (err x) = none
principal_of (ok []) = none
principal_of (ok (c ∷ id)) = some (c ∷ id)

-- `Verify` once the resolver is called; its error, which only the log tells, is not kept.
unfoldable pub verify_resolved :
    {S : Type 0}
    → CedarEndpoint S
    → Backend S
    → Context
    → Bytes
    → Bytes
    → List LogLine
    → Outcome (Result Bytes) × S
    → Outcome (Option Error) × Logged S
unfolding exchange cedar_request cedar_decision
verify_resolved e backend ctx resource action log (panicked, outside) =
    (panicked, record { outside = outside; log = log })
verify_resolved e backend ctx resource action log (returned resolved, outside) =
    elim (principal_of resolved) [
      | none ↦ (
        returned (some (unauthenticated_error (bytes "invalid or expired token"))),
        record {
          outside = outside;
          log =
              debug_line "principal resolver refused the bearer token"
                (text (get_request_id ctx) ∷ [])
              ∷ log;
        },
      )
      | some principal ↦
          let (answer, st) =
            exchange e.asker cedar_wording backend ctx cedar_decision
              (cedar_request e principal resource action)
              (forwarded_id e.asker.request_id_header_key (get_request_id ctx))
              (record { outside = outside; log = log }) in
          (returned answer, st)
    ]

-- `Verify`
unfoldable pub verify_cedar :
    {S : Type 0}
    → CedarEndpoint S
    → Backend S
    → Context
    → Bytes
    → Bytes
    → Call (Logged S) (Option Error)
unfolding get_bearer_token verify_resolved
verify_cedar e backend ctx resource action st = elim (get_bearer_token ctx) [
  | err x ↦ (returned (some x), st)
  | ok token ↦
      verify_resolved e backend ctx resource action st.log
        (e.principal_resolver ctx token st.outside)
]

abbrev pub cedar_verifier : {S : Type 0} → CedarEndpoint S → Backend S → Verifier (Logged S)
cedar_verifier e backend = plain (verify_cedar e backend)
