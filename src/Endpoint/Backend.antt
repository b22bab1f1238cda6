-- ===== src/Endpoint/Backend.antt =====
-- What an HTTP endpoint asks of the code around it: encoding/json, net/http and the caller's
-- context; and the steps that endpoint/o3co.go, opa.go and cedar.go take with an answer. The state
-- stands for the backend, the network, the clock and the caller.
pub mod Laws
use protobuf_interceptors.Base.{
  ℕ, suc, Bool, ◌&&◌, Option, none, some, List, [], ◌∷◌, leb, ltb, length, if◌then◌else◌, String,
}
use protobuf_interceptors.Text.Bytes.{Bytes, bytes}
use protobuf_interceptors.Core.Context.{Context}
use protobuf_interceptors.Core.Errors.{Error, Arg, Result, err, ok, text, errorf_w}
use protobuf_interceptors.Endpoint.Failures.{Failure, transient, failure_error, text_of}
use protobuf_interceptors.Endpoint.Headers.{Header}
use protobuf_interceptors.Endpoint.Http.{max_int64, read_bounded, request_error}
use protobuf_interceptors.Endpoint.Json.{Value, Object, as_object}

-- A POST to a URL.
pub record Request : Type 0 where
  pub url : Bytes
  pub body : Bytes
  pub header : Header

-- A body as it arrives: its bytes, and the failure that ends it in place of its end, if one does. A
-- failure comes after the last byte, by itself.
pub record Body : Type 0 where
  pub content : Bytes
  pub broken : Option Failure

pub record Response : Type 0 where
  pub status : ℕ
  pub body : Body

pub data Answered : Type 0 where
  failed : Failure → Answered
  responded : Response → Answered

-- json.Marshal, json.Unmarshal into `any`, the error of http.NewRequestWithContext for a URL,
-- `Client.Do`, the time that passes while a body is read or between two looks at the context, and
-- `ctx.Err()`.
pub record Backend (S : Type 0) : Type 0 where
  pub marshal : Value → Result Bytes
  pub unmarshal : Bytes → Option Value
  pub new_request : Context → Bytes → Option Error
  pub send : Context → Request → S → Answered × S
  pub elapse : S → S
  pub ctx_err : Context → S → Option Error

pub data Level : Type 0 where
  error_level debug_level : Level

-- A line of the log: its level, its message and its attributes' values.
pub record LogLine : Type 0 where
  pub level : Level
  pub message : Bytes
  pub attributes : List Arg

-- The state with the log, its last line first.
pub record Logged (S : Type 0) : Type 0 where
  pub outside : S
  pub log : List LogLine

abbrev pub error_line : String → List Arg → LogLine
error_line message attributes = record {
  level = error_level;
  message = bytes message;
  attributes = attributes;
}

abbrev pub debug_line : String → List Arg → LogLine
debug_line message attributes = record {
  level = debug_level;
  message = bytes message;
  attributes = attributes;
}

-- `decodeObject`
unfoldable pub decode_object : (Bytes → Option Value) → Bytes → Option Object
decode_object unmarshal body = elim (unmarshal body) [ none ↦ none | some v ↦ as_object v ]

-- What `readBounded` returns.
pub record ReadBody : Type 0 where
  pub content : Bytes
  pub oversized : Bool
  pub failure : Option Failure

-- `readBounded`: io.LimitReader ends the reading before the failure of a body that has `limit`
-- bytes.
unfoldable pub read_body : Body → ℕ → ReadBody
unfolding read_bounded
read_body body max =
    let limit = if ltb max max_int64 then suc max else max in
    let read = read_bounded body.content max in
    record {
      content = read.0;
      oversized = read.1;
      failure = if leb limit (length body.content) then none else body.broken;
    }

-- `status >= 200 && status < 300`
abbrev pub is_success : ℕ → Bool
is_success status = leb 200 status && ltb status 300

-- What is left of an answer once its body is read: an error where the reading failed and the
-- caller's context has ended, and the body otherwise, empty where the reading failed.
pub data Received : Type 0 where
  ended : Error → Received
  received : ReadBody → Received

unfoldable pub receive :
    {S : Type 0}
    → Backend S
    → Context
    → ℕ
    → String
    → String
    → Bytes
    → Response
    → Logged S
    → Received × Logged S
unfolding read_body
receive backend ctx max what failed_line id resp st =
    let read = read_body resp.body max in
    let outside = backend.elapse st.outside in
    elim read.failure [
      | none ↦ (received read, record st { outside = outside })
      | some f ↦ elim (backend.ctx_err ctx outside) [
        | some e ↦ (
          ended (request_error (some e) (transient f) (bytes what) (failure_error f)),
          record st { outside = outside },
        )
        | none ↦ (
          received (record read { content = [] }),
          record {
            outside = outside;
            log = error_line failed_line (text (text_of f) ∷ text id ∷ []) ∷ st.log;
          },
        )
      ]
    ]

-- `fmt.Errorf("…: %w", err)` of the errors of two steps before a request is sent
abbrev pub wrap_error {ℓ} : {V : Type ℓ} → String → Result V → Result V
wrap_error format (err e) = err (errorf_w format [] e)
wrap_error format (ok v) = ok v

-- http.NewRequestWithContext, and the headers that are set on what it returns
abbrev pub created : String → Option Error → Request → Result Request
created format (some e) request = err (errorf_w format [] e)
created format none request = ok request
