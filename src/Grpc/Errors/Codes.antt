-- ===== src/Grpc/Errors/Codes.antt =====
-- Which code and message an error is told with.
use protobuf_interceptors.Base.{◌≡◌, true, false, ◌&&◌, Option, String, arith}
use protobuf_interceptors.Core.Errors.{
  Error, Code, status, as_denied, as_unauthenticated, is_sentinel, context_canceled,
  context_deadline_exceeded, backend_unavailable, permission_denied, unauthenticated, canceled,
  deadline_exceeded, unavailable, internal,
}
use protobuf_interceptors.Grpc.Errors.{ended_by, to_grpc_error}

-- The one message that goes with each code.
abbrev pub fixed_message : Code → String
fixed_message permission_denied = "access denied"
fixed_message unauthenticated = "unauthenticated"
fixed_message canceled = "request canceled"
fixed_message deadline_exceeded = "deadline exceeded"
fixed_message unavailable = "authorization backend unavailable"
fixed_message internal = "authorization check failed"

-- When an error is told with a code. The conditions exclude one another.
abbrev pub IsToldAs : Option Error → Error → Code → Type 0
IsToldAs ctx_err e permission_denied = as_denied e ≡ true
IsToldAs ctx_err e unauthenticated = (as_denied e ≡ false) × (as_unauthenticated e ≡ true)
IsToldAs ctx_err e canceled =
    (as_denied e ≡ false)
    × (as_unauthenticated e ≡ false)
    × (is_sentinel context_canceled e ≡ true)
    × (ended_by context_canceled ctx_err ≡ true)
IsToldAs ctx_err e deadline_exceeded =
    (as_denied e ≡ false)
    × (as_unauthenticated e ≡ false)
    × ((is_sentinel context_canceled e && ended_by context_canceled ctx_err) ≡ false)
    × (is_sentinel context_deadline_exceeded e ≡ true)
    × (ended_by context_deadline_exceeded ctx_err ≡ true)
IsToldAs ctx_err e unavailable =
    (as_denied e ≡ false)
    × (as_unauthenticated e ≡ false)
    × ((is_sentinel context_canceled e && ended_by context_canceled ctx_err) ≡ false)
    × ((is_sentinel context_deadline_exceeded e && ended_by context_deadline_exceeded ctx_err)
        ≡ false)
    × (is_sentinel backend_unavailable e ≡ true)
IsToldAs ctx_err e internal =
    (as_denied e ≡ false)
    × (as_unauthenticated e ≡ false)
    × ((is_sentinel context_canceled e && ended_by context_canceled ctx_err) ≡ false)
    × ((is_sentinel context_deadline_exceeded e && ended_by context_deadline_exceeded ctx_err)
        ≡ false)
    × (is_sentinel backend_unavailable e ≡ false)

-- The code that `to_grpc_error` chooses.
pub told_code : (ctx_err : Option Error) (e : Error) → Code
told_code ctx_err e = code_of (to_grpc_error ctx_err e)
  where
    code_of : Error → Code
    code_of (status c _ _) = c
    code_of _ = internal

-- An error is told with one of six codes, by the first of their conditions that holds, with that
-- code's fixed message and nothing of the error's own text; the error told wraps the error.
pub to_grpc_error-IsToldAs :
    (ctx_err : Option Error) (e : Error)
    → (to_grpc_error ctx_err e
        ≡ status (told_code ctx_err e) (fixed_message (told_code ctx_err e)) e)
      × IsToldAs ctx_err e (told_code ctx_err e)
unfolding to_grpc_error told_code
to_grpc_error-IsToldAs ctx_err e = ground arith
