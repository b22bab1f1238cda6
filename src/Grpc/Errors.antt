-- ===== src/Grpc/Errors.antt =====
-- grpc/errors.go: what the RPC caller is told of an error.
pub mod Codes
use protobuf_interceptors.Base.{Bool, true, false, ◌&&◌, Option, none, some, if◌then◌else◌}
use protobuf_interceptors.Core.Errors.{
  Error, status, as_denied, as_unauthenticated, is_sentinel, context_canceled,
  context_deadline_exceeded, backend_unavailable, Sentinel, permission_denied, unauthenticated,
  canceled, deadline_exceeded, unavailable, internal,
}

-- `errors.Is(ctx.Err(), target)`
abbrev pub ended_by : Sentinel → Option Error → Bool
ended_by target none = false
ended_by target (some e) = is_sentinel target e

-- `toGRPCError` of an error that is not nil; the first argument is `ctx.Err()`.
unfoldable pub to_grpc_error : Option Error → Error → Error
unfolding as_denied as_unauthenticated is_sentinel
to_grpc_error ctx_err e =
    if as_denied e
    then status permission_denied "access denied" e
    else if as_unauthenticated e
    then status unauthenticated "unauthenticated" e
    else if is_sentinel context_canceled e && ended_by context_canceled ctx_err
    then status canceled "request canceled" e
    else if is_sentinel context_deadline_exceeded e && ended_by context_deadline_exceeded ctx_err
    then status deadline_exceeded "deadline exceeded" e
    else if is_sentinel backend_unavailable e
    then status unavailable "authorization backend unavailable" e
    else status internal "authorization check failed" e
