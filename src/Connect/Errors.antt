-- ===== src/Connect/Errors.antt =====
-- connectrpc/errors.go: what the caller of a ConnectRPC RPC is told of an error.
use protobuf_interceptors.Base.{◌≡◌, ◌&&◌, Option, if◌then◌else◌, refl}
use protobuf_interceptors.Core.Errors.{
  Error, status, as_denied, as_unauthenticated, is_sentinel, context_canceled,
  context_deadline_exceeded, backend_unavailable, permission_denied, unauthenticated, canceled,
  deadline_exceeded, unavailable, internal,
}
use protobuf_interceptors.Grpc.Errors.{ended_by, to_grpc_error}

-- `toConnectError` of an error that is not nil; the first argument is `ctx.Err()`. A connect.Error
-- around a fixedMessage is the code, the message and the error behind it.
unfoldable pub to_connect_error : Option Error → Error → Error
unfolding as_denied as_unauthenticated is_sentinel
to_connect_error ctx_err e =
    if as_denied e
    then status permission_denied "access denied" e
    else if as_unauthenticated e
    then status unauthenticated "unauthenticated" e
    else if is_sentinel context_canceled e && ended_by context_canceled ctx_err
    then status canceled "request canceled" e
    else if is_sentinel context_deadline_exceeded e && ended_by context_deadline_exceeded ctx_err
    then status deadline_exceeded "deadline exceeded" e
    else if is_sentinel backend_unavailable e
    then status unavailable "authorization backend unavailable" e
    else status internal "authorization check failed" e

-- The callers of the two frameworks are told the same code and message of the same error.
pub to_connect_error-to_grpc_error :
    (ctx_err : Option Error) (e : Error) → to_connect_error ctx_err e ≡ to_grpc_error ctx_err e
unfolding to_connect_error to_grpc_error
to_connect_error-to_grpc_error ctx_err e = refl
