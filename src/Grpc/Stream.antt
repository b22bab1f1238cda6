-- ===== src/Grpc/Stream.antt =====
-- grpc/stream_interceptor.go: the two stream interceptors and the stream that the handler is given.
-- `M` is what a receive decodes into. A handler is the tree of what it does with its stream: each
-- send and receive, what it does on each outcome (a panic that it recovers included), and what it
-- changes of its own in between. The calls of one stream follow one another.
pub mod Run
pub mod Laws
pub mod Opening
use protobuf_interceptors.Base.{
  ℕ, Bool, true, false, not, Option, none, some, List, [], ◌∷◌, if◌then◌else◌,
}
use protobuf_interceptors.Base.Outcomes.{Outcome, returned, panicked, Call, ◌>>=◌, pure}
use protobuf_interceptors.Text.Bytes.{Bytes}
use protobuf_interceptors.Core.Context.{
  Context, PolicyData, mark_interceptor_ran, interceptor_ran_from_context, with_policy,
  policy_from_context,
}
use protobuf_interceptors.Core.Errors.{
  Error, errorf, errorf_w, is_sentinel, check_incomplete, Result, ok, err,
}
use protobuf_interceptors.Core.Resolve.{FieldMapping, Policy, resolve_resource}
use protobuf_interceptors.Core.Resolve.Extract.{Reflection}
use protobuf_interceptors.Endpoint.Verifier.{Verifier, Answer}
use protobuf_interceptors.Grpc.Config.{Config, CheckPhase, check_send, check_receive, verify}
use protobuf_interceptors.Grpc.Errors.{to_grpc_error}
use protobuf_interceptors.Grpc.Lookup.{Registered, PolicyCache, get_method_policy}
use protobuf_interceptors.Grpc.Unary.{Verdict, refuse, proceed, unmapped_verdict}
use protobuf_interceptors.Streamcheck
use protobuf_interceptors.Streamcheck.{Gate}

module _ (reflection : Reflection) where
  -- The verdict of `PolicyOptionStreamInterceptor` on a method that has a policy: one with field
  -- mappings is refused.
  unfoldable pub stream_mapped_verdict :
      Option Error → Context → Policy → List FieldMapping → Verdict
  unfolding unmapped_verdict to_grpc_error
  stream_mapped_verdict ctx_err ctx policy [] =
      unmapped_verdict reflection ctx_err ctx (resolve_resource reflection policy none)
  stream_mapped_verdict ctx_err ctx policy (m ∷ ms) =
      refuse
        (to_grpc_error ctx_err (errorf "field_mappings are not supported for streaming RPCs" []))

  unfoldable pub stream_policy_verdict : Option Error → Context → Result (Option Policy) → Verdict
  unfolding stream_mapped_verdict
  stream_policy_verdict ctx_err ctx (err e) =
      refuse (to_grpc_error ctx_err (errorf_w "failed to look up method policy: %w" [] e))
  stream_policy_verdict ctx_err ctx (ok none) = proceed ctx
  stream_policy_verdict ctx_err ctx (ok (some policy)) =
      stream_mapped_verdict ctx_err ctx policy policy.field_mappings

  -- `PolicyOptionStreamInterceptor`, up to the handler's call
  unfoldable pub policy_option_stream_verdict :
      (Bytes → Registered) → PolicyCache → Option Error → Context → Bytes → Verdict × PolicyCache
  unfolding stream_policy_verdict
  policy_option_stream_verdict find cache ctx_err ctx full_method =
      let (policy, cache') = get_method_policy find cache full_method in
      (stream_policy_verdict ctx_err (mark_interceptor_ran ctx) policy, cache')

-- `gateError`
unfoldable pub gate_error : Option Error → Error → Error
unfolding to_grpc_error is_sentinel
gate_error ctx_err e = if is_sentinel check_incomplete e then to_grpc_error ctx_err e else e

-- What a message is decoded into: a proto.Message, another pointer, or something else.
pub data Target : Type 0 where
  proto_message pointer other : Target

-- `clearMessage`; `zero` is the message reset.
unfoldable pub clear_message : {M : Type 0} → M → Target → M → M
clear_message zero proto_message m = zero
clear_message zero pointer m = zero
clear_message zero other m = m

-- The transport of a stream, and its context's `Err`.
pub record Transport (S M : Type 0) : Type 0 where
  pub ctx_err : S → Option Error
  pub send_msg : M → S → Option Error × S
  pub recv_msg : M → S → Option Error × M × S
  pub zero : M
  pub target : Target

module _ {S M : Type 0} (transport : Transport S M) where
  open transport use {ctx_err, send_msg, recv_msg, zero, target}

  -- What the re-check made of the endpoint's answer.
  unfoldable pub recheck_answer : Answer → Call S (Option Error)
  unfolding to_grpc_error
  recheck_answer (decision, none) s = (returned none, s)
  recheck_answer (decision, some e) s = (returned (some (to_grpc_error (ctx_err s) e)), s)

  -- The `check` of an `authServerStream`
  unfoldable pub recheck :
      Config S → Verifier S → Context → Bytes → Bytes → Bytes → CheckPhase → Call S (Option Error)
  unfolding recheck_answer
  recheck cfg verifier hctx full_method resource action phase =
      verify cfg hctx verifier full_method phase resource action none >>= recheck_answer

  module _ (now : S → ℕ × S) (check : CheckPhase → Call S (Option Error)) where
    -- `SendMsg` behind its check
    unfoldable pub send_checked :
        M → Outcome (Option Error) × Gate × S → Outcome (Option Error) × Gate × S
    unfolding gate_error
    send_checked m (returned none, g, s) = let (e, s') = send_msg m s in (returned e, g, s')
    send_checked m (returned (some e), g, s) = (returned (some (gate_error (ctx_err s) e)), g, s)
    send_checked m (panicked, g, s) = (panicked, g, s)

    -- `SendMsg`
    unfoldable pub auth_send : M → Gate → S → Outcome (Option Error) × Gate × S
    unfolding send_checked
    auth_send m g s = send_checked m (Streamcheck.check now g (check check_send) s)

    -- `RecvMsg` behind its check, with what the message then holds
    unfoldable pub receive_checked :
        M → Outcome (Option Error) × Gate × S → Outcome (Option Error) × M × Gate × S
    unfolding gate_error clear_message
    receive_checked m (returned none, g, s) = (returned none, m, g, s)
    receive_checked m (returned (some e), g, s) =
        (returned (some (gate_error (ctx_err s) e)), clear_message zero target m, g, s)
    receive_checked m (panicked, g, s) = (panicked, clear_message zero target m, g, s)

    -- `RecvMsg` behind the transport's receive
    unfoldable pub received : Gate → Option Error × M × S → Outcome (Option Error) × M × Gate × S
    unfolding receive_checked
    received g (some e, m, s) = (returned (some e), m, g, s)
    received g (none, m, s) = receive_checked m (Streamcheck.check now g (check check_receive) s)

    -- `RecvMsg`
    unfoldable pub auth_receive : M → Gate → S → Outcome (Option Error) × M × Gate × S
    unfolding received
    auth_receive m g s = elim g.err [
      | some e ↦ (returned (some (gate_error (ctx_err s) e)), m, g, s)
      | none ↦ received g (recv_msg m s)
    ]
