-- ===== src/Connect/Stream.antt =====
-- connectrpc/interceptor.go: the stream that a handler is given, and `WrapStreamingHandler` of the
-- verification interceptor. Transports, handlers and the state are those of grpc/'s streams.
pub mod Agreement
use protobuf_interceptors.Base.{
  Bool, true, false, not, Option, none, some, List, [], ◌∷◌, ℕ, if◌then◌else◌,
}
use protobuf_interceptors.Base.Outcomes.{Outcome, returned, panicked, Call, ◌>>=◌, pure}
use protobuf_interceptors.Text.Bytes.{Bytes}
use protobuf_interceptors.Core.Context.{
  Context, PolicyData, interceptor_ran_from_context, policy_from_context,
}
use protobuf_interceptors.Core.Errors.{Error, errorf, is_sentinel, check_incomplete}
use protobuf_interceptors.Endpoint.Verifier.{Verifier}
use protobuf_interceptors.Connect.Errors.{to_connect_error}
use protobuf_interceptors.Connect.Interceptor.{Spec, connect_verify, check_unannotated_procedure}
use protobuf_interceptors.Grpc.Config.{
  Config, CheckPhase, check_open, check_send, check_receive, Inbound, with_inbound,
}
use protobuf_interceptors.Grpc.Stream.{Transport, Target, proto_message, pointer, other}
use protobuf_interceptors.Grpc.Stream.Run.{
  Program, finish, panic, act, send, receive, run_unchecked,
}
use protobuf_interceptors.Streamcheck
use protobuf_interceptors.Streamcheck.{Gate}

-- `gateError`
unfoldable pub connect_gate_error : Option Error → Error → Error
unfolding to_connect_error is_sentinel
connect_gate_error ctx_err e =
    if is_sentinel check_incomplete e then to_connect_error ctx_err e else e

-- `clearMessage`
unfoldable pub connect_clear_message : {M : Type 0} → M → Target → M → M
connect_clear_message zero proto_message m = zero
connect_clear_message zero pointer m = zero
connect_clear_message zero other m = m

-- What the closure that the gate runs for the opening check hands to it, and the context that it
-- leaves: the one it found, if it did not return.
abbrev pub opening_error :
    {S : Type 0} → Outcome (Context × Option Error) × S → Outcome (Option Error) × S
opening_error (returned (ctx, e), s) = (returned e, s)
opening_error (panicked, s) = (panicked, s)

abbrev pub opening_context : {S : Type 0} → Context → Outcome (Context × Option Error) × S → Context
opening_context ctx (returned (ctx', e), s) = ctx'
opening_context ctx (panicked, s) = ctx

module _ {S M : Type 0} (transport : Transport S M) where
  open transport use {ctx_err, send_msg, recv_msg, zero, target}

  unfoldable pub connect_recheck_answer : Context × Option Error → Call S (Option Error)
  unfolding to_connect_error
  connect_recheck_answer (ctx, none) s = (returned none, s)
  connect_recheck_answer (ctx, some e) s = (returned (some (to_connect_error (ctx_err s) e)), s)

  -- The `check` of an `authStreamingHandlerConn`
  unfoldable pub connect_recheck :
      Config S → Verifier S → Context → Bytes → Bytes → Bytes → CheckPhase → Call S (Option Error)
  unfolding connect_verify connect_recheck_answer
  connect_recheck v verifier ctx procedure resource action phase =
      connect_verify v ctx verifier procedure phase resource action none >>= connect_recheck_answer

  module _ (now : S → ℕ × S) (check : CheckPhase → Call S (Option Error)) where
    -- `Send` behind its check
    unfoldable pub connect_sent :
        M → Outcome (Option Error) × Gate × S → Outcome (Option Error) × Gate × S
    unfolding connect_gate_error
    connect_sent m (returned (some e), g, s) =
        (returned (some (connect_gate_error (ctx_err s) e)), g, s)
    connect_sent m (returned none, g, s) = let (e, s') = send_msg m s in (returned e, g, s')
    connect_sent m (panicked, g, s) = (panicked, g, s)

    -- `Send`
    unfoldable pub connect_send : M → Gate → S → Outcome (Option Error) × Gate × S
    unfolding connect_sent
    connect_send m g s = connect_sent m (Streamcheck.check now g (check check_send) s)

    -- `Receive` behind its check, with what the message then holds
    unfoldable pub connect_receive_checked :
        M → Outcome (Option Error) × Gate × S → Outcome (Option Error) × M × Gate × S
    unfolding connect_gate_error connect_clear_message
    connect_receive_checked m (returned (some e), g, s) = (
      returned (some (connect_gate_error (ctx_err s) e)),
      connect_clear_message zero target m,
      g,
      s,
    )
    connect_receive_checked m (returned none, g, s) = (returned none, m, g, s)
    connect_receive_checked m (panicked, g, s) =
        (panicked, connect_clear_message zero target m, g, s)

    -- `Receive` behind the transport's receive
    unfoldable pub connect_received :
        Gate → Option Error × M × S → Outcome (Option Error) × M × Gate × S
    unfolding connect_receive_checked
    connect_received g (some e, m, s) = (returned (some e), m, g, s)
    connect_received g (none, m, s) =
        connect_receive_checked m (Streamcheck.check now g (check check_receive) s)

    -- `Receive`
    unfoldable pub connect_receive : M → Gate → S → Outcome (Option Error) × M × Gate × S
    unfolding connect_received
    connect_receive m g s = elim g.err [
      | some e ↦ (returned (some (connect_gate_error (ctx_err s) e)), m, g, s)
      | none ↦ connect_received g (recv_msg m s)
    ]

    -- The handler over an `authStreamingHandlerConn`
    unfoldable pub connect_run : Program S M → Gate → S → Outcome (Option Error) × Gate × S
    unfolding connect_send connect_receive
    connect_run (finish e) g s = (returned e, g, s)
    connect_run panic g s = (panicked, g, s)
    connect_run (act f p) g s = connect_run p g (f s)
    connect_run (send m k) g s =
        let (outcome, g', s') = connect_send m g s in connect_run (k outcome) g' s'
    connect_run (receive m k) g s =
        let (outcome, m', g', s') = connect_receive m g s in connect_run (k outcome m') g' s'

  -- The end of `WrapStreamingHandler`
  unfoldable pub connect_finished : Outcome (Option Error) × Gate × S → Outcome (Option Error) × S
  unfolding connect_gate_error
  connect_finished (panicked, g, s) = (panicked, s)
  connect_finished (returned e, g, s) = elim g.err [
    | none ↦ (returned e, s)
    | some failed ↦ (returned (some (connect_gate_error (ctx_err s) failed)), s)
  ]

  module _ (v : Config S) (verifier : Verifier S) (handler : Context → Program S M)
      (procedure : Bytes) where
    -- `WrapStreamingHandler` behind the opening check, which left this context.
    unfoldable pub connect_opened :
        PolicyData → Context → Outcome (Option Error) × Gate × S → Outcome (Option Error) × S
    unfolding connect_finished connect_run connect_recheck
    connect_opened p ctx (panicked, g, s) = (panicked, s)
    connect_opened p ctx (returned (some e), g, s) =
        (returned (some (to_connect_error (ctx_err s) e)), s)
    connect_opened p ctx (returned none, g, s) = connect_finished (
        connect_run v.now (connect_recheck v verifier ctx procedure p.resource p.action)
          (handler ctx) g s)

    unfoldable pub connect_open_check :
        Context → PolicyData → Option Error → Call S (Context × Option Error)
    unfolding connect_verify
    connect_open_check ctx p cred_err =
        connect_verify v ctx verifier procedure check_open p.resource p.action cred_err

    -- `WrapStreamingHandler` behind its guard
    unfoldable pub connect_stream_checked :
        Context → Option Error → Option PolicyData → S → Outcome (Option Error) × S
    unfolding connect_opened connect_open_check run_unchecked
    connect_stream_checked ctx cred_err none s = elim (check_unannotated_procedure v procedure) [
      | some e ↦ (returned (some (to_connect_error (ctx_err s) e)), s)
      | none ↦ run_unchecked transport (handler ctx) s
    ]
    connect_stream_checked ctx cred_err (some p) s =
        connect_opened p (opening_context ctx (connect_open_check ctx p cred_err (v.now s).1)) (
          Streamcheck.check v.now (Streamcheck.new v.recheck_interval)
            (λ s1. opening_error (connect_open_check ctx p cred_err s1)) s)

    abbrev out_of_order : Error
    out_of_order = errorf "PolicyOptionInterceptor must run before VerificationInterceptor" []

    -- `verificationInterceptor.WrapStreamingHandler`
    unfoldable pub wrap_streaming_handler : Context → Inbound → S → Outcome (Option Error) × S
    unfolding connect_stream_checked with_inbound
    wrap_streaming_handler ctx inbound s =
        let (ctx', cred_err) = with_inbound ctx inbound in
        if not (interceptor_ran_from_context ctx')
        then (returned (some (to_connect_error (ctx_err s) out_of_order)), s)
        else connect_stream_checked ctx' cred_err (policy_from_context ctx') s
