-- ===== src/Grpc/Stream/Run.antt =====
-- grpc/stream_interceptor.go: a handler's run over its stream, and `VerificationStreamInterceptor`.
use protobuf_interceptors.Base.{ℕ, not, Option, none, some, [], if◌then◌else◌}
use protobuf_interceptors.Base.Outcomes.{Outcome, returned, panicked, Call}
use protobuf_interceptors.Text.Bytes.{Bytes}
use protobuf_interceptors.Core.Context.{
  Context, PolicyData, interceptor_ran_from_context, policy_from_context,
}
use protobuf_interceptors.Core.Decision.{Decision}
use protobuf_interceptors.Core.Errors.{Error, errorf}
use protobuf_interceptors.Endpoint.Verifier.{Verifier, Answer}
use protobuf_interceptors.Grpc.Config.{
  Config, Inbound, CheckPhase, check_open, check_unannotated, verify, with_inbound, with_reported,
}
use protobuf_interceptors.Grpc.Errors.{to_grpc_error}
use protobuf_interceptors.Grpc.Stream.{Transport, recheck, auth_send, auth_receive, gate_error}
use protobuf_interceptors.Streamcheck
use protobuf_interceptors.Streamcheck.{Gate}

-- What a handler does with its stream.
pub data Program (S M : Type 0) : Type 0 where
  finish : Option Error → Program S M
  panic : Program S M
  act : (S → S) → Program S M → Program S M
  send : M → (Outcome (Option Error) → Program S M) → Program S M
  receive : M → (Outcome (Option Error) → M → Program S M) → Program S M

-- The error of an answer to the opening check, which is what the gate sees.
abbrev pub answer_error : {S : Type 0} → Outcome Answer × S → Outcome (Option Error) × S
answer_error (returned (decision, e), s) = (returned e, s)
answer_error (panicked, s) = (panicked, s)

-- The decision that the opening check left, nil if it did not return one.
abbrev pub answer_decision : {S : Type 0} → Outcome Answer × S → Option Decision
answer_decision (returned (decision, e), s) = decision
answer_decision (panicked, s) = none

module _ {S : Type 0} (cfg : Config S) (verifier : Verifier S) (ctx : Context)
    (full_method : Bytes) where
  -- The opening check as the gate runs it.
  unfoldable pub opening : PolicyData → Option Error → Call S (Option Error)
  opening p cred_err s =
      answer_error (verify cfg ctx verifier full_method check_open p.resource p.action cred_err s)

  -- `decision` as the opening check sets it: the gate is new, so that it runs the check right
  -- after it read the clock.
  abbrev pub opened_decision : PolicyData → Option Error → S → Option Decision
  opened_decision p cred_err s =
      answer_decision
        (verify cfg ctx verifier full_method check_open p.resource p.action cred_err (cfg.now s).1)

module _ {S M : Type 0} (transport : Transport S M) where
  open transport use {ctx_err, send_msg, recv_msg}

  -- The handler over an `authServerStream`
  unfoldable pub run :
      (S → ℕ × S)
      → (CheckPhase → Call S (Option Error))
      → Program S M
      → Gate
      → S
      → Outcome (Option Error) × Gate × S
  unfolding auth_send auth_receive
  run now check (finish e) g s = (returned e, g, s)
  run now check panic g s = (panicked, g, s)
  run now check (act f p) g s = run now check p g (f s)
  run now check (send m k) g s =
      let (outcome, g', s') = auth_send transport now check m g s in run now check (k outcome) g' s'
  run now check (receive m k) g s =
      let (outcome, m', g', s') = auth_receive transport now check m g s in
      run now check (k outcome m') g' s'

  -- The handler over a `contextServerStream`, which checks nothing
  unfoldable pub run_unchecked : Program S M → S → Outcome (Option Error) × S
  run_unchecked (finish e) s = (returned e, s)
  run_unchecked panic s = (panicked, s)
  run_unchecked (act f p) s = run_unchecked p (f s)
  run_unchecked (send m k) s = let (e, s') = send_msg m s in run_unchecked (k (returned e)) s'
  run_unchecked (receive m k) s =
      let (e, m', s') = recv_msg m s in run_unchecked (k (returned e) m') s'

  -- The end of the interceptor: a failed gate's error takes the place of what the handler returned.
  unfoldable pub finished : Outcome (Option Error) × Gate × S → Outcome (Option Error) × S
  unfolding gate_error
  finished (panicked, g, s) = (panicked, s)
  finished (returned e, g, s) = elim g.err [
    | none ↦ (returned e, s)
    | some failed ↦ (returned (some (gate_error (ctx_err s) failed)), s)
  ]

  module _ (cfg : Config S) (verifier : Verifier S) (ctx : Context) (full_method : Bytes)
      (handler : Context → Program S M) where
    -- The interceptor behind the opening check.
    unfoldable pub opened :
        PolicyData
        → Option Decision
        → Outcome (Option Error) × Gate × S
        → Outcome (Option Error) × S
    unfolding finished run with_reported recheck
    opened p decision (panicked, g, s) = (panicked, s)
    opened p decision (returned (some e), g, s) = (returned (some (to_grpc_error (ctx_err s) e)), s)
    opened p decision (returned none, g, s) =
        let hctx = with_reported ctx decision in
        finished (
          run cfg.now (recheck transport cfg verifier hctx full_method p.resource p.action)
            (handler hctx) g s)

    -- The interceptor behind its guard, on the policy of the context.
    unfoldable pub stream_checked :
        Option Error → Option PolicyData → S → Outcome (Option Error) × S
    unfolding opened opening run_unchecked
    stream_checked cred_err none s = elim (check_unannotated cfg full_method) [
      | some e ↦ (returned (some (to_grpc_error (ctx_err s) e)), s)
      | none ↦ run_unchecked (handler ctx) s
    ]
    stream_checked cred_err (some p) s =
        opened p (opened_decision cfg verifier ctx full_method p cred_err s) (
          Streamcheck.check cfg.now (Streamcheck.new cfg.recheck_interval)
            (opening cfg verifier ctx full_method p cred_err) s)

  abbrev out_of_order : Error
  out_of_order =
      errorf "PolicyOptionStreamInterceptor must run before VerificationStreamInterceptor" []

  -- `VerificationStreamInterceptor`
  unfoldable pub verification_stream_interceptor :
      Config S
      → Verifier S
      → Context
      → Inbound
      → Bytes
      → (Context → Program S M)
      → S
      → Outcome (Option Error) × S
  unfolding stream_checked
  verification_stream_interceptor cfg verifier ctx inbound full_method handler s =
      let (ctx', cred_err) = with_inbound ctx inbound in
      if not (interceptor_ran_from_context ctx')
      then (returned (some (to_grpc_error (ctx_err s) out_of_order)), s)
      else stream_checked cfg verifier ctx' full_method handler cred_err (policy_from_context ctx')
          s
