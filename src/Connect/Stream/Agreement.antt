-- ===== src/Connect/Stream/Agreement.antt =====
-- connectrpc/interceptor.go and grpc/stream_interceptor.go: the streams of the two frameworks
-- compared.
use mathlib.Core.Path.{fun_ext}
use protobuf_interceptors.Base.{ℕ, ◌≡◌, refl, ap, sym, ◌∙◌, Option, none, some, arith}
use protobuf_interceptors.Base.Outcomes.{Outcome, returned, panicked, Call, follow, pure}
use protobuf_interceptors.Text.Bytes.{Bytes}
use protobuf_interceptors.Core.Context.{Context, PolicyData, with_decision}
use protobuf_interceptors.Core.Errors.{Error}
use protobuf_interceptors.Endpoint.Verifier.{Verifier, Answer}
use protobuf_interceptors.Connect.Errors.{to_connect_error}
use protobuf_interceptors.Connect.Interceptor.{connect_verify, verified}
use protobuf_interceptors.Connect.Stream.{
  connect_gate_error, connect_clear_message, connect_recheck_answer, connect_recheck, connect_sent,
  connect_send, connect_receive_checked, connect_received, connect_receive, connect_run,
  connect_finished, connect_opened, connect_open_check, connect_stream_checked, opening_error,
  opening_context,
}
use protobuf_interceptors.Grpc.Config.{
  Config, CheckPhase, check_open, check_send, check_receive, verify, with_reported,
}
use protobuf_interceptors.Grpc.Errors.{to_grpc_error}
use protobuf_interceptors.Grpc.Stream.{
  Transport, Target, proto_message, pointer, other, gate_error, clear_message, recheck_answer,
  recheck, send_checked, auth_send, receive_checked, received, auth_receive,
}
use protobuf_interceptors.Grpc.Stream.Run.{
  opened, opening, stream_checked, answer_error, answer_decision, Program, finish, panic, act, send,
  receive, run, finished,
}
use protobuf_interceptors.Streamcheck
use protobuf_interceptors.Streamcheck.{Gate, settle, check}

clears_agree :
    {M : Type 0} (zero : M) (target : Target) (m : M)
    → connect_clear_message zero target m ≡ clear_message zero target m
unfolding connect_clear_message clear_message
clears_agree zero proto_message m = refl
clears_agree zero pointer m = refl
clears_agree zero other m = refl

module _ {S M : Type 0} (transport : Transport S M) where
  open transport use {ctx_err, recv_msg, zero, target}

  module _ (now : S → ℕ × S) (check : CheckPhase → Call S (Option Error)) where
    sends_agree :
        (m : M) (r : Outcome (Option Error) × Gate × S)
        → connect_sent transport now check m r ≡ send_checked transport now check m r
    unfolding connect_sent send_checked connect_gate_error gate_error to_connect_error to_grpc_error
    sends_agree m (returned none, g, s) = refl
    sends_agree m (returned (some e), g, s) = refl
    sends_agree m (panicked, g, s) = refl

    receives_agree :
        (m : M) (r : Outcome (Option Error) × Gate × S)
        → connect_receive_checked transport now check m r ≡ receive_checked transport now check m r
    unfolding connect_receive_checked receive_checked connect_gate_error gate_error to_connect_error
        to_grpc_error
    receives_agree m (returned none, g, s) = refl
    receives_agree m (returned (some e), g, s) =
        ap (λ x. (returned (some (gate_error (ctx_err s) e)), x, g, s)) (clears_agree zero target m)
    receives_agree m (panicked, g, s) = ap (λ x. (panicked, x, g, s)) (clears_agree zero target m)

    received_agree :
        (g : Gate) (r : Option Error × M × S)
        → connect_received transport now check g r ≡ received transport now check g r
    unfolding connect_received received
    received_agree g (some e, m, s) = refl
    received_agree g (none, m, s) =
        receives_agree m (Streamcheck.check now g (check check_receive) s)

    receive_agree :
        (m : M) (g : Gate) (s : S)
        → connect_receive transport now check m g s ≡ auth_receive transport now check m g s
    unfolding connect_receive auth_receive connect_gate_error gate_error to_connect_error
        to_grpc_error
    receive_agree m g s = ground (arith, received_agree g (recv_msg m s))

    -- Whatever a handler does with its stream, and whatever its checks answer, it runs alike over
    -- the streams of the two frameworks: the same outcomes, messages, gate and state.
    pub connect_run-run :
        (p : Program S M) (g : Gate) (s : S)
        → connect_run transport now check p g s ≡ run transport now check p g s
    unfolding connect_run run connect_send auth_send
    connect_run-run (finish e) g s = refl
    connect_run-run panic g s = refl
    connect_run-run (act f p) g s = connect_run-run p g (f s)
    connect_run-run (send m k) g s =
        let same = sends_agree m (Streamcheck.check now g (check check_send) s) in
        let r = send_checked transport now check m (Streamcheck.check now g (check check_send) s) in
        ap (λ x. connect_run transport now check (k x.0) x.1 x.2) same
        ∙ connect_run-run (k r.0) r.1 r.2
    connect_run-run (receive m k) g s =
        let r = auth_receive transport now check m g s in
        ap (λ x. connect_run transport now check (k x.0 x.1) x.2 x.3) (receive_agree m g s)
        ∙ connect_run-run (k r.0 r.1) r.2 r.3

  recheck_agrees :
      (cfg : Config S) (verifier : Verifier S) (ctx : Context) (procedure resource action : Bytes)
      (phase : CheckPhase) (s : S)
      → connect_recheck transport cfg verifier ctx procedure resource action phase s
        ≡ recheck transport cfg verifier ctx procedure resource action phase s
  unfolding connect_recheck recheck verify connect_recheck_answer recheck_answer verified
      to_connect_error to_grpc_error
  recheck_agrees cfg verifier ctx procedure resource action phase s =
      go (verify cfg ctx verifier procedure phase resource action none s)
    where
      go :
          (r : Outcome Answer × S)
          → follow (connect_recheck_answer transport) (follow (λ a. pure (verified ctx a)) r)
            ≡ follow (recheck_answer transport) r
      go (returned (none, none), s1) = refl
      go (returned (some d, none), s1) = refl
      go (returned (d, some e), s1) = refl
      go (panicked, s1) = refl

  finished_agree :
      (r : Outcome (Option Error) × Gate × S) → connect_finished transport r ≡ finished transport r
  unfolding connect_finished finished connect_gate_error gate_error to_connect_error to_grpc_error
  finished_agree (panicked, g, s) = refl
  finished_agree (returned e, g, s) = ground arith

  module _ (cfg : Config S) (verifier : Verifier S) (handler : Context → Program S M)
      (procedure : Bytes) where
    handled_agree :
        (ctx : Context) (p : PolicyData) (g : Gate) (s : S)
        → connect_finished transport (
            connect_run transport cfg.now
              (connect_recheck transport cfg verifier ctx procedure p.resource p.action)
              (handler ctx)
              g
              s)
          ≡ finished transport (
              run transport cfg.now
                (recheck transport cfg verifier ctx procedure p.resource p.action)
                (handler ctx)
                g
                s)
    handled_agree ctx p g s =
        let same = fun_ext (λ phase.
          fun_ext (λ s1. recheck_agrees cfg verifier ctx procedure p.resource p.action phase s1)) in
        let old = connect_recheck transport cfg verifier ctx procedure p.resource p.action in
        ap (connect_finished transport) (connect_run-run cfg.now old (handler ctx) g s)
        ∙ ap (λ check. connect_finished transport (run transport cfg.now check (handler ctx) g s))
            same
        ∙ finished_agree _

    opened_agree :
        (ctx : Context) (p : PolicyData) (g : Gate) (t : ℕ) (r : Outcome Answer × S)
        → connect_opened transport cfg verifier handler procedure p
            (opening_context ctx (follow (λ a. pure (verified ctx a)) r))
            (settle g t (opening_error (follow (λ a. pure (verified ctx a)) r)))
          ≡ opened transport cfg verifier ctx procedure handler p
              (answer_decision r)
              (settle g t (answer_error r))
    unfolding connect_opened opened settle verified with_reported to_connect_error to_grpc_error
    opened_agree ctx p g t (returned (none, none), s) = handled_agree ctx p _ s
    opened_agree ctx p g t (returned (some d, none), s) = handled_agree (with_decision ctx d) p _ s
    opened_agree ctx p g t (returned (d, some e), s) = refl
    opened_agree ctx p g t (panicked, s) = refl

    check-new :
        (d : ℕ) (run_check : Call S (Option Error)) (s : S)
        → Streamcheck.check cfg.now (Streamcheck.new d) run_check s
          ≡ settle (Streamcheck.new d) (cfg.now s).0 (run_check (cfg.now s).1)
    unfolding check
    check-new d run_check s = ground arith

    -- A stream of a method with a policy on its context runs alike under the two frameworks, from
    -- its opening check to what the interceptor returns.
    pub connect_stream_checked-stream_checked :
        (ctx : Context) (cred_err : Option Error) (p : PolicyData) (s : S)
        → connect_stream_checked transport cfg verifier handler procedure ctx cred_err (some p) s
          ≡ stream_checked transport cfg verifier ctx procedure handler cred_err (some p) s
    unfolding connect_stream_checked stream_checked connect_open_check connect_verify opening verify
    connect_stream_checked-stream_checked ctx cred_err p s =
        let r =
          verify cfg ctx verifier procedure check_open p.resource p.action cred_err (cfg.now s).1 in
        ap
          (connect_opened transport cfg verifier handler procedure p
            (opening_context ctx (follow (λ a. pure (verified ctx a)) r)))
          (check-new cfg.recheck_interval
            (λ s1.
              opening_error
                (connect_open_check transport cfg verifier handler procedure ctx p cred_err s1))
            s)
        ∙ opened_agree ctx p (Streamcheck.new cfg.recheck_interval) (cfg.now s).0 r
        ∙ ap (opened transport cfg verifier ctx procedure handler p (answer_decision r))
            (sym (check-new cfg.recheck_interval (opening cfg verifier ctx procedure p cred_err) s))
