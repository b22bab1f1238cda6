-- ===== src/Grpc/Stream/Laws.antt =====
-- grpc/stream_interceptor.go: sends, receives and re-checks, one by one and over a handler's run.
use protobuf_interceptors.Base.{
  ℕ, ◌≡◌, ◌≢◌, ◌⊎◌, inl, inr, refl, ap, ◌∙◌, Option, none, some, arith, Option-cases,
}
use protobuf_interceptors.Base.Outcomes.{Outcome, returned, panicked, Call, >>=-returned}
use protobuf_interceptors.Text.Bytes.{Bytes}
use protobuf_interceptors.Core.Context.{Context}
use protobuf_interceptors.Core.Decision.{Decision}
use protobuf_interceptors.Core.Errors.{Error}
use protobuf_interceptors.Endpoint.Verifier.{Verifier}
use protobuf_interceptors.Grpc.Config.{Config, CheckPhase, check_send, check_receive, verify}
use protobuf_interceptors.Grpc.Stream.{
  Transport, recheck, recheck_answer, auth_send, send_checked, auth_receive, received,
  receive_checked, gate_error, clear_message, Target, proto_message, pointer, other,
}
use protobuf_interceptors.Grpc.Stream.Run.{Program, finish, panic, act, send, receive, run}
use protobuf_interceptors.Grpc.Unary.Verification.{Allowed, verify-Allowed}
use protobuf_interceptors.Streamcheck
use protobuf_interceptors.Streamcheck.{Gate, skips}
use protobuf_interceptors.Streamcheck.Laws.{check-passed}

module _ {S M : Type 0} (transport : Transport S M) where
  open transport use {ctx_err, send_msg, recv_msg, zero, target}

  -- A handler whose stream has failed with `e`: its sends and receives return that error, and use
  -- neither the transport nor the endpoint; a message it receives into stays as it was.
  unfoldable pub ended : Error → Program S M → Gate → S → Outcome (Option Error) × Gate × S
  ended e (finish r) g s = (returned r, g, s)
  ended e panic g s = (panicked, g, s)
  ended e (act f p) g s = ended e p g (f s)
  ended e (send m k) g s = ended e (k (returned (some (gate_error (ctx_err s) e)))) g s
  ended e (receive m k) g s = ended e (k (returned (some (gate_error (ctx_err s) e))) m) g s

  module _ (now : S → ℕ × S) (check : CheckPhase → Call S (Option Error)) where
    -- The first failure ends the stream for good: from then on every send and receive of the
    -- handler returns the failure without the transport or the endpoint being used.
    pub run-ended :
        (e : Error) (p : Program S M) (g : Gate) (s : S)
        → g.err ≡ some e
        → run transport now check p g s ≡ ended e p g s
    unfolding run ended
    run-ended e (finish r) g s h = refl
    run-ended e panic g s h = refl
    run-ended e (act f p) g s h = run-ended e p g (f s) h
    run-ended e (send m k) g s h =
        let answer : auth_send transport now check m g s
            ≡ (returned (some (gate_error (ctx_err s) e)), g, s) =
          unfold auth_send send_checked Streamcheck.check in ground arith in
        rw answer (run-ended e (k (returned (some (gate_error (ctx_err s) e)))) g s h)
    run-ended e (receive m k) g s h =
        let answer : auth_receive transport now check m g s
            ≡ (returned (some (gate_error (ctx_err s) e)), m, g, s) =
          unfold auth_receive in ground arith in
        rw answer (run-ended e (k (returned (some (gate_error (ctx_err s) e))) m) g s h)

    pub ended-gate : (e : Error) (p : Program S M) (g : Gate) (s : S) → (ended e p g s).1 ≡ g
    unfolding ended
    ended-gate e (finish r) g s = refl
    ended-gate e panic g s = refl
    ended-gate e (act f p) g s = ended-gate e p g (f s)
    ended-gate e (send m k) g s = ended-gate e (k (returned (some (gate_error (ctx_err s) e)))) g s
    ended-gate e (receive m k) g s =
        ended-gate e (k (returned (some (gate_error (ctx_err s) e))) m) g s

    -- What a message of a refused receive holds, by what it is: a proto message is reset and a
    -- pointer's target is zeroed, anything else is as it was received.
    abbrev pub Withdrawn : Target → M → M → Type 0
    Withdrawn proto_message received m = m ≡ zero
    Withdrawn pointer received m = m ≡ zero
    Withdrawn other received m = m ≡ received

    clear_message-Withdrawn : (kind : Target) (m : M) → Withdrawn kind m (clear_message zero kind m)
    unfolding clear_message
    clear_message-Withdrawn proto_message m = refl
    clear_message-Withdrawn pointer m = refl
    clear_message-Withdrawn other m = refl

    -- What a receive of the message `m'` ends with, in terms of its check: the message is handed
    -- over where the check passed, and withdrawn where it did not.
    abbrev pub IsGuarded :
        M → Outcome (Option Error) → Outcome (Option Error) × M × Gate × S → Type 0
    IsGuarded m' passed r =
        ((passed ≡ returned none) × (r.0 ≡ returned none) × (r.1 ≡ m'))
        ⊎ ((passed ≢ returned none) × (r.0 ≢ returned none) × Withdrawn target m' r.1)

    receive_checked-IsGuarded :
        (m' : M) (r : Outcome (Option Error) × Gate × S)
        → IsGuarded m' r.0 (receive_checked transport now check m' r)
    unfolding receive_checked
    receive_checked-IsGuarded m' (returned none, g, s) = inl (refl, refl, refl)
    receive_checked-IsGuarded m' (returned (some e), g, s) =
        inr (λ h. cc, λ h. cc, clear_message-Withdrawn target m')
    receive_checked-IsGuarded m' (panicked, g, s) =
        inr (λ h. cc, λ h. cc, clear_message-Withdrawn target m')

    -- A receive, of a stream that has not failed, that the transport answered with a message hands it
    -- over exactly where the gate's check passed. Where the check failed or panicked, a proto message
    -- is reset and a pointer's target zeroed, and a message that is neither stays as it was received.
    pub auth_receive-IsGuarded :
        (m m' : M) (g : Gate) (s s1 : S)
        → g.err ≡ none
        → recv_msg m s ≡ (none, m', s1)
        → IsGuarded m'
            (Streamcheck.check now g (check check_receive) s1).0
            (auth_receive transport now check m g s)
    unfolding auth_receive received
    auth_receive-IsGuarded m m' g s s1 h k =
        let eq : auth_receive transport now check m g s
            ≡ receive_checked transport now check m'
                (Streamcheck.check now g (check check_receive) s1) =
          ground arith in
        rw eq (receive_checked-IsGuarded m' (Streamcheck.check now g (check check_receive) s1))

    -- A send whose check does not pass leaves the transport alone: the state is the one that the
    -- check left, and the send does not return nil.
    pub auth_send-refused :
        (m : M) (g : Gate) (s : S)
        → (Streamcheck.check now g (check check_send) s).0 ≢ returned none
        → ((auth_send transport now check m g s).0 ≢ returned none)
          × ((auth_send transport now check m g s).1
              ≡ (Streamcheck.check now g (check check_send) s).1)
          × ((auth_send transport now check m g s).2
              ≡ (Streamcheck.check now g (check check_send) s).2)
    unfolding auth_send
    auth_send-refused m g s h =
        send_checked-refused m (Streamcheck.check now g (check check_send) s) h
      where
        send_checked-refused :
            (m : M) (r : Outcome (Option Error) × Gate × S)
            → r.0 ≢ returned none
            → ((send_checked transport now check m r).0 ≢ returned none)
              × ((send_checked transport now check m r).1 ≡ r.1)
              × ((send_checked transport now check m r).2 ≡ r.2)
        send_checked-refused m (returned none, g, s) h = absurd (h refl)
        send_checked-refused m (returned (some e), g, s) h = (λ k. cc, refl, refl)
        send_checked-refused m (panicked, g, s) h = (λ k. cc, refl, refl)

  module _ (cfg : Config S) (verifier : Verifier S) (hctx : Context)
      (full_method resource action : Bytes) where
    recheck-Allowed :
        (phase : CheckPhase) (s s' : S)
        → recheck transport cfg verifier hctx full_method resource action phase s
          ≡ (returned none, s')
        → (d : Option Decision) × Allowed cfg verifier hctx resource action d s
    unfolding recheck recheck_answer
    recheck-Allowed phase s s' h =
        let ((d, e), s1, k, k') =
          >>=-returned (verify cfg hctx verifier full_method phase resource action none)
            (recheck_answer transport) s s' none h in
        elim (Option-cases e) [
          | inl fine ↦ (
            d,
            (verify-Allowed cfg verifier hctx full_method phase resource action none s s1 d
                (k ∙ ap (λ x. (returned (d, x), s1)) fine)).1,
          )
          | inr (e', failed) ↦ ground arith
        ]

    -- With no interval each re-check that passes, before a send or after a receive, is one that
    -- the endpoint allowed, for the resource and action that the stream was opened for.
    pub recheck-passed-Allowed :
        (phase : CheckPhase) (g g' : Gate) (s s' : S)
        → g.interval ≡ 0
        → Streamcheck.check cfg.now g
            (recheck transport cfg verifier hctx full_method resource action phase)
            s
          ≡ (returned none, g', s')
        → (d : Option Decision) × Allowed cfg verifier hctx resource action d (cfg.now s).1
    recheck-passed-Allowed phase g g' s s' h k =
        let (_, _, why) =
          check-passed cfg.now g g'
            (recheck transport cfg verifier hctx full_method resource action phase) s s' k in
        elim why [
          | inl (skipped, _, _) ↦ ground arith
          | inr (passes, _, _) ↦ recheck-Allowed phase (cfg.now s).1 s' passes
        ]
