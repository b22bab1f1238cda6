-- ===== src/Grpc/Stream/Opening.antt =====
-- When the stream interceptor runs its handler, and what it returns after a failure.
use protobuf_interceptors.Base.{
  ℕ, ◌≡◌, ◌≢◌, ◌⊎◌, inl, inr, refl, ap, ◌∙◌, true, Option, none, some, arith, Option-cases,
  Bool-cases,
}
use protobuf_interceptors.Base.Outcomes.{Outcome, returned, panicked, Call}
use protobuf_interceptors.Text.Bytes.{Bytes}
use protobuf_interceptors.Core.Context.{Context, PolicyData}
use protobuf_interceptors.Core.Decision.{Decision}
use protobuf_interceptors.Core.Errors.{Error}
use protobuf_interceptors.Endpoint.Verifier.{Verifier, Answer}
use protobuf_interceptors.Grpc.Config.{
  Config, Inbound, CheckPhase, check_open, check_unannotated, verify, with_inbound,
}
use protobuf_interceptors.Grpc.Stream.{Transport, gate_error}
use protobuf_interceptors.Grpc.Stream.Laws.{run-ended, ended-gate}
use protobuf_interceptors.Grpc.Stream.Run.{
  Program, run, finished, opening, opened, opened_decision, answer_error, stream_checked,
  verification_stream_interceptor,
}
use protobuf_interceptors.Grpc.Unary.Verification.{
  Allowed, verify-Allowed, MayLackPolicy, check_unannotated-none, with_inbound-keeps,
}
use protobuf_interceptors.Streamcheck
use protobuf_interceptors.Streamcheck.{Gate, skips}
use protobuf_interceptors.Streamcheck.Laws.{check-passed}

answer_error-none :
    {S : Type 0} (r : Outcome Answer × S) (s' : S)
    → answer_error r ≡ (returned none, s')
    → (d : Option Decision) × (r ≡ (returned (d, none), s'))
answer_error-none (returned (d, none), s) s' h = (d, ground arith)
answer_error-none (returned (d, some e), s) s' h = ground arith
answer_error-none (panicked, s) s' h = cc

-- An opening check that passes was allowed, with a credential that could be read.
opening-Allowed :
    {S : Type 0} (cfg : Config S) (verifier : Verifier S) (full_method : Bytes) (ctx : Context)
    (p : PolicyData) (cred_err : Option Error) (s s' : S)
    → opening cfg verifier ctx full_method p cred_err s ≡ (returned none, s')
    → (cred_err ≡ none) × ((d : Option Decision) × Allowed cfg verifier ctx p.resource p.action d s)
unfolding opening
opening-Allowed cfg verifier full_method ctx p cred_err s s' h =
    let (d, e) =
      answer_error-none
        (verify cfg ctx verifier full_method check_open p.resource p.action cred_err s) s' h in
    let (read, allowed) =
      verify-Allowed cfg verifier ctx full_method check_open p.resource p.action cred_err s s' d
        e in
    (read, (d, allowed))

module _ {S M : Type 0} (transport : Transport S M) where
  open transport use {ctx_err}

  finished-failed :
      (r : Outcome (Option Error) × Gate × S) (e : Error)
      → r.1.err ≡ some e
      → ((finished transport r).0 ≡ panicked)
        ⊎ ((finished transport r).0 ≡ returned (some (gate_error (ctx_err r.2) e)))
  unfolding finished
  finished-failed (returned x, g, s) e h = inr (ground arith)
  finished-failed (panicked, g, s) e h = inl refl

  -- Once the gate has failed, the interceptor returns that failure as the caller is told it,
  -- whatever the handler goes on to do and returns, unless the handler panics.
  pub finished-run-failed :
      (now : S → ℕ × S) (check : CheckPhase → Call S (Option Error)) (p : Program S M) (g : Gate)
      (s : S) (e : Error)
      → g.err ≡ some e
      → let r = run transport now check p g s in
        (((finished transport r).0 ≡ panicked)
          ⊎ ((finished transport r).0 ≡ returned (some (gate_error (ctx_err r.2) e))))
  finished-run-failed now check p g s e h = finished-failed (run transport now check p g s) e (
      ap (λ (r : Outcome (Option Error) × Gate × S). r.1.err)
        (run-ended transport now check e p g s h)
      ∙ ap (λ (g : Gate). g.err) (ended-gate transport now check e p g s)
      ∙ h)

  module _ (cfg : Config S) (verifier : Verifier S) (full_method : Bytes)
      (handler handler' : Context → Program S M) where
    opened-refused :
        (ctx : Context) (p : PolicyData) (d : Option Decision)
        (r : Outcome (Option Error) × Gate × S)
        → r.0 ≢ returned none
        → opened transport cfg verifier ctx full_method handler p d r
          ≡ opened transport cfg verifier ctx full_method handler' p d r
    unfolding opened
    opened-refused ctx p d (returned none, g, s) h = absurd (h refl)
    opened-refused ctx p d (returned (some e), g, s) h = refl
    opened-refused ctx p d (panicked, g, s) h = refl

    -- Why a stream was opened.
    abbrev pub StreamAdmitted : Context → Option Error → Option PolicyData → S → Type 0
    StreamAdmitted ctx cred_err none s = MayLackPolicy cfg verifier full_method
    StreamAdmitted ctx cred_err (some p) s =
        (cred_err ≡ none)
        × ((d : Option Decision) × Allowed cfg verifier ctx p.resource p.action d (cfg.now s).1)

    stream_checked-StreamAdmitted :
        (ctx : Context) (cred_err : Option Error) (policy : Option PolicyData) (s : S)
        → stream_checked transport cfg verifier ctx full_method handler cred_err policy s
          ≢ stream_checked transport cfg verifier ctx full_method handler' cred_err policy s
        → StreamAdmitted ctx cred_err policy s
    unfolding stream_checked
    stream_checked-StreamAdmitted ctx cred_err none s h =
        elim (Option-cases (check_unannotated cfg full_method)) [
          | inl passes ↦ check_unannotated-none cfg verifier full_method passes
          | inr (e, refused) ↦ absurd (h (ground arith))
        ]
    stream_checked-StreamAdmitted ctx cred_err (some p) s h =
        go
          (Streamcheck.check cfg.now (Streamcheck.new cfg.recheck_interval)
            (opening cfg verifier ctx full_method p cred_err) s)
          refl
      where
        go :
            (r : Outcome (Option Error) × Gate × S)
            → Streamcheck.check cfg.now
                (Streamcheck.new cfg.recheck_interval)
                (opening cfg verifier ctx full_method p cred_err)
                s
              ≡ r
            → (cred_err ≡ none)
              × ((d : Option Decision) × Allowed cfg verifier ctx p.resource p.action d
                    (cfg.now s).1)
        go (returned none, g, s') e =
            let (_, _, why) =
              check-passed cfg.now (Streamcheck.new cfg.recheck_interval) g
                (opening cfg verifier ctx full_method p cred_err) s s' e in
            elim why [
              | inl (skipped, _, _) ↦ ground arith
              | inr (passes, _, _) ↦
                  opening-Allowed cfg verifier full_method ctx p cred_err (cfg.now s).1 s' passes
            ]
        go (returned (some x), g, s') e = absurd (
            h (
              opened-refused ctx p (opened_decision cfg verifier ctx full_method p cred_err s) _
                (rw e (λ k. cc))))
        go (panicked, g, s') e = absurd (
            h (
              opened-refused ctx p (opened_decision cfg verifier ctx full_method p cred_err s) _
                (rw e (λ k. cc))))

    -- What the interceptor does depends on its handler only where the policy interceptor ran and
    -- the stream was admitted: without a policy on the context where the method may go without
    -- one, or with the endpoint's allow of the policy's resource and action, asked before the
    -- handler is run, on a credential that could be read.
    pub verification_stream_interceptor-StreamAdmitted :
        (ctx : Context) (inbound : Inbound) (s : S)
        → verification_stream_interceptor transport cfg verifier ctx inbound full_method handler s
          ≢ verification_stream_interceptor transport cfg verifier ctx inbound full_method handler'
              s
        → (ctx.interceptor_ran ≡ true)
          × StreamAdmitted (with_inbound ctx inbound).0 (with_inbound ctx inbound).1 ctx.policy s
    unfolding verification_stream_interceptor
    verification_stream_interceptor-StreamAdmitted ctx inbound s h =
        let (same, ran_same) = with_inbound-keeps ctx inbound in
        elim (Bool-cases ctx.interceptor_ran) [
          | inl ran ↦ (
            ran,
            stream_checked-StreamAdmitted (with_inbound ctx inbound).0 (with_inbound ctx inbound).1
                ctx.policy s (λ e. h (rw (ran_same ∙ ran, same) e)),
          )
          | inr missing ↦ absurd (h (rw (ran_same ∙ missing)))
        ]
