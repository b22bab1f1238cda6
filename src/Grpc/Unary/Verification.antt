-- ===== src/Grpc/Unary/Verification.antt =====
-- When the unary verification interceptor lets an RPC on to its handler.
use protobuf_interceptors.Base.{
  ◌≡◌, ◌⊎◌, inl, inr, refl, ap, ◌∙◌, true, false, Option, none, some, arith, Option-cases,
  Bool-cases,
}
use protobuf_interceptors.Base.Outcomes.{returned, pure, >>=-returned}
use protobuf_interceptors.Text.Bytes.{Bytes}
use protobuf_interceptors.Text.Numbers.{ℤ}
use protobuf_interceptors.Core.Context.{Context, PolicyData}
use protobuf_interceptors.Core.Decision.{Decision}
use protobuf_interceptors.Core.Errors.{Error}
use protobuf_interceptors.Endpoint.Verifier.{Verifier, Answer, verify_with_decision}
use protobuf_interceptors.Methodset
use protobuf_interceptors.Grpc.Config.{
  Config, CheckPhase, check_open, Inbound, check_unannotated, timed, observe, ask, report, verify,
  with_inbound, with_token, with_reported,
}
use protobuf_interceptors.Grpc.Unary.{proceed, answered, checked, verification_verdict}

-- The credentials put on a context leave the policy and the mark as they are.
pub with_inbound-keeps :
    (ctx : Context) (inbound : Inbound)
    → ((with_inbound ctx inbound).0.policy ≡ ctx.policy)
      × ((with_inbound ctx inbound).0.interceptor_ran ≡ ctx.interceptor_ran)
unfolding with_inbound with_token
with_inbound-keeps ctx inbound = ground arith

module _ {S : Type 0} (cfg : Config S) (verifier : Verifier S) where
  -- In a check that begins in the state `s` the endpoint, asked about this resource and action
  -- right after the clock was read, answers with no error.
  pub record Allowed (ctx : Context) (resource action : Bytes) (d : Option Decision) (s : S)
      : Type 0 where
    pub after : S
    pub allows :
        verify_with_decision ctx verifier resource action (cfg.now s).1
        ≡ (returned (d, none), after)

  timed-Allowed :
      (ctx : Context) (resource action : Bytes) (s s' : S) (d : Option Decision) (took : ℤ)
      → timed cfg verifier ctx resource action s ≡ (returned ((d, none), took), s')
      → Allowed ctx resource action d s
  unfolding timed
  timed-Allowed ctx resource action s s' d took h =
      let (answer, s1, e, k) =
        >>=-returned (verify_with_decision ctx verifier resource action) _ (cfg.now s).1 s' _ h in
      record { after = s1; allows = ground arith }

  report-returns :
      (ctx : Context) (procedure : Bytes) (phase : CheckPhase) (resource action : Bytes)
      (answer b : Answer) (took : ℤ) (s s' : S)
      → report cfg ctx procedure phase resource action (answer, took) s ≡ (returned b, s')
      → answer ≡ b
  unfolding report
  report-returns ctx procedure phase resource action (d, e) b took s s' h =
      let (u, s1, k, k') = >>=-returned (observe cfg ctx _) (λ _. pure (d, e)) s s' b h in
      ground arith

  ask-Allowed :
      (ctx : Context) (resource action : Bytes) (cred_err : Option Error) (s s' : S)
      (d : Option Decision) (took : ℤ)
      → ask cfg ctx verifier resource action cred_err s ≡ (returned ((d, none), took), s')
      → (cred_err ≡ none) × Allowed ctx resource action d s
  unfolding ask
  ask-Allowed ctx resource action none s s' d took h =
      (refl, timed-Allowed ctx resource action s s' d took h)
  ask-Allowed ctx resource action (some e) s s' d took h = ground arith

  -- A check that returns no error asked the endpoint, with a credential that could be read.
  pub verify-Allowed :
      (ctx : Context) (procedure : Bytes) (phase : CheckPhase) (resource action : Bytes)
      (cred_err : Option Error) (s s' : S) (d : Option Decision)
      → verify cfg ctx verifier procedure phase resource action cred_err s
        ≡ (returned (d, none), s')
      → (cred_err ≡ none) × Allowed ctx resource action d s
  unfolding verify
  verify-Allowed ctx procedure phase resource action cred_err s s' d h =
      let ((answer, took), s1, k, k') =
        >>=-returned (ask cfg ctx verifier resource action cred_err)
          (report cfg ctx procedure phase resource action) s s' (d, none) h in
      let same : answer ≡ (d, none) =
        report-returns ctx procedure phase resource action answer (d, none) took s1 s' k' in
      ask-Allowed ctx resource action cred_err s s1 d took
        (k ∙ ap (λ a. (returned (a, took), s1)) same)

  -- No policy has to be declared, or the method is exempt from that.
  abbrev pub MayLackPolicy : Bytes → Type 0
  MayLackPolicy full_method =
      (cfg.require_policy ≡ false) ⊎ (Methodset.contains cfg.exempt full_method ≡ true)

  pub check_unannotated-none :
      (full_method : Bytes) → check_unannotated cfg full_method ≡ none → MayLackPolicy full_method
  unfolding check_unannotated
  check_unannotated-none full_method h = ground arith

  module _ (ctx_err : S → Option Error) (ctx : Context) (inbound : Inbound)
      (full_method : Bytes) where
    -- The context as the endpoint sees it, and the error of its credential.
    abbrev seen : Context
    seen = (with_inbound ctx inbound).0

    -- What lets an RPC on: the policy interceptor ran, and the method may go without a policy, or
    -- the endpoint allowed the resource and action on the context for a credential that was read.
    pub record Admitted (ctx' : Context) (s : S) : Type 0 where
      pub ran : ctx.interceptor_ran ≡ true
      pub reason :
          ((ctx.policy ≡ none) × MayLackPolicy full_method × (ctx' ≡ seen))
          ⊎ ((p : PolicyData) × (d : Option Decision) × (ctx.policy ≡ some p)
              × ((with_inbound ctx inbound).1 ≡ none)
              × Allowed seen p.resource p.action d s
              × (ctx' ≡ with_reported seen d))

    answered-proceed :
        (ctx1 ctx' : Context) (answer : Answer) (s s' : S)
        → answered ctx_err ctx1 answer s ≡ (returned (proceed ctx'), s')
        → (d : Option Decision) × (answer ≡ (d, none)) × (ctx' ≡ with_reported ctx1 d)
    unfolding answered
    answered-proceed ctx1 ctx' (d, none) s s' h = (d, refl, ground arith)
    answered-proceed ctx1 ctx' (d, some e) s s' h = ground arith

    checked-Admitted :
        (ctx' : Context) (s s' : S) (policy : Option PolicyData)
        → ctx.interceptor_ran ≡ true
        → ctx.policy ≡ policy
        → checked ctx_err cfg verifier seen (with_inbound ctx inbound).1 full_method policy s
          ≡ (returned (proceed ctx'), s')
        → Admitted ctx' s
    unfolding checked
    checked-Admitted ctx' s s' none ran e h =
        elim (Option-cases (check_unannotated cfg full_method)) [
          | inl passes ↦ record {
            ran = ran;
            reason = inl (e, check_unannotated-none full_method passes, ground arith);
          }
          | inr (why, refused) ↦ ground arith
        ]
    checked-Admitted ctx' s s' (some p) ran e h =
        let cred_err = (with_inbound ctx inbound).1 in
        let (answer, s1, k, k') =
          >>=-returned
            (verify cfg seen verifier full_method check_open p.resource p.action cred_err)
            (answered ctx_err seen) s s' (proceed ctx') h in
        let (d, same, reported) = answered-proceed seen ctx' answer s1 s' k' in
        let (read, allowed) =
          verify-Allowed seen full_method check_open p.resource p.action cred_err s s1 d
            (k ∙ ap (λ a. (returned a, s1)) same) in
        record { ran = ran; reason = inr (p, d, e, read, allowed, reported) }

    -- The verification interceptor lets an RPC on to its handler only where the policy interceptor
    -- ran, and either the context holds no policy and the method may go without one, or the
    -- endpoint answered the resource and action of the policy on the context with no error, on a
    -- credential that could be read; the handler's context then carries the decision reported.
    pub verification_verdict-Admitted :
        (ctx' : Context) (s s' : S)
        → verification_verdict ctx_err cfg verifier ctx inbound full_method s
          ≡ (returned (proceed ctx'), s')
        → Admitted ctx' s
    unfolding verification_verdict
    verification_verdict-Admitted ctx' s s' h = elim (Bool-cases ctx.interceptor_ran) [
      | inl ran ↦
          checked-Admitted ctx' s s' ctx.policy ran refl
            (ground (arith, with_inbound-keeps ctx inbound))
      | inr missing ↦ ground (arith, with_inbound-keeps ctx inbound)
    ]
