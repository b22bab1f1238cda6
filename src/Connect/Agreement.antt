-- ===== src/Connect/Agreement.antt =====
-- connectrpc/interceptor.go and grpc/interceptor.go: the unary interceptors compared.
use protobuf_interceptors.Base.{
  ◌≡◌, ◌↔◌, inl, inr, refl, sym, ◌∙◌, Bool, true, false, not, Option, none, some, List, [], ◌∷◌,
  arith, List-cases, if◌then◌else◌,
}
use protobuf_interceptors.Base.Outcomes.{Outcome, returned, panicked, follow, pure}
use protobuf_interceptors.Text.Bytes.{Bytes}
use protobuf_interceptors.Core.Context.{Context, PolicyData, mark_interceptor_ran}
use protobuf_interceptors.Core.Errors.{Error, Result, ok, err}
use protobuf_interceptors.Core.Resolve.{
  FieldMapping, Policy, Resolved, resolve_resource, resolve_resource_with_fields,
}
use protobuf_interceptors.Core.Resolve.Extract.{Reflection}
use protobuf_interceptors.Endpoint.Verifier.{Verifier, Answer}
use protobuf_interceptors.Connect.Errors.{to_connect_error}
use protobuf_interceptors.Connect.Interceptor.{
  Spec, get_policy_from_spec, connect_unmapped, connect_resolved, connect_mapped, connect_policy,
  policy_wrap_unary, check_unannotated_procedure, verified, connect_answered, connect_checked,
  connect_guarded, verification_wrap_unary,
}
use protobuf_interceptors.Grpc.Config.{
  Config, check_open, Inbound, check_unannotated, verify, with_inbound,
}
use protobuf_interceptors.Grpc.Errors.{to_grpc_error}
use protobuf_interceptors.Grpc.Unary.{
  refuse, proceed, resolved_verdict, unmapped_verdict, mapped_verdict, policy_verdict, answered,
  checked, verification_verdict,
}

module _ (reflection : Reflection) where
  open reflection use {Message}

  unmapped_agree :
      (ctx_err : Option Error) (ctx : Context) (r : Result (Bytes × Bytes))
      → connect_unmapped reflection ctx_err ctx r ≡ unmapped_verdict reflection ctx_err ctx r
  unfolding connect_unmapped unmapped_verdict to_connect_error
  unmapped_agree ctx_err ctx (err e) = refl
  unmapped_agree ctx_err ctx (ok (resource, action)) = refl

  resolved_agree :
      (ctx_err : Option Error) (ctx : Context) (r : Result Resolved)
      → connect_resolved reflection ctx_err ctx r ≡ resolved_verdict reflection ctx_err ctx r
  unfolding connect_resolved resolved_verdict to_connect_error
  resolved_agree ctx_err ctx (err e) = refl
  resolved_agree ctx_err ctx (ok r) = elim (List-cases r.fields) [
    | inl empty ↦ rw empty
    | inr (f, fs, e) ↦ rw e
  ]

  policy_agree :
      (ctx_err : Option Error) (ctx : Context) (req : Option Message) (r : Result (Option Policy))
      → connect_policy reflection ctx_err ctx req r ≡ policy_verdict reflection ctx_err ctx req r
  unfolding connect_policy policy_verdict connect_mapped mapped_verdict to_connect_error
  policy_agree ctx_err ctx req (err e) = refl
  policy_agree ctx_err ctx req (ok none) = refl
  policy_agree ctx_err ctx req (ok (some policy)) = go policy.field_mappings req
    where
      go :
          (ms : List FieldMapping) (req : Option Message)
          → connect_mapped reflection ctx_err ctx policy ms req
            ≡ mapped_verdict reflection ctx_err ctx policy ms req
      go [] req = unmapped_agree ctx_err ctx (resolve_resource reflection policy none)
      go (m ∷ ms) none = refl
      go (m ∷ ms) (some msg) =
          resolved_agree ctx_err ctx (resolve_resource_with_fields reflection policy (some msg))

  -- Around a handler, the Connect policy interceptor decides on the policy of its schema as the
  -- gRPC interceptor decides on the policy that it looked up, refusals and what they tell the
  -- caller included.
  pub policy_wrap_unary-policy_verdict :
      (ctx_err : Option Error) (ctx : Context) (req : Option Message) (spec : Spec)
      → spec.is_client ≡ false
      → policy_wrap_unary reflection ctx_err ctx req spec
        ≡ policy_verdict reflection ctx_err
            (mark_interceptor_ran ctx)
            req
            (get_policy_from_spec spec)
  unfolding policy_wrap_unary
  policy_wrap_unary-policy_verdict ctx_err ctx req spec h =
      rw h (policy_agree ctx_err (mark_interceptor_ran ctx) req (get_policy_from_spec spec))

module _ {S : Type 0} (cfg : Config S) (verifier : Verifier S) (ctx_err : S → Option Error) where
  answers_agree :
      (ctx : Context) (r : Outcome Answer × S)
      → follow (connect_answered ctx_err) (follow (λ a. pure (verified ctx a)) r)
        ≡ follow (answered ctx_err ctx) r
  unfolding connect_answered answered verified to_connect_error to_grpc_error
  answers_agree ctx (returned (none, none), s) = refl
  answers_agree ctx (returned (some d, none), s) = refl
  answers_agree ctx (returned (d, some e), s) = refl
  answers_agree ctx (panicked, s) = refl

  checked_agree :
      (ctx : Context) (cred_err : Option Error) (procedure : Bytes) (p : PolicyData) (s : S)
      → connect_checked ctx_err cfg verifier ctx cred_err procedure (some p) s
        ≡ checked ctx_err cfg verifier ctx cred_err procedure (some p) s
  unfolding connect_checked checked verify
  checked_agree ctx cred_err procedure p s =
      answers_agree ctx
        (verify cfg ctx verifier procedure check_open p.resource p.action cred_err s)

  guards_agree :
      (ctx ctx' : Context) (cred_err : Option Error) (procedure : Bytes)
      (policy : Option PolicyData) (s s' : S)
      → (connect_checked ctx_err cfg verifier ctx cred_err procedure policy s
          ≡ (returned (proceed ctx'), s'))
        ↔ (checked ctx_err cfg verifier ctx cred_err procedure policy s
            ≡ (returned (proceed ctx'), s'))
  guards_agree ctx ctx' cred_err procedure (some p) s s' =
      let e = checked_agree ctx cred_err procedure p s in (λ h. sym e ∙ h, λ h. e ∙ h)
  guards_agree ctx ctx' cred_err procedure none s s' =
      unfold connect_checked checked check_unannotated check_unannotated_procedure in ground arith

  behind_guard_agree :
      (ran : Bool) (e e' : Error) (ctx ctx' : Context) (cred_err : Option Error) (procedure : Bytes)
      (s s' : S)
      → ((if not ran
            then (returned (refuse e), s)
            else connect_checked ctx_err cfg verifier ctx cred_err procedure ctx.policy s)
          ≡ (returned (proceed ctx'), s'))
        ↔ ((if not ran
              then (returned (refuse e'), s)
              else checked ctx_err cfg verifier ctx cred_err procedure ctx.policy s)
            ≡ (returned (proceed ctx'), s'))
  behind_guard_agree true e e' ctx ctx' cred_err procedure s s' =
      guards_agree ctx ctx' cred_err procedure ctx.policy s s'
  behind_guard_agree false e e' ctx ctx' cred_err procedure s s' = (λ k. cc k, λ k. cc k)

  guarded_agree :
      (ctx ctx' : Context) (inbound : Inbound) (procedure : Bytes) (s s' : S)
      → (connect_guarded ctx_err cfg verifier ctx inbound procedure s
          ≡ (returned (proceed ctx'), s'))
        ↔ (verification_verdict ctx_err cfg verifier ctx inbound procedure s
            ≡ (returned (proceed ctx'), s'))
  unfolding connect_guarded verification_verdict
  guarded_agree ctx ctx' inbound procedure s s' =
      behind_guard_agree (with_inbound ctx inbound).0.interceptor_ran _ _
        (with_inbound ctx inbound).0 ctx' (with_inbound ctx inbound).1 procedure s s'

  unwrapped :
      (ctx : Context) (inbound : Inbound) (spec : Spec) (s : S)
      → spec.is_client ≡ false
      → verification_wrap_unary ctx_err cfg verifier ctx inbound spec s
        ≡ connect_guarded ctx_err cfg verifier ctx inbound spec.procedure s
  unfolding verification_wrap_unary
  unwrapped ctx inbound spec s h = rw h

  -- Around a handler, the Connect verification interceptor lets an RPC on with a context, and
  -- leaves a state, exactly where the gRPC interceptor does.
  pub verification_wrap_unary_iff :
      (ctx ctx' : Context) (inbound : Inbound) (spec : Spec) (s s' : S)
      → spec.is_client ≡ false
      → (verification_wrap_unary ctx_err cfg verifier ctx inbound spec s
          ≡ (returned (proceed ctx'), s'))
        ↔ (verification_verdict ctx_err cfg verifier ctx inbound spec.procedure s
            ≡ (returned (proceed ctx'), s'))
  verification_wrap_unary_iff ctx ctx' inbound spec s s' h =
      let e = unwrapped ctx inbound spec s h in
      let (to, from) = guarded_agree ctx ctx' inbound spec.procedure s s' in
      (λ k. to (sym e ∙ k), λ k. e ∙ from k)
