-- ===== src/Grpc/Unary.antt =====
-- grpc/interceptor.go: the two unary interceptors. Each either refuses the RPC or calls the handler
-- as its last act: what it decides is a verdict, and `run_handler` carries it out.
pub mod Resolution
pub mod Verification
pub mod Chain
use protobuf_interceptors.Base.{
  ℕ, Bool, true, false, not, Option, none, some, List, [], ◌∷◌, if◌then◌else◌,
}
use protobuf_interceptors.Base.Outcomes.{Outcome, returned, panicked, Call, ◌>>=◌, pure}
use protobuf_interceptors.Text.Bytes.{Bytes}
use protobuf_interceptors.Core.Context.{
  Context, Fields, PolicyData, mark_interceptor_ran, interceptor_ran_from_context, with_policy,
  policy_from_context, with_extracted_fields,
}
use protobuf_interceptors.Core.Errors.{Error, errorf, errorf_w, Result, ok, err}
use protobuf_interceptors.Core.Resolve.{
  FieldMapping, Policy, Resolved, resolve_resource, resolve_resource_with_fields,
}
use protobuf_interceptors.Core.Resolve.Extract.{Reflection}
use protobuf_interceptors.Endpoint.Verifier.{Verifier, Answer}
use protobuf_interceptors.Grpc.Errors.{to_grpc_error}
use protobuf_interceptors.Grpc.Lookup.{Registered, PolicyCache, get_method_policy}
use protobuf_interceptors.Grpc.Config.{
  Config, Inbound, CheckPhase, check_open, check_unannotated, verify, with_inbound, with_reported,
}

pub data Verdict : Type 0 where
  refuse : Error → Verdict
  proceed : Context → Verdict

-- What the RPC ends with: a response or an error, returned or lost in a panic.
abbrev pub Handler : Type 0 → Type 0 → Type 0
Handler S Response = Context → Call S (Result Response)

abbrev pub run_handler :
    {S Response : Type 0} → Handler S Response → Verdict → Call S (Result Response)
run_handler handler (refuse e) = pure (err e)
run_handler handler (proceed ctx) = handler ctx

module _ (reflection : Reflection) where
  open reflection use {Message}

  -- The fields that a resolution with field mappings attaches.
  abbrev attach : Context → Fields → Context
  attach ctx [] = ctx
  attach ctx (f ∷ fs) = with_extracted_fields ctx (f ∷ fs)

  -- The end of `PolicyOptionInterceptor`, on what the resolution returned; `ctx_err` is `ctx.Err()`.
  unfoldable pub resolved_verdict : Option Error → Context → Result Resolved → Verdict
  unfolding to_grpc_error
  resolved_verdict ctx_err ctx (ok r) =
      proceed (with_policy (attach ctx r.fields) r.resource r.action)
  resolved_verdict ctx_err ctx (err e) =
      refuse (to_grpc_error ctx_err (errorf_w "failed to resolve resource: %w" [] e))

  unfoldable pub unmapped_verdict : Option Error → Context → Result (Bytes × Bytes) → Verdict
  unfolding to_grpc_error
  unmapped_verdict ctx_err ctx (ok (resource, action)) = proceed (with_policy ctx resource action)
  unmapped_verdict ctx_err ctx (err e) =
      refuse (to_grpc_error ctx_err (errorf_w "failed to resolve resource: %w" [] e))

  -- The verdict on a method that has a policy. The request as a proto.Message is `none` where it
  -- does not implement one.
  unfoldable pub mapped_verdict :
      Option Error → Context → Policy → List FieldMapping → Option Message → Verdict
  unfolding resolved_verdict unmapped_verdict
  mapped_verdict ctx_err ctx policy [] req =
      unmapped_verdict ctx_err ctx (resolve_resource reflection policy none)
  mapped_verdict ctx_err ctx policy (m ∷ ms) none =
      refuse (to_grpc_error ctx_err (errorf "request does not implement proto.Message" []))
  mapped_verdict ctx_err ctx policy (m ∷ ms) (some msg) =
      resolved_verdict ctx_err ctx (resolve_resource_with_fields reflection policy (some msg))

  -- The verdict on what the lookup of the method's policy returned.
  unfoldable pub policy_verdict :
      Option Error → Context → Option Message → Result (Option Policy) → Verdict
  unfolding mapped_verdict
  policy_verdict ctx_err ctx req (err e) =
      refuse (to_grpc_error ctx_err (errorf_w "failed to look up method policy: %w" [] e))
  policy_verdict ctx_err ctx req (ok none) = proceed ctx
  policy_verdict ctx_err ctx req (ok (some policy)) =
      mapped_verdict ctx_err ctx policy policy.field_mappings req

  -- `PolicyOptionInterceptor`: its verdict and the cache after it
  unfoldable pub policy_option_verdict :
      (Bytes → Registered)
      → PolicyCache
      → Option Error
      → Context
      → Option Message
      → Bytes
      → Verdict × PolicyCache
  unfolding policy_verdict
  policy_option_verdict find cache ctx_err ctx req full_method =
      let (policy, cache') = get_method_policy find cache full_method in
      (policy_verdict ctx_err (mark_interceptor_ran ctx) req policy, cache')

module _ {S : Type 0} (ctx_err : S → Option Error) where
  -- The verdict on what the check that opens the RPC returned.
  unfoldable pub answered : Context → Answer → Call S Verdict
  unfolding with_reported
  answered ctx (decision, none) s = (returned (proceed (with_reported ctx decision)), s)
  answered ctx (decision, some e) s = (returned (refuse (to_grpc_error (ctx_err s) e)), s)

  -- What `VerificationInterceptor` does with the policy on the context.
  unfoldable pub checked :
      Config S → Verifier S → Context → Option Error → Bytes → Option PolicyData → Call S Verdict
  unfolding answered
  checked cfg verifier ctx cred_err full_method none s = elim (check_unannotated cfg full_method) [
    | some e ↦ (returned (refuse (to_grpc_error (ctx_err s) e)), s)
    | none ↦ (returned (proceed ctx), s)
  ]
  checked cfg verifier ctx cred_err full_method (some p) s =
      (verify cfg ctx verifier full_method check_open p.resource p.action cred_err >>= answered ctx)
        s

  abbrev out_of_order : Error
  out_of_order = errorf "PolicyOptionInterceptor must run before VerificationInterceptor" []

  -- `VerificationInterceptor`, up to the handler's call
  unfoldable pub verification_verdict :
      Config S → Verifier S → Context → Inbound → Bytes → Call S Verdict
  unfolding checked with_inbound
  verification_verdict cfg verifier ctx inbound full_method s =
      let (ctx', cred_err) = with_inbound ctx inbound in
      if not (interceptor_ran_from_context ctx')
      then (returned (refuse (to_grpc_error (ctx_err s) out_of_order)), s)
      else checked cfg verifier ctx' cred_err full_method (policy_from_context ctx') s

  -- `VerificationInterceptor` around a handler
  unfoldable pub verification_interceptor :
      {Response : Type 0}
      → Config S
      → Verifier S
      → Inbound
      → Bytes
      → Handler S Response
      → Handler S Response
  unfolding verification_verdict
  verification_interceptor cfg verifier inbound full_method handler ctx =
      verification_verdict cfg verifier ctx inbound full_method >>= run_handler handler
