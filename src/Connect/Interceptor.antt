-- ===== src/Connect/Interceptor.antt =====
-- connectrpc/interceptor.go: the interceptors around a unary handler, and the check that both kinds
-- of RPC make. The clock, the observer and the requirement of a policy are held as in grpc/.
use protobuf_interceptors.Base.{Bool, not, ◌||◌, Option, none, some, List, [], ◌∷◌, if◌then◌else◌}
use protobuf_interceptors.Base.Outcomes.{returned, Call, ◌>>=◌, pure}
use protobuf_interceptors.Text.Bytes.{Bytes}
use protobuf_interceptors.Core.Context.{
  Context, PolicyData, mark_interceptor_ran, interceptor_ran_from_context, with_policy,
  policy_from_context, with_decision, with_extracted_fields,
}
use protobuf_interceptors.Core.Errors.{
  Error, text, errorf, errorf_w, sentinel, no_policy, Result, ok, err,
}
use protobuf_interceptors.Core.Resolve.{
  FieldMapping, Policy, Resolved, resolve_resource, resolve_resource_with_fields,
}
use protobuf_interceptors.Core.Resolve.Extract.{Reflection}
use protobuf_interceptors.Endpoint.Verifier.{Verifier, Answer}
use protobuf_interceptors.Methodset
use protobuf_interceptors.Connect.Errors.{to_connect_error}
use protobuf_interceptors.Grpc.Config.{
  Config, CheckPhase, check_open, Inbound, ask, report, with_inbound,
}
use protobuf_interceptors.Grpc.Lookup.{MethodOptions, policy_of_options}
use protobuf_interceptors.Grpc.Unary.{Verdict, refuse, proceed}

-- connect.Spec: the options of its schema's method, `none` where the schema is no method descriptor.
pub record Spec : Type 0 where
  pub procedure : Bytes
  pub is_client : Bool
  pub schema : Option MethodOptions

-- `getPolicyFromSpec`
unfoldable pub get_policy_from_spec : Spec → Result (Option Policy)
unfolding policy_of_options
get_policy_from_spec spec = elim spec.schema [
  | none ↦ err (
      errorf "no method descriptor for %q: build the handler with connect.WithSchema"
        (text spec.procedure ∷ []))
  | some options ↦ policy_of_options options
]

module _ (reflection : Reflection) where
  open reflection use {Message}

  abbrev unresolved : Error → Error
  unresolved = errorf_w "failed to resolve resource: %w" []

  -- What `WrapUnary` makes of a policy without field mappings, resolved.
  unfoldable pub connect_unmapped : Option Error → Context → Result (Bytes × Bytes) → Verdict
  unfolding to_connect_error
  connect_unmapped ctx_err ctx (err e) = refuse (to_connect_error ctx_err (unresolved e))
  connect_unmapped ctx_err ctx (ok (resource, action)) = proceed (with_policy ctx resource action)

  -- The same with field mappings; fields that were extracted are attached.
  unfoldable pub connect_resolved : Option Error → Context → Result Resolved → Verdict
  unfolding to_connect_error
  connect_resolved ctx_err ctx (err e) = refuse (to_connect_error ctx_err (unresolved e))
  connect_resolved ctx_err ctx (ok r) = elim r.fields [
    | [] ↦ proceed (with_policy ctx r.resource r.action)
    | f ∷ fs ↦ proceed (with_policy (with_extracted_fields ctx (f ∷ fs)) r.resource r.action)
  ]

  unfoldable pub connect_mapped :
      Option Error → Context → Policy → List FieldMapping → Option Message → Verdict
  unfolding connect_unmapped connect_resolved
  connect_mapped ctx_err ctx policy [] req =
      connect_unmapped ctx_err ctx (resolve_resource reflection policy none)
  connect_mapped ctx_err ctx policy (m ∷ ms) none =
      refuse (to_connect_error ctx_err (errorf "request does not implement proto.Message" []))
  connect_mapped ctx_err ctx policy (m ∷ ms) (some msg) =
      connect_resolved ctx_err ctx (resolve_resource_with_fields reflection policy (some msg))

  unfoldable pub connect_policy :
      Option Error → Context → Option Message → Result (Option Policy) → Verdict
  unfolding connect_mapped
  connect_policy ctx_err ctx req (err e) =
      refuse (to_connect_error ctx_err (errorf_w "failed to look up method policy: %w" [] e))
  connect_policy ctx_err ctx req (ok none) = proceed ctx
  connect_policy ctx_err ctx req (ok (some policy)) =
      connect_mapped ctx_err ctx policy policy.field_mappings req

  -- `policyOptionInterceptor.WrapUnary`, up to the call of what comes next
  unfoldable pub policy_wrap_unary : Option Error → Context → Option Message → Spec → Verdict
  unfolding connect_policy get_policy_from_spec
  policy_wrap_unary ctx_err ctx req spec =
      if spec.is_client
      then proceed ctx
      else connect_policy ctx_err (mark_interceptor_ran ctx) req (get_policy_from_spec spec)

  -- `policyOptionInterceptor.WrapStreamingHandler` on a policy
  unfoldable pub connect_stream_mapped :
      Option Error → Context → Policy → List FieldMapping → Verdict
  unfolding connect_unmapped
  connect_stream_mapped ctx_err ctx policy (m ∷ ms) =
      refuse
        (to_connect_error ctx_err (errorf "field_mappings are not supported for streaming RPCs" []))
  connect_stream_mapped ctx_err ctx policy [] =
      connect_unmapped ctx_err ctx (resolve_resource reflection policy none)

  unfoldable pub connect_stream_policy : Option Error → Context → Result (Option Policy) → Verdict
  unfolding connect_stream_mapped
  connect_stream_policy ctx_err ctx (err e) =
      refuse (to_connect_error ctx_err (errorf_w "failed to look up method policy: %w" [] e))
  connect_stream_policy ctx_err ctx (ok none) = proceed ctx
  connect_stream_policy ctx_err ctx (ok (some policy)) =
      connect_stream_mapped ctx_err ctx policy policy.field_mappings

  -- `policyOptionInterceptor.WrapStreamingHandler`, up to the call of what comes next
  unfoldable pub policy_wrap_streaming : Option Error → Context → Spec → Verdict
  unfolding connect_stream_policy get_policy_from_spec
  policy_wrap_streaming ctx_err ctx spec =
      connect_stream_policy ctx_err (mark_interceptor_ran ctx) (get_policy_from_spec spec)

-- The end of `verificationInterceptor.verify`: the context that the handler runs with.
unfoldable pub verified : Context → Answer → Context × Option Error
verified ctx (decision, some e) = (ctx, some e)
verified ctx (some d, none) = (with_decision ctx d, none)
verified ctx (none, none) = (ctx, none)

module _ {S : Type 0} where
  -- `verificationInterceptor.checkUnannotated`
  unfoldable pub check_unannotated_procedure : Config S → Bytes → Option Error
  check_unannotated_procedure v procedure =
      if not v.require_policy || Methodset.contains v.exempt procedure
      then none
      else some (errorf_w "procedure %s: %w" (text procedure ∷ []) (sentinel no_policy))

  -- `verificationInterceptor.verify`
  unfoldable pub connect_verify :
      Config S
      → Context
      → Verifier S
      → Bytes
      → CheckPhase
      → Bytes
      → Bytes
      → Option Error
      → Call S (Context × Option Error)
  unfolding ask report verified
  connect_verify v ctx verifier procedure phase resource action cred_err =
      (ask v ctx verifier resource action cred_err >>= report v ctx procedure phase resource action)
      >>= λ answer. pure (verified ctx answer)

  module _ (ctx_err : S → Option Error) where
    abbrev out_of_order : Error
    out_of_order = errorf "PolicyOptionInterceptor must run before VerificationInterceptor" []

    unfoldable pub connect_answered : Context × Option Error → Call S Verdict
    unfolding to_connect_error
    connect_answered (ctx, none) s = (returned (proceed ctx), s)
    connect_answered (ctx, some e) s = (returned (refuse (to_connect_error (ctx_err s) e)), s)

    -- What `WrapUnary` does with the policy on the context.
    unfoldable pub connect_checked :
        Config S → Verifier S → Context → Option Error → Bytes → Option PolicyData → Call S Verdict
    unfolding check_unannotated_procedure connect_verify connect_answered
    connect_checked v verifier ctx cred_err procedure none s =
        elim (check_unannotated_procedure v procedure) [
          | some e ↦ (returned (refuse (to_connect_error (ctx_err s) e)), s)
          | none ↦ (returned (proceed ctx), s)
        ]
    connect_checked v verifier ctx cred_err procedure (some p) s =
        (connect_verify v ctx verifier procedure check_open p.resource p.action cred_err
            >>= connect_answered)
          s

    -- `verificationInterceptor.WrapUnary` of a handler's RPC
    unfoldable pub connect_guarded :
        Config S → Verifier S → Context → Inbound → Bytes → Call S Verdict
    unfolding connect_checked with_inbound
    connect_guarded v verifier ctx inbound procedure s =
        let (ctx', cred_err) = with_inbound ctx inbound in
        if not (interceptor_ran_from_context ctx')
        then (returned (refuse (to_connect_error (ctx_err s) out_of_order)), s)
        else connect_checked v verifier ctx' cred_err procedure (policy_from_context ctx') s

    -- `verificationInterceptor.WrapUnary`, up to the call of what comes next
    unfoldable pub verification_wrap_unary :
        Config S → Verifier S → Context → Inbound → Spec → Call S Verdict
    unfolding connect_guarded
    verification_wrap_unary v verifier ctx inbound spec s =
        if spec.is_client
        then (returned (proceed ctx), s)
        else connect_guarded v verifier ctx inbound spec.procedure s
