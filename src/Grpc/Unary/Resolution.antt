-- ===== src/Grpc/Unary/Resolution.antt =====
-- When the unary policy interceptor lets an RPC on, and what the context then holds.
use protobuf_interceptors.Base.{
  ◌≡◌, ◌⊎◌, inl, inr, true, Option, none, some, List, [], ◌∷◌, arith, Option-cases,
}
use protobuf_interceptors.Text.Bytes.{Bytes}
use protobuf_interceptors.Core.Context.{Context, mark_interceptor_ran}
use protobuf_interceptors.Core.Errors.{Error, ok, Result-cases, >>=-eq-ok}
use protobuf_interceptors.Core.Resolve.{
  FieldMapping, Policy, Resolved, resolve_resource, resolve_resource_with_fields,
}
use protobuf_interceptors.Core.Resolve.Extract.{Reflection}
use protobuf_interceptors.Grpc.Lookup.{Registered, PolicyCache, lookup_method_policy}
use protobuf_interceptors.Grpc.Lookup.Cache.{IsConsistent, get_method_policy-IsConsistent}
use protobuf_interceptors.Grpc.Unary.{
  proceed, resolved_verdict, unmapped_verdict, mapped_verdict, policy_verdict,
  policy_option_verdict,
}

module _ (reflection : Reflection) (find : Bytes → Registered) where
  open reflection use {Message}

  -- The policy on the context is the method's own, resolved.
  pub record IsResolved (ctx : Context) (full_method : Bytes) : Type 0 where
    pub policy : Policy
    pub msg : Option Message
    pub resolved : Resolved
    pub declared : lookup_method_policy find full_method ≡ ok (some policy)
    pub resolves : resolve_resource_with_fields reflection policy msg ≡ ok resolved
    pub on_context :
        ctx.policy ≡ some (record { resource = resolved.resource; action = resolved.action })

  -- A context that the interceptor passes on: marked, and with the method's policy resolved, or as
  -- it was where the method's descriptor carries no policy.
  abbrev pub IsAnnotated : Context → Context → Bytes → Type 0
  IsAnnotated ctx ctx' full_method =
      (ctx'.interceptor_ran ≡ true)
      × (((lookup_method_policy find full_method ≡ ok none) × (ctx' ≡ mark_interceptor_ran ctx))
          ⊎ IsResolved ctx' full_method)

  resolve_resource-full :
      (policy : Policy) (resource action : Bytes)
      → resolve_resource reflection policy none ≡ ok (resource, action)
      → (r : Resolved) × (resolve_resource_with_fields reflection policy none ≡ ok r)
        × (r.resource ≡ resource)
        × (r.action ≡ action)
  unfolding resolve_resource
  resolve_resource-full policy resource action h =
      let (r, e, k) = >>=-eq-ok (resolve_resource_with_fields reflection policy none) _ h in
      (r, e, ground arith, ground arith)

  mapped_verdict-policy :
      (ctx_err : Option Error) (ctx ctx' : Context) (policy : Policy) (ms : List FieldMapping)
      (req : Option Message)
      → mapped_verdict reflection ctx_err ctx policy ms req ≡ proceed ctx'
      → (msg : Option Message) × (r : Resolved) × (resolve_resource_with_fields reflection policy
            msg
          ≡ ok r)
        × (ctx'.policy ≡ some (record { resource = r.resource; action = r.action }))
        × (ctx'.interceptor_ran ≡ ctx.interceptor_ran)
  unfolding mapped_verdict resolved_verdict unmapped_verdict
  mapped_verdict-policy ctx_err ctx ctx' policy [] req h =
      elim (Result-cases (resolve_resource reflection policy none)) [
        | inl ((resource, action), e) ↦
            let (r, full, same, same') = resolve_resource-full policy resource action e in
            (none, r, full, ground arith, ground arith)
        | inr (e, failed) ↦ ground arith
      ]
  mapped_verdict-policy ctx_err ctx ctx' policy (m ∷ ms) none h = cc
  mapped_verdict-policy ctx_err ctx ctx' policy (m ∷ ms) (some msg) h =
      elim (Result-cases (resolve_resource_with_fields reflection policy (some msg))) [
        | inl (r, e) ↦ (some msg, r, e, ground arith, ground arith)
        | inr (e, failed) ↦ ground arith
      ]

  policy_verdict-IsAnnotated :
      (ctx_err : Option Error) (ctx ctx' : Context) (req : Option Message) (full_method : Bytes)
      → policy_verdict reflection ctx_err
          (mark_interceptor_ran ctx)
          req
          (lookup_method_policy find full_method)
        ≡ proceed ctx'
      → IsAnnotated ctx ctx' full_method
  unfolding policy_verdict
  policy_verdict-IsAnnotated ctx_err ctx ctx' req full_method h =
      elim (Result-cases (lookup_method_policy find full_method)) [
        | inl (found, e) ↦ elim (Option-cases found) [
          | inl absent ↦ (ground arith, inl (ground arith, ground arith))
          | inr (policy, present) ↦
              let (msg, r, resolves, on_context, ran) =
                mapped_verdict-policy ctx_err (mark_interceptor_ran ctx) ctx' policy
                  policy.field_mappings req (ground arith) in
              (
                ran,
                inr (record {
                  policy = policy;
                  msg = msg;
                  resolved = r;
                  declared = ground arith;
                  resolves = resolves;
                  on_context = on_context;
                }),
              )
        ]
        | inr (e, failed) ↦ ground arith
      ]

  -- With a consistent cache the interceptor passes an RPC on only with its mark on the context, and then either the
  -- method's descriptor is registered and carries no policy, and the context is otherwise as it
  -- was, or the context holds the resource and action that the method's own policy resolves to.
  pub policy_option_verdict-IsAnnotated :
      (cache : PolicyCache) (ctx_err : Option Error) (ctx ctx' : Context) (req : Option Message)
      (full_method : Bytes)
      → IsConsistent find cache
      → (policy_option_verdict reflection find cache ctx_err ctx req full_method).0 ≡ proceed ctx'
      → IsAnnotated ctx ctx' full_method
  unfolding policy_option_verdict
  policy_option_verdict-IsAnnotated cache ctx_err ctx ctx' req full_method c h =
      policy_verdict-IsAnnotated ctx_err ctx ctx' req full_method
        (rw (get_method_policy-IsConsistent find cache full_method c).0 at h)
