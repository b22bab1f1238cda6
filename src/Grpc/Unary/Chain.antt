-- ===== src/Grpc/Unary/Chain.antt =====
-- The two unary interceptors in their order: the policy interceptor, then the verification
-- interceptor, then the handler.
use mathlib.Core.Path.{subst}
use protobuf_interceptors.Base.{◌≡◌, ◌⊎◌, inl, inr, ap, sym, ◌∙◌, Option, none, some}
use protobuf_interceptors.Base.Outcomes.{returned}
use protobuf_interceptors.Text.Bytes.{Bytes}
use protobuf_interceptors.Core.Context.{Context, PolicyData}
use protobuf_interceptors.Core.Decision.{Decision}
use protobuf_interceptors.Core.Errors.{Error, ok}
use protobuf_interceptors.Core.Resolve.{Policy}
use protobuf_interceptors.Core.Resolve.Extract.{Reflection}
use protobuf_interceptors.Core.Resolve.Policies.{resolve_resource_with_fields-separators}
use protobuf_interceptors.Core.Resolve.Template.Scan.{scan}
use protobuf_interceptors.Core.Resolve.Template.Structure.{separators, own_separators}
use protobuf_interceptors.Endpoint.Verifier.{Verifier}
use protobuf_interceptors.Grpc.Config.{Config, Inbound, with_inbound}
use protobuf_interceptors.Grpc.Lookup.{Registered, PolicyCache, lookup_method_policy}
use protobuf_interceptors.Grpc.Lookup.Cache.{IsConsistent}
use protobuf_interceptors.Grpc.Unary.{proceed, policy_option_verdict, verification_verdict}
use protobuf_interceptors.Grpc.Unary.Resolution.{IsResolved, policy_option_verdict-IsAnnotated}
use protobuf_interceptors.Grpc.Unary.Verification.{
  Allowed, MayLackPolicy, verification_verdict-Admitted,
}

module _ {S : Type 0} (reflection : Reflection) (find : Bytes → Registered) (cfg : Config S)
    (verifier : Verifier S) (ctx_err : S → Option Error) where
  open reflection use {Message}

  -- The endpoint allowed what the method's own policy resolves to.
  pub record Authorized (seen : Context) (full_method : Bytes) (s : S) : Type 0 where
    pub policy : Policy
    pub resource : Bytes
    pub decision : Option Decision
    pub declared : lookup_method_policy find full_method ≡ ok (some policy)
    pub structure : separators resource ≡ own_separators (scan none policy.resource)
    pub allowed : Allowed cfg verifier seen resource policy.action decision s

  authorize :
      (ctx1 : Context) (inbound : Inbound) (full_method : Bytes)
      → IsResolved reflection find ctx1 full_method
      → (p : PolicyData) (d : Option Decision) (s : S) → ctx1.policy ≡ some p
      → Allowed cfg verifier (with_inbound ctx1 inbound).0 p.resource p.action d s
      → Authorized (with_inbound ctx1 inbound).0 full_method s
  authorize ctx1 inbound full_method r p d s present allowed =
      let (same_action, _, _, structure, _) =
        resolve_resource_with_fields-separators reflection r.policy r.msg r.resolved r.resolves in
      let same : record { resource = r.resolved.resource; action = r.resolved.action } ≡ p =
        cc (sym r.on_context ∙ present) in
      record {
        policy = r.policy;
        resource = p.resource;
        decision = d;
        declared = r.declared;
        structure = ap (λ (q : PolicyData). separators q.resource) (sym same) ∙ structure;
        allowed =
            subst (λ a. Allowed cfg verifier (with_inbound ctx1 inbound).0 p.resource a d s)
              (ap (λ (q : PolicyData). q.action) (sym same) ∙ same_action) allowed;
      }

  -- With a consistent cache, an RPC that comes without a policy on its context and passes both
  -- interceptors is one whose
  -- method is registered without a policy and may go without one, or one whose credential could be
  -- read and for which the endpoint allowed the action of the method's own policy on a resource
  -- with exactly the separators of that policy's template.
  pub chain-Authorized :
      (cache : PolicyCache) (ctx ctx1 ctx2 : Context) (req : Option Message) (inbound : Inbound)
      (full_method : Bytes) (s0 s s' : S)
      → IsConsistent find cache
      → ctx.policy ≡ none
      → (policy_option_verdict reflection find cache (ctx_err s0) ctx req full_method).0
        ≡ proceed ctx1
      → verification_verdict ctx_err cfg verifier ctx1 inbound full_method s
        ≡ (returned (proceed ctx2), s')
      → ((lookup_method_policy find full_method ≡ ok none) × MayLackPolicy cfg verifier full_method)
        ⊎ (((with_inbound ctx1 inbound).1 ≡ none)
            × Authorized (with_inbound ctx1 inbound).0 full_method s)
  chain-Authorized cache ctx ctx1 ctx2 req inbound full_method s0 s s' c fresh h k =
      let (ran, from) =
        policy_option_verdict-IsAnnotated reflection find cache (ctx_err s0) ctx ctx1 req
          full_method c h in
      let admitted =
        verification_verdict-Admitted cfg verifier ctx_err ctx1 inbound full_method ctx2 s s' k in
      elim from [
        | inl (absent, same) ↦ elim admitted.reason [
          | inl (no_policy, may, _) ↦ inl (absent, may)
          | inr (p, d, present, _, _, _) ↦
              absurd
                (none-ne-some (sym fresh ∙ sym (ap (λ (x : Context). x.policy) same) ∙ present))
        ]
        | inr r ↦ elim admitted.reason [
          | inl (no_policy, may, _) ↦ absurd (none-ne-some (sym no_policy ∙ r.on_context))
          | inr (p, d, present, read, allowed, _) ↦
              inr (read, authorize ctx1 inbound full_method r p d s present allowed)
        ]
      ]
    where
      none-ne-some : {p : PolicyData} → none ≡ some p → ⊥
      none-ne-some e = cc
