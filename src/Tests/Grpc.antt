-- ===== src/Tests/Grpc.antt =====
-- The theorems of grpc/ on unary RPCs, on concrete values.
use protobuf_interceptors.Grpc.Config.{verify}
use protobuf_interceptors.Text.Bytes.{index_byte}
use protobuf_interceptors.Core.Request.{inbound_bearer_token}
use protobuf_interceptors.Core.Resolve.Template.{validate_resource_value}
use protobuf_interceptors.Core.Resolve.Template.{next_placeholder}
use protobuf_interceptors.Core.Resolve.Template.{substitute_from}
use protobuf_interceptors.Core.Resolve.Template.{substitute_resource}
use protobuf_interceptors.Core.Resolve.Extract.{extract_field}
use protobuf_interceptors.Core.Resolve.{resolve_resource_with_fields}
use protobuf_interceptors.Base.{◌≡◌, ◌⊎◌, refl, none, some, []}
use protobuf_interceptors.Text.Bytes.{bytes}
use protobuf_interceptors.Core.Errors.{Error, ok, errorf_w, denied, status}
use protobuf_interceptors.Grpc.Config.{with_inbound}
use protobuf_interceptors.Grpc.Errors.{to_grpc_error}
use protobuf_interceptors.Grpc.Errors.Codes.{
  fixed_message, IsToldAs, told_code, to_grpc_error-IsToldAs,
}
use protobuf_interceptors.Grpc.Lookup.{lookup_method_policy, get_method_policy}
use protobuf_interceptors.Grpc.Lookup.Cache.{
  IsConsistent, empty-IsConsistent, get_method_policy-IsConsistent,
}
use protobuf_interceptors.Grpc.Unary.{policy_option_verdict, verification_verdict}
use protobuf_interceptors.Grpc.Unary.Chain.{Authorized, chain-Authorized}
use protobuf_interceptors.Grpc.Unary.Resolution.{IsAnnotated, policy_option_verdict-IsAnnotated}
use protobuf_interceptors.Grpc.Unary.Verification.{
  MayLackPolicy, Admitted, verification_verdict-Admitted,
}
use protobuf_interceptors.Tests.Samples.{
  field_kind, find, seen, reflection, get_method, cfg, allowing, ctx_err, background, inbound,
  annotated,
}

policy_option_verdict-IsAnnotated_example :
    IsAnnotated reflection find background annotated get_method
unfolding policy_option_verdict get_method_policy find resolve_resource_with_fields extract_field
    field_kind substitute_resource substitute_from next_placeholder validate_resource_value
policy_option_verdict-IsAnnotated_example =
    policy_option_verdict-IsAnnotated reflection find [] none background annotated
      (some (bytes "o-7")) get_method (empty-IsConsistent find) refl

verification_verdict-Admitted_example :
    Admitted cfg allowing ctx_err annotated inbound get_method seen 0
unfolding verification_verdict inbound_bearer_token index_byte verify seen
verification_verdict-Admitted_example =
    verification_verdict-Admitted cfg allowing ctx_err annotated inbound get_method seen 0 3 refl

chain-Authorized_example :
    ((lookup_method_policy find get_method ≡ ok none) × MayLackPolicy cfg allowing get_method)
    ⊎ (((with_inbound annotated inbound).1 ≡ none)
        × Authorized reflection find cfg allowing ctx_err
            (with_inbound annotated inbound).0
            get_method
            0)
unfolding verification_verdict policy_option_verdict get_method_policy find
    resolve_resource_with_fields extract_field field_kind substitute_resource substitute_from
    next_placeholder validate_resource_value inbound_bearer_token verify seen
chain-Authorized_example =
    chain-Authorized reflection find cfg allowing ctx_err [] background annotated seen
      (some (bytes "o-7")) inbound get_method 0 0 3 (empty-IsConsistent find) refl refl refl

get_method_policy-IsConsistent_example :
    ((get_method_policy find [] get_method).0 ≡ lookup_method_policy find get_method)
    × IsConsistent find (get_method_policy find [] get_method).1
get_method_policy-IsConsistent_example =
    get_method_policy-IsConsistent find [] get_method (empty-IsConsistent find)

abbrev refusal : Error
refusal = errorf_w "failed to resolve resource: %w" [] (denied (bytes "not the owner") none)

to_grpc_error-IsToldAs_example :
    (to_grpc_error none refusal
      ≡ status (told_code none refusal) (fixed_message (told_code none refusal)) refusal)
    × IsToldAs none refusal (told_code none refusal)
to_grpc_error-IsToldAs_example = to_grpc_error-IsToldAs none refusal
