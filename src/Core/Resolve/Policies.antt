-- ===== src/Core/Resolve/Policies.antt =====
-- What `ResolveResourceWithFields` returns for a whole policy.
use protobuf_interceptors.Base.{◌≡◌, ◌≢◌, Option, none, [], arith, inl, inr}
use protobuf_interceptors.Core.Errors.{ok, Result-cases}
use protobuf_interceptors.Core.Resolve.{Policy, Resolved, map_fields, resolve_resource_with_fields}
use protobuf_interceptors.Core.Resolve.Extract.{Reflection}
use protobuf_interceptors.Core.Resolve.Template.{substitute_resource}
use protobuf_interceptors.Core.Resolve.Template.Scan.{scan}
use protobuf_interceptors.Core.Resolve.Template.Structure.{
  separators, own_separators, Filled, substitute_resource-separators,
}

module _ (reflection : Reflection) where
  open reflection use {Message}

  -- A policy that resolves has a resource and an action; the action is passed on as declared, and
  -- the resource has exactly the template's own separators, whatever the request says, with a
  -- value of segment token bytes for each placeholder.
  pub resolve_resource_with_fields-separators :
      (policy : Policy) (msg : Option Message) (r : Resolved)
      → resolve_resource_with_fields reflection policy msg ≡ ok r
      → (r.action ≡ policy.action)
        × (policy.action ≢ [])
        × (policy.resource ≢ [])
        × (separators r.resource ≡ own_separators (scan none policy.resource))
        × Filled r.fields (scan none policy.resource)
  unfolding resolve_resource_with_fields
  resolve_resource_with_fields-separators policy msg r h =
      elim (Result-cases (map_fields reflection msg [] policy.field_mappings)) [
        | inl (fields, mapped) ↦ elim (Result-cases (substitute_resource policy.resource fields)) [
          | inl (resource, e) ↦
              let (same, filled) =
                substitute_resource-separators policy.resource fields resource e in
              ground arith
          | inr (e, refused) ↦ ground arith
        ]
        | inr (e, refused) ↦ ground arith
      ]
