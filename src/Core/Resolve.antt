-- ===== src/Core/Resolve.antt =====
-- resolve.go: the resource and action of a policy, with the placeholders of the resource template
-- filled from the request.
pub mod Policies
pub mod Template
pub mod Extract
use protobuf_interceptors.Base.{
  ℕ, Bool, true, false, not, ◌&&◌, ◌||◌, Option, none, some, List, [], ◌∷◌, ◌++◌, if◌then◌else◌,
}
use protobuf_interceptors.Text.Bytes.{Bytes, insert}
use protobuf_interceptors.Core.Errors.{
  Error, text, errorf, errorf_v, resource_value, Result, ok, err, ◌>>=◌,
}
use protobuf_interceptors.Core.Context.{Fields}
use Template.{substitute_resource}
use Extract.{Reflection, Extracted, value, unset, failed, extract_field}

-- The policy option: policy.proto's messages Policy and FieldMapping.
pub record FieldMapping : Type 0 where
  pub placeholder : Bytes
  pub request_field : Bytes

pub record Policy : Type 0 where
  pub resource : Bytes
  pub action : Bytes
  pub field_mappings : List FieldMapping

abbrev is_empty : Bytes → Bool
is_empty [] = true
is_empty (_ ∷ _) = false

pub record Resolved : Type 0 where
  pub resource : Bytes
  pub action : Bytes
  pub fields : Fields

module _ (reflection : Reflection) where
  open reflection use {Message}

  -- The body of the loop over the field mappings, on what `extractField` returned.
  unfoldable pub mapped_value : FieldMapping → Extracted → Result Bytes
  mapped_value field (value v) = ok v
  mapped_value field (unset path) = err (
      resource_value field.placeholder []
        "request field %s is not set, so %s has no value; an unset message never resolves to a default"
        (text path ∷ text field.request_field ∷ []))
  mapped_value field (failed e) =
      err (errorf_v "failed to extract field %s: %v" (text field.request_field ∷ []) e)

  -- One round of that loop. The request message that is nil is `none`.
  unfoldable pub map_field : Option Message → Fields → FieldMapping → Result Fields
  unfolding mapped_value
  map_field msg fields field =
      if is_empty field.placeholder || is_empty field.request_field
      then err (errorf "invalid field mapping: placeholder and request_field must not be empty" [])
      else (elim msg [
        | none ↦
            err (errorf "request message is nil but field_mappings require field extraction" [])
        | some m ↦ do
          v ← mapped_value field (extract_field reflection m field.request_field)
          ok (insert field.placeholder v fields)
      ])

  unfoldable pub map_fields : Option Message → Fields → List FieldMapping → Result Fields
  unfolding map_field
  map_fields msg fields [] = ok fields
  map_fields msg fields (m ∷ ms) = do fields' ← map_field msg fields m; map_fields msg fields' ms

  -- `ResolveResourceWithFields`
  unfoldable pub resolve_resource_with_fields : Policy → Option Message → Result Resolved
  unfolding map_fields
  resolve_resource_with_fields policy msg =
      if is_empty policy.resource
      then err (errorf "policy resource must not be empty" [])
      else if is_empty policy.action
      then err (errorf "policy action must not be empty" [])
      else do
        fields ← map_fields msg [] policy.field_mappings
        resource ← substitute_resource policy.resource fields
        ok (record { resource = resource; action = policy.action; fields = fields })

  -- `ResolveResource`
  unfoldable pub resolve_resource : Policy → Option Message → Result (Bytes × Bytes)
  unfolding resolve_resource_with_fields
  resolve_resource policy msg = do
    r ← resolve_resource_with_fields policy msg
    ok (r.resource, r.action)
