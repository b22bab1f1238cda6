-- ===== src/Grpc/Lookup.antt =====
-- grpc/lookup.go: the policy of a method, from its descriptor. The registry of descriptors is
-- protoregistry's: an argument. The sync.Map is the association list of what is stored.
pub mod Cache
use protobuf_interceptors.Base.{
  ℕ, suc, Bool, true, false, Option, none, some, List, [], ◌∷◌, ◌==◌, if◌then◌else◌, take, drop,
}
use protobuf_interceptors.Text.Bytes.{Bytes, last_index_byte, lookup, insert}
use protobuf_interceptors.Core.Errors.{Error, text, errorf, errorf_w, Result, ok, err, ◌>>=◌}
use protobuf_interceptors.Core.Resolve.{Policy}

pub record RpcMethod : Type 0 where
  pub service : Bytes
  pub method : Bytes

abbrev invalid_format : Bytes → Error
invalid_format name = errorf "invalid full method format: %s" (text name ∷ [])

-- `parseFullMethodName`
unfoldable pub parse_full_method_name : Bytes → Result RpcMethod
unfolding last_index_byte
parse_full_method_name [] = err (invalid_format [])
parse_full_method_name (c ∷ method) =
    if c == b'/'
    then (elim (last_index_byte b'/' method) [
      | none ↦ err (invalid_format (c ∷ method))
      | some last_slash ↦
          ok (record { service = take last_slash method; method = drop (suc last_slash) method })
    ])
    else err (invalid_format (c ∷ method))

-- The options of a method's descriptor: of another type than MethodOptions, without the policy
-- extension, with one of another type than Policy, or with a policy.
pub data MethodOptions : Type 0 where
  unexpected_options : MethodOptions
  no_extension : MethodOptions
  unexpected_extension : MethodOptions
  extension : Policy → MethodOptions

-- What the registry finds under a name: nothing, something else than a service, or a service and
-- its methods by name.
pub data Registered : Type 0 where
  missing : Error → Registered
  not_a_service : Registered
  service : (Bytes → Option MethodOptions) → Registered

-- What `lookupMethodPolicy` makes of the options; `ok none` is a method without a policy.
unfoldable pub policy_of_options : MethodOptions → Result (Option Policy)
policy_of_options unexpected_options = err (errorf "unexpected method options type %T" [])
policy_of_options no_extension = ok none
policy_of_options unexpected_extension = err (errorf "unexpected policy option type %T" [])
policy_of_options (extension policy) = ok (some policy)

unfoldable pub policy_of_registered : Bytes → RpcMethod → Registered → Result (Option Policy)
unfolding policy_of_options
policy_of_registered full_name mm (missing e) =
    err (errorf_w "no descriptor for service %q: %w" (text mm.service ∷ []) e)
policy_of_registered full_name mm not_a_service =
    err (errorf "%q is not a service" (text mm.service ∷ []))
policy_of_registered full_name mm (service methods) = elim (methods mm.method) [
  | none ↦ err (errorf "no descriptor for method %q" (text full_name ∷ []))
  | some options ↦ policy_of_options options
]

abbrev pub PolicyCache : Type 0
PolicyCache = List (Bytes × Option Policy)

module _ (find_descriptor_by_name : Bytes → Registered) where
  -- `lookupMethodPolicy`
  unfoldable pub lookup_method_policy : Bytes → Result (Option Policy)
  unfolding parse_full_method_name policy_of_registered
  lookup_method_policy full_name = do
    mm ← parse_full_method_name full_name
    policy_of_registered full_name mm (find_descriptor_by_name mm.service)

  -- What a lookup that was made stores: nothing, where it failed.
  abbrev stored :
      PolicyCache → Bytes → Result (Option Policy) → Result (Option Policy) × PolicyCache
  stored cache full_name (ok policy) = (ok policy, insert full_name policy cache)
  stored cache full_name (err e) = (err e, cache)

  -- `getMethodPolicy`
  unfoldable pub get_method_policy : PolicyCache → Bytes → Result (Option Policy) × PolicyCache
  unfolding lookup_method_policy lookup insert
  get_method_policy cache full_name = elim (lookup full_name cache) [
    | some policy ↦ (ok policy, cache)
    | none ↦ stored cache full_name (lookup_method_policy full_name)
  ]
