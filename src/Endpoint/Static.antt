-- ===== src/Endpoint/Static.antt =====
-- endpoint/static.go and endpoint/helpers.go: the endpoint that decides by rules of its own.
pub mod Laws
use protobuf_interceptors.Base.{
  Bool, true, false, not, ◌&&◌, ◌||◌, Option, none, some, List, [], ◌∷◌, if◌then◌else◌,
}
use protobuf_interceptors.Text.Bytes.{
  Bytes, bytes, equal, has_prefix, has_suffix_byte, trim_suffix_byte,
}
use protobuf_interceptors.Core.Context.{Context, bearer_token_from_context, request_id_from_context}
use protobuf_interceptors.Core.Errors.{Error, denied, unauthenticated_error, Result, ok, err}

-- `getBearerToken`
unfoldable pub get_bearer_token : Context → Result Bytes
get_bearer_token ctx = elim (bearer_token_from_context ctx) [
  | none ↦ err (unauthenticated_error (bytes "no bearer token in context"))
  | some [] ↦ err (unauthenticated_error (bytes "no bearer token in context"))
  | some (c ∷ token) ↦ ok (c ∷ token)
]

-- `getRequestID`
abbrev pub get_request_id : Context → Bytes
get_request_id ctx = request_id_from_context ctx

pub record StaticRule : Type 0 where
  pub resource : Bytes
  pub action : Bytes

-- `matchPattern`
unfoldable pub match_pattern : Bytes → Bytes → Bool
unfolding equal has_prefix has_suffix_byte trim_suffix_byte
match_pattern pattern value =
    if equal pattern (bytes "*")
    then true
    else if has_suffix_byte b'*' pattern
    then has_prefix value (trim_suffix_byte b'*' pattern)
    else equal pattern value

-- The loop of `Verify`
unfoldable pub verify_rules : List StaticRule → Bytes → Bytes → Option Error
unfolding match_pattern
verify_rules [] resource action = some (denied (bytes "access denied") none)
verify_rules (rule ∷ rules) resource action =
    if match_pattern rule.resource resource && match_pattern rule.action action
    then none
    else verify_rules rules resource action

-- `Verify`
unfoldable pub verify_static : List StaticRule → Context → Bytes → Bytes → Option Error
unfolding get_bearer_token verify_rules
verify_static rules ctx resource action = elim (get_bearer_token ctx) [
  | err e ↦ some e
  | ok token ↦ verify_rules rules resource action
]
