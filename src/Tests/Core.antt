-- ===== src/Tests/Core.antt =====
-- The theorems of the package at the root, and of internal/methodset, on concrete values.
use protobuf_interceptors.Core.Decision.Revision.{Parts, matches_revision_iff}
use protobuf_interceptors.Core.Decision.{matches_revision}
use protobuf_interceptors.Text.Bytes.{insert}
use protobuf_interceptors.Text.Bytes.{index_byte}
use protobuf_interceptors.Text.Bytes.{equal}
use protobuf_interceptors.Text.Bytes.{lookup}
use protobuf_interceptors.Core.Resolve.Template.{next_placeholder}
use protobuf_interceptors.Core.Resolve.Template.{substitute_from}
use protobuf_interceptors.Base.{
  ◌≡◌, ◌≢◌, ◌↔◌, ◌⊎◌, refl, Bool, true, false, none, some, List, [], ◌∷◌, arith, All,
}
use protobuf_interceptors.Text.Bytes.{Bytes, bytes}
use protobuf_interceptors.Text.Numbers.{pos}
use protobuf_interceptors.Core.Decision.{Decision, RuleOutcome, revision_confirmed}
use protobuf_interceptors.Core.Decision.Confirmed.{Sound, Grants, revision_confirmed_iff}
use protobuf_interceptors.Core.Errors.{ok}
use protobuf_interceptors.Core.Request.{inbound_request_id, inbound_bearer_token}
use protobuf_interceptors.Core.Request.Inbound.{
  IsRequestId, inbound_request_id-IsRequestId, Credential, inbound_bearer_token-Credential,
}
use protobuf_interceptors.Core.Resolve.{Resolved, resolve_resource_with_fields}
use protobuf_interceptors.Core.Resolve.Policies.{resolve_resource_with_fields-separators}
use protobuf_interceptors.Core.Resolve.Extract.{extract_field}
use protobuf_interceptors.Core.Resolve.Template.{substitute_resource, validate_resource_value}
use protobuf_interceptors.Core.Resolve.Template.Values.{TokenByte, validate_resource_value-ok_iff}
use protobuf_interceptors.Core.Resolve.Template.Scan.{scan, render}
use protobuf_interceptors.Core.Resolve.Template.Equivalence.{substitute_resource_lem}
use protobuf_interceptors.Core.Resolve.Template.Structure.{
  separators, own_separators, Filled, substitute_resource-separators,
}
use protobuf_interceptors.Methodset.{Set, parse, has_entry, well_formed}
use protobuf_interceptors.Methodset.Laws.{Among, parse-entries}
use protobuf_interceptors.Tests.Samples.{field_kind, reflection, get_policy, second, suffix}

abbrev template : Bytes
template = bytes "a.<x>:<y.<x>"

abbrev values : List (Bytes × Bytes)
values = (bytes "x", bytes "v/1") ∷ []

substitute_resource-separators_example :
    (separators (bytes "a.v/1:<y.v/1") ≡ own_separators (scan none template))
    × Filled values (scan none template)
unfolding substitute_resource substitute_from next_placeholder lookup equal validate_resource_value
substitute_resource-separators_example =
    substitute_resource-separators template values (bytes "a.v/1:<y.v/1") refl

substitute_resource_lem_example :
    substitute_resource template values ≡ render values (scan none template)
substitute_resource_lem_example = substitute_resource_lem template values

validate_resource_value-ok_iff_example :
    (validate_resource_value (bytes "x") (bytes "a:b") ≡ ok tt)
    ↔ ((bytes "a:b" ≢ []) × All TokenByte (bytes "a:b"))
validate_resource_value-ok_iff_example = validate_resource_value-ok_iff (bytes "x") (bytes "a:b")

abbrev resolved : Resolved
resolved = record {
  resource = bytes "orders.o-7:get";
  action = bytes "read";
  fields = (bytes "order", bytes "o-7") ∷ [];
}

resolve_resource_with_fields-separators_example :
    (resolved.action ≡ get_policy.action)
    × (get_policy.action ≢ [])
    × (get_policy.resource ≢ [])
    × (separators resolved.resource ≡ own_separators (scan none get_policy.resource))
    × Filled resolved.fields (scan none get_policy.resource)
unfolding resolve_resource_with_fields field_kind extract_field substitute_resource substitute_from
    next_placeholder lookup insert validate_resource_value
resolve_resource_with_fields-separators_example =
    resolve_resource_with_fields-separators reflection get_policy (some (bytes "o-7")) resolved refl

abbrev raw : Bytes
raw = 10 ∷ 255 ∷ []

abbrev outcome : RuleOutcome
outcome = record {
  code = [];
  message = [];
  passed = true;
  evaluation = some (record {
    status = bytes "completed";
    revision = bytes "sha256:ab12";
    loaded_revision = [];
    determining_policies = none;
    determining_policies_omitted = pos 0;
  });
}

abbrev decision : Decision
decision = record {
  code = bytes "ALLOWED";
  message = [];
  groups =
      record {
        rule_type = bytes "allow";
        passed = true;
        restricts = false;
        evaluated = outcome ∷ [];
        satisfied_by = some outcome;
      }
      ∷ [];
  subject = bytes "alice";
  request_id = bytes "r-1";
}

revision_confirmed_iff_example :
    (revision_confirmed none ≡ false)
    × ((revision_confirmed (some decision) ≡ true)
        ↔ (All Sound decision.groups × Grants decision.groups))
revision_confirmed_iff_example = revision_confirmed_iff decision

inbound_request_id-IsRequestId_example :
    IsRequestId (inbound_request_id second suffix (bytes "not an id" ∷ []))
inbound_request_id-IsRequestId_example =
    inbound_request_id-IsRequestId second suffix (bytes "not an id" ∷ []) (omega arith) refl
      (omega arith) refl

inbound_bearer_token-Credential_example :
    (((bytes "bEARER  abc" ∷ []) ≡ []) × (bytes "abc" ≡ []))
    ⊎ ((value : Bytes) × ((bytes "bEARER  abc" ∷ []) ≡ value ∷ []) × Credential value (bytes "abc"))
unfolding inbound_bearer_token index_byte
inbound_bearer_token-Credential_example =
    inbound_bearer_token-Credential (bytes "bEARER  abc" ∷ []) (bytes "abc") refl

abbrev health : Set
health = record { entries = (bytes "/grpc.health.v1.Health/", tt) ∷ [] }

abbrev ping : Set
ping = record { entries = (bytes "/shop.Orders/Ping", tt) ∷ [] }

abbrev any_name : Bytes → Bool
any_name name = true

parse-entries_example :
    All (λ e. well_formed any_name any_name e ≡ true) (bytes "/shop.Orders/Ping" ∷ [])
    × ((has_entry (bytes "/shop.Orders/Ping") ping.entries ≡ true)
        ↔ Among (bytes "/shop.Orders/Ping") (bytes "/shop.Orders/Ping" ∷ []))
unfolding parse index_byte
parse-entries_example =
    parse-entries any_name any_name (bytes "/shop.Orders/Ping" ∷ []) ping
      (bytes "/shop.Orders/Ping") refl

matches_revision_iff_example :
    (matches_revision (bytes "oci+sha256:ab=") ≡ true) ↔ Parts false (bytes "oci+sha256:ab=")
matches_revision_iff_example = matches_revision_iff (bytes "oci+sha256:ab=")
