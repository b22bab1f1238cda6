-- ===== src/Endpoint/Envelope/Encode.antt =====
-- The verifier's side of the wire contract: a decision written as the object that a verify answer
-- holds, with a key for each optional part that there is.
use protobuf_interceptors.Base.{
  zero, suc, ◌<◌, ◌^◌, ◌≡◌, Bool, true, false, Option, none, some, List, [], ◌∷◌, map, All,
}
use protobuf_interceptors.Text.Bytes.{Bytes, bytes}
use protobuf_interceptors.Text.Numbers.{ℤ, pos, negsuc}
use protobuf_interceptors.Core.Decision.{RuleGroup, RuleOutcome, Evaluation, is_some}
use protobuf_interceptors.Endpoint.Json.{
  Value, Items, Fields, null, boolean, number, string, array, object, no_items, item, no_fields,
  field,
}

abbrev pub items_of : List Value → Items
items_of [] = no_items
items_of (v ∷ vs) = item v (items_of vs)

abbrev pub optional_field : Bytes → Option Value → Fields → Fields
optional_field k none rest = rest
optional_field k (some v) rest = field k v rest

-- A text that is left out where it is empty.
abbrev pub text_value : Bytes → Option Value
text_value [] = none
text_value (c ∷ s) = some (string (c ∷ s))

-- A count that is left out where it is zero.
abbrev pub count_value : ℤ → Option Value
count_value (pos zero) = none
count_value (pos (suc n)) =
    some (number (record { negative = false; mantissa = suc n; exponent = pos 0 }))
count_value (negsuc n) =
    some (number (record { negative = true; mantissa = suc n; exponent = pos 0 }))

abbrev pub revision_value : Bytes → Value
revision_value [] = null
revision_value (c ∷ s) = string (c ∷ s)

abbrev pub policies_value : Option (List Bytes) → Option Value
policies_value none = none
policies_value (some ps) = some (array (items_of (map string ps)))

abbrev pub evaluation_fields : Bytes → Value → Option Value → Option Value → Option Value → Fields
evaluation_fields status revision loaded policies omitted = field (bytes "status") (string status) (
    field (bytes "revision") revision (
      optional_field (bytes "loadedRevision") loaded (
        optional_field (bytes "determiningPolicies") policies
          (optional_field (bytes "determiningPoliciesOmitted") omitted no_fields))))

abbrev pub encode_evaluation : Evaluation → Value
encode_evaluation e = object (
    evaluation_fields e.status (revision_value e.revision) (text_value e.loaded_revision)
      (policies_value e.determining_policies) (count_value e.determining_policies_omitted))

abbrev pub evaluation_value : Option Evaluation → Option Value
evaluation_value none = none
evaluation_value (some e) = some (encode_evaluation e)

abbrev pub encode_outcome : RuleOutcome → Value
encode_outcome o = object (
    field (bytes "code") (string o.code) (
      field (bytes "message") (string o.message) (
        field (bytes "passed") (boolean o.passed)
          (optional_field (bytes "evaluation") (evaluation_value o.evaluation) no_fields))))

abbrev pub restricts_value : Bool → Option Value
restricts_value true = some (boolean true)
restricts_value false = none

abbrev pub outcome_value : Option RuleOutcome → Option Value
outcome_value none = none
outcome_value (some o) = some (encode_outcome o)

abbrev pub group_fields : Bytes → Bool → List Value → Option Value → Option Value → Fields
group_fields rule_type passed evaluated restricts satisfied_by =
    field (bytes "ruleType") (string rule_type) (
      field (bytes "passed") (boolean passed) (
        field (bytes "evaluated") (array (items_of evaluated)) (
          optional_field (bytes "restricts") restricts
            (optional_field (bytes "satisfiedBy") satisfied_by no_fields))))

abbrev pub encode_group : RuleGroup → Value
encode_group g = object (
    group_fields g.rule_type g.passed (map encode_outcome g.evaluated) (restricts_value g.restricts)
      (outcome_value g.satisfied_by))

abbrev pub decision_fields :
    Bytes → Bytes → Bytes → Option Value → Option Value → Option Value → List Value → Fields
decision_fields resource action decision code message subject groups =
    field (bytes "resource") (string resource) (
      field (bytes "action") (string action) (
        field (bytes "decision") (string decision) (
          field (bytes "reason")
            (object (field (bytes "groups") (array (items_of groups)) no_fields))
            (optional_field (bytes "code") code (
              optional_field (bytes "message") message
                (optional_field (bytes "subject") subject no_fields))))))

-- An allow, without code and message, and a deny with both.
abbrev pub encode_allow : Bytes → Bytes → Bytes → List RuleGroup → Fields
encode_allow resource action subject groups =
    decision_fields resource action (bytes "allow") none none (text_value subject)
      (map encode_group groups)

abbrev pub encode_deny : Bytes → Bytes → Bytes → Bytes → Bytes → List RuleGroup → Fields
encode_deny resource action code message subject groups =
    decision_fields resource action (bytes "deny") (some (string code)) (some (string message))
      (text_value subject) (map encode_group groups)

-- A count within the range of int.
abbrev pub FitsInt : ℤ → Type 0
FitsInt (pos n) = n < 2 ^ 63
FitsInt (negsuc n) = n < 2 ^ 63

abbrev pub EvaluationFits : Option Evaluation → Type 0
EvaluationFits none = Unit
EvaluationFits (some e) = FitsInt e.determining_policies_omitted

abbrev pub OutcomeFits : RuleOutcome → Type 0
OutcomeFits o = EvaluationFits o.evaluation

abbrev pub SatisfiedByFits : Option RuleOutcome → Type 0
SatisfiedByFits none = Unit
SatisfiedByFits (some o) = OutcomeFits o

-- A group that the contract can carry: it names the rule that satisfied it exactly if it passed.
abbrev pub IsWhole : RuleGroup → Type 0
IsWhole g =
    (g.passed ≡ is_some g.satisfied_by)
    × All OutcomeFits g.evaluated
    × SatisfiedByFits g.satisfied_by
