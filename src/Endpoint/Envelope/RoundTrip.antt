-- ===== src/Endpoint/Envelope/RoundTrip.antt =====
-- endpoint/o3co_decision.go: what the readers make of a decision as the verifier writes it.
use protobuf_interceptors.Base.{
  ℕ, zero, suc, ◌≡◌, refl, ap, Bool, true, false, Option, none, some, List, [], ◌∷◌, map, All,
  arith,
}
use protobuf_interceptors.Text.Bytes.{Bytes, bytes, lookup, equal}
use protobuf_interceptors.Text.Numbers.{ℤ, pos, negsuc}
use protobuf_interceptors.Core.Decision.{RuleGroup, RuleOutcome, Evaluation, is_some}
use protobuf_interceptors.Endpoint.Envelope.{
  ◌>>=◌, optional, read_int, read_strings, read_string_items, read_revision, read_evaluation,
  read_outcome, read_outcomes, read_satisfied_by, read_group, read_groups, nonempty_string,
  read_decision, restricts_key_fine,
}
use protobuf_interceptors.Endpoint.Envelope.Encode.{
  items_of, text_value, count_value, revision_value, policies_value, evaluation_fields,
  encode_evaluation, encode_outcome, restricts_value, outcome_value, group_fields, encode_group,
  encode_allow, encode_deny, FitsInt, EvaluationFits, OutcomeFits, SatisfiedByFits, IsWhole,
}
use protobuf_interceptors.Endpoint.Json.{
  Value, string, object, items, fields, as_string, at, magnitude,
}

items-items_of : (vs : List Value) → items (items_of vs) ≡ vs
items-items_of [] = refl
items-items_of (v ∷ vs) = ap (◌∷◌ v) (items-items_of vs)

magnitude_int : (n : ℕ) → magnitude n (pos 0) ≡ some n
unfolding magnitude
magnitude_int n = ap some (omega arith)

read_text : (s : Bytes) → optional [] as_string (text_value s) ≡ some s
read_text [] = refl
read_text (c ∷ s) = refl

read_subject : (s : Bytes) → optional [] nonempty_string (text_value s) ≡ some s
read_subject [] = refl
read_subject (c ∷ s) = refl

read_count : (z : ℤ) → FitsInt z → optional (pos 0) read_int (count_value z) ≡ some z
unfolding read_int
read_count (pos zero) h = refl
read_count (pos (suc n)) h = ground (arith, magnitude_int (suc n))
read_count (negsuc n) h = ground (arith, magnitude_int (suc n))

read_revision_value : (s : Bytes) → read_revision (some (revision_value s)) ≡ some s
read_revision_value [] = refl
read_revision_value (c ∷ s) = refl

read_string_items-map : (ps : List Bytes) → read_string_items (map string ps) ≡ some ps
unfolding read_string_items
read_string_items-map [] = refl
read_string_items-map (p ∷ ps) = rw (read_string_items-map ps)

read_policies :
    (ps : Option (List Bytes))
    → optional none (λ x. read_strings x >>= λ qs. some (some qs)) (policies_value ps) ≡ some ps
unfolding read_strings
read_policies none = refl
read_policies (some ps) = rw (items-items_of (map string ps), read_string_items-map ps)

-- The reader of an evaluation on the keys that there are.
read_evaluation_fields :
    (status : Bytes) (revision : Value) (loaded policies omitted : Option Value)
    → read_evaluation (object (evaluation_fields status revision loaded policies omitted)) ≡ (
        optional [] as_string loaded >>= λ l.
        optional none (λ x. read_strings x >>= λ qs. some (some qs)) policies >>= λ ps.
        optional (pos 0) read_int omitted >>= λ o. read_revision (some revision) >>= λ r.
        some (record {
          status = status;
          revision = r;
          loaded_revision = l;
          determining_policies = ps;
          determining_policies_omitted = o;
        }))
unfolding read_evaluation lookup equal at
read_evaluation_fields status revision none none none = refl
read_evaluation_fields status revision (some l) none none = refl
read_evaluation_fields status revision none (some p) none = refl
read_evaluation_fields status revision (some l) (some p) none = refl
read_evaluation_fields status revision none none (some o) = refl
read_evaluation_fields status revision (some l) none (some o) = refl
read_evaluation_fields status revision none (some p) (some o) = refl
read_evaluation_fields status revision (some l) (some p) (some o) = refl

read_encode_evaluation :
    (e : Evaluation)
    → FitsInt e.determining_policies_omitted
    → read_evaluation (encode_evaluation e) ≡ some e
read_encode_evaluation e h = rw (
  read_evaluation_fields e.status (revision_value e.revision) (text_value e.loaded_revision)
      (policies_value e.determining_policies) (count_value e.determining_policies_omitted),
  read_text e.loaded_revision,
  read_policies e.determining_policies,
  read_count e.determining_policies_omitted h,
  read_revision_value e.revision,
)

read_outcome_fields :
    (code message : Bytes) (passed : Bool) (e : Option Evaluation)
    → EvaluationFits e
    → read_outcome (
        encode_outcome (record { code = code; message = message; passed = passed; evaluation = e }))
      ≡ some (record { code = code; message = message; passed = passed; evaluation = e })
unfolding read_outcome lookup equal at
read_outcome_fields code message passed none h = refl
read_outcome_fields code message passed (some e) h = rw (read_encode_evaluation e h)

read_encode_outcome : (o : RuleOutcome) → OutcomeFits o → read_outcome (encode_outcome o) ≡ some o
read_encode_outcome o h = read_outcome_fields o.code o.message o.passed o.evaluation h

read_encode_outcomes :
    (os : List RuleOutcome) → All OutcomeFits os → read_outcomes (map encode_outcome os) ≡ some os
unfolding read_outcomes
read_encode_outcomes [] h = refl
read_encode_outcomes (o ∷ os) h = rw (read_encode_outcome o h.0, read_encode_outcomes os h.1)

-- The reader of a group on the keys that there are.
read_group_fields :
    (rule_type : Bytes) (passed : Bool) (evaluated : List Value) (restricts : Bool)
    (by_rule : Option Value)
    → read_group
        (object (group_fields rule_type passed evaluated (restricts_value restricts) by_rule))
      ≡ (read_outcomes (items (items_of evaluated)) >>= λ outcomes.
          read_satisfied_by passed by_rule >>= λ satisfied_by. some (record {
            rule_type = rule_type;
            passed = passed;
            restricts = restricts;
            evaluated = outcomes;
            satisfied_by = satisfied_by;
          }))
unfolding read_group lookup equal at restricts_key_fine
read_group_fields rule_type passed evaluated false none = refl
read_group_fields rule_type passed evaluated true none = refl
read_group_fields rule_type passed evaluated false (some o) = refl
read_group_fields rule_type passed evaluated true (some o) = refl

read_rule :
    (passed : Bool) (o : Option RuleOutcome)
    → passed ≡ is_some o
    → SatisfiedByFits o
    → read_satisfied_by passed (outcome_value o) ≡ some o
unfolding read_satisfied_by
read_rule true (some o) e h = rw (read_encode_outcome o h)
read_rule false none e h = refl
read_rule true none e h = cc
read_rule false (some o) e h = cc

read_encode_group : (g : RuleGroup) → IsWhole g → read_group (encode_group g) ≡ some g
read_encode_group g h = rw (
  read_group_fields g.rule_type g.passed (map encode_outcome g.evaluated) g.restricts
      (outcome_value g.satisfied_by),
  items-items_of (map encode_outcome g.evaluated),
  read_encode_outcomes g.evaluated h.1,
  read_rule g.passed g.satisfied_by h.0 h.2,
)

read_encode_groups :
    (gs : List RuleGroup) → All IsWhole gs → read_groups (map encode_group gs) ≡ some gs
unfolding read_groups
read_encode_groups [] h = refl
read_encode_groups (g ∷ gs) h = rw (read_encode_group g h.0, read_encode_groups gs h.1)

-- A verifier's allow is read back as it was sent: the subject, and every group with its outcomes,
-- the evaluations in them and the rule that satisfied it, with no code and no message. It holds of
-- groups that name the rule that satisfied them exactly if they passed, with counts that fit an int.
pub read_decision-encode_allow :
    (resource action subject : Bytes) (groups : List RuleGroup)
    → All IsWhole groups
    → read_decision (fields (encode_allow resource action subject groups))
      ≡ some (record {
        decision = bytes "allow";
        code = [];
        message = [];
        subject = subject;
        groups = groups;
      })
unfolding read_decision lookup equal at
read_decision-encode_allow resource action [] groups h =
    rw (items-items_of (map encode_group groups), read_encode_groups groups h)
read_decision-encode_allow resource action (c ∷ s) groups h =
    rw (items-items_of (map encode_group groups), read_encode_groups groups h)

-- A verifier's deny is read back as it was sent, with its code and its message, under the same
-- conditions as an allow.
pub read_decision-encode_deny :
    (resource action code message subject : Bytes) (groups : List RuleGroup)
    → All IsWhole groups
    → read_decision (fields (encode_deny resource action code message subject groups))
      ≡ some (record {
        decision = bytes "deny";
        code = code;
        message = message;
        subject = subject;
        groups = groups;
      })
unfolding read_decision lookup equal at
read_decision-encode_deny resource action code message [] groups h =
    rw (items-items_of (map encode_group groups), read_encode_groups groups h)
read_decision-encode_deny resource action code message (c ∷ s) groups h =
    rw (items-items_of (map encode_group groups), read_encode_groups groups h)
