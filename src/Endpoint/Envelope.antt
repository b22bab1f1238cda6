-- ===== src/Endpoint/Envelope.antt =====
-- endpoint/o3co_decision.go: the body of a verify answer, read as an envelope. Every reader answers
-- `none` where the code answers false.
pub mod Encode
pub mod RoundTrip
use protobuf_interceptors.Base.{
  ℕ, zero, suc, ◌-◌, ◌^◌, Bool, true, false, not, ◌&&◌, ◌||◌, Option, none, some, List, [], ◌∷◌,
  ltb, leb, if◌then◌else◌, all, any,
}
use protobuf_interceptors.Text.Bytes.{Bytes, bytes, equal, lookup}
use protobuf_interceptors.Text.Numbers.{ℤ, pos, negsuc}
use protobuf_interceptors.Text.Runes.{equal_fold}
use protobuf_interceptors.Core.Decision.{
  Decision, RuleGroup, RuleOutcome, Evaluation, evaluation_completed, evaluation_failed,
}
use protobuf_interceptors.Endpoint.Json.{
  Value, null, boolean, number, string, array, object, Float64, Object, as_string, as_bool,
  as_array, as_object, at, magnitude,
}

-- `wireDecision`. The verdict is the text sent.
pub record WireDecision : Type 0 where
  pub decision : Bytes
  pub code : Bytes
  pub message : Bytes
  pub subject : Bytes
  pub groups : List RuleGroup

pub data EnvelopeKind : Type 0 where
  decision_envelope error_envelope : EnvelopeKind

infixl 5 ◌>>=◌
abbrev pub ◌>>=◌ {ℓ κ} : {A : Type ℓ} {B : Type κ} → Option A → (A → Option B) → Option B
none >>= f = none
some a >>= f = f a

abbrev pub require : Bool → Option (Unit {0})
require true = some tt
require false = none

abbrev pub is_null : Value → Bool
is_null null = true
is_null _ = false

abbrev pub has : Bytes → Object → Bool
has k obj = elim (lookup k obj) [ none ↦ false | some _ ↦ true ]

-- `present`
unfoldable pub present : Object → List Bytes → Bool
unfolding at
present obj [] = true
present obj (k ∷ ks) = not (is_null (at k obj)) && present obj ks

-- `readError`
unfoldable pub read_error : Object → Option WireDecision
unfolding at
read_error obj = do
  decision ← as_string (at (bytes "decision") obj)
  code ← as_string (at (bytes "code") obj)
  message ← as_string (at (bytes "message") obj)
  some (record { decision = decision; code = code; message = message; subject = []; groups = [] })

abbrev pub signed : Bool → ℕ → ℤ
signed false n = pos n
signed true zero = pos zero
signed true (suc n) = negsuc n

-- `f < math.MinInt || f >= math.MaxInt` of an integer; float64(math.MaxInt) is 2^63.
abbrev pub in_int_range : Bool → ℕ → Bool
in_int_range false n = ltb n (2 ^ 63)
in_int_range true n = leb n (2 ^ 63)

-- `readInt`
unfoldable pub read_int : Value → Option ℤ
unfolding magnitude
read_int (number f) = do
  n ← magnitude f.mantissa f.exponent
  require (in_int_range f.negative n) >>= λ _. some (signed f.negative n)
read_int _ = none

-- `readStrings`, over the items of the slice
unfoldable pub read_string_items : List Value → Option (List Bytes)
read_string_items [] = some []
read_string_items (v ∷ vs) = do s ← as_string v; ss ← read_string_items vs; some (s ∷ ss)

unfoldable pub read_strings : Value → Option (List Bytes)
unfolding read_string_items
read_strings v = as_array v >>= read_string_items

-- A key of an evaluation that may be absent: `otherwise` then, and what `read` makes of it if not.
abbrev pub optional {ℓ} : {A : Type ℓ} → A → (Value → Option A) → Option Value → Option A
optional otherwise read none = some otherwise
optional otherwise read (some v) = read v

-- The revision is a string, or null or absent, which are both the empty one.
abbrev pub read_revision : Option Value → Option Bytes
read_revision none = some []
read_revision (some null) = some []
read_revision (some (string s)) = some s
read_revision (some _) = none

-- An answer that was evaluated names its revision.
abbrev pub names_revision : Bytes → Bool → Bool
names_revision status has_revision =
    has_revision || not (equal status evaluation_completed || equal status evaluation_failed)

-- `readEvaluation`
unfoldable pub read_evaluation : Value → Option Evaluation
unfolding at lookup read_strings read_int equal
read_evaluation v = do
  e ← as_object v
  status ← as_string (at (bytes "status") e)
  loaded_revision ← optional [] as_string (lookup (bytes "loadedRevision") e)
  determining_policies ←
      optional none (λ x. read_strings x >>= λ ps. some (some ps))
        (lookup (bytes "determiningPolicies") e)
  omitted ← optional (pos 0) read_int (lookup (bytes "determiningPoliciesOmitted") e)
  revision ← read_revision (lookup (bytes "revision") e)
  _ ← require (names_revision status (has (bytes "revision") e))
  some (record {
    status = status;
    revision = revision;
    loaded_revision = loaded_revision;
    determining_policies = determining_policies;
    determining_policies_omitted = omitted;
  })

-- `readOutcome`
unfoldable pub read_outcome : Value → Option RuleOutcome
unfolding read_evaluation present
read_outcome v = do
  o ← as_object v
  _ ← require (present o (bytes "code" ∷ bytes "message" ∷ bytes "passed" ∷ []))
  code ← as_string (at (bytes "code") o)
  message ← as_string (at (bytes "message") o)
  passed ← as_bool (at (bytes "passed") o)
  evaluation ←
      optional none (λ x. read_evaluation x >>= λ e. some (some e)) (lookup (bytes "evaluation") o)
  some (record { code = code; message = message; passed = passed; evaluation = evaluation })

unfoldable pub read_outcomes : List Value → Option (List RuleOutcome)
unfolding read_outcome
read_outcomes [] = some []
read_outcomes (v ∷ vs) = do o ← read_outcome v; os ← read_outcomes vs; some (o ∷ os)

abbrev pub is_true : Value → Bool
is_true (boolean b) = b
is_true _ = false

-- What the loop over a group's keys lets through: the key in no other case, and only true.
unfoldable pub restricts_key_fine : Bytes × Value → Bool
unfolding equal_fold equal
restricts_key_fine (k, v) =
    not (equal_fold k (bytes "restricts")) || (equal k (bytes "restricts") && is_true v)

-- `passed != has` refused, and the rule that satisfied a group that passed.
unfoldable pub read_satisfied_by : Bool → Option Value → Option (Option RuleOutcome)
unfolding read_outcome
read_satisfied_by true (some v) = read_outcome v >>= λ o. some (some o)
read_satisfied_by false none = some none
read_satisfied_by _ _ = none

-- `readGroup`
unfoldable pub read_group : Value → Option RuleGroup
unfolding read_outcomes restricts_key_fine read_satisfied_by
read_group v = do
  g ← as_object v
  _ ← require (present g (bytes "ruleType" ∷ bytes "passed" ∷ bytes "evaluated" ∷ []))
  rule_type ← as_string (at (bytes "ruleType") g)
  passed ← as_bool (at (bytes "passed") g)
  evaluated ← as_array (at (bytes "evaluated") g)
  outcomes ← read_outcomes evaluated
  _ ← require (all restricts_key_fine g)
  satisfied_by ← read_satisfied_by passed (lookup (bytes "satisfiedBy") g)
  some (record {
    rule_type = rule_type;
    passed = passed;
    restricts = is_true (at (bytes "restricts") g);
    evaluated = outcomes;
    satisfied_by = satisfied_by;
  })

unfoldable pub read_groups : List Value → Option (List RuleGroup)
unfolding read_group
read_groups [] = some []
read_groups (v ∷ vs) = do g ← read_group v; gs ← read_groups vs; some (g ∷ gs)

-- The code and message that go with a verdict: none of an allow, both of a deny.
unfoldable pub read_verdict : Bytes → Object → Option (Bytes × Bytes)
unfolding equal at
read_verdict decision obj =
    if equal decision (bytes "allow")
    then (require (not (has (bytes "code") obj) && not (has (bytes "message") obj)) >>= λ _.
        some ([], []))
    else if equal decision (bytes "deny")
    then (as_string (at (bytes "code") obj) >>= λ code.
        as_string (at (bytes "message") obj) >>= λ message. some (code, message))
    else none

abbrev pub nonempty_string : Value → Option Bytes
nonempty_string (string (c ∷ s)) = some (c ∷ s)
nonempty_string _ = none

-- `obj["decision"].(string)`, whose failure leaves the empty string.
abbrev pub string_or_empty : Value → Bytes
string_or_empty (string s) = s
string_or_empty _ = []

-- `readDecision`
unfoldable pub read_decision : Object → Option WireDecision
unfolding read_groups read_verdict present
read_decision obj = do
  _ ←
      require
        (present obj (bytes "resource" ∷ bytes "action" ∷ bytes "decision" ∷ bytes "reason" ∷ []))
  _ ← as_string (at (bytes "resource") obj)
  _ ← as_string (at (bytes "action") obj)
  let decision = string_or_empty (at (bytes "decision") obj)
  (code, message) ← read_verdict decision obj
  subject ← optional [] nonempty_string (lookup (bytes "subject") obj)
  reason ← as_object (at (bytes "reason") obj)
  groups ← as_array (at (bytes "groups") reason)
  read ← read_groups groups
  some (record {
    decision = decision;
    code = code;
    message = message;
    subject = subject;
    groups = read;
  })

-- `parseEnvelope`
unfoldable pub parse_envelope : Object → EnvelopeKind → Option WireDecision
unfolding read_decision read_error
parse_envelope obj decision_envelope = read_decision obj
parse_envelope obj error_envelope = read_error obj

-- `toDecision`
unfoldable pub to_decision : Bytes → Option WireDecision → Option Decision
to_decision request_id none = none
to_decision request_id (some w) = some (record {
  code = w.code;
  message = w.message;
  subject = w.subject;
  groups = w.groups;
  request_id = request_id;
})
