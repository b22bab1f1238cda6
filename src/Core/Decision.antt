-- ===== src/Core/Decision.antt =====
-- decision.go: what a backend reported behind one verdict, and when it is an allow established
-- against confirmed policy revisions.
pub mod Revision
pub mod Confirmed
use protobuf_interceptors.Base.{
  ℕ, Bool, true, false, not, ◌||◌, Option, none, some, List, [], ◌∷◌, leb, between, if◌then◌else◌,
  ◌==◌, length,
}
use protobuf_interceptors.Text.Bytes.{Bytes, bytes, equal}
use protobuf_interceptors.Text.Numbers.{ℤ}

-- `nil` slices and pointers are `none`; an EvaluationStatus is the text that the backend sent.
pub record Evaluation : Type 0 where
  pub status : Bytes
  pub revision : Bytes
  pub loaded_revision : Bytes
  pub determining_policies : Option (List Bytes)
  pub determining_policies_omitted : ℤ

pub record RuleOutcome : Type 0 where
  pub code : Bytes
  pub message : Bytes
  pub passed : Bool
  pub evaluation : Option Evaluation

pub record RuleGroup : Type 0 where
  pub rule_type : Bytes
  pub passed : Bool
  pub restricts : Bool
  pub evaluated : List RuleOutcome
  pub satisfied_by : Option RuleOutcome

pub record Decision : Type 0 where
  pub code : Bytes
  pub message : Bytes
  pub groups : List RuleGroup
  pub subject : Bytes
  pub request_id : Bytes

abbrev pub evaluation_completed : Bytes
evaluation_completed = bytes "completed"

abbrev pub evaluation_failed : Bytes
evaluation_failed = bytes "failed"

abbrev pub evaluation_not_invoked : Bytes
evaluation_not_invoked = bytes "not_invoked"

abbrev pub revision_max_length : ℕ
revision_max_length = 256

-- [a-z0-9]
abbrev pub scheme_char : ℕ → Bool
scheme_char c = between b'a' b'z' c || between b'0' b'9' c

-- [+._-]
abbrev pub scheme_joiner : ℕ → Bool
scheme_joiner c = c == b'+' || c == b'.' || c == b'_' || c == b'-'

-- [A-Za-z0-9=_-]
abbrev pub encoded_char : ℕ → Bool
encoded_char c =
    between b'A' b'Z' c
    || between b'a' b'z' c
    || between b'0' b'9' c
    || c == b'='
    || c == b'_'
    || c == b'-'

-- The pattern `^[a-z0-9]+(?:[+._-][a-z0-9]+)*:[A-Za-z0-9=_-]+$` as a machine: at the start of a
-- component of the scheme, inside one, behind the colon, and inside the encoded part.
pub data RevisionState : Type 0 where
  component_start in_component after_colon in_encoded refused : RevisionState

abbrev pub revision_step : RevisionState → ℕ → RevisionState
revision_step component_start c = if scheme_char c then in_component else refused
revision_step in_component c =
    if scheme_char c
    then in_component
    else if scheme_joiner c
    then component_start
    else if c == b':'
    then after_colon
    else refused
revision_step after_colon c = if encoded_char c then in_encoded else refused
revision_step in_encoded c = if encoded_char c then in_encoded else refused
revision_step refused c = refused

abbrev is_accepting : RevisionState → Bool
is_accepting in_encoded = true
is_accepting _ = false

unfoldable pub run_revision : RevisionState → Bytes → Bool
run_revision s [] = is_accepting s
run_revision s (c ∷ cs) = run_revision (revision_step s c) cs

unfoldable pub matches_revision : Bytes → Bool
unfolding run_revision
matches_revision s = run_revision component_start s

-- `ConfirmedRevision`; the pointer that is nil is `none`.
unfoldable pub confirmed_revision : Option Evaluation → Option Bytes
unfolding matches_revision equal
confirmed_revision none = none
confirmed_revision (some e) =
    if not (equal e.status evaluation_completed)
    then none
    else if not (leb (length e.revision) revision_max_length) || not (matches_revision e.revision)
    then none
    else some e.revision

abbrev pub is_some {ℓ} : {A : Type ℓ} → Option A → Bool
is_some none = false
is_some (some _) = true

-- One round of the loop of `RevisionConfirmed`: `none` returns false, `some granted` goes on.
unfoldable pub confirm_group : Bool → RuleGroup → Option Bool
unfolding confirmed_revision
confirm_group granted g = elim g.satisfied_by [
  | none ↦ none
  | some o ↦
      if not g.passed
      then none
      else if g.restricts
      then some granted
      else if is_some (confirmed_revision o.evaluation)
      then some true
      else none
]

unfoldable pub confirm_groups : Bool → List RuleGroup → Bool
unfolding confirm_group
confirm_groups granted [] = granted
confirm_groups granted (g ∷ gs) = elim (confirm_group granted g) [
  | none ↦ false
  | some granted' ↦ confirm_groups granted' gs
]

-- `RevisionConfirmed`
unfoldable pub revision_confirmed : Option Decision → Bool
unfolding confirm_groups
revision_confirmed none = false
revision_confirmed (some d) = confirm_groups false d.groups
