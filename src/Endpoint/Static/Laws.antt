-- ===== src/Endpoint/Static/Laws.antt =====
-- What the static endpoint allows.
use protobuf_interceptors.Base.{
  ◌≡◌, ◌⊎◌, ◌↔◌, inl, inr, refl, ap, ◌∙◌, true, false, ◌&&◌, none, List, [], ◌∷◌, ◌++◌, arith,
  Bool-cases, ℕ,
}
use protobuf_interceptors.Text.Bytes.{
  Bytes, bytes, equal, equal_iff, has_prefix, has_suffix_byte, trim_suffix_byte,
}
use protobuf_interceptors.Core.Context.{Context}
use protobuf_interceptors.Core.Errors.{ok, Result-cases}
use protobuf_interceptors.Endpoint.Static.{
  StaticRule, get_bearer_token, match_pattern, verify_rules, verify_static,
}

-- A value is the pattern, or the pattern ends in a star and the value begins with what stands
-- before that star.
abbrev pub Matches : Bytes → Bytes → Type 0
Matches pattern value =
    ((prefix : Bytes) × (rest : Bytes) × (pattern ≡ prefix ++ b'*' ∷ []) × (value ≡ prefix ++ rest))
    ⊎ ((pattern ≡ value) × (has_suffix_byte b'*' pattern ≡ false))

has_prefix_rest : (s p : Bytes) → has_prefix s p ≡ true → (rest : Bytes) × (s ≡ p ++ rest)
unfolding has_prefix
has_prefix_rest s [] h = (s, refl)
has_prefix_rest [] (y ∷ ys) h = cc
has_prefix_rest (x ∷ xs) (y ∷ ys) h =
    let (rest, e) = has_prefix_rest xs ys (ground arith) in (rest, ground arith)

has_prefix-append : (p rest : Bytes) → has_prefix (p ++ rest) p ≡ true
unfolding has_prefix
has_prefix-append [] rest = refl
has_prefix-append (y ∷ ys) rest = ground (arith, has_prefix-append ys rest)

has_suffix_byte_trim :
    (c : ℕ) (s : Bytes) → has_suffix_byte c s ≡ true → s ≡ trim_suffix_byte c s ++ c ∷ []
unfolding has_suffix_byte trim_suffix_byte
has_suffix_byte_trim c [] h = cc
has_suffix_byte_trim c (x ∷ []) h = ground arith
has_suffix_byte_trim c (x ∷ y ∷ s) h = ap (◌∷◌ x) (has_suffix_byte_trim c (y ∷ s) h)

trim_suffix_byte-append : (c : ℕ) (p : Bytes) → trim_suffix_byte c (p ++ c ∷ []) ≡ p
unfolding trim_suffix_byte
trim_suffix_byte-append c [] = ground arith
trim_suffix_byte-append c (x ∷ []) = ground arith
trim_suffix_byte-append c (x ∷ y ∷ p) = ap (◌∷◌ x) (trim_suffix_byte-append c (y ∷ p))

has_suffix_byte-append : (c : ℕ) (p : Bytes) → has_suffix_byte c (p ++ c ∷ []) ≡ true
unfolding has_suffix_byte
has_suffix_byte-append c [] = ground arith
has_suffix_byte-append c (x ∷ []) = ground arith
has_suffix_byte-append c (x ∷ y ∷ p) = has_suffix_byte-append c (y ∷ p)

match_pattern-Matches :
    (pattern value : Bytes) → match_pattern pattern value ≡ true → Matches pattern value
unfolding match_pattern
match_pattern-Matches pattern value h = elim (Bool-cases (equal pattern (bytes "*"))) [
  | inl star ↦ inl ([], value, (equal_iff pattern (bytes "*")).0 star, refl)
  | inr other ↦ elim (Bool-cases (has_suffix_byte b'*' pattern)) [
    | inl starred ↦
        let (rest, e) = has_prefix_rest value (trim_suffix_byte b'*' pattern) (ground arith) in
        inl (trim_suffix_byte b'*' pattern, rest, has_suffix_byte_trim b'*' pattern starred, e)
    | inr closed ↦ inr ((equal_iff pattern value).0 (ground arith), closed)
  ]
]

match_pattern_of_Matches :
    (pattern value : Bytes) → Matches pattern value → match_pattern pattern value ≡ true
unfolding match_pattern
match_pattern_of_Matches pattern value (inl (prefix, rest, e, k)) =
    let starred : has_suffix_byte b'*' pattern ≡ true =
      ap (has_suffix_byte b'*') e ∙ has_suffix_byte-append b'*' prefix in
    let trimmed : trim_suffix_byte b'*' pattern ≡ prefix =
      ap (trim_suffix_byte b'*') e ∙ trim_suffix_byte-append b'*' prefix in
    let starts : has_prefix value (trim_suffix_byte b'*' pattern) ≡ true =
      rw (trimmed, k) (has_prefix-append prefix rest) in
    ground arith
match_pattern_of_Matches pattern value (inr (e, closed)) =
    let same : equal pattern value ≡ true = (equal_iff pattern value).1 e in ground arith

-- A pattern matches exactly the value that it spells, or, where it ends in a star, exactly the
-- values that begin with what stands before the star; a star elsewhere is an ordinary character.
pub match_pattern_iff :
    (pattern value : Bytes) → (match_pattern pattern value ≡ true) ↔ Matches pattern value
match_pattern_iff pattern value =
    (match_pattern-Matches pattern value, match_pattern_of_Matches pattern value)

-- A rule of the list has patterns that match the resource and the action.
abbrev pub HasRule : List StaticRule → Bytes → Bytes → Type 0
HasRule [] resource action = ⊥
HasRule (rule ∷ rules) resource action =
    (Matches rule.resource resource × Matches rule.action action) ⊎ HasRule rules resource action

verify_rules-HasRule :
    (rules : List StaticRule) (resource action : Bytes)
    → verify_rules rules resource action ≡ none
    → HasRule rules resource action
unfolding verify_rules
verify_rules-HasRule [] resource action h = cc
verify_rules-HasRule (rule ∷ rules) resource action h =
    elim (Bool-cases (match_pattern rule.resource resource && match_pattern rule.action action)) [
      | inl both ↦ inl (
        match_pattern-Matches rule.resource resource (ground arith),
        match_pattern-Matches rule.action action (ground arith),
      )
      | inr other ↦ inr (verify_rules-HasRule rules resource action (ground arith))
    ]

verify_rules_of_HasRule :
    (rules : List StaticRule) (resource action : Bytes)
    → HasRule rules resource action
    → verify_rules rules resource action ≡ none
unfolding verify_rules
verify_rules_of_HasRule [] resource action h = absurd h
verify_rules_of_HasRule (rule ∷ rules) resource action (inl (m, n)) =
    let r = match_pattern_of_Matches rule.resource resource m in
    let a = match_pattern_of_Matches rule.action action n in rw (r, a)
verify_rules_of_HasRule (rule ∷ rules) resource action (inr h) =
    let rest = verify_rules_of_HasRule rules resource action h in ground arith

-- The static endpoint allows a request exactly when its context carries a bearer token that is not
-- empty and some rule matches both the resource and the action.
pub verify_static_iff :
    (rules : List StaticRule) (ctx : Context) (resource action : Bytes)
    → (verify_static rules ctx resource action ≡ none)
      ↔ (((token : Bytes) × (get_bearer_token ctx ≡ ok token)) × HasRule rules resource action)
unfolding verify_static
verify_static_iff rules ctx resource action = (
  λ h. elim (Result-cases (get_bearer_token ctx)) [
    | inl (token, e) ↦ ((token, e), verify_rules-HasRule rules resource action (ground arith))
    | inr (e, missing) ↦ ground arith
  ],
  λ ((token, e), has). rw (e, verify_static) (verify_rules_of_HasRule rules resource action has),
)
