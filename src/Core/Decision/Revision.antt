-- ===== src/Core/Decision/Revision.antt =====
-- decision.go: the grammar of policy revisions, and the machine that runs its pattern.
use protobuf_interceptors.Base.{
  ℕ, ◌≡◌, ◌≢◌, refl, ap, sym, ◌∙◌, ◌↔◌, Bool, true, false, List, [], ◌∷◌, ◌++◌, arith, All,
  Bool-cases, inl, inr, ◌==◌, ==_iff,
}
use mathlib.Core.List.{append_assoc}
use protobuf_interceptors.Text.Bytes.{Bytes}
use protobuf_interceptors.Core.Decision.{
  RevisionState, component_start, in_component, after_colon, in_encoded, refused, scheme_char,
  scheme_joiner, encoded_char, run_revision, matches_revision,
}

abbrev pub SchemeText : Bytes → Type 0
SchemeText = All (λ c. scheme_char c ≡ true)

-- The components behind the first, each with the character that joins it.
abbrev pub IsComponent : ℕ × Bytes → Type 0
IsComponent (j, w) = (scheme_joiner j ≡ true) × (w ≢ []) × SchemeText w

abbrev pub scheme_text : Bytes → List (ℕ × Bytes) → Bytes
scheme_text w [] = w
scheme_text w ((j, v) ∷ ws) = w ++ j ∷ scheme_text v ws

-- A revision, or what follows the start of its first component.
pub record Parts (started : Bool) (s : Bytes) : Type 0 where
  pub first : Bytes
  pub more : List (ℕ × Bytes)
  pub encoded : Bytes
  pub first_text : SchemeText first
  pub first_nonempty : started ≡ false → first ≢ []
  pub components : All IsComponent more
  pub encoded_nonempty : encoded ≢ []
  pub encoded_text : All (λ c. encoded_char c ≡ true) encoded
  pub spelled : s ≡ scheme_text first more ++ b':' ∷ encoded

abbrev state_of : Bool → RevisionState
state_of true = in_component
state_of false = component_start

run_refused : (s : Bytes) → run_revision refused s ≡ false
unfolding run_revision
run_refused [] = refl
run_refused (c ∷ s) = run_refused s

run_encoded : (s : Bytes) → run_revision in_encoded s ≡ true → All (λ c. encoded_char c ≡ true) s
unfolding run_revision
run_encoded [] h = tt
run_encoded (c ∷ s) h = elim (Bool-cases (encoded_char c)) [
  | inl fine ↦ (fine, run_encoded s (rw fine at h))
  | inr bad ↦ absurd (true-ne-false (sym (rw bad at h) ∙ run_refused s))
]
  where
    true-ne-false : true ≡ false → ⊥
    true-ne-false e = cc e

scheme_text-cons :
    (c : ℕ) (w : Bytes) (ws : List (ℕ × Bytes)) → scheme_text (c ∷ w) ws ≡ c ∷ scheme_text w ws
scheme_text-cons c w [] = refl
scheme_text-cons c w ((j, v) ∷ ws) = refl

-- One more character of the first component.
extend :
    (started started' : Bool) (c : ℕ) (s : Bytes)
    → scheme_char c ≡ true
    → Parts started' s
    → Parts started (c ∷ s)
extend started started' c s fine r = record {
  first = c ∷ r.first;
  more = r.more;
  encoded = r.encoded;
  first_text = (fine, r.first_text);
  first_nonempty = λ _ e. cc e;
  components = r.components;
  encoded_nonempty = r.encoded_nonempty;
  encoded_text = r.encoded_text;
  spelled =
      ap (◌∷◌ c) r.spelled
      ∙ ap (λ t. t ++ b':' ∷ r.encoded) (sym (scheme_text-cons c r.first r.more));
}

run_after_colon :
    (s : Bytes) → run_revision after_colon s ≡ true → (s ≢ []) × All (λ c. encoded_char c ≡ true) s
unfolding run_revision
run_after_colon [] h = cc h
run_after_colon (c ∷ s) h = elim (Bool-cases (encoded_char c)) [
  | inl fine ↦ (λ e. cc e, (fine, run_encoded s (rw fine at h)))
  | inr bad ↦ ground (arith, run_refused s)
]

read_components :
    (started : Bool) (s : Bytes) → run_revision (state_of started) s ≡ true → Parts started s
unfolding run_revision
read_components true [] h = absurd (cc h)
read_components false [] h = absurd (cc h)
read_components false (c ∷ s) h = elim (Bool-cases (scheme_char c)) [
  | inl fine ↦ extend false true c s fine (read_components true s (rw fine at h))
  | inr bad ↦ ground (arith, run_refused s)
]
read_components true (c ∷ s) h = elim (Bool-cases (scheme_char c)) [
  | inl fine ↦ extend true true c s fine (read_components true s (rw fine at h))
  | inr bad ↦ elim (Bool-cases (scheme_joiner c)) [
    | inl joins ↦
        let r = read_components false s (rw (bad, joins) at h) in
        record {
          first = [];
          more = (c, r.first) ∷ r.more;
          encoded = r.encoded;
          first_text = tt;
          first_nonempty = λ e. absurd (cc e);
          components = ((joins, r.first_nonempty refl, r.first_text), r.components);
          encoded_nonempty = r.encoded_nonempty;
          encoded_text = r.encoded_text;
          spelled = ap (◌∷◌ c) r.spelled;
        }
    | inr other ↦ elim (Bool-cases (c == b':')) [
      | inl colon ↦
          let (nonempty, text) = run_after_colon s (rw (bad, other, colon) at h) in
          record {
            first = [];
            more = [];
            encoded = s;
            first_text = tt;
            first_nonempty = λ e. absurd (cc e);
            components = tt;
            encoded_nonempty = nonempty;
            encoded_text = text;
            spelled = ap (λ x. x ∷ s) ((==_iff c b':').0 colon);
          }
      | inr none_of_them ↦ ground (arith, run_refused s)
    ]
  ]
]

encoded_runs : (s : Bytes) → All (λ c. encoded_char c ≡ true) s → run_revision in_encoded s ≡ true
unfolding run_revision
encoded_runs [] h = refl
encoded_runs (c ∷ s) (fine, h) = rw fine (encoded_runs s h)

after_colon_runs :
    (s : Bytes) → s ≢ [] → All (λ c. encoded_char c ≡ true) s → run_revision after_colon s ≡ true
unfolding run_revision
after_colon_runs [] n h = absurd (n refl)
after_colon_runs (c ∷ s) n (fine, h) = rw fine (encoded_runs s h)

text_runs :
    (w rest : Bytes)
    → SchemeText w
    → run_revision in_component (w ++ rest) ≡ run_revision in_component rest
unfolding run_revision
text_runs [] rest h = refl
text_runs (c ∷ w) rest (fine, h) = rw (fine, run_revision) (text_runs w rest h)

component_runs :
    (w rest : Bytes)
    → w ≢ []
    → SchemeText w
    → run_revision component_start (w ++ rest) ≡ run_revision in_component rest
unfolding run_revision
component_runs [] rest n h = absurd (n refl)
component_runs (c ∷ w) rest n (fine, h) = rw (fine, run_revision) (text_runs w rest h)

joiner_runs :
    (j : ℕ) (rest : Bytes)
    → scheme_joiner j ≡ true
    → run_revision in_component (j ∷ rest) ≡ run_revision component_start rest
unfolding run_revision
joiner_runs j rest joins = let bad : scheme_char j ≡ false = ground arith in rw (bad, joins)

-- What stands behind the first component's text.
abbrev tail_text : List (ℕ × Bytes) → Bytes → Bytes
tail_text [] enc = b':' ∷ enc
tail_text ((j, v) ∷ ws) enc = j ∷ v ++ tail_text ws enc

scheme_text-tail :
    (w : Bytes) (ws : List (ℕ × Bytes)) (enc : Bytes)
    → scheme_text w ws ++ b':' ∷ enc ≡ w ++ tail_text ws enc
scheme_text-tail w [] enc = refl
scheme_text-tail w ((j, v) ∷ ws) enc =
    append_assoc w (j ∷ scheme_text v ws) (b':' ∷ enc)
    ∙ ap (λ t. w ++ j ∷ t) (scheme_text-tail v ws enc)

tail_runs :
    (ws : List (ℕ × Bytes)) (enc : Bytes)
    → All IsComponent ws
    → run_revision after_colon enc ≡ true
    → run_revision in_component (tail_text ws enc) ≡ true
tail_runs [] enc h k = unfold run_revision in k
tail_runs ((j, v) ∷ ws) enc ((joins, nonempty, text), h) k =
    joiner_runs j (v ++ tail_text ws enc) joins
    ∙ component_runs v (tail_text ws enc) nonempty text
    ∙ tail_runs ws enc h k

-- A string is taken for a revision exactly when it reads as one or more components of [a-z0-9]
-- joined by single characters of [+._-], a colon, and an encoded part of [A-Za-z0-9=_-], none of
-- them empty.
pub matches_revision_iff : (s : Bytes) → (matches_revision s ≡ true) ↔ Parts false s
unfolding matches_revision
matches_revision_iff s = (
  λ h. read_components false s h,
  λ r.
      ap (run_revision component_start) (r.spelled ∙ scheme_text-tail r.first r.more r.encoded)
      ∙ component_runs r.first (tail_text r.more r.encoded) (r.first_nonempty refl) r.first_text
      ∙ tail_runs r.more r.encoded r.components
          (after_colon_runs r.encoded r.encoded_nonempty r.encoded_text),
)
