-- ===== src/Endpoint/Cedar/Uid.antt =====
-- endpoint/cedar.go: `formatEntityUID`, against a reader of Cedar's string literals.
use mathlib.Core.List.{append_assoc}
use protobuf_interceptors.Base.{
  ℕ, ◌+◌, ◌-◌, ◌*◌, ◌/◌, ◌%◌, ◌<◌, ◌≡◌, ◌⊎◌, inl, inr, refl, ap, sym, ◌∙◌, Bool, true, false, ◌||◌,
  Option, none, some, List, [], ◌∷◌, ◌++◌, ltb, ◌==◌, if◌then◌else◌, arith, all, all_cons,
  all-append,
}
use protobuf_interceptors.Text.Bytes.{Bytes, bytes}
use protobuf_interceptors.Text.Runes.{runes, runes-cons_ascii}
use protobuf_interceptors.Text.Utf8.{encode_runes, runes-encode_runes, runes-valid, is_valid_rune}
use protobuf_interceptors.Endpoint.Cedar.{hex_digit, hex, escape_rune, escape, format_entity_uid}

-- Where a reader of a literal stands: in its text, behind a backslash, behind `\\u`, and in the digits
-- between the braces.
pub data LiteralState : Type 0 where
  in_text after_backslash after_u : LiteralState
  in_digits : ℕ → LiteralState

-- What one rune of a literal does: it ends the literal, is no part of one, stands for a rune, or moves
-- the reader on.
pub data LiteralStep : Type 0 where
  ends refused : LiteralStep
  stands_for : ℕ → LiteralStep
  moves : LiteralState → LiteralStep

abbrev pub digit_value : ℕ → ℕ
digit_value c = if ltb c b'a' then c - b'0' else c - b'a' + 10

abbrev pub literal_step : LiteralState → ℕ → LiteralStep
literal_step in_text c =
    if c == b'"' then ends else if c == b'\\' then moves after_backslash else stands_for c
literal_step after_backslash c = if c == b'u' then moves after_u else stands_for c
literal_step after_u c = if c == b'{' then moves (in_digits 0) else refused
literal_step (in_digits n) c =
    if c == b'}' then stands_for n else moves (in_digits (n * 16 + digit_value c))

abbrev pub prepend : ℕ → Option (List ℕ × List ℕ) → Option (List ℕ × List ℕ)
prepend r none = none
prepend r (some (rs, rest)) = some (r ∷ rs, rest)

-- The runes that a literal stands for, behind its opening quote, and what follows its closing one.
unfoldable pub read_literal : LiteralState → List ℕ → Option (List ℕ × List ℕ)
read_literal st [] = none
read_literal st (c ∷ s) = elim (literal_step st c) [
  | ends ↦ some ([], s)
  | refused ↦ none
  | stands_for r ↦ prepend r (read_literal in_text s)
  | moves st' ↦ read_literal st' s
]

hex_digit-value : (d : ℕ) → d < 16 → digit_value (hex_digit d) ≡ d
hex_digit-value d h = ground arith

hex_digit-step :
    (n d : ℕ) → d < 16 → literal_step (in_digits n) (hex_digit d) ≡ moves (in_digits (n * 16 + d))
hex_digit-step n d h = ground (arith, hex_digit-value d h)

read-hex_digit :
    (n d : ℕ) (s : List ℕ)
    → d < 16
    → read_literal (in_digits n) (hex_digit d ∷ s) ≡ read_literal (in_digits (n * 16 + d)) s
unfolding read_literal
read-hex_digit n d s h = rw (read_literal, hex_digit-step n d h)

read-first_digit :
    (d : ℕ) (s : List ℕ)
    → d < 16
    → read_literal (in_digits 0) (hex_digit d ∷ s) ≡ read_literal (in_digits d) s
read-first_digit d s h =
    let value : 0 * 16 + d ≡ d = omega arith in
    read-hex_digit 0 d s h ∙ ap (λ n. read_literal (in_digits n) s) value

read-hex :
    (r : ℕ) (s : List ℕ)
    → r < 256
    → read_literal (in_digits 0) (hex r ++ b'}' ∷ s) ≡ prepend r (read_literal in_text s)
unfolding read_literal
read-hex r s h = go (ltb r 16) refl
  where
    go :
        (b : Bool)
        → ltb r 16 ≡ b
        → read_literal (in_digits 0) (hex r ++ b'}' ∷ s) ≡ prepend r (read_literal in_text s)
    go true e = rw e (read-first_digit r (b'}' ∷ s) (ground arith))
    go false e =
        let value : r / 16 * 16 + r % 16 ≡ r = omega arith in
        rw e (
          read-first_digit (r / 16) (hex_digit (r % 16) ∷ b'}' ∷ s) (omega arith)
          ∙ read-hex_digit (r / 16) (r % 16) (b'}' ∷ s) (omega arith)
          ∙ ap (λ n. prepend n (read_literal in_text s)) value)

escape_rune_cases :
    (r : ℕ)
    → ((escape_rune r ≡ b'\\' ∷ r ∷ []) × ((r == b'u') ≡ false))
      ⊎ ((escape_rune r ≡ b'\\' ∷ b'u' ∷ b'{' ∷ hex r ++ b'}' ∷ []) × (r < 256))
      ⊎ ((escape_rune r ≡ r ∷ []) × ((r == b'"') ≡ false) × ((r == b'\\') ≡ false))
escape_rune_cases r = go (r == b'"' || r == b'\\') refl (ltb r 0x20 || r == 0x7f) refl
  where
    go :
        (a : Bool)
        → (r == b'"' || r == b'\\') ≡ a
        → (b : Bool) → (ltb r 0x20 || r == 0x7f) ≡ b
        → ((escape_rune r ≡ b'\\' ∷ r ∷ []) × ((r == b'u') ≡ false))
          ⊎ ((escape_rune r ≡ b'\\' ∷ b'u' ∷ b'{' ∷ hex r ++ b'}' ∷ []) × (r < 256))
          ⊎ ((escape_rune r ≡ r ∷ []) × ((r == b'"') ≡ false) × ((r == b'\\') ≡ false))
    go true ea b eb = inl (rw ea, ground arith)
    go false ea true eb = inr (inl (rw (ea, eb), ground arith))
    go false ea false eb = inr (inr (rw (ea, eb), ground arith, ground arith))

read-escape_rune :
    (r : ℕ) (s : List ℕ)
    → read_literal in_text (escape_rune r ++ s) ≡ prepend r (read_literal in_text s)
unfolding read_literal
read-escape_rune r s = elim (escape_rune_cases r) [
  | inl (e, h) ↦ rw (e, read_literal, h)
  | inr (inl (e, h)) ↦ rw (e, append_assoc (hex r) (b'}' ∷ []) s) (read-hex r s h)
  | inr (inr (e, h, k)) ↦ rw (e, read_literal, h, k)
]

read-escape : (rs s : List ℕ) → read_literal in_text (escape rs ++ b'"' ∷ s) ≡ some (rs, s)
unfolding escape read_literal
read-escape [] s = refl
read-escape (r ∷ rs) s =
    ap (read_literal in_text) (append_assoc (escape_rune r) (escape rs) (b'"' ∷ s))
    ∙ read-escape_rune r (escape rs ++ b'"' ∷ s)
    ∙ ap (prepend r) (read-escape rs s)

hex_digit-valid : (d : ℕ) → d < 16 → is_valid_rune (hex_digit d) ≡ true
hex_digit-valid d h = ground arith

hex-valid : (r : ℕ) → r < 256 → all is_valid_rune (hex r) ≡ true
hex-valid r h = go (ltb r 16) refl
  where
    go : (b : Bool) → ltb r 16 ≡ b → all is_valid_rune (hex r) ≡ true
    go true e = rw (e, hex_digit-valid r (ground arith))
    go false e =
        rw (e, hex_digit-valid (r / 16) (omega arith), hex_digit-valid (r % 16) (omega arith))

escape_rune-valid : (r : ℕ) → is_valid_rune r ≡ true → all is_valid_rune (escape_rune r) ≡ true
escape_rune-valid r h = elim (escape_rune_cases r) [
  | inl (e, k) ↦ rw (e, h)
  | inr (inl (e, k)) ↦ rw (e, all-append is_valid_rune (hex r) (b'}' ∷ []), hex-valid r k)
  | inr (inr (e, _, _)) ↦ rw (e, h)
]

escape-valid : (rs : List ℕ) → all is_valid_rune rs ≡ true → all is_valid_rune (escape rs) ≡ true
unfolding escape
escape-valid [] h = refl
escape-valid (r ∷ rs) h =
    let (hr, hrs) = all_cons is_valid_rune r rs h in
    rw (
      all-append is_valid_rune (escape_rune r) (escape rs),
      escape_rune-valid r hr,
      escape-valid rs hrs,
    )

-- What follows the opening quote of a UID.
abbrev uid_literal : Bytes → Bytes
uid_literal id = encode_runes (escape (runes id)) ++ b'"' ∷ []

uid_literal-read :
    (id rest : Bytes)
    → read_literal in_text (runes (uid_literal id ++ rest)) ≡ some (runes id, runes rest)
uid_literal-read id rest =
    ap (λ s. read_literal in_text (runes s))
      (append_assoc (encode_runes (escape (runes id))) (b'"' ∷ []) rest)
    ∙ ap (read_literal in_text) (
        runes-encode_runes (escape (runes id)) (b'"' ∷ rest)
          (escape-valid (runes id) (runes-valid id)))
    ∙ ap (λ s. read_literal in_text (escape (runes id) ++ s))
        (runes-cons_ascii b'"' rest (omega arith))
    ∙ read-escape (runes id) (runes rest)

uid_literal_lem :
    (entity_type id : Bytes)
    → format_entity_uid entity_type id ≡ entity_type ++ bytes "::\"" ++ uid_literal id
unfolding format_entity_uid
uid_literal_lem entity_type id =
    append_assoc (entity_type ++ bytes "::\"") (encode_runes (escape (runes id))) (b'"' ∷ [])

-- A UID is the entity type, `::` and a string literal that a reader of Cedar's literals takes for the
-- id, whatever the id holds, and which ends at the UID's last quote, whatever follows it.
pub format_entity_uid-read_literal :
    (entity_type id rest : Bytes)
    → (literal : Bytes) × (format_entity_uid entity_type id
        ≡ entity_type ++ bytes "::\"" ++ literal)
      × (read_literal in_text (runes (literal ++ rest)) ≡ some (runes id, runes rest))
unfolding format_entity_uid
format_entity_uid-read_literal entity_type id rest =
    (uid_literal id, uid_literal_lem entity_type id, uid_literal-read id rest)

abbrev literal_runes : Option (List ℕ × List ℕ) → List ℕ
literal_runes none = []
literal_runes (some (rs, rest)) = rs

append_cancel : (xs ys zs : Bytes) → xs ++ ys ≡ xs ++ zs → ys ≡ zs
append_cancel [] ys zs h = h
append_cancel (x ∷ xs) ys zs h = append_cancel xs ys zs (cc h)

-- Two ids with the same UID are the same text.
pub format_entity_uid_injective :
    (entity_type id other : Bytes)
    → format_entity_uid entity_type id ≡ format_entity_uid entity_type other
    → runes id ≡ runes other
unfolding format_entity_uid
format_entity_uid_injective entity_type id other h =
    let same : uid_literal id ≡ uid_literal other =
      append_cancel (entity_type ++ bytes "::\"") (uid_literal id) (uid_literal other)
        (sym (uid_literal_lem entity_type id) ∙ h ∙ uid_literal_lem entity_type other) in
    ap literal_runes (
      sym (uid_literal-read id [])
      ∙ ap (λ l. read_literal in_text (runes (l ++ []))) same
      ∙ uid_literal-read other [])
