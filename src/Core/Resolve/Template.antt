-- ===== src/Core/Resolve/Template.antt =====
-- resolve.go: `substituteResource`, `validateResourceValue` and `resourceValueRune`.
pub mod Values
pub mod Scan
pub mod Equivalence
pub mod Structure
use protobuf_interceptors.Base.{
  ℕ, zero, suc, Bool, true, false, not, ◌&&◌, ◌||◌, Option, none, some, List, [], ◌∷◌, ◌++◌,
  if◌then◌else◌, ◌==◌, between, length, take, drop,
}
use protobuf_interceptors.Text.Bytes.{Bytes, index_byte, last_index_byte, lookup}
use protobuf_interceptors.Text.Runes.{runes}
use protobuf_interceptors.Core.Errors.{
  Error, text, rune, errorf, resource_value, Result, ok, err, ◌>>=◌,
}
use protobuf_interceptors.Core.Context.{Fields}

-- `resourceValueRune`
unfoldable pub resource_value_rune : ℕ → Bool
resource_value_rune r =
    not (r == b'.' || r == b':') && not (r == b'"' || r == b'\\') && between 0x21 0x7E r

-- The loop of `validateResourceValue`: the first rune refused, if any
unfoldable pub refused_rune : List ℕ → Option ℕ
refused_rune [] = none
refused_rune (r ∷ rs) = if resource_value_rune r then refused_rune rs else some r

-- What the loop's answer amounts to.
unfoldable pub rune_verdict : Bytes → Bytes → Option ℕ → Result (Unit {0})
rune_verdict placeholder value none = ok tt
rune_verdict placeholder value (some r) = err (
    resource_value placeholder value
      "value carries %q, which the resource grammar does not accept inside a segment (printable ASCII except space, '\"', '\\', '.' and ':'); percent-encode the value to use it"
      (rune r ∷ []))

-- `validateResourceValue`
unfoldable pub validate_resource_value : Bytes → Bytes → Result (Unit {0})
unfolding resource_value_rune refused_rune rune_verdict runes
validate_resource_value placeholder [] = err (
    resource_value placeholder []
      "value is empty; it would remove a component of the resource template rather than fill it" [])
validate_resource_value placeholder (c ∷ cs) =
    rune_verdict placeholder (c ∷ cs) (refused_rune (runes (c ∷ cs)))

-- The value that replaces `<name>`.
unfoldable pub substituted : Fields → Bytes → Result Bytes
substituted values name = elim (lookup name values) [
  | none ↦ err (errorf "resource placeholder <%s> has no field mapping" (text name ∷ []))
  | some value ↦ validate_resource_value name value >>= λ _. ok value
]

-- One round of the loop of `substituteResource` on `template[i:]`: `none` breaks it, all the rest
-- being literal; otherwise the literal text before the placeholder, its name, and the text behind.
unfoldable pub next_placeholder : Bytes → Option (Bytes × Bytes × Bytes)
unfolding index_byte last_index_byte
next_placeholder rest = elim (index_byte b'<' rest) [
  | none ↦ none
  | some opening ↦
      let tail = drop (suc opening) rest in
      elim (index_byte b'>' tail) [
        | none ↦ none
        | some end ↦
            let inside = take end tail in
            let after = drop (suc end) tail in
            elim (last_index_byte b'<' inside) [
              | none ↦ some (take opening rest, inside, after)
              | some j ↦
                  some (take opening rest ++ b'<' ∷ take j inside, drop (suc j) inside, after)
            ]
      ]
]

-- The loop of `substituteResource` on `template[i:]`, with what is written so far. The bound is at
-- least the length of the rest: at bound 0 nothing is left, and the loop has ended.
unfoldable pub substitute_from : Fields → ℕ → Bytes → Bytes → Result Bytes
unfolding substituted
substitute_from values zero rest written = ok written
substitute_from values (suc bound) rest written = elim (next_placeholder rest) [
  | none ↦ ok (written ++ rest)
  | some (before, name, after) ↦
      substituted values name >>= λ v. substitute_from values bound after ((written ++ before) ++ v)
]

-- `substituteResource`
unfoldable pub substitute_resource : Bytes → Fields → Result Bytes
substitute_resource template values = substitute_from values (length template) template []
