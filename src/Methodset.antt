-- ===== src/Methodset.antt =====
-- internal/methodset/methodset.go: sets of RPC methods and whole services. The validity of protobuf
-- names is protoreflect's: two tests that are arguments.
pub mod Laws
use protobuf_interceptors.Base.{
  ℕ, zero, suc, Bool, true, false, not, ◌&&◌, ◌||◌, Option, none, some, List, [], ◌∷◌, ◌++◌, ◌==◌,
  leb, if◌then◌else◌, length, take,
}
use protobuf_interceptors.Text.Bytes.{Bytes, cut, last_index_byte, lookup, insert}
use protobuf_interceptors.Core.Errors.{Error, text, errorf, Result, ok, err}

-- The entries are the keys of a map whose values are empty structs.
pub record Set : Type 0 where
  pub entries : List (Bytes × Unit {0})

abbrev pub empty : Set
empty = record { entries = [] }

abbrev pub has_entry : Bytes → List (Bytes × Unit {0}) → Bool
has_entry k m = elim (lookup k m) [ none ↦ false | some _ ↦ true ]

abbrev is_empty : Bytes → Bool
is_empty [] = true
is_empty (_ ∷ _) = false

module _ (valid_full_name : Bytes → Bool) (valid_name : Bytes → Bool) where
  -- What `wellFormed` asks of the two sides of the second slash.
  abbrev valid_parts : Bytes × Bytes × Bool → Bool
  valid_parts (service, method, found) =
      found && valid_full_name service && (is_empty method || valid_name method)

  -- `wellFormed`
  unfoldable pub well_formed : Bytes → Bool
  unfolding cut
  well_formed [] = false
  well_formed (c ∷ rest) = c == b'/' && valid_parts (cut b'/' rest)

  -- The loop of `Parse`, over the entries made so far.
  unfoldable pub parse_from : List (Bytes × Unit {0}) → List Bytes → Result Set
  unfolding well_formed insert
  parse_from made [] = ok (record { entries = made })
  parse_from made (e ∷ es) = elim (well_formed e) [
    | true ↦ parse_from (insert e tt made) es
    | false ↦
        err
          (errorf "entry %q is neither /package.Service/Method nor /package.Service/" (text e ∷ []))
  ]

  -- `Parse`
  unfoldable pub parse : List Bytes → Result Set
  unfolding parse_from
  parse = parse_from []

-- maps.Copy: each entry of the second map is stored in the first.
unfoldable pub copy : List (Bytes × Unit {0}) → List (Bytes × Unit {0}) → List (Bytes × Unit {0})
unfolding insert
copy into [] = into
copy into ((k, v) ∷ from) = copy (insert k v into) from

-- `Union`
unfoldable pub union : Set → Set → Set
unfolding copy
union s o = record { entries = copy (copy [] s.entries) o.entries }

-- `Contains`
unfoldable pub contains : Set → Bytes → Bool
unfolding last_index_byte lookup
contains s method = elim (last_index_byte b'/' method) [
  | none ↦ false
  | some i ↦
      if leb i 0 || suc i == length method
      then false
      else has_entry method s.entries || has_entry (take (suc i) method) s.entries
]
