-- ===== src/Methodset/Laws.antt =====
-- Which methods a set holds.
use protobuf_interceptors.Base.{
  suc, ◌≡◌, ◌↔◌, ◌⊎◌, inl, inr, Bool, true, ◌||◌, List, [], ◌∷◌, arith, Bool-cases, Option-cases,
  All, take,
}
use protobuf_interceptors.Text.Bytes.{
  Bytes, lookup, insert, lookup-insert, equal, equal_iff, last_index_byte,
}
use protobuf_interceptors.Core.Errors.{ok}
use protobuf_interceptors.Methodset.{
  Set, has_entry, well_formed, parse_from, parse, copy, union, contains,
}

has_entry-insert :
    (k j : Bytes) (m : List (Bytes × Unit {0}))
    → has_entry j (insert k tt m) ≡ (equal k j || has_entry j m)
has_entry-insert k j m = ground (arith, lookup-insert k j tt m)

has_entry-copy :
    (j : Bytes) (into from : List (Bytes × Unit {0}))
    → has_entry j (copy into from) ≡ (has_entry j into || has_entry j from)
unfolding copy lookup
has_entry-copy j into [] = ground arith
has_entry-copy j into ((k, v) ∷ from) =
    ground (arith, has_entry-copy j (insert k v into) from, has_entry-insert k j into)

has_entry-union :
    (j : Bytes) (s o : Set)
    → has_entry j (union s o).entries ≡ (has_entry j s.entries || has_entry j o.entries)
unfolding union lookup
has_entry-union j s o =
    ground (arith, has_entry-copy j (copy [] s.entries) o.entries, has_entry-copy j [] s.entries)

-- A union holds a method exactly when one of its two sets does.
pub contains-union :
    (s o : Set) (method : Bytes)
    → contains (union s o) method ≡ (contains s method || contains o method)
unfolding contains
contains-union s o method = elim (Option-cases (last_index_byte b'/' method)) [
  | inl missing ↦ ground arith
  | inr (i, found) ↦
      ground (arith, has_entry-union method s o, has_entry-union (take (suc i) method) s o)
]

-- Membership in a list, by the comparison of strings.
abbrev pub Among : Bytes → List Bytes → Type 0
Among e [] = ⊥
Among e (x ∷ xs) = (x ≡ e) ⊎ Among e xs

module _ (valid_full_name valid_name : Bytes → Bool) where
  parse_from-entries :
      (made : List (Bytes × Unit {0})) (es : List Bytes) (s : Set)
      → parse_from valid_full_name valid_name made es ≡ ok s
      → All (λ e. well_formed valid_full_name valid_name e ≡ true) es
        × ((j : Bytes) → (has_entry j s.entries ≡ true) ↔ ((has_entry j made ≡ true) ⊎ Among j es))
  unfolding parse_from
  parse_from-entries made [] s h = (tt, λ j. ground arith)
  parse_from-entries made (e ∷ es) s h =
      elim (Bool-cases (well_formed valid_full_name valid_name e)) [
        | inl fine ↦
            let (rest, has) = parse_from-entries (insert e tt made) es s (ground arith) in
            ((fine, rest), λ j. ground (arith, has j, has_entry-insert e j made, equal_iff e j))
        | inr bad ↦ ground arith
      ]

  -- A parse succeeds only on entries that are all well formed, and the set's entries are then
  -- exactly those given.
  pub parse-entries :
      (es : List Bytes) (s : Set) (j : Bytes)
      → parse valid_full_name valid_name es ≡ ok s
      → All (λ e. well_formed valid_full_name valid_name e ≡ true) es
        × ((has_entry j s.entries ≡ true) ↔ Among j es)
  unfolding parse lookup
  parse-entries es s j h =
      let (fine, has) = parse_from-entries [] es s h in (fine, ground (arith, has j))
