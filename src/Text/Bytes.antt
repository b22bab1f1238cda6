-- ===== src/Text/Bytes.antt =====
-- Byte strings: comparison, search and cutting, as package strings and Go's slices do them.
pub mod Search
pub mod Join
use Prim.Native.Char.{code}
use protobuf_interceptors.Base.{
  ℕ, suc, ◌≡◌, refl, ap, ◌↔◌, Bool, true, false, ◌&&◌, Option, none, some, List, [], ◌∷◌, ◌++◌,
  String, arith, ◌==◌, if◌then◌else◌, take, drop, any,
}

abbrev pub Bytes : Type 0
Bytes = List ℕ

-- The bytes of an ASCII text.
abbrev pub bytes : String → Bytes
bytes String.[] = []
bytes (String.◌∷◌ c s) = code c ∷ bytes s

-- `==` on Go strings
unfoldable pub equal : Bytes → Bytes → Bool
equal [] [] = true
equal (x ∷ xs) (y ∷ ys) = x == y && equal xs ys
equal _ _ = false

pub equal_sound : (xs ys : Bytes) → equal xs ys ≡ true → xs ≡ ys
unfolding equal
equal_sound [] [] h = refl
equal_sound (x ∷ xs) (y ∷ ys) h = ground (arith, equal_sound xs ys)
equal_sound [] (y ∷ ys) h = cc
equal_sound (x ∷ xs) [] h = cc

pub equal_refl : (xs : Bytes) → equal xs xs ≡ true
unfolding equal
equal_refl [] = refl
equal_refl (x ∷ xs) = ground (arith, equal_refl xs)

pub equal_iff : (xs ys : Bytes) → (equal xs ys ≡ true) ↔ (xs ≡ ys)
equal_iff xs ys = (equal_sound xs ys, λ e. cc (ap (equal xs) e, equal_refl xs))

-- strings.IndexByte; `none` is -1
unfoldable pub index_byte : ℕ → Bytes → Option ℕ
index_byte c [] = none
index_byte c (x ∷ xs) =
    if x == c then some 0 else elim (index_byte c xs) [ none ↦ none | some i ↦ some (suc i) ]

-- strings.LastIndexByte
unfoldable pub last_index_byte : ℕ → Bytes → Option ℕ
last_index_byte c [] = none
last_index_byte c (x ∷ xs) = elim (last_index_byte c xs) [
  | none ↦ if x == c then some 0 else none
  | some i ↦ some (suc i)
]

-- strings.Cut at one byte: the parts before and after its first occurrence, if there is one.
unfoldable pub cut : ℕ → Bytes → Bytes × Bytes × Bool
cut c s = elim (index_byte c s) [
  | none ↦ (s, [], false)
  | some i ↦ (take i s, drop (suc i) s, true)
]

-- strings.Split at one byte
unfoldable pub split : ℕ → Bytes → List Bytes
split c [] = [] ∷ []
split c (x ∷ xs) = elim (split c xs) [
  | [] ↦ [] ∷ []
  | part ∷ parts ↦ if x == c then [] ∷ part ∷ parts else (x ∷ part) ∷ parts
]

-- strings.Join with one byte
unfoldable pub join : ℕ → List Bytes → Bytes
join c [] = []
join c (s ∷ []) = s
join c (s ∷ t ∷ ts) = s ++ c ∷ join c (t ∷ ts)

-- strings.HasPrefix
unfoldable pub has_prefix : Bytes → Bytes → Bool
has_prefix s [] = true
has_prefix [] (y ∷ ys) = false
has_prefix (x ∷ xs) (y ∷ ys) = x == y && has_prefix xs ys

-- strings.HasSuffix for a suffix of one byte
unfoldable pub has_suffix_byte : ℕ → Bytes → Bool
has_suffix_byte c [] = false
has_suffix_byte c (x ∷ []) = x == c
has_suffix_byte c (x ∷ y ∷ s) = has_suffix_byte c (y ∷ s)

-- strings.TrimSuffix for a suffix of one byte
unfoldable pub trim_suffix_byte : ℕ → Bytes → Bytes
trim_suffix_byte c [] = []
trim_suffix_byte c (x ∷ []) = if x == c then [] else x ∷ []
trim_suffix_byte c (x ∷ y ∷ s) = x ∷ trim_suffix_byte c (y ∷ s)

-- strings.TrimLeft for a cutset of one byte
unfoldable pub trim_left : ℕ → Bytes → Bytes
trim_left c [] = []
trim_left c (x ∷ xs) = if x == c then trim_left c xs else x ∷ xs

-- whether the string holds the byte
abbrev pub contains_byte : ℕ → Bytes → Bool
contains_byte c = any (λ x. x == c)

-- A map keyed by strings, as an association list.
module _ {ℓ} {V : Type ℓ} where
  unfoldable pub lookup : Bytes → List (Bytes × V) → Option V
  lookup k [] = none
  lookup k ((j, v) ∷ m) = if equal j k then some v else lookup k m

  unfoldable pub insert : Bytes → V → List (Bytes × V) → List (Bytes × V)
  insert k v [] = (k, v) ∷ []
  insert k v ((j, w) ∷ m) = if equal j k then (k, v) ∷ m else (j, w) ∷ insert k v m

  pub lookup-insert :
      (k j : Bytes) (v : V) (m : List (Bytes × V))
      → lookup j (insert k v m) ≡ (if equal k j then some v else lookup j m)
  unfolding lookup insert
  lookup-insert k j v [] = refl
  lookup-insert k j v ((i, w) ∷ m) =
      ground (arith, equal_iff k j, equal_iff i k, equal_iff i j, lookup-insert k j v m)
