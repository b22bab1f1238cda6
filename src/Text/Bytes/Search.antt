-- ===== src/Text/Bytes/Search.antt =====
-- Where a byte stands in a string: what the two searches find.
use protobuf_interceptors.Base.{
  ℕ, zero, suc, ◌<◌, ◌≡◌, ◌≢◌, refl, none, some, [], ◌∷◌, ◌++◌, arith, length, length-drop, take,
  drop, All,
}
use protobuf_interceptors.Text.Bytes.{Bytes, index_byte, last_index_byte}

-- the byte is nowhere in the string
abbrev pub Lacks : ℕ → Bytes → Type 0
Lacks c = All (λ x. x ≢ c)

-- The string is cut at a place where the byte stands.
abbrev pub CutsAt : ℕ → Bytes → ℕ → Type 0
CutsAt c s i = s ≡ take i s ++ c ∷ drop (suc i) s

pub index_byte-none : (c : ℕ) (s : Bytes) → index_byte c s ≡ none → Lacks c s
unfolding index_byte
index_byte-none c [] h = tt
index_byte-none c (x ∷ xs) h = ground (arith, index_byte-none c xs)

pub index_byte-some :
    (c : ℕ) (s : Bytes) (i : ℕ) → index_byte c s ≡ some i → CutsAt c s i × Lacks c (take i s)
unfolding index_byte
index_byte-some c [] i h = cc
index_byte-some c (x ∷ xs) zero h = ground arith
index_byte-some c (x ∷ xs) (suc i) h = ground (arith, index_byte-some c xs i)

pub last_index_byte-none : (c : ℕ) (s : Bytes) → last_index_byte c s ≡ none → Lacks c s
unfolding last_index_byte
last_index_byte-none c [] h = tt
last_index_byte-none c (x ∷ xs) h = ground (arith, last_index_byte-none c xs)

pub last_index_byte-some :
    (c : ℕ) (s : Bytes) (i : ℕ)
    → last_index_byte c s ≡ some i
    → CutsAt c s i × Lacks c (drop (suc i) s)
unfolding last_index_byte
last_index_byte-some c [] i h = cc
last_index_byte-some c (x ∷ xs) zero h = ground (arith, last_index_byte-none c xs)
last_index_byte-some c (x ∷ xs) (suc i) h = ground (arith, last_index_byte-some c xs i)

pub index_byte-Lacks : (c : ℕ) (s : Bytes) → Lacks c s → index_byte c s ≡ none
unfolding index_byte
index_byte-Lacks c [] h = refl
index_byte-Lacks c (x ∷ xs) h = ground (arith, index_byte-Lacks c xs)

-- What stands behind the place where a byte was found is shorter.
pub CutsAt-length : (c : ℕ) (s : Bytes) (i : ℕ) → CutsAt c s i → length (drop (suc i) s) < length s
CutsAt-length c [] zero h = cc
CutsAt-length c [] (suc i) h = cc
CutsAt-length c (x ∷ xs) i h = omega (arith, length-drop i xs)
