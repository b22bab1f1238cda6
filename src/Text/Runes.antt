-- ===== src/Text/Runes.antt =====
-- `range` over a string: UTF-8 decoding, where a byte that starts no valid encoding is U+FFFD and
-- is one byte wide. Also unicode.IsSpace and strings.EqualFold over the runes.
use protobuf_interceptors.Base.{
  ℕ, zero, ◌≤◌, ◌<◌, ◌≡◌, refl, arith, suc, ◌+◌, ◌-◌, ◌*◌, Bool, ◌&&◌, ◌||◌, List, [], ◌∷◌, map,
  ◌==◌, ltb, between, if◌then◌else◌,
}
use protobuf_interceptors.Text.Bytes.{Bytes, equal}

abbrev pub rune_error : ℕ
rune_error = 0xFFFD

-- a continuation byte
abbrev pub continues : ℕ → Bool
continues c = between 0x80 0xBF c

-- The rune that follows the lead byte and its width, from the one, two or three bytes after it.
-- Overlong forms, surrogates and runes past U+10FFFF are invalid.
unfoldable pub decode2 : ℕ → ℕ → ℕ × ℕ
decode2 a b =
    if between 0xC2 0xDF a && continues b
    then ((a - 0xC0) * 64 + (b - 0x80), 2)
    else (rune_error, 1)

unfoldable pub decode3 : ℕ → ℕ → ℕ → ℕ × ℕ
unfolding decode2
decode3 a b c =
    if between 0xE0 0xEF a
    then (if between (if a == 0xE0 then 0xA0 else 0x80) (if a == 0xED then 0x9F else 0xBF) b
          && continues c
        then ((a - 0xE0) * 4096 + (b - 0x80) * 64 + (c - 0x80), 3)
        else (rune_error, 1))
    else decode2 a b

unfoldable pub decode4 : ℕ → ℕ → ℕ → ℕ → ℕ × ℕ
unfolding decode3
decode4 a b c d =
    if between 0xF0 0xF4 a
    then (if between (if a == 0xF0 then 0x90 else 0x80) (if a == 0xF4 then 0x8F else 0xBF) b
          && continues c
          && continues d
        then ((a - 0xF0) * 262144 + (b - 0x80) * 4096 + (c - 0x80) * 64 + (d - 0x80), 4)
        else (rune_error, 1))
    else decode3 a b c

-- utf8.DecodeRuneInString of a string that is not empty: the rune and its width
unfoldable pub decode_rune : ℕ → Bytes → ℕ × ℕ
unfolding decode2 decode3 decode4
decode_rune a [] = if ltb a 0x80 then (a, 1) else (rune_error, 1)
decode_rune a (b ∷ []) = if ltb a 0x80 then (a, 1) else decode2 a b
decode_rune a (b ∷ c ∷ []) = if ltb a 0x80 then (a, 1) else decode3 a b c
decode_rune a (b ∷ c ∷ d ∷ s) = if ltb a 0x80 then (a, 1) else decode4 a b c d

-- The runes of a string behind the bytes still to skip, those of the rune read last.
unfoldable pub runes_from : ℕ → Bytes → List ℕ
runes_from skip [] = []
runes_from zero (a ∷ s) = (decode_rune a s).0 ∷ runes_from ((decode_rune a s).1 - 1) s
runes_from (suc skip) (a ∷ s) = runes_from skip s

unfoldable pub runes : Bytes → List ℕ
unfolding runes_from decode_rune
runes s = runes_from zero s

-- unicode.IsSpace
unfoldable pub is_space : ℕ → Bool
is_space r =
    between 0x09 0x0D r
    || r == 0x20
    || r == 0x85
    || r == 0xA0
    || r == 0x1680
    || between 0x2000 0x200A r
    || r == 0x2028
    || r == 0x2029
    || r == 0x202F
    || r == 0x205F
    || r == 0x3000

-- The ASCII letter that a rune is a case variant of, in lower case, or the rune itself. Outside
-- ASCII only U+017F (s) and U+212A (k) have a simple case folding to an ASCII letter.
unfoldable pub fold : ℕ → ℕ
fold r =
    if between b'A' b'Z' r
    then r + 32
    else if r == 0x17F
    then b's'
    else if r == 0x212A
    then b'k'
    else r

-- strings.EqualFold, for a second string in ASCII, as in every call of it here.
unfoldable pub equal_fold : Bytes → Bytes → Bool
unfolding runes fold equal
equal_fold s t = equal (map fold (runes s)) (map fold t)

pub decode_rune-ascii : (a : ℕ) (s : Bytes) → a < 0x80 → decode_rune a s ≡ (a, 1)
unfolding decode_rune
decode_rune-ascii a [] h = ground arith
decode_rune-ascii a (b ∷ []) h = ground arith
decode_rune-ascii a (b ∷ c ∷ []) h = ground arith
decode_rune-ascii a (b ∷ c ∷ d ∷ s) h = ground arith

decode2-ge : (a b : ℕ) → 0x80 ≤ (decode2 a b).0
unfolding decode2
decode2-ge a b = ground arith

decode3-ge : (a b c : ℕ) → 0x80 ≤ (decode3 a b c).0
unfolding decode3
decode3-ge a b c = ground (arith, decode2-ge a b)

decode4-ge : (a b c d : ℕ) → 0x80 ≤ (decode4 a b c d).0
unfolding decode4
decode4-ge a b c d = ground (arith, decode3-ge a b c)

-- A byte outside ASCII begins a rune outside ASCII, valid or not.
pub decode_rune-ge : (a : ℕ) (s : Bytes) → 0x80 ≤ a → 0x80 ≤ (decode_rune a s).0
unfolding decode_rune
decode_rune-ge a [] h = ground arith
decode_rune-ge a (b ∷ []) h = ground (arith, decode2-ge a b)
decode_rune-ge a (b ∷ c ∷ []) h = ground (arith, decode3-ge a b c)
decode_rune-ge a (b ∷ c ∷ d ∷ s) h = ground (arith, decode4-ge a b c d)

pub runes-cons_ascii : (a : ℕ) (s : Bytes) → a < 0x80 → runes (a ∷ s) ≡ a ∷ runes s
unfolding runes runes_from
runes-cons_ascii a s h = rw (decode_rune-ascii a s h)

pub runes-cons_other :
    (a : ℕ) (s : Bytes) → 0x80 ≤ a → (r : ℕ) × (rs : List ℕ) × (runes (a ∷ s) ≡ r ∷ rs) × (0x80 ≤ r)
unfolding runes runes_from
runes-cons_other a s h =
    ((decode_rune a s).0, runes_from ((decode_rune a s).1 - 1) s, refl, decode_rune-ge a s h)
