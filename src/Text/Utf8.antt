-- ===== src/Text/Utf8.antt =====
-- unicode/utf8, as strings.Builder's WriteRune uses it: the bytes of a rune. What `range` yields is a
-- rune that has an encoding.
use mathlib.Core.List.{append_assoc}
use protobuf_interceptors.Base.{
  ℕ, zero, suc, ◌+◌, ◌-◌, ◌*◌, ◌/◌, ◌%◌, ◌<◌, ◌≤◌, ◌≡◌, refl, ap, ◌∙◌, Bool, true, false, ◌&&◌,
  ◌||◌, List, [], ◌∷◌, ◌++◌, arith, ltb, between, if◌then◌else◌, ◌==◌, all, all_cons,
}
use protobuf_interceptors.Text.Bytes.{Bytes}
use protobuf_interceptors.Text.Runes.{
  runes, runes_from, runes-cons_ascii, decode_rune, decode2, decode3, decode4, continues,
}

-- utf8.AppendRune of a rune that has an encoding
abbrev pub encode_rune : ℕ → Bytes
encode_rune r =
    if ltb r 0x80
    then r ∷ []
    else if ltb r 0x800
    then (0xC0 + r / 64) ∷ (0x80 + r % 64) ∷ []
    else if ltb r 0x10000
    then (0xE0 + r / 4096) ∷ (0x80 + r / 64 % 64) ∷ (0x80 + r % 64) ∷ []
    else (0xF0 + r / 262144) ∷ (0x80 + r / 4096 % 64) ∷ (0x80 + r / 64 % 64) ∷ (0x80 + r % 64) ∷ []

unfoldable pub encode_runes : List ℕ → Bytes
encode_runes [] = []
encode_runes (r ∷ rs) = encode_rune r ++ encode_runes rs

-- A rune that has an encoding: no surrogate, and none past U+10FFFF.
abbrev pub is_valid_rune : ℕ → Bool
is_valid_rune r = ltb r 0xD800 || between 0xE000 0x10FFFF r

decode_rune2 :
    (a b : ℕ) (s : Bytes)
    → 0x80 ≤ a
    → (between 0xC2 0xDF a && continues b) ≡ true
    → decode_rune a (b ∷ s) ≡ ((a - 0xC0) * 64 + (b - 0x80), 2)
unfolding decode_rune
decode_rune2 a b [] h hb = ground arith
decode_rune2 a b (c ∷ []) h hb = ground arith
decode_rune2 a b (c ∷ d ∷ s) h hb = ground arith

decode_rune3 :
    (a b c : ℕ) (s : Bytes)
    → (between 0xE0 0xEF a
        && (between (if a == 0xE0 then 0xA0 else 0x80) (if a == 0xED then 0x9F else 0xBF) b
            && continues c))
      ≡ true
    → decode_rune a (b ∷ c ∷ s) ≡ ((a - 0xE0) * 4096 + (b - 0x80) * 64 + (c - 0x80), 3)
unfolding decode_rune
decode_rune3 a b c [] h = ground arith
decode_rune3 a b c (d ∷ s) h = ground arith

decode_rune4 :
    (a b c d : ℕ) (s : Bytes)
    → (between 0xF0 0xF4 a
        && (between (if a == 0xF0 then 0x90 else 0x80) (if a == 0xF4 then 0x8F else 0xBF) b
            && (continues c && continues d)))
      ≡ true
    → decode_rune a (b ∷ c ∷ d ∷ s)
      ≡ ((a - 0xF0) * 262144 + (b - 0x80) * 4096 + (c - 0x80) * 64 + (d - 0x80), 4)
unfolding decode_rune
decode_rune4 a b c d s h = ground arith

lead2 :
    (r : ℕ)
    → 0x80 ≤ r
    → r < 0x800
    → (between 0xC2 0xDF (0xC0 + r / 64) && continues (0x80 + r % 64)) ≡ true
lead2 r hl hh = ground arith

value2 : (r : ℕ) → (0xC0 + r / 64 - 0xC0) * 64 + (0x80 + r % 64 - 0x80) ≡ r
value2 r = omega arith

lead3 :
    (r : ℕ)
    → 0x800 ≤ r
    → r < 0x10000
    → is_valid_rune r ≡ true
    → (between 0xE0 0xEF (0xE0 + r / 4096)
        && (between
              (if 0xE0 + r / 4096 == 0xE0 then 0xA0 else 0x80)
              (if 0xE0 + r / 4096 == 0xED then 0x9F else 0xBF)
              (0x80 + r / 64 % 64)
            && continues (0x80 + r % 64)))
      ≡ true
lead3 r hl hh hv = ground arith

value3 :
    (r : ℕ)
    → (0xE0 + r / 4096 - 0xE0) * 4096 + (0x80 + r / 64 % 64 - 0x80) * 64 + (0x80 + r % 64 - 0x80)
      ≡ r
value3 r = omega arith

lead4 :
    (r : ℕ)
    → 0x10000 ≤ r
    → r ≤ 0x10FFFF
    → (between 0xF0 0xF4 (0xF0 + r / 262144)
        && (between
              (if 0xF0 + r / 262144 == 0xF0 then 0x90 else 0x80)
              (if 0xF0 + r / 262144 == 0xF4 then 0x8F else 0xBF)
              (0x80 + r / 4096 % 64)
            && (continues (0x80 + r / 64 % 64) && continues (0x80 + r % 64))))
      ≡ true
lead4 r hl hh = ground arith

value4 :
    (r : ℕ)
    → (0xF0 + r / 262144 - 0xF0) * 262144
        + (0x80 + r / 4096 % 64 - 0x80) * 4096
        + (0x80 + r / 64 % 64 - 0x80) * 64
        + (0x80 + r % 64 - 0x80)
      ≡ r
value4 r = omega arith

-- What is read back of an encoded rune.
runes-encode_rune :
    (r : ℕ) (s : Bytes) → is_valid_rune r ≡ true → runes (encode_rune r ++ s) ≡ r ∷ runes s
unfolding runes runes_from
runes-encode_rune r s h = go (ltb r 0x80) refl (ltb r 0x800) refl (ltb r 0x10000) refl
  where
    go :
        (a : Bool)
        → ltb r 0x80 ≡ a
        → (b : Bool) → ltb r 0x800 ≡ b
        → (c : Bool) → ltb r 0x10000 ≡ c
        → runes (encode_rune r ++ s) ≡ r ∷ runes s
    go true ha b hb c hc = rw ha (runes-cons_ascii r s (ground arith))
    go false ha true hb c hc = rw (
      ha,
      hb,
      decode_rune2 (0xC0 + r / 64) (0x80 + r % 64) s (omega arith)
          (lead2 r (ground arith) (ground arith)),
      value2 r,
    )
    go false ha false hb true hc = rw (
      ha,
      hb,
      hc,
      decode_rune3 (0xE0 + r / 4096) (0x80 + r / 64 % 64) (0x80 + r % 64) s
          (lead3 r (ground arith) (ground arith) h),
      value3 r,
    )
    go false ha false hb false hc = rw (
      ha,
      hb,
      hc,
      decode_rune4 (0xF0 + r / 262144) (0x80 + r / 4096 % 64) (0x80 + r / 64 % 64) (0x80 + r % 64) s
          (lead4 r (ground arith) (ground arith)),
      value4 r,
    )

-- `range` over what WriteRune wrote of runes that have an encoding yields them again.
pub runes-encode_runes :
    (rs : List ℕ) (s : Bytes)
    → all is_valid_rune rs ≡ true
    → runes (encode_runes rs ++ s) ≡ rs ++ runes s
unfolding encode_runes
runes-encode_runes [] s h = refl
runes-encode_runes (r ∷ rs) s h =
    let (hr, hrs) = all_cons is_valid_rune r rs h in
    ap runes (append_assoc (encode_rune r) (encode_runes rs) s)
    ∙ runes-encode_rune r (encode_runes rs ++ s) hr
    ∙ ap (◌∷◌ r) (runes-encode_runes rs s hrs)

decode2-valid : (a b : ℕ) → is_valid_rune (decode2 a b).0 ≡ true
unfolding decode2
decode2-valid a b = ground arith

decode3-valid : (a b c : ℕ) → is_valid_rune (decode3 a b c).0 ≡ true
unfolding decode3
decode3-valid a b c = ground (arith, decode2-valid a b)

decode4-valid : (a b c d : ℕ) → is_valid_rune (decode4 a b c d).0 ≡ true
unfolding decode4
decode4-valid a b c d = ground (arith, decode3-valid a b c)

decode_rune-valid : (a : ℕ) (s : Bytes) → is_valid_rune (decode_rune a s).0 ≡ true
unfolding decode_rune
decode_rune-valid a [] = ground arith
decode_rune-valid a (b ∷ []) = ground (arith, decode2-valid a b)
decode_rune-valid a (b ∷ c ∷ []) = ground (arith, decode3-valid a b c)
decode_rune-valid a (b ∷ c ∷ d ∷ s) = ground (arith, decode4-valid a b c d)

runes_from-valid : (skip : ℕ) (s : Bytes) → all is_valid_rune (runes_from skip s) ≡ true
unfolding runes_from
runes_from-valid skip [] = refl
runes_from-valid zero (a ∷ s) = rw (decode_rune-valid a s) (runes_from-valid _ s)
runes_from-valid (suc skip) (a ∷ s) = runes_from-valid skip s

-- What `range` yields has an encoding.
pub runes-valid : (s : Bytes) → all is_valid_rune (runes s) ≡ true
unfolding runes
runes-valid s = runes_from-valid zero s
