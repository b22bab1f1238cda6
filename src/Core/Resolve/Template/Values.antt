-- ===== src/Core/Resolve/Template/Values.antt =====
-- Which values may fill a placeholder.
use protobuf_interceptors.Base.{
  ℕ, ◌≤◌, ◌<◌, ◌≡◌, ◌≢◌, refl, ap, ◌↔◌, true, none, some, List, [], ◌∷◌, arith, Bool-cases, inl,
  inr, All, ltb, ltb→lt,
}
use protobuf_interceptors.Text.Bytes.{Bytes}
use protobuf_interceptors.Text.Runes.{runes, runes_from, runes-cons_ascii, runes-cons_other}
use protobuf_interceptors.Core.Errors.{ok}
use protobuf_interceptors.Core.Resolve.Template.{
  resource_value_rune, refused_rune, rune_verdict, validate_resource_value,
}

-- A byte of a segment token of the verifier's grammar: printable ASCII other than the space, the
-- double quote, the backslash, the dot and the colon.
abbrev pub TokenByte : ℕ → Type 0
TokenByte b = (0x21 ≤ b) × (b ≤ 0x7E) × (b ≢ b'.') × (b ≢ b':') × (b ≢ b'"') × (b ≢ b'\\')

rune_iff : (r : ℕ) → (resource_value_rune r ≡ true) ↔ TokenByte r
unfolding resource_value_rune
rune_iff r = ground arith

refused_rune-high : (r : ℕ) (rs : List ℕ) → 0x80 ≤ r → refused_rune (r ∷ rs) ≡ some r
unfolding refused_rune resource_value_rune
refused_rune-high r rs h = ground arith

refused_rune_sound : (s : Bytes) → refused_rune (runes s) ≡ none → All TokenByte s
unfolding refused_rune
refused_rune_sound [] h = tt
refused_rune_sound (a ∷ s) h = elim (Bool-cases (ltb a 0x80)) [
  | inl low ↦
      let e : refused_rune (a ∷ runes s) ≡ none =
        rw (runes-cons_ascii a s (ltb→lt a 0x80 low)) at h in
      ground (arith, rune_iff a, refused_rune_sound s)
  | inr high ↦
      let (r, rs, eq, ge) = runes-cons_other a s (ground arith) in
      let e : refused_rune (r ∷ rs) ≡ none = rw eq at h in cc (refused_rune-high r rs ge, e)
]

refused_rune_complete : (s : Bytes) → All TokenByte s → refused_rune (runes s) ≡ none
unfolding refused_rune runes runes_from
refused_rune_complete [] h = refl
refused_rune_complete (a ∷ s) (t, h) =
    let low : a < 0x80 = omega arith in
    ground
      (arith, ap refused_rune (runes-cons_ascii a s low), rune_iff a, refused_rune_complete s h)

-- A value passes exactly when it is not empty and each of its bytes is a byte of a segment token.
pub validate_resource_value-ok_iff :
    (placeholder value : Bytes)
    → (validate_resource_value placeholder value ≡ ok tt) ↔ ((value ≢ []) × All TokenByte value)
unfolding validate_resource_value rune_verdict
validate_resource_value-ok_iff placeholder [] = (λ h. cc, λ h. absurd (h.0 refl))
validate_resource_value-ok_iff placeholder (c ∷ cs) = (
  λ h. (λ e. cc, refused_rune_sound (c ∷ cs) (ground arith)),
  λ h. ap (rune_verdict placeholder (c ∷ cs)) (refused_rune_complete (c ∷ cs) h.1),
)
