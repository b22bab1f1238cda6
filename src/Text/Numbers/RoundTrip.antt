-- ===== src/Text/Numbers/RoundTrip.antt =====
-- Reading back what %d and hex.EncodeToString wrote, and which bytes they write.
use protobuf_interceptors.Base.{
  ℕ, zero, suc, ◌+◌, ◌-◌, ◌*◌, ◌/◌, ◌%◌, ◌<◌, ◌≤◌, ◌≡◌, ◌≢◌, refl, ap, ◌∙◌, [], ◌∷◌, ◌⊎◌, inl, inr,
  arith, All, ltb, if◌then◌else◌, Bool-cases,
}
use mathlib.Core.Path.{ap₂}
use protobuf_interceptors.Text.Bytes.{Bytes}
use protobuf_interceptors.Text.Numbers.{digits_onto, decimal, hex_digit, hex}

-- The number that decimal digits stand for, behind `acc`.
abbrev pub read_decimal : ℕ → Bytes → ℕ
read_decimal acc [] = acc
read_decimal acc (c ∷ s) = read_decimal (acc * 10 + (c - b'0')) s

digits_onto-read :
    (fuel n : ℕ) (out : Bytes)
    → n < fuel
    → read_decimal 0 (digits_onto fuel n out) ≡ read_decimal n out
unfolding digits_onto
digits_onto-read zero n out h = absurd (omega arith)
digits_onto-read (suc fuel) n out h = elim (Bool-cases (ltb n 10)) [
  | inl small ↦ rw small (ap (λ a. read_decimal a out) (omega arith))
  | inr large ↦ rw large (
      digits_onto-read fuel (n / 10) ((b'0' + n % 10) ∷ out) (ground arith)
      ∙ ap (λ a. read_decimal a out) (omega arith))
]

pub read_decimal-decimal : (n : ℕ) → read_decimal 0 (decimal n) ≡ n
unfolding decimal
read_decimal-decimal n = digits_onto-read (suc n) n [] (omega arith)

abbrev pub Digit : ℕ → Type 0
Digit c = (b'0' ≤ c) × (c ≤ b'9')

digits_onto-Digit : (fuel n : ℕ) (out : Bytes) → All Digit out → All Digit (digits_onto fuel n out)
unfolding digits_onto
digits_onto-Digit zero n out h = h
digits_onto-Digit (suc fuel) n out h =
    ground (arith, digits_onto-Digit fuel (n / 10) ((b'0' + n % 10) ∷ out))

pub decimal-Digit : (n : ℕ) → All Digit (decimal n)
unfolding decimal
decimal-Digit n = digits_onto-Digit (suc n) n [] tt

digits_onto-ne-nil : (fuel n : ℕ) (out : Bytes) → out ≢ [] → digits_onto fuel n out ≢ []
unfolding digits_onto
digits_onto-ne-nil zero n out h = h
digits_onto-ne-nil (suc fuel) n out h =
    ground (arith, digits_onto-ne-nil fuel (n / 10) ((b'0' + n % 10) ∷ out))

pub decimal-ne-nil : (n : ℕ) → decimal n ≢ []
unfolding decimal digits_onto
decimal-ne-nil n = ground (arith, digits_onto-ne-nil n (n / 10) ((b'0' + n % 10) ∷ []))

-- The value of a lower-case hexadecimal digit.
abbrev pub hex_value : ℕ → ℕ
hex_value c = if ltb c b'a' then c - b'0' else c - b'a' + 10

abbrev pub unhex : Bytes → Bytes
unhex [] = []
unhex (c ∷ []) = []
unhex (c ∷ d ∷ s) = (hex_value c * 16 + hex_value d) ∷ unhex s

hex_value-hex_digit : (d : ℕ) → d < 16 → hex_value (hex_digit d) ≡ d
hex_value-hex_digit d h = ground arith

pub unhex-hex : (bs : Bytes) → All (λ b. b < 256) bs → unhex (hex bs) ≡ bs
unfolding hex
unhex-hex [] h = refl
unhex-hex (b ∷ bs) h =
    ap₂ ◌∷◌
      (ground (
        arith,
        hex_value-hex_digit (b / 16) (omega arith),
        hex_value-hex_digit (b % 16) (omega arith),
      ))
      (unhex-hex bs h.1)

-- A decimal digit or one of the letters a to f.
abbrev pub HexDigit : ℕ → Type 0
HexDigit c = Digit c ⊎ ((b'a' ≤ c) × (c ≤ b'f'))

hex_digit-HexDigit : (d : ℕ) → d < 16 → HexDigit (hex_digit d)
hex_digit-HexDigit d h = ground arith

pub hex-HexDigit : (bs : Bytes) → All (λ b. b < 256) bs → All HexDigit (hex bs)
unfolding hex
hex-HexDigit [] h = tt
hex-HexDigit (b ∷ bs) h = (
  hex_digit-HexDigit (b / 16) (omega arith),
  (hex_digit-HexDigit (b % 16) (omega arith), hex-HexDigit bs h.1),
)
