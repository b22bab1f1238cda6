-- ===== src/Core/Resolve/Extract/Scalars.antt =====
-- What the text of a scalar field can be.
use mathlib.Core.Path.{subst}
use protobuf_interceptors.Base.{
  ℕ, suc, ◌<◌, ◌≡◌, ◌≢◌, ap, sym, ◌∙◌, [], ◌∷◌, arith, All, Bool, true, false,
}
use protobuf_interceptors.Text.Bytes.{Bytes}
use protobuf_interceptors.Text.Numbers.{decimal, decimal_int, hex, ℤ, pos, negsuc}
use protobuf_interceptors.Text.Numbers.RoundTrip.{
  Digit, decimal-Digit, decimal-ne-nil, HexDigit, hex-HexDigit, unhex, unhex-hex,
}
use protobuf_interceptors.Core.Errors.{ok}
use protobuf_interceptors.Core.Resolve.Template.Values.{TokenByte}
use protobuf_interceptors.Core.Resolve.Extract.{
  Kind, string_kind, bytes_kind, bool_kind, Reflection, bool_text, scalar_of_kind, scalar_string,
}

All-TokenByte_of_Digit : (s : Bytes) → All Digit s → All TokenByte s
All-TokenByte_of_Digit [] h = tt
All-TokenByte_of_Digit (c ∷ s) h = (omega arith, All-TokenByte_of_Digit s h.1)

All-TokenByte_of_HexDigit : (s : Bytes) → All HexDigit s → All TokenByte s
All-TokenByte_of_HexDigit [] h = tt
All-TokenByte_of_HexDigit (c ∷ s) h = (omega arith, All-TokenByte_of_HexDigit s h.1)

-- A text that may fill a placeholder as it is.
abbrev pub Fills : Bytes → Type 0
Fills v = (v ≢ []) × All TokenByte v

decimal-Fills : (n : ℕ) → Fills (decimal n)
decimal-Fills n = (decimal-ne-nil n, All-TokenByte_of_Digit (decimal n) (decimal-Digit n))

decimal_int-Fills : (z : ℤ) → Fills (decimal_int z)
unfolding decimal_int
decimal_int-Fills (pos n) = decimal-Fills n
decimal_int-Fills (negsuc n) = (λ e. cc, (omega arith, (decimal-Fills (suc n)).1))

bool_text-Fills : (b : Bool) → Fills (bool_text b)
bool_text-Fills true = (λ e. cc, omega arith)
bool_text-Fills false = (λ e. cc, omega arith)

module _ (reflection : Reflection) where
  open reflection use {FieldDescriptor, Value, kind, bytes_value, int_value, uint_value, bool_value}

  scalar_of_kind-Fills :
      (k : Kind) (fd : FieldDescriptor) (val : Value) (v : Bytes)
      → k ≢ string_kind
      → k ≢ bytes_kind
      → scalar_of_kind reflection k fd val ≡ ok v
      → Fills v
  unfolding scalar_of_kind
  scalar_of_kind-Fills bool_kind fd val v h k e = ground (
    arith,
    decimal_int-Fills (int_value val),
    decimal-Fills (uint_value val),
    bool_text-Fills (bool_value val),
  )
  scalar_of_kind-Fills _ fd val v h k e = ground (
    arith,
    decimal_int-Fills (int_value val),
    decimal-Fills (uint_value val),
    bool_text-Fills (bool_value val),
  )

  -- An integer or boolean field always resolves to a text that may fill a placeholder, whatever
  -- the request sets it to.
  pub scalar_string-Fills :
      (fd : FieldDescriptor) (val : Value) (v : Bytes)
      → kind fd ≢ string_kind
      → kind fd ≢ bytes_kind
      → scalar_string reflection fd val ≡ ok v
      → Fills v
  unfolding scalar_string
  scalar_string-Fills fd val v = scalar_of_kind-Fills (kind fd) fd val v

  -- A bytes field resolves to a text of segment token bytes, and two bytes fields that resolve to
  -- the same text hold the same bytes.
  pub scalar_string-bytes :
      (fd : FieldDescriptor) (val val' : Value) (v : Bytes)
      → kind fd ≡ bytes_kind
      → All (λ b. b < 256) (bytes_value val)
      → All (λ b. b < 256) (bytes_value val')
      → scalar_string reflection fd val ≡ ok v
      → scalar_string reflection fd val' ≡ ok v
      → All TokenByte v × (bytes_value val' ≡ bytes_value val)
  unfolding scalar_string scalar_of_kind
  scalar_string-bytes fd val val' v is_bytes small small' e e' =
      let hexed : hex (bytes_value val) ≡ v = ground arith in
      let hexed' : hex (bytes_value val') ≡ v = ground arith in
      (
        subst (All TokenByte) hexed
            (All-TokenByte_of_HexDigit _ (hex-HexDigit (bytes_value val) small)),
        sym (unhex-hex (bytes_value val') small')
            ∙ ap unhex (hexed' ∙ sym hexed)
            ∙ unhex-hex (bytes_value val) small,
      )
