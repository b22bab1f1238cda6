-- ===== src/Core/Resolve/Template/Scan.antt =====
-- A reference reading of a resource template, byte by byte: its literal bytes and its placeholders.
use protobuf_interceptors.Base.{
  ℕ, ◌≡◌, ◌≢◌, refl, ap, true, false, Option, none, some, List, [], ◌∷◌, ◌++◌, arith, ◌==◌, ==_iff,
  Bool-cases, inl, inr,
}
use mathlib.Core.List.{append_assoc, append-nil}
use protobuf_interceptors.Text.Bytes.{Bytes}
use protobuf_interceptors.Text.Bytes.Search.{Lacks}
use protobuf_interceptors.Core.Errors.{Result, ok, ◌>>=◌, Result-cases}
use protobuf_interceptors.Core.Context.{Fields}
use protobuf_interceptors.Core.Resolve.Template.{substituted}

pub data Token : Type 0 where
  lit : ℕ → Token
  hole : Bytes → Token

abbrev pub lits : Bytes → List Token
lits [] = []
lits (c ∷ s) = lit c ∷ lits s

-- Outside a placeholder (`none`), or behind the last '<' and the bytes of a name (`some`). A '<'
-- makes what was read of a name literal, and so does the end.
unfoldable pub scan : Option Bytes → Bytes → List Token
scan none [] = []
scan (some name) [] = lits (b'<' ∷ name)
scan none (c ∷ s) = elim (c == b'<') [ true ↦ scan (some []) s | false ↦ lit c ∷ scan none s ]
scan (some name) (c ∷ s) = elim (c == b'<') [
  | true ↦ lits (b'<' ∷ name) ++ scan (some []) s
  | false ↦ elim (c == b'>') [
    | true ↦ hole name ∷ scan none s
    | false ↦ scan (some (name ++ c ∷ [])) s
  ]
]

-- The text of the tokens, each placeholder by its value; the first that has none refuses.
unfoldable pub render : Fields → List Token → Result Bytes
render values [] = ok []
render values (lit c ∷ ts) = render values ts >>= λ r. ok (c ∷ r)
render values (hole name ∷ ts) =
    substituted values name >>= λ v. render values ts >>= λ r. ok (v ++ r)

pub lits-append : (s t : Bytes) → lits (s ++ t) ≡ lits s ++ lits t
lits-append [] t = refl
lits-append (c ∷ s) t = ap (◌∷◌ (lit c)) (lits-append s t)

pub scan-literal : (s : Bytes) → Lacks b'<' s → scan none s ≡ lits s
unfolding scan
scan-literal [] h = refl
scan-literal (c ∷ s) h = ground (arith, scan-literal s)

pub scan-before :
    (p t : Bytes) → Lacks b'<' p → scan none (p ++ b'<' ∷ t) ≡ lits p ++ scan (some []) t
unfolding scan
scan-before [] t h = refl
scan-before (c ∷ p) t h = ground (arith, scan-before p t)

scan-step_open :
    (name s : Bytes) → scan (some name) (b'<' ∷ s) ≡ lits (b'<' ∷ name) ++ scan (some []) s
unfolding scan
scan-step_open name s = refl

scan-step_char :
    (name s : Bytes) (c : ℕ)
    → c ≢ b'<'
    → c ≢ b'>'
    → scan (some name) (c ∷ s) ≡ scan (some (name ++ c ∷ [])) s
unfolding scan
scan-step_char name s c h k = ground arith

-- Text before another '<' is literal.
pub scan-restart :
    (name r t : Bytes)
    → Lacks b'>' r
    → scan (some name) (r ++ b'<' ∷ t) ≡ lits (b'<' ∷ name ++ r) ++ scan (some []) t
scan-restart name [] t k = rw (scan-step_open name t, append-nil name)
scan-restart name (c ∷ r) t k = elim (Bool-cases (c == b'<')) [
  | inl opens ↦
      let e : c ≡ b'<' = (==_iff c b'<').0 opens in
      rw (e, scan-step_open name (r ++ b'<' ∷ t), scan-restart [] r t k.1)
        (simp (lits-append, append_assoc))
  | inr other ↦ rw (
    scan-step_char name (r ++ b'<' ∷ t) c (ground arith) k.0,
    scan-restart (name ++ c ∷ []) r t k.1,
    append_assoc name (c ∷ []) r,
  )
]

pub scan-name :
    (name r u : Bytes)
    → Lacks b'<' r
    → Lacks b'>' r
    → scan (some name) (r ++ b'>' ∷ u) ≡ hole (name ++ r) ∷ scan none u
unfolding scan
scan-name name [] u h k = rw (append-nil name)
scan-name name (c ∷ r) u h k =
    ground (arith, scan-name (name ++ c ∷ []) r u h.1 k.1, append_assoc name (c ∷ []) r)

-- Without a '>' all is literal.
pub scan-open : (name t : Bytes) → Lacks b'>' t → scan (some name) t ≡ lits (b'<' ∷ name ++ t)
unfolding scan
scan-open name [] h = rw (append-nil name)
scan-open name (c ∷ t) h = ground (
  arith,
  scan-open [] t h.1,
  scan-open (name ++ c ∷ []) t h.1,
  append_assoc name (c ∷ []) t,
  lits-append name (c ∷ t),
)

pub render-lits :
    (values : Fields) (s : Bytes) (ts : List Token)
    → render values (lits s ++ ts) ≡ (render values ts >>= λ r. ok (s ++ r))
unfolding render
render-lits values [] ts = elim (Result-cases (render values ts)) [
  | inl (r, e) ↦ rw (e)
  | inr (e, h) ↦ rw (h)
]
render-lits values (c ∷ s) ts = elim (Result-cases (render values ts)) [
  | inl (r, e) ↦ rw (render-lits values s ts, e)
  | inr (e, h) ↦ rw (render-lits values s ts, h)
]

pub render-literal : (values : Fields) (s : Bytes) → render values (lits s) ≡ ok s
unfolding render
render-literal values [] = refl
render-literal values (c ∷ s) = rw (render-literal values s)

pub render-hole :
    (values : Fields) (s name : Bytes) (ts : List Token)
    → render values (lits s ++ hole name ∷ ts)
      ≡ (substituted values name >>= λ v. render values ts >>= λ r. ok (s ++ v ++ r))
unfolding render
render-hole values s name ts = elim (Result-cases (substituted values name)) [
  | inl (v, e) ↦ elim (Result-cases (render values ts)) [
    | inl (r, k) ↦ rw (render-lits values s (hole name ∷ ts), e, k, append_assoc s v r)
    | inr (e', k) ↦ rw (render-lits values s (hole name ∷ ts), e, k)
  ]
  | inr (e, h) ↦ rw (render-lits values s (hole name ∷ ts), h)
]
