-- ===== src/Core/Resolve/Template/Structure.antt =====
-- resolve.go: the separators of a resource string, and those of its template.
use protobuf_interceptors.Base.{
  ◌≡◌, ◌≢◌, refl, ap, sym, ◌∙◌, ◌||◌, none, some, List, [], ◌∷◌, ◌++◌, arith, ◌==◌, All,
  if◌then◌else◌, Option-cases, inl, inr,
}
use mathlib.Core.Path.{subst}
use protobuf_interceptors.Text.Bytes.{Bytes, lookup}
use protobuf_interceptors.Core.Errors.{ok, ◌>>=◌, Result-cases, >>=-eq-ok}
use protobuf_interceptors.Core.Context.{Fields}
use protobuf_interceptors.Core.Resolve.Template.{
  substituted, substitute_resource, validate_resource_value,
}
use protobuf_interceptors.Core.Resolve.Template.Values.{TokenByte, validate_resource_value-ok_iff}
use protobuf_interceptors.Core.Resolve.Template.Scan.{Token, lit, hole, scan, render}
use protobuf_interceptors.Core.Resolve.Template.Equivalence.{substitute_resource_lem}

-- The structural characters of a resource string, in order.
abbrev pub separators : Bytes → Bytes
separators [] = []
separators (c ∷ s) = if c == b'.' || c == b':' then c ∷ separators s else separators s

-- The separators that the template itself writes outside its placeholders.
abbrev pub own_separators : List Token → Bytes
own_separators [] = []
own_separators (lit c ∷ ts) =
    if c == b'.' || c == b':' then c ∷ own_separators ts else own_separators ts
own_separators (hole name ∷ ts) = own_separators ts

-- Every placeholder has a value that may stand in a resource string.
abbrev pub Filled : Fields → List Token → Type 0
Filled values [] = Unit
Filled values (lit c ∷ ts) = Filled values ts
Filled values (hole name ∷ ts) =
    ((v : Bytes) × (lookup name values ≡ some v) × (v ≢ []) × All TokenByte v) × Filled values ts

separators-token : (v s : Bytes) → All TokenByte v → separators (v ++ s) ≡ separators s
separators-token [] s h = refl
separators-token (c ∷ v) s h = ground (arith, separators-token v s h.1)

substituted-ok :
    (values : Fields) (name v : Bytes)
    → substituted values name ≡ ok v
    → (lookup name values ≡ some v) × (v ≢ []) × All TokenByte v
unfolding substituted
substituted-ok values name v h = elim (Option-cases (lookup name values)) [
  | inl missing ↦ ground arith
  | inr (w, found) ↦ elim (Result-cases (validate_resource_value name w)) [
    | inl (_, passes) ↦
        let same : w ≡ v = ground arith in
        let facts = (validate_resource_value-ok_iff name w).0 passes in
        let (nonempty, tokens) = subst (λ x. (x ≢ []) × All TokenByte x) same facts in
        (found ∙ ap some same, nonempty, tokens)
    | inr (e, refused) ↦ ground arith
  ]
]

render-separators :
    (values : Fields) (ts : List Token) (r : Bytes)
    → render values ts ≡ ok r
    → (separators r ≡ own_separators ts) × Filled values ts
unfolding render
render-separators values [] r h = ground arith
render-separators values (lit c ∷ ts) r h =
    let (s, e, k) = >>=-eq-ok (render values ts) (λ r. ok (c ∷ r)) h in
    ground (arith, render-separators values ts s e)
render-separators values (hole name ∷ ts) r h =
    let (v, e, k) =
      >>=-eq-ok (substituted values name) (λ v. render values ts >>= λ r. ok (v ++ r)) h in
    let (s, e', k') = >>=-eq-ok (render values ts) (λ r. ok (v ++ r)) k in
    let (found, nonempty, tokens) = substituted-ok values name v e in
    let (same, filled) = render-separators values ts s e' in
    let joins : v ++ s ≡ r = cc in
    (
      ap separators (sym joins) ∙ separators-token v s tokens ∙ same,
      ((v, found, nonempty, tokens), filled),
    )

-- A resource string that the substitution returns has exactly the separators '.' and ':' that the
-- template writes outside its placeholders, in order, and each placeholder has a value that is not
-- empty and consists of segment token bytes.
pub substitute_resource-separators :
    (template : Bytes) (values : Fields) (r : Bytes)
    → substitute_resource template values ≡ ok r
    → (separators r ≡ own_separators (scan none template)) × Filled values (scan none template)
substitute_resource-separators template values r h =
    render-separators values (scan none template) r
      (sym (substitute_resource_lem template values) ∙ h)
