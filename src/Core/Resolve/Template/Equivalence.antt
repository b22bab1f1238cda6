-- ===== src/Core/Resolve/Template/Equivalence.antt =====
-- The one-pass substitution against the reference reading of the template.
use protobuf_interceptors.Base.{
  ℕ, zero, suc, ◌≤◌, ◌<◌, ◌≡◌, refl, ap, sym, ◌∙◌, All-split, ◌≢◌, none, some, [], ◌∷◌, ◌++◌, arith,
  length, take, drop, Option-cases, inl, inr,
}
use mathlib.Core.Path.{subst}
use mathlib.Core.List.{append_assoc, append-nil}
use protobuf_interceptors.Text.Bytes.{Bytes, index_byte, last_index_byte}
use protobuf_interceptors.Text.Bytes.Search.{
  Lacks, CutsAt-length, index_byte-none, index_byte-some, last_index_byte-none,
  last_index_byte-some,
}
use protobuf_interceptors.Core.Errors.{Result, ok, err, ◌>>=◌, Result-cases}
use protobuf_interceptors.Core.Context.{Fields}
use protobuf_interceptors.Core.Resolve.Template.{
  substituted, next_placeholder, substitute_from, substitute_resource,
}
use protobuf_interceptors.Core.Resolve.Template.Scan.{
  hole, lits, scan, render, lits-append, scan-literal, scan-before, scan-restart, scan-name,
  scan-open, render-literal, render-hole,
}

scan-pieces :
    (p q u : Bytes)
    → Lacks b'>' p
    → Lacks b'<' q
    → Lacks b'>' q
    → scan (some []) ((p ++ b'<' ∷ q) ++ b'>' ∷ u) ≡ lits (b'<' ∷ p) ++ hole q ∷ scan none u
scan-pieces p q u hp hq kq = rw (
  append_assoc p (b'<' ∷ q) (b'>' ∷ u),
  scan-restart [] p (q ++ b'>' ∷ u) hp,
  scan-name [] q u hq kq,
)

-- The text behind a '<', read up to the first '>'.
module _ (tail : Bytes) (e : ℕ) (closed : index_byte b'>' tail ≡ some e) where
  scan-enclosed :
      last_index_byte b'<' (take e tail) ≡ none
      → scan (some []) tail ≡ hole (take e tail) ∷ scan none (drop (suc e) tail)
  scan-enclosed h =
      let (cut, lacks) = index_byte-some b'>' tail e closed in
      ap (scan (some [])) cut
      ∙ scan-name [] (take e tail) (drop (suc e) tail) (last_index_byte-none b'<' (take e tail) h)
          lacks

  scan-nearest :
      (j : ℕ)
      → last_index_byte b'<' (take e tail) ≡ some j
      → scan (some []) tail
        ≡ lits (b'<' ∷ take j (take e tail))
          ++ hole (drop (suc j) (take e tail)) ∷ scan none (drop (suc e) tail)
  scan-nearest j h =
      let (cut, lacks) = index_byte-some b'>' tail e closed in
      let (cut', lacks') = last_index_byte-some b'<' (take e tail) j h in
      let p = take j (take e tail) in
      let q = drop (suc j) (take e tail) in
      let (hp, hq) = All-split (λ x. x ≢ b'>') p b'<' q (subst (Lacks b'>') cut' lacks) in
      ap (scan (some [])) (cut ∙ ap (λ s. s ++ b'>' ∷ drop (suc e) tail) cut')
      ∙ scan-pieces p q (drop (suc e) tail) hp lacks' hq

-- What one round of the loop finds, in terms of the reading of the rest of the template.
record Found (rest before name after : Bytes) : Type 0 where
  reads : scan none rest ≡ lits before ++ hole name ∷ scan none after
  shorter : length after < length rest

module _ (rest : Bytes) (o : ℕ) (opened : index_byte b'<' rest ≡ some o) where
  scan-opened : scan none rest ≡ lits (take o rest) ++ scan (some []) (drop (suc o) rest)
  scan-opened =
      let (cut, lacks) = index_byte-some b'<' rest o opened in
      ap (scan none) cut ∙ scan-before (take o rest) (drop (suc o) rest) lacks

  scan-unclosed : Lacks b'>' (drop (suc o) rest) → scan none rest ≡ lits rest
  scan-unclosed h =
      scan-opened
      ∙ ap (◌++◌ (lits (take o rest))) (scan-open [] (drop (suc o) rest) h)
      ∙ sym (lits-append (take o rest) (b'<' ∷ drop (suc o) rest))
      ∙ ap lits (sym (index_byte-some b'<' rest o opened).0)

  Found-enclosed :
      (e : ℕ)
      → index_byte b'>' (drop (suc o) rest) ≡ some e
      → last_index_byte b'<' (take e (drop (suc o) rest)) ≡ none
      → Found rest (take o rest) (take e (drop (suc o) rest)) (drop (suc e) (drop (suc o) rest))
  Found-enclosed e closed h =
      let tail = drop (suc o) rest in
      let behind = CutsAt-length b'<' rest o (index_byte-some b'<' rest o opened).0 in
      let further = CutsAt-length b'>' tail e (index_byte-some b'>' tail e closed).0 in
      record {
        reads = scan-opened ∙ ap (◌++◌ (lits (take o rest))) (scan-enclosed tail e closed h);
        shorter = omega arith;
      }

  Found-nearest :
      (e j : ℕ)
      → index_byte b'>' (drop (suc o) rest) ≡ some e
      → last_index_byte b'<' (take e (drop (suc o) rest)) ≡ some j
      → Found rest
          (take o rest ++ b'<' ∷ take j (take e (drop (suc o) rest)))
          (drop (suc j) (take e (drop (suc o) rest)))
          (drop (suc e) (drop (suc o) rest))
  Found-nearest e j closed h =
      let tail = drop (suc o) rest in
      let behind = CutsAt-length b'<' rest o (index_byte-some b'<' rest o opened).0 in
      let further = CutsAt-length b'>' tail e (index_byte-some b'>' tail e closed).0 in
      record {
        reads =
            scan-opened
            ∙ ap (◌++◌ (lits (take o rest))) (scan-nearest tail e closed j h)
            ∙ simp (lits-append, append_assoc);
        shorter = omega arith;
      }

-- A round that breaks the loop leaves a rest that is all literal.
next_placeholder-none : (rest : Bytes) → next_placeholder rest ≡ none → scan none rest ≡ lits rest
unfolding next_placeholder
next_placeholder-none rest h = elim (Option-cases (index_byte b'<' rest)) [
  | inl missed ↦ scan-literal rest (index_byte-none b'<' rest missed)
  | inr (o, opened) ↦ elim (Option-cases (index_byte b'>' (drop (suc o) rest))) [
    | inl missed ↦ scan-unclosed rest o opened (index_byte-none b'>' (drop (suc o) rest) missed)
    | inr (e, closed) ↦ ground arith
  ]
]

next_placeholder-some :
    (rest before name after : Bytes)
    → next_placeholder rest ≡ some (before, name, after)
    → Found rest before name after
unfolding next_placeholder
next_placeholder-some rest before name after h = elim (Option-cases (index_byte b'<' rest)) [
  | inl missed ↦ ground arith
  | inr (o, opened) ↦ elim (Option-cases (index_byte b'>' (drop (suc o) rest))) [
    | inl missed ↦ ground arith
    | inr (e, closed) ↦ elim (Option-cases (last_index_byte b'<' (take e (drop (suc o) rest)))) [
      | inl inner ↦ ground (arith, Found-enclosed rest o opened e closed inner)
      | inr (j, inner) ↦ ground (arith, Found-nearest rest o opened e j closed inner)
    ]
  ]
]

bind_append :
    (m : Result Bytes) (a b v : Bytes)
    → (m >>= λ r. ok (((a ++ b) ++ v) ++ r)) ≡ ((m >>= λ r. ok (b ++ v ++ r)) >>= λ r. ok (a ++ r))
bind_append (ok r) a b v = ap ok (simp append_assoc)
bind_append (err e) a b v = refl

bind_nil : (m : Result Bytes) → (m >>= λ r. ok ([] ++ r)) ≡ m
bind_nil (ok r) = refl
bind_nil (err e) = refl

substitute_from_lem :
    (values : Fields) (bound : ℕ) (rest written : Bytes)
    → length rest ≤ bound
    → substitute_from values bound rest written
      ≡ (render values (scan none rest) >>= λ r. ok (written ++ r))
unfolding substitute_from
substitute_from_lem values zero [] written h =
    unfold scan render in ap ok (sym (append-nil written))
substitute_from_lem values zero (c ∷ s) written h = absurd (omega arith)
substitute_from_lem values (suc bound) rest written h =
    elim (Option-cases (next_placeholder rest)) [
      | inl ends ↦
          rw (ends, substitute_from, next_placeholder-none rest ends, render-literal values rest)
      | inr ((before, name, after), found) ↦
          let f = next_placeholder-some rest before name after found in
          rw (found, substitute_from, f.reads, render-hole values before name (scan none after))
            (elim (Result-cases (substituted values name)) [
              | inl (v, e) ↦ rw e (
                  substitute_from_lem values bound after ((written ++ before) ++ v) (omega arith)
                  ∙ bind_append (render values (scan none after)) written before v)
              | inr (e, refused) ↦ rw refused
            ])
    ]

-- The substitution is the reference reading of the template rendered: its literal bytes, and each
-- placeholder by its value.
pub substitute_resource_lem :
    (template : Bytes) (values : Fields)
    → substitute_resource template values ≡ render values (scan none template)
unfolding substitute_resource
substitute_resource_lem template values =
    substitute_from_lem values (length template) template [] (omega arith)
    ∙ bind_nil (render values (scan none template))
