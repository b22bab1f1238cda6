-- ===== src/Text/Bytes/Join.antt =====
-- strings.Split and strings.Join, one after the other.
use protobuf_interceptors.Base.{
  ℕ, ◌≡◌, ◌≢◌, refl, ap, List, [], ◌∷◌, ◌++◌, arith, ◌==◌, ◌∙◌, sym, inl, inr, Bool-cases,
  List-cases, ==_iff,
}
use mathlib.Core.List.{append_assoc}
use protobuf_interceptors.Text.Bytes.{Bytes, split, join}

pub split-ne-nil : (c : ℕ) (s : Bytes) → split c s ≢ []
unfolding split
split-ne-nil c [] = ground arith
split-ne-nil c (x ∷ xs) = ground arith

-- Joining with one more part.
pub join-cons :
    (c : ℕ) (s t : Bytes) (ts : List Bytes) → join c (s ∷ t ∷ ts) ≡ s ++ c ∷ join c (t ∷ ts)
unfolding join
join-cons c s t ts = refl

join-push :
    (c x : ℕ) (part : Bytes) (parts : List Bytes)
    → join c ((x ∷ part) ∷ parts) ≡ x ∷ join c (part ∷ parts)
unfolding join
join-push c x part [] = refl
join-push c x part (t ∷ ts) = refl

split-here :
    (c : ℕ) (xs part : Bytes) (parts : List Bytes)
    → split c xs ≡ part ∷ parts
    → split c (c ∷ xs) ≡ [] ∷ part ∷ parts
unfolding split
split-here c xs part parts e = ground arith

split-other :
    (c x : ℕ) (xs part : Bytes) (parts : List Bytes)
    → x ≢ c
    → split c xs ≡ part ∷ parts
    → split c (x ∷ xs) ≡ (x ∷ part) ∷ parts
unfolding split
split-other c x xs part parts h e = ground arith

pub join-split : (c : ℕ) (s : Bytes) → join c (split c s) ≡ s
join-split c [] = unfold join split in refl
join-split c (x ∷ xs) = elim (List-cases (split c xs)) [
  | inl nothing ↦ absurd (split-ne-nil c xs nothing)
  | inr (part, parts, e) ↦
      let ih : join c (part ∷ parts) ≡ xs = ap (join c) (sym e) ∙ join-split c xs in
      elim (Bool-cases (x == c)) [
        | inl here ↦
            let same : x ≡ c = (==_iff x c).0 here in
            rw (same, split-here c xs part parts e, join-cons c [] part parts, ih)
        | inr other ↦
            rw (split-other c x xs part parts (ground arith) e, join-push c x part parts, ih)
      ]
]

pub join-append :
    (c : ℕ) (xs : List Bytes) (x y : Bytes) (ys : List Bytes)
    → join c (xs ++ x ∷ y ∷ ys) ≡ join c (xs ++ x ∷ []) ++ c ∷ join c (y ∷ ys)
unfolding join
join-append c [] x y ys = refl
join-append c (z ∷ []) x y ys =
    rw (join-cons c z x (y ∷ ys), join-append c [] x y ys, join-cons c z x [])
      (sym (append_assoc z (c ∷ x) (c ∷ join c (y ∷ ys))))
join-append c (z ∷ z' ∷ xs) x y ys =
    rw
      (
        join-cons c z z' (xs ++ x ∷ y ∷ ys),
        join-append c (z' ∷ xs) x y ys,
        join-cons c z z' (xs ++ x ∷ []),
      )
      (sym (append_assoc z (c ∷ join c (z' ∷ xs ++ x ∷ [])) (c ∷ join c (y ∷ ys))))
