-- ===== src/Endpoint/Http/Laws.antt =====
-- What is read of a body, and what a failed request is told as.
use protobuf_interceptors.Base.{
  ℕ, zero, suc, ◌<◌, ◌≡◌, refl, ap, Bool, true, false, Option, none, some, [], ◌∷◌, arith, ltb,
  if◌then◌else◌, length, take,
}
use protobuf_interceptors.Text.Bytes.{Bytes}
use protobuf_interceptors.Core.Errors.{
  Error, Sentinel, is_sentinel, backend_unavailable, same_sentinel,
}
use protobuf_interceptors.Endpoint.Http.{max_int64, read_bounded, request_error}

length-take-suc : (n : ℕ) (xs : Bytes) → ltb n (length (take (suc n) xs)) ≡ ltb n (length xs)
length-take-suc zero [] = refl
length-take-suc zero (x ∷ xs) = ground arith
length-take-suc (suc n) [] = refl
length-take-suc (suc n) (x ∷ xs) = ground (arith, length-take-suc n xs)

take-take-suc : (n : ℕ) (xs : Bytes) → take n (take (suc n) xs) ≡ take n xs
take-take-suc zero xs = refl
take-take-suc (suc n) [] = refl
take-take-suc (suc n) (x ∷ xs) = ap (◌∷◌ x) (take-take-suc n xs)

take_short : (n : ℕ) (xs : Bytes) → ltb n (length xs) ≡ false → take (suc n) xs ≡ xs
take_short zero [] h = refl
take_short zero (x ∷ xs) h = ground arith
take_short (suc n) [] h = refl
take_short (suc n) (x ∷ xs) h = ap (◌∷◌ x) (take_short n xs (ground arith))

-- Under a bound below the largest int64 a body is reported as oversized exactly when it is longer
-- than the bound, and is then cut there; any other body is read whole.
pub read_bounded_lem :
    (body : Bytes) (max : ℕ)
    → max < max_int64
    → read_bounded body max
      ≡ (if ltb max (length body) then (take max body, true) else (body, false))
unfolding read_bounded
read_bounded_lem body max h =
    ground (arith, length-take-suc max body, take-take-suc max body, take_short max body)

-- What a failed request wraps: where the caller's context has ended, that context's error and
-- nothing else; otherwise no context error, whatever the failure was, and an unavailable backend
-- exactly when the failure is transient.
pub request_error-is_sentinel :
    (ctx_err : Option Error) (is_transient : Bool) (what : Bytes) (e : Error) (t : Sentinel)
    → is_sentinel t (request_error ctx_err is_transient what e) ≡ (elim ctx_err [
      | some ended ↦ is_sentinel t ended
      | none ↦ if is_transient then same_sentinel t backend_unavailable else false
    ])
unfolding request_error is_sentinel
request_error-is_sentinel (some ended) b what e t = refl
request_error-is_sentinel none true what e t = refl
request_error-is_sentinel none false what e t = refl
